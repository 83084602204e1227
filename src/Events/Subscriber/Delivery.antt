-- ===== src/Events/Subscriber/Delivery.antt =====
-- What a subscriber's socket is given.
use masterfadebackend.Prelude.{
  ℕ, ◌<◌, ◌≡◌, refl, ap, ◌∙◌, inl, inr, List, [], ◌∷◌, ◌++◌, map, Option, some, Bool, true, false,
  ◌&&◌, not, arith, ◌==◌, length, if◌then◌else◌, Bool-cases,
}
use masterfadebackend.Events.Subscriber.{
  Row, Frame, change, Subscriber, is_stale, flush_queue, flush, push, enqueue_frame, item_of,
  deliver, on_drain, deliver_each,
}

-- The rows of the branch, each with an id above those before it and above `last`.
abbrev pub fresh : ℕ → Option ℕ → List Row → List Row
fresh branch last [] = []
fresh branch last (r ∷ rs) =
    if (r.id_sucursal == branch) && not (is_stale (some r.id_evento) last)
    then r ∷ fresh branch (some r.id_evento) rs
    else fresh branch last rs

-- The subscriber that is open with nothing in its queue.
abbrev pub idle : ℕ → Option ℕ → List Frame → Subscriber
idle branch last written = record {
  id_sucursal = branch;
  last_sent_id = last;
  queue = [];
  draining = false;
  closed = false;
  written = written;
}

module _ (accepts : ℕ → Bool) (buffer_max : ℕ) (ready : (n : ℕ) → accepts n ≡ true)
    (room : 0 < buffer_max) where
  pub deliver-idle :
      (branch : ℕ) (last : Option ℕ) (written : List Frame) (r : Row)
      → deliver accepts buffer_max r (idle branch last written) ≡ (
          if (r.id_sucursal == branch) && not (is_stale (some r.id_evento) last)
          then idle branch (some r.id_evento) (written ++ (change r ∷ []))
          else idle branch last written)
  unfolding deliver enqueue_frame push flush flush_queue item_of
  deliver-idle branch last written r = ground (arith, ready (length written))

  append_assoc : (xs ys zs : List Frame) → (xs ++ ys) ++ zs ≡ xs ++ (ys ++ zs)
  append_assoc [] ys zs = refl
  append_assoc (x ∷ xs) ys zs = ap (◌∷◌ x) (append_assoc xs ys zs)

  append_nil : (xs : List Frame) → xs ≡ xs ++ []
  append_nil [] = refl
  append_nil (x ∷ xs) = ap (◌∷◌ x) (append_nil xs)

  deliver_each-written :
      (branch : ℕ) (last : Option ℕ) (written : List Frame) (rs : List Row)
      → (deliver_each accepts buffer_max rs (idle branch last written)).written
        ≡ written ++ map change (fresh branch last rs)
  unfolding deliver_each
  deliver_each-written branch last written [] = append_nil written
  deliver_each-written branch last written (r ∷ rs) =
      ap (λ s. (deliver_each accepts buffer_max rs s).written) (deliver-idle branch last written r)
      ∙ elim (Bool-cases ((r.id_sucursal == branch) && not (is_stale (some r.id_evento) last))) [
        | inl new ↦ rw new (
            deliver_each-written branch (some r.id_evento) (written ++ (change r ∷ [])) rs
            ∙ append_assoc written (change r ∷ [])
                (map change (fresh branch (some r.id_evento) rs)))
        | inr old ↦ rw old (deliver_each-written branch last written rs)
      ]

-- Each row is of the branch, and its id is above the one before it.
abbrev pub IsRising : ℕ → Option ℕ → List Row → Type 0
IsRising branch last [] = Unit
IsRising branch last (r ∷ rs) =
    (r.id_sucursal ≡ branch)
    × (is_stale (some r.id_evento) last ≡ false)
    × IsRising branch (some r.id_evento) rs

fresh-IsRising :
    (branch : ℕ) (last : Option ℕ) (rs : List Row) → IsRising branch last (fresh branch last rs)
fresh-IsRising branch last [] = tt
fresh-IsRising branch last (r ∷ rs) =
    elim (Bool-cases ((r.id_sucursal == branch) && not (is_stale (some r.id_evento) last))) [
      | inl new ↦ rw new (ground arith, ground arith, fresh-IsRising branch (some r.id_evento) rs)
      | inr old ↦ rw old (fresh-IsRising branch last rs)
    ]

-- Where the socket answers every frame with true and the buffer holds a frame at least, an open
-- subscriber with an empty queue passes on at once the rows of its branch whose ids are above all
-- before them, in their order and each once, and the ids rise.
pub deliver_each-fresh :
    (accepts : ℕ → Bool) (buffer_max : ℕ)
    → ((n : ℕ) → accepts n ≡ true)
    → 0 < buffer_max
    → (branch : ℕ) (last : Option ℕ) (written : List Frame) (rs : List Row)
    → ((deliver_each accepts buffer_max rs (idle branch last written)).written
        ≡ written ++ map change (fresh branch last rs))
      × IsRising branch last (fresh branch last rs)
deliver_each-fresh accepts buffer_max ready room branch last written rs = (
  deliver_each-written accepts buffer_max ready room branch last written rs,
  fresh-IsRising branch last rs,
)

-- With room in the buffer, a row of its branch above the last sent id that an idle subscriber
-- passes to a socket answering false stays in the queue, and the next drain passes it to the
-- socket a second time.
pub on_drain-repeats :
    (accepts : ℕ → Bool) (buffer_max branch : ℕ) (last : Option ℕ) (written : List Frame) (r : Row)
    → 0 < buffer_max
    → r.id_sucursal ≡ branch
    → is_stale (some r.id_evento) last ≡ false
    → accepts (length written) ≡ false
    → (on_drain accepts buffer_max
        (deliver accepts buffer_max r (idle branch last written))).written
      ≡ (written ++ (change r ∷ [])) ++ (change r ∷ [])
unfolding on_drain deliver enqueue_frame push flush flush_queue item_of
on_drain-repeats accepts buffer_max branch last written r room same new full =
    let e : (r.id_sucursal == branch) ≡ true = ground arith in ground arith
