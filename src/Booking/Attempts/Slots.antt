-- ===== src/Booking/Attempts/Slots.antt =====
-- The test of an attempt for a barber that is taken twice at one time, and what it means.
use masterfadebackend.Prelude.{
  ℕ, ◌≡◌, refl, inl, inr, List, [], ◌∷◌, Option, none, some, Bool, true, false, ◌&&◌, ◌||◌, any,
  All, All-map, Bool-cases, eq→==, arith,
}
use masterfadebackend.Booking.Attempts.{Choice, same, is_same_slot, clash, clashes_with, clashes}

-- Both members have a barber and a start, and the same ones.
pub record Overlap (c d : Choice) : Type 0 where
  pub barber : ℕ
  pub start : ℕ
  pub barber_of : c.id_empleado_barbero ≡ some barber
  pub start_of : c.inicio_at ≡ some start
  pub same_barber : d.id_empleado_barbero ≡ some barber
  pub same_start : d.inicio_at ≡ some start

-- No two members take the same barber at the same time.
pub IsFree : List Choice → Type 0
IsFree [] = Unit
IsFree (c ∷ cs) = All (λ d. ¬ Overlap d c) cs × IsFree cs

same-some : (a : ℕ) (b : Option ℕ) → same (some a) b ≡ true → b ≡ some a
same-some a none e = cc
same-some a (some b) e = ground arith

both : (a b : Bool) → (a && b) ≡ true → (a ≡ true) × (b ≡ true)
both a b e = ground arith

slot-Overlap :
    (c d : Choice) (b t : Option ℕ)
    → c.id_empleado_barbero ≡ b
    → c.inicio_at ≡ t
    → is_same_slot b t d ≡ true
    → Overlap c d
slot-Overlap c d none t p q e = cc
slot-Overlap c d (some b) none p q e = cc
slot-Overlap c d (some b) (some t) p q e =
    let (x, y) = both (same (some b) d.id_empleado_barbero) (same (some t) d.inicio_at) e in
    record {
      barber = b;
      start = t;
      barber_of = p;
      start_of = q;
      same_barber = same-some b d.id_empleado_barbero x;
      same_start = same-some t d.inicio_at y;
    }

clash-Overlap : (c d : Choice) → clash c d ≡ true → Overlap c d
unfolding clash
clash-Overlap c d e = slot-Overlap c d c.id_empleado_barbero c.inicio_at refl refl e

Overlap-clash : (c d : Choice) → Overlap c d → clash c d ≡ true
unfolding clash
Overlap-clash c d o =
    rw
      (
        o.barber_of,
        o.start_of,
        o.same_barber,
        o.same_start,
        eq→== o.barber o.barber refl,
        eq→== o.start o.start refl,
      )
      refl

-- No member of the second list takes a slot of one of the first.
Beside : List Choice → List Choice → Type 0
Beside occupied cs = All (λ c. All (λ d. ¬ Overlap c d) occupied) cs

any-None : (c : Choice) (ds : List Choice) → any (clash c) ds ≡ false → All (λ d. ¬ Overlap c d) ds
any-None c [] e = tt
any-None c (d ∷ ds) e =
    (λ o. (let hit = Overlap-clash c d o in ground arith), any-None c ds (ground arith))

None-any : (c : Choice) (ds : List Choice) → All (λ d. ¬ Overlap c d) ds → any (clash c) ds ≡ false
None-any c [] none' = refl
None-any c (d ∷ ds) none' = elim (Bool-cases (clash c d)) [
  | inl hit ↦ absurd (none'.0 (clash-Overlap c d hit))
  | inr miss ↦ (let rest = None-any c ds none'.1 in ground arith)
]

or_false : (a b : Bool) → (a || b) ≡ false → (a ≡ false) × (b ≡ false)
or_false a b e = ground arith

zip : (P Q : Choice → Type 0) (cs : List Choice) → All P cs → All Q cs → All (λ c. P c × Q c) cs
zip P Q [] p q = tt
zip P Q (c ∷ cs) p q = ((p.0, q.0), zip P Q cs p.1 q.1)

apart-IsFree :
    (occupied cs : List Choice) → clashes_with occupied cs ≡ false → Beside occupied cs × IsFree cs
unfolding clashes_with Beside IsFree
apart-IsFree occupied [] e = (tt, tt)
apart-IsFree occupied (c ∷ cs) e =
    let (here, later) = or_false (any (clash c) occupied) (clashes_with (c ∷ occupied) cs) e in
    let (beside, free) = apart-IsFree (c ∷ occupied) cs later in
    (
      (
        any-None c occupied here,
        All-map (λ x. All (λ d. ¬ Overlap x d) (c ∷ occupied))
            (λ x. All (λ d. ¬ Overlap x d) occupied) (λ x p. p.1) cs beside,
      ),
      (
        All-map (λ x. All (λ d. ¬ Overlap x d) (c ∷ occupied)) (λ x. ¬ Overlap x c) (λ x p. p.0) cs
            beside,
        free,
      ),
    )

IsFree-apart :
    (occupied cs : List Choice) → Beside occupied cs → IsFree cs → clashes_with occupied cs ≡ false
unfolding clashes_with Beside IsFree
IsFree-apart occupied [] beside free = refl
IsFree-apart occupied (c ∷ cs) beside free = rw (None-any c occupied beside.0) (
    IsFree-apart (c ∷ occupied) cs
      (zip (λ x. ¬ Overlap x c) (λ x. All (λ d. ¬ Overlap x d) occupied) cs free.0 beside.1) free.1)

pub clashes-IsFree : (os : List Choice) → clashes os ≡ false → IsFree os
unfolding clashes
clashes-IsFree os e = (apart-IsFree [] os e).1

alone : (cs : List Choice) → Beside [] cs
unfolding Beside
alone [] = tt
alone (c ∷ cs) = (tt, alone cs)

pub IsFree-clashes : (os : List Choice) → IsFree os → clashes os ≡ false
unfolding clashes
IsFree-clashes os free = IsFree-apart [] os (alone os) free
