-- ===== src/Discounts/Plan/Totals.antt =====
-- What `buildDiscountPlan` keeps true of every line, and what it does with every allocation.
use text.Mathlib.Text.{◌==◌ as str_eq}
use masterfadebackend.Prelude.{
  ℕ, ◌+◌, ◌≤◌, ◌<◌, ◌≡◌, refl, ap, subst, ◌∙◌, inl, inr, List, [], ◌∷◌, map, true, arith, sum_by,
  sum_by-append, All, ltb, leb, Bool-cases, All-append,
}
use masterfadebackend.Discounts.Plan.{
  SourceAllocation, PlanLine, Planned, Result, ok, err, empty_entry, applied_of, add_applied,
  add_to, add_allocation, add_allocations, line_map, build_plan, is_supported, ◌>>=◌,
}

-- The total of an entry is the sum of its parts, and the line can bear it.
pub record IsSound (p : Planned) : Type 0 where
  pub total : p.entry.descuento_total ≡ sum_by (λ a. a.descuento) p.entry.allocations
  pub within : p.entry.descuento_total ≤ p.line.subtotal
  pub same_line : p.entry.line_key ≡ p.line.line_key
  pub positive :
      All (λ a. (0 < a.descuento) × (is_supported a.source_type ≡ true)) p.entry.allocations

abbrev pub totals : List Planned → ℕ
totals = sum_by (λ p. p.entry.descuento_total)

abbrev pub lines_of : List Planned → List PlanLine
lines_of = map (λ p. p.line)

-- A plan that grew by `gain` cents over the same lines, and stayed sound.
record Grows (gain : ℕ) (ps qs : List Planned) : Type 0 where
  grown : totals qs ≡ totals ps + gain
  lines : lines_of qs ≡ lines_of ps
  sound : All IsSound qs

abbrev Ensures {ℓ} : {A : Type ℓ} → (A → Type 0) → Result A → Type 0
Ensures P (ok a) = P a
Ensures P (err e) = Unit

append-IsSound :
    (p : Planned) (a : SourceAllocation)
    → IsSound p
    → is_supported a.source_type ≡ true
    → 0 < a.descuento
    → p.entry.descuento_total + a.descuento ≤ p.line.subtotal
    → IsSound (add_applied p a)
unfolding add_applied applied_of
append-IsSound p a h supported pos fits = record {
  total =
      omega
        (arith, h.total, sum_by-append (λ x. x.descuento) p.entry.allocations (applied_of a ∷ []));
  within = fits;
  same_line = h.same_line;
  positive = All-append _ p.entry.allocations (applied_of a ∷ []) h.positive ((pos, supported), tt);
}

record GrowsOne (gain : ℕ) (p q : Planned) : Type 0 where
  grown : q.entry.descuento_total ≡ p.entry.descuento_total + gain
  line : q.line ≡ p.line
  sound : IsSound q

add_to-GrowsOne :
    (p : Planned) (a : SourceAllocation) → IsSound p → Ensures (GrowsOne a.descuento p) (add_to p a)
unfolding add_to
add_to-GrowsOne p a h = elim (Bool-cases (is_supported a.source_type)) [
  | inr other ↦ rw other tt
  | inl supported ↦ elim (Bool-cases (leb a.descuento 0)) [
    | inl none_left ↦
        rw (supported, none_left) (record { grown = ground arith; line = refl; sound = h })
    | inr some_left ↦
        elim (Bool-cases (ltb p.line.subtotal (p.entry.descuento_total + a.descuento))) [
          | inl beyond ↦ rw (supported, some_left, beyond) tt
          | inr fits ↦
              rw (supported, some_left, fits)
                (record {
                  grown = unfold add_applied in refl;
                  line = unfold add_applied in refl;
                  sound = append-IsSound p a h supported (ground arith) (ground arith);
                })
        ]
  ]
]

one-Grows :
    (gain : ℕ) (p : Planned) (ps : List Planned)
    → All IsSound ps
    → (r : Result Planned) → Ensures (GrowsOne gain p) r
    → Ensures (Grows gain (p ∷ ps)) (r >>= λ q. ok (q ∷ ps))
one-Grows gain p ps a (ok q) g = record {
  grown = omega (arith, g.grown);
  lines = ap (λ l. l ∷ lines_of ps) g.line;
  sound = (g.sound, a);
}
one-Grows gain p ps a (err e) g = tt

rest-Grows :
    (gain : ℕ) (p : Planned) (ps : List Planned)
    → IsSound p
    → (r : Result (List Planned)) → Ensures (Grows gain ps) r
    → Ensures (Grows gain (p ∷ ps)) (r >>= λ qs. ok (p ∷ qs))
rest-Grows gain p ps h (ok qs) g = record {
  grown = omega (arith, g.grown);
  lines = ap (◌∷◌ p.line) g.lines;
  sound = (h, g.sound);
}
rest-Grows gain p ps h (err e) g = tt

add_allocation-Grows :
    (ps : List Planned) (a : SourceAllocation)
    → All IsSound ps
    → Ensures (Grows a.descuento ps) (add_allocation ps a)
unfolding add_allocation
add_allocation-Grows [] a h = tt
add_allocation-Grows (p ∷ ps) a h = elim (Bool-cases (str_eq p.line.line_key a.line_key)) [
  | inl same ↦ rw same (one-Grows a.descuento p ps h.1 (add_to p a) (add_to-GrowsOne p a h.0))
  | inr other ↦
      rw other
        (rest-Grows a.descuento p ps h.0 (add_allocation ps a) (add_allocation-Grows ps a h.1))
]

abbrev pub discounts : List SourceAllocation → ℕ
discounts = sum_by (λ a. a.descuento)

Grows-then :
    (first later : ℕ) (ps qs : List Planned)
    → Grows first ps qs
    → (r : Result (List Planned)) → Ensures (Grows later qs) r
    → Ensures (Grows (first + later) ps) r
Grows-then first later ps qs g (ok rs) k = record {
  grown = omega (arith, g.grown, k.grown);
  lines = k.lines ∙ g.lines;
  sound = k.sound;
}
Grows-then first later ps qs g (err e) k = tt

and_then-Grows :
    (first later : ℕ) (ps : List Planned) (f : List Planned → Result (List Planned))
    → ((qs : List Planned) → All IsSound qs → Ensures (Grows later qs) (f qs))
    → (r : Result (List Planned)) → Ensures (Grows first ps) r
    → Ensures (Grows (first + later) ps) (r >>= f)
and_then-Grows first later ps f h (ok qs) g = Grows-then first later ps qs g (f qs) (h qs g.sound)
and_then-Grows first later ps f h (err e) g = tt

add_allocations-Grows :
    (more : List SourceAllocation) (ps : List Planned)
    → All IsSound ps
    → Ensures (Grows (discounts more) ps) (add_allocations ps more)
unfolding add_allocations
add_allocations-Grows [] ps h = record { grown = omega arith; lines = refl; sound = h }
add_allocations-Grows (a ∷ more) ps h =
    and_then-Grows a.descuento (discounts more) ps (λ qs. add_allocations qs more)
      (add_allocations-Grows more) (add_allocation ps a) (add_allocation-Grows ps a h)

empty-IsSound : (ls : List PlanLine) → All IsSound (map empty_entry ls)
unfolding empty_entry
empty-IsSound [] = tt
empty-IsSound (l ∷ ls) = (
  record { total = refl; within = omega arith; same_line = refl; positive = tt },
  empty-IsSound ls,
)

totals-empty : (ls : List PlanLine) → totals (map empty_entry ls) ≡ 0
unfolding empty_entry
totals-empty [] = refl
totals-empty (l ∷ ls) = omega (arith, totals-empty ls)

lines_of-empty : (ls : List PlanLine) → lines_of (map empty_entry ls) ≡ ls
unfolding empty_entry
lines_of-empty [] = refl
lines_of-empty (l ∷ ls) = ap (◌∷◌ l) (lines_of-empty ls)

-- A plan that is built has an entry for each line of the map, in its order, spends in all what the
-- allocations ask for, and in each entry has a total that is the sum of its parts, each positive and
-- of a supported source, and that the line's subtotal can bear.
pub build_plan-IsSound :
    (lines : List PlanLine) (allocations : List SourceAllocation) {plan : List Planned}
    → build_plan lines allocations ≡ ok plan
    → (lines_of plan ≡ line_map lines) × (totals plan ≡ discounts allocations) × All IsSound plan
unfolding build_plan
build_plan-IsSound lines allocations h =
    let start = map empty_entry (line_map lines) in
    let g =
      subst (Ensures (Grows (discounts allocations) start)) h
        (add_allocations-Grows allocations start (empty-IsSound (line_map lines))) in
    (
      g.lines ∙ lines_of-empty (line_map lines),
      omega (arith, g.grown, totals-empty (line_map lines)),
      g.sound,
    )
