-- ===== src/Discounts/Allocation/Share.antt =====
-- The proportional shares: each is at most its line's capacity and together they are at most the
-- amount requested.
use native.Mathlib.Nat.{le_of_mul-le-mul_right, mul-le-mul_right, le_trans}
use masterfadebackend.Prelude.{
  ℕ, ◌+◌, ◌*◌, ◌/◌, min, ◌≤◌, ◌<◌, ◌≡◌, refl, List, [], ◌∷◌, inl, inr, arith, sum_by, All, All-map,
  Some,
}
use masterfadebackend.Discounts.Allocation.{Line, Row, share, shares}

abbrev pub capacities : List Line → ℕ
capacities = sum_by (λ l. l.base_disponible)

abbrev pub cents_of : List Row → ℕ
cents_of = sum_by (λ r. r.cents)

abbrev pub capacities_of : List Row → ℕ
capacities_of = sum_by (λ r. r.capacity)

-- The row stands for a line of the list, and has no more cents than the line takes.
abbrev pub IsFor : Row → Line → Type 0
IsFor r l = (r.line_key ≡ l.line_key) × (r.capacity ≡ l.base_disponible)

pub record IsShare (lines : List Line) (r : Row) : Type 0 where
  pub line : Some (IsFor r) lines
  pub within : r.cents ≤ r.capacity

IsShare-cons : (l : Line) (ls : List Line) (r : Row) → IsShare ls r → IsShare (l ∷ ls) r
IsShare-cons l ls r h = record { line = inr h.line; within = h.within }

share-IsShare :
    (requested total floor position : ℕ) (l : Line) (ls : List Line)
    → IsShare (l ∷ ls) (share requested total floor position l)
unfolding share
share-IsShare requested total floor position l ls = record {
  line = inl (refl, refl);
  within = omega arith;
}

pub shares-IsShare :
    (requested total position : ℕ) (ls : List Line)
    → All (IsShare ls) (shares requested total position ls)
unfolding shares
shares-IsShare requested total position [] = tt
shares-IsShare requested total position (l ∷ ls) = (
  share-IsShare requested total _ position l ls,
  All-map (IsShare ls) (IsShare (l ∷ ls)) (IsShare-cons l ls) _
      (shares-IsShare requested total (position + 1) ls),
)

pub shares-capacities :
    (requested total position : ℕ) (ls : List Line)
    → capacities_of (shares requested total position ls) ≡ capacities ls
unfolding shares share
shares-capacities requested total position [] = refl
shares-capacities requested total position (l ∷ ls) =
    omega (arith, shares-capacities requested total (position + 1) ls)

-- A quotient times its divisor is at most the dividend.
div-mul-le : (a b : ℕ) → a / b * b ≤ a
div-mul-le a b = grind arith

min-le : (a b : ℕ) → min a b ≤ b
min-le a b = omega arith

sums-mul-le : (a b t r c d : ℕ) → a * t ≤ r * c → b * t ≤ r * d → (a + b) * t ≤ r * (c + d)
sums-mul-le a b t r c d h k = omega arith

shares-mul-le :
    (requested total position : ℕ) (ls : List Line)
    → cents_of (shares requested total position ls) * total ≤ requested * capacities ls
unfolding shares share
shares-mul-le requested total position [] = omega arith
shares-mul-le requested total position (l ∷ ls) =
    sums-mul-le (min l.base_disponible (requested * l.base_disponible / total)) _ total requested
      l.base_disponible (capacities ls)
      (le_trans
        (mul-le-mul_right total (min-le l.base_disponible (requested * l.base_disponible / total)))
        (div-mul-le (requested * l.base_disponible) total))
      (shares-mul-le requested total (position + 1) ls)

pub shares-le :
    (requested position : ℕ) (ls : List Line)
    → 0 < capacities ls
    → cents_of (shares requested (capacities ls) position ls) ≤ requested
shares-le requested position ls h =
    le_of_mul-le-mul_right (shares-mul-le requested (capacities ls) position ls) h
