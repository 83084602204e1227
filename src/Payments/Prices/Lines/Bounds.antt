-- ===== src/Payments/Prices/Lines/Bounds.antt =====
-- How far the discounts and the taxes of the lines go.
use native.Mathlib.Nat.{mul-le-mul_left, le_trans}
use masterfadebackend.Prelude.{
  ℕ, ◌+◌, ◌-◌, ◌≤◌, min, ◌≡◌, inl, inr, List, [], ◌∷◌, map, Option, none, some, Bool, true, false,
  arith, ◌==◌, sum_by, All, Bool-cases, if◌then◌else◌,
}
use masterfadebackend.Security.Sessions.{coalesce}
use masterfadebackend.Promotions.Discount.Bounds.{IsAtMost, to_fixed-le}
use masterfadebackend.Payments.Prices.{distribute_from, distribute}
use masterfadebackend.Payments.Prices.Lines.{
  StoredLine, PaymentLine, normalize_percentage, isv_fraction, line_isv, line_total, tax_line,
  subtotal_of, open_line, lines_with, build_payment_rows,
}

-- Each of the first is at most the one at its place.
Within : List ℕ → List ℕ → Type 0
Within [] cs = Unit
Within (d ∷ ds) [] = ⊥
Within (d ∷ ds) (c ∷ cs) = (d ≤ c) × Within ds cs

distribute_from-Within :
    (rq av : ℕ) (cs : List ℕ) (remaining : ℕ) → Within (distribute_from rq av cs remaining) cs
unfolding distribute_from Within
distribute_from-Within rq av [] remaining = tt
distribute_from-Within rq av (c ∷ []) remaining = (omega arith, tt)
distribute_from-Within rq av (c ∷ d ∷ cs) remaining =
    (omega arith, distribute_from-Within rq av (d ∷ cs) _)

distribute_from-le :
    (rq av : ℕ) (cs : List ℕ) (remaining : ℕ)
    → sum_by (λ c. c) (distribute_from rq av cs remaining) ≤ remaining
unfolding distribute_from
distribute_from-le rq av [] remaining = omega arith
distribute_from-le rq av (c ∷ []) remaining = omega arith
distribute_from-le rq av (c ∷ d ∷ cs) remaining = omega (arith, distribute_from-le rq av (d ∷ cs) _)

isv-IsAtMost :
    (base p : ℕ) (included : Bool) → p ≤ 10000 → IsAtMost base (isv_fraction included base p)
isv-IsAtMost base p true h = (mul-le-mul_left base (omega (arith, h)), omega arith)
isv-IsAtMost base p false h = (mul-le-mul_left base h, omega arith)

line_isv-le : (base p : ℕ) (included : Bool) → p ≤ 10000 → line_isv base p included ≤ base
unfolding line_isv
line_isv-le base p included h = elim (Bool-cases (p == 0)) [
  | inl free ↦ rw free (omega arith)
  | inr taxed ↦ rw taxed (to_fixed-le base _ (isv-IsAtMost base p included h))
]

-- The discount fits the line, the tax what is left, and the charge is what is left, with the tax where
-- that is not in it.
pub record IsCharge (x : PaymentLine) : Type 0 where
  pub discount : x.descuento ≤ x.subtotal
  pub tax : x.isv + x.descuento ≤ x.subtotal
  pub total : x.total_linea + x.descuento ≡ x.subtotal + (if x.incluye_isv then 0 else x.isv)

coalesce-ge : (o : Option ℕ) (n : ℕ) → coalesce o 0 ≤ coalesce o n
coalesce-ge none n = omega arith
coalesce-ge (some m) n = omega arith

subtotal_of-ge : (r : StoredLine) → coalesce r.subtotal 0 ≤ subtotal_of r
subtotal_of-ge r = coalesce-ge r.subtotal _

line-IsCharge :
    (r : StoredLine) (d : ℕ) → d ≤ coalesce r.subtotal 0 → IsCharge (tax_line (open_line r d))
unfolding tax_line line_total
line-IsCharge r d h =
    let fits : d ≤ subtotal_of r = le_trans h (subtotal_of-ge r) in
    let base = subtotal_of r - d in
    let tax =
      line_isv-le base (normalize_percentage r.isv_porcentaje) r.incluye_isv (omega arith) in
    record { discount = fits; tax = omega (arith, tax, fits); total = omega (arith, fits) }

pub record AreCharges (discount : ℕ) (xs : List PaymentLine) : Type 0 where
  pub lines : All IsCharge xs
  pub sum : sum_by (λ x. x.descuento) xs ≤ discount

cons-AreCharges :
    (r : StoredLine) (d n : ℕ) (xs : List PaymentLine)
    → d ≤ coalesce r.subtotal 0
    → AreCharges n xs
    → AreCharges (d + n) (tax_line (open_line r d) ∷ xs)
unfolding tax_line
cons-AreCharges r d n xs h rest = record {
  lines = (line-IsCharge r d h, rest.lines);
  sum = omega (arith, rest.sum);
}

lines_with-AreCharges :
    (rows : List StoredLine) (ds : List ℕ)
    → Within ds (map (λ r. coalesce r.subtotal 0) rows)
    → AreCharges (sum_by (λ c. c) ds) (lines_with rows ds)
unfolding lines_with Within
lines_with-AreCharges [] ds w = record { lines = tt; sum = omega arith }
lines_with-AreCharges (r ∷ rs) [] w = record { lines = tt; sum = omega arith }
lines_with-AreCharges (r ∷ rs) (d ∷ ds) w =
    cons-AreCharges r d (sum_by (λ c. c) ds) (lines_with rs ds) w.0
      (lines_with-AreCharges rs ds w.1)

-- Where there is a discount for all rows, the discounts of the lines do not exceed it together. Each of
-- them fits its line, also with the tax of the line added; and what is charged for a line is its subtotal
-- less its discount, plus the tax where the price does not include it.
pub build_payment_rows-AreCharges :
    (rows : List StoredLine) (total : ℕ) → AreCharges total (build_payment_rows rows (some total))
unfolding build_payment_rows distribute
build_payment_rows-AreCharges rows total =
    let cs = map (λ r. coalesce r.subtotal 0) rows in
    let available = sum_by (λ c. c) cs in
    let requested = min total available in
    let ds = distribute_from requested available cs requested in
    let charges =
      lines_with-AreCharges rows ds (distribute_from-Within requested available cs requested) in
    record {
      lines = charges.lines;
      sum = omega (arith, charges.sum, distribute_from-le requested available cs requested);
    }
