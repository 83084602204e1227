-- ===== src/Payments/Prices/Lines.antt =====
-- The lines that are charged: `distributeDiscountBySubtotal`, `calculateLineIsv`, `calculateLineTotal`,
-- `buildPaymentDetailRows` and the prices of `buildPixelPayOrderItems` of routes/v1/public/pagos.js. A
-- percentage is in hundredths of a percent.
pub mod Bounds
use masterfadebackend.Prelude.{
  ℕ, ◌+◌, ◌-◌, ◌*◌, min, max, List, [], ◌∷◌, map, Option, none, some, Bool, true, false, ◌==◌,
  if◌then◌else◌,
}
use masterfadebackend.Security.Sessions.{coalesce}
use masterfadebackend.Promotions.Discount.{Fraction, to_fixed}
use masterfadebackend.Payments.Prices.{distribute}
use masterfadebackend.Payments.Sale.{Item}

-- A line of an appointment as it is stored; `none` where the subtotal is missing.
pub record StoredLine : Type 0 where
  pub named : Bool
  pub cantidad : ℕ
  pub precio_unitario : ℕ
  pub subtotal : Option ℕ
  pub descuento : ℕ
  pub incluye_isv : Bool
  pub isv_porcentaje : ℕ

pub record PaymentLine : Type 0 where
  pub named : Bool
  pub cantidad : ℕ
  pub subtotal : ℕ
  pub descuento : ℕ
  pub incluye_isv : Bool
  pub isv_porcentaje : ℕ
  pub isv : ℕ
  pub total_linea : ℕ

abbrev pub normalize_percentage : ℕ → ℕ
normalize_percentage p = min p 10000

-- The tax within the amount, or on top of it.
abbrev pub isv_fraction : (included : Bool) → (base percentage : ℕ) → Fraction
isv_fraction true base p = record { num = base * p; den = 10000 + p }
isv_fraction false base p = record { num = base * p; den = 10000 }

unfoldable pub line_isv : (base percentage : ℕ) → (included : Bool) → ℕ
line_isv base p included = if p == 0 then 0 else to_fixed (isv_fraction included base p)

unfoldable pub line_total : (base isv : ℕ) → (included : Bool) → ℕ
line_total base isv included = base + (if included then 0 else isv)

-- The second loop of `buildPaymentDetailRows` on one row.
unfoldable pub tax_line : PaymentLine → PaymentLine
unfolding line_isv line_total
tax_line x =
    let base = x.subtotal - x.descuento in
    let isv = line_isv base x.isv_porcentaje x.incluye_isv in
    record x { isv = isv; total_linea = line_total base isv x.incluye_isv }

abbrev pub quantity_of : StoredLine → ℕ
quantity_of r = max 1 r.cantidad

abbrev pub subtotal_of : StoredLine → ℕ
subtotal_of r = coalesce r.subtotal (r.precio_unitario * quantity_of r)

-- The first loop on one row, with its discount.
abbrev pub open_line : StoredLine → (discount : ℕ) → PaymentLine
open_line r discount = record {
  named = r.named;
  cantidad = quantity_of r;
  subtotal = subtotal_of r;
  descuento = discount;
  incluye_isv = r.incluye_isv;
  isv_porcentaje = normalize_percentage r.isv_porcentaje;
  isv = 0;
  total_linea = subtotal_of r;
}

-- The rows, each with the discount that stands at its place.
unfoldable pub lines_with : List StoredLine → List ℕ → List PaymentLine
unfolding tax_line
lines_with [] ds = []
lines_with (r ∷ rs) [] = []
lines_with (r ∷ rs) (d ∷ ds) = tax_line (open_line r d) ∷ lines_with rs ds

-- `overrideDiscounts`, where there is a discount for all rows.
abbrev pub discounts_of : List StoredLine → Option ℕ → List ℕ
discounts_of rows none = map (λ r. r.descuento) rows
discounts_of rows (some total) = distribute (map (λ r. coalesce r.subtotal 0) rows) total

-- `buildPaymentDetailRows`.
unfoldable pub build_payment_rows : List StoredLine → Option ℕ → List PaymentLine
unfolding lines_with distribute
build_payment_rows rows total = lines_with rows (discounts_of rows total)

-- `buildPixelPayOrderItems`.
unfoldable pub build_order_items : List PaymentLine → List Item
build_order_items xs = map (λ x. record { named = x.named; price = x.total_linea; qty = 1 }) xs
