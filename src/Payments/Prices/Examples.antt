-- ===== src/Payments/Prices/Examples.antt =====
-- Stored promotions on two lines, and the lines with their taxes.
use masterfadebackend.Prelude.{ℕ, ◌≡◌, refl, List, [], ◌∷◌, map, none, some, true, false}
use masterfadebackend.Payments.Prices.{DetailRow, PromotionRow, PricedRow, apply_persisted}
use masterfadebackend.Payments.Prices.Sums.{AreDistinct}
use masterfadebackend.Payments.Prices.Persisted.{Repriced, apply_persisted-Repriced}
use masterfadebackend.Payments.Prices.Lines.{StoredLine, build_payment_rows}
use masterfadebackend.Payments.Prices.Lines.Bounds.{AreCharges, build_payment_rows-AreCharges}
use masterfadebackend.Promotions.Discount.{to_fixed}

abbrev line : ℕ → ℕ → ℕ → DetailRow
line id subtotal descuento = record {
  id_cita_detalle = id;
  subtotal = subtotal;
  descuento = descuento;
}

abbrev lines : List DetailRow
lines = line 1 20000 1000 ∷ line 2 10000 0 ∷ []

-- 20.00 for all lines and 5.00 for the second.
abbrev promotions : List PromotionRow
promotions =
    record { id_cita_detalle = none; descuento_calculado = 2000 }
    ∷ record { id_cita_detalle = some 2; descuento_calculado = 500 }
    ∷ []

abbrev priced_lines : List PricedRow
priced_lines =
    record { row = line 1 20000 1000; descuento_no_promocional = 0; descuento = 1333 }
    ∷ record { row = line 2 10000 0; descuento_no_promocional = 0; descuento = 1167 }
    ∷ []

lines_priced : apply_persisted lines promotions ≡ some priced_lines
unfolding apply_persisted
lines_priced = refl

apply_persisted-Repriced_example : Repriced lines 2500 priced_lines
unfolding AreDistinct
apply_persisted-Repriced_example =
    apply_persisted-Repriced lines promotions priced_lines ((refl, tt), (tt, tt)) lines_priced

-- 10.00 for three lines of 10.00 and a free one: the shares are rounded down, and the last line has no
-- room for the cent that is left.
cent_left :
    apply_persisted
      (line 1 1000 0 ∷ line 2 1000 0 ∷ line 3 1000 0 ∷ line 4 0 0 ∷ [])
      (record { id_cita_detalle = none; descuento_calculado = 1000 } ∷ [])
    ≡ none
unfolding apply_persisted
cent_left = refl

-- A line without the tax in its price, at 15 per cent, and one with it.
abbrev stored : List StoredLine
stored =
    record {
      named = true;
      cantidad = 1;
      precio_unitario = 20000;
      subtotal = some 20000;
      descuento = 0;
      incluye_isv = false;
      isv_porcentaje = 1500;
    }
    ∷ record {
      named = true;
      cantidad = 2;
      precio_unitario = 5000;
      subtotal = none;
      descuento = 0;
      incluye_isv = true;
      isv_porcentaje = 1500;
    }
    ∷ []

stored_totals :
    map (λ x. x.total_linea) (build_payment_rows stored (some 3000)) ≡ 19550 ∷ 10000 ∷ []
unfolding build_payment_rows to_fixed
stored_totals = refl

build_payment_rows-AreCharges_example : AreCharges 3000 (build_payment_rows stored (some 3000))
build_payment_rows-AreCharges_example = build_payment_rows-AreCharges stored 3000
