-- ===== src/Payments/Prices.antt =====
-- The discounts of the promotions that were stored with a reservation, laid on its lines again before the
-- payment: `distributeDiscountByRemainingCapacity` and `applyPersistedPromotionDiscounts` of
-- routes/v1/public/pagos.js.
pub mod Sums
pub mod Persisted
pub mod Lines
pub mod Examples
use masterfadebackend.Prelude.{
  ℕ, ◌+◌, ◌-◌, ◌*◌, ◌/◌, min, List, [], ◌∷◌, map, Option, none, some, Bool, true, false, ltb, ◌==◌,
  sum_by, if◌then◌else◌,
}

-- A line of the details of an appointment.
pub record DetailRow : Type 0 where
  pub id_cita_detalle : ℕ
  pub subtotal : ℕ
  pub descuento : ℕ

-- A stored promotion, of one line or of all.
pub record PromotionRow : Type 0 where
  pub id_cita_detalle : Option ℕ
  pub descuento_calculado : ℕ

pub record PricedRow : Type 0 where
  pub row : DetailRow
  pub descuento_no_promocional : ℕ
  pub descuento : ℕ

-- The part of the discount for one capacity of those that are `available`, rounded to cents.
share : (requested available capacity : ℕ) → ℕ
share requested available capacity =
    if ltb 0 available then (2 * requested * capacity + available) / (2 * available) else 0

unfoldable pub distribute_from : (requested available : ℕ) → List ℕ → (remaining : ℕ) → List ℕ
unfolding share
distribute_from requested available [] remaining = []
distribute_from requested available (c ∷ []) remaining = min remaining c ∷ []
distribute_from requested available (c ∷ d ∷ cs) remaining =
    let safe = min (min (share requested available c) remaining) c in
    safe ∷ distribute_from requested available (d ∷ cs) (remaining - safe)

-- `distributeDiscountByRemainingCapacity` over the capacities of the rows.
unfoldable pub distribute : List ℕ → (discount : ℕ) → List ℕ
unfolding distribute_from
distribute capacities discount =
    let available = sum_by (λ c. c) capacities in
    let requested = min discount available in
    distribute_from requested available capacities requested

-- `persistedPromoByDetail`: the promotions of each line so far.
abbrev pub Promos : Type 0
Promos = ℕ → ℕ

abbrev pub add : Promos → (id cents : ℕ) → Promos
add promos id cents = λ k. if k == id then promos k + cents else promos k

unfoldable pub add_each : List DetailRow → List ℕ → Promos → Promos
add_each [] xs promos = promos
add_each (r ∷ rs) [] promos = promos
add_each (r ∷ rs) (x ∷ xs) promos = add_each rs xs (add promos r.id_cita_detalle x)

-- `byDetailId.get`: the last row of that identifier.
abbrev or_else : DetailRow → Option DetailRow → Option DetailRow
or_else r none = some r
or_else r (some s) = some s

unfoldable pub find_detail : ℕ → List DetailRow → Option DetailRow
find_detail id [] = none
find_detail id (r ∷ rs) =
    let later = find_detail id rs in if r.id_cita_detalle == id then or_else r later else later

abbrev pub put_on_line : Promos → PromotionRow → ℕ → Option DetailRow → Option Promos
put_on_line promos p id none = none
put_on_line promos p id (some r) =
    if ltb r.subtotal p.descuento_calculado
    then none
    else some (add promos id p.descuento_calculado)

abbrev pub capacities : List DetailRow → Promos → List ℕ
capacities rows promos = map (λ r. r.subtotal - promos r.id_cita_detalle) rows

-- With `assertCompleteAllocation`.
abbrev pub put_on_all : List DetailRow → Promos → PromotionRow → Option Promos
put_on_all rows promos p =
    let shares = distribute (capacities rows promos) p.descuento_calculado in
    if sum_by (λ c. c) shares == p.descuento_calculado
    then some (add_each rows shares promos)
    else none

abbrev pub put : List DetailRow → Promos → PromotionRow → Option ℕ → Option Promos
put rows promos p none = put_on_all rows promos p
put rows promos p (some id) = put_on_line promos p id (find_detail id rows)

-- One promotion; `none` where it throws.
unfoldable pub put_promotion : List DetailRow → Promos → PromotionRow → Option Promos
unfolding find_detail distribute add_each
put_promotion rows promos p =
    if p.descuento_calculado == 0 then some promos else put rows promos p p.id_cita_detalle

unfoldable pub put_promotions : List DetailRow → Promos → List PromotionRow → Option Promos
unfolding put_promotion
put_promotions rows promos [] = some promos
put_promotions rows promos (p ∷ ps) = elim (put_promotion rows promos p) [
  | none ↦ none
  | some next ↦ put_promotions rows next ps
]

abbrev pub cons_priced : PricedRow → Option (List PricedRow) → Option (List PricedRow)
cons_priced r none = none
cons_priced r (some rs) = some (r ∷ rs)

-- The discount of each line with its promotions.
unfoldable pub priced_rows : List DetailRow → Promos → Option (List PricedRow)
priced_rows [] promos = some []
priced_rows (r ∷ rs) promos =
    let rest = priced_rows rs promos in
    let others = r.descuento - promos r.id_cita_detalle in
    let final = others + promos r.id_cita_detalle in
    if ltb r.subtotal final
    then none
    else cons_priced (record { row = r; descuento_no_promocional = others; descuento = final }) rest

abbrev pub priced_with : List DetailRow → Option Promos → Option (List PricedRow)
priced_with rows none = none
priced_with rows (some promos) = priced_rows rows promos

-- `applyPersistedPromotionDiscounts`; `none` where it throws.
unfoldable pub apply_persisted : List DetailRow → List PromotionRow → Option (List PricedRow)
unfolding put_promotions priced_rows
apply_persisted rows ps = priced_with rows (put_promotions rows (λ k. 0) ps)
