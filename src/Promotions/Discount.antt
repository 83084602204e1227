-- ===== src/Promotions/Discount.antt =====
-- The amount of a promotion: `getEligibleLines`, `getTargetItemStats` and `calculateDiscount` of
-- services/promociones/promocionesEngine.js. A quotient stays a fraction until `toFixed(2)`.
pub mod Bounds
use Prim.Native.String.{String}
use text.Mathlib.Text.{◌==◌ as str_eq}
use masterfadebackend.Prelude.{
  ℕ, zero, suc, ◌+◌, ◌*◌, ◌/◌, min, List, [], ◌∷◌, ◌++◌, Option, none, some, Bool, true, false,
  ◌&&◌, ◌||◌, not, ltb, leb, ◌==◌, if◌then◌else◌, filter, any, sum_by,
}
use masterfadebackend.Promotions.Types.{
  Target, reserva, titular, servicio, paquete, other_target, porcentaje, monto_fijo, bonificacion,
  other_type, DiscountType, DiscountLine, Item, Context, RuleItem, Candidate,
}

abbrev pub target_or_default : Option Target → Target
target_or_default none = reserva
target_or_default (some t) = t

abbrev pub member : String → List String → Bool
member k = any (str_eq k)

-- The ids that `map`, `trim` and `filter(Boolean)` leave of the rule's items.
abbrev add_id : Option String → List String → List String
add_id none ids = ids
add_id (some id) ids = if str_eq id "" then ids else id ∷ ids

pub service_ids : List RuleItem → List String
service_ids [] = []
service_ids (i ∷ is) = add_id i.id_servicio (service_ids is)

pub package_ids : List RuleItem → List String
package_ids [] = []
package_ids (i ∷ is) = add_id i.id_paquete (package_ids is)

lines_for : Target → List String → List DiscountLine → List DiscountLine
lines_for reserva ids lines = lines
lines_for titular ids lines = filter (λ l. l.orden_integrante == 1) lines
lines_for servicio ids lines = filter (λ l. member l.id_servicio ids) lines
lines_for _ ids lines = []

unfoldable pub eligible_lines : Context → Candidate → List DiscountLine
unfolding lines_for service_ids
eligible_lines ctx c =
    lines_for (target_or_default c.aplica_a) (service_ids c.items) ctx.discount_lines

abbrev pub bases : List DiscountLine → ℕ
bases = sum_by (λ l. l.base_disponible)

pub record Stats : Type 0 where
  pub matched : Bool
  pub quantity : ℕ
  pub subtotal : ℕ  -- the unit price is this over the quantity
  pub required_quantity : ℕ
  pub bonus_quantity : ℕ

abbrev pub or_one : ℕ → ℕ
or_one zero = 1
or_one (suc n) = suc n

abbrev pub required_by : List RuleItem → ℕ → ℕ
required_by [] fallback = or_one fallback
required_by (i ∷ is) fallback = elim i.cantidad_minima [
  | none ↦ or_one fallback
  | some n ↦ or_one n
]

-- `unitPrice * qty`, where the unit price is given or is the subtotal over the quantity.
item_amount : Option ℕ → Option ℕ → ℕ → ℕ
item_amount (some price) subtotal qty = price * qty
item_amount none (some subtotal) qty = subtotal
item_amount none none qty = 0

abbrev is_target : List String → Item → Bool
is_target ids i = not (str_eq i.id "") && member i.id ids

-- The loop over the booking's services, or its packages.
item_stats : List String → List Item → ℕ → ℕ → Stats
unfolding item_amount
item_stats ids source required bonus =
    let found = filter (is_target ids) source in
    let quantity = sum_by (λ i. or_one i.cantidad) found in
    record {
      matched = not (quantity == 0);
      quantity = quantity;
      subtotal = sum_by (λ i. item_amount i.precio i.subtotal (or_one i.cantidad)) found;
      required_quantity = required;
      bonus_quantity = bonus;
    }

stats_for : Option Target → Context → List RuleItem → ℕ → ℕ → Stats
unfolding item_stats service_ids package_ids
stats_for (some servicio) ctx items required bonus =
    item_stats (service_ids items) ctx.servicios required bonus
stats_for (some paquete) ctx items required bonus =
    item_stats (package_ids items) ctx.paquetes required bonus
stats_for _ ctx items required bonus = record {
  matched = false;
  quantity = 0;
  subtotal = 0;
  required_quantity = required;
  bonus_quantity = bonus;
}

unfoldable pub target_stats : Context → Candidate → Stats
unfolding stats_for
target_stats ctx c =
    stats_for c.aplica_a ctx c.items (required_by c.items c.cantidad_requerida)
      (or_one c.cantidad_bonificada)

-- A nonnegative amount of cents before it is rounded.
pub record Fraction : Type 0 where
  pub num : ℕ
  pub den : ℕ

abbrev pub whole : ℕ → Fraction
whole n = record { num = n; den = 1 }

abbrev limit_blocks : Option ℕ → ℕ → ℕ
limit_blocks none blocks = blocks
limit_blocks (some zero) blocks = blocks
limit_blocks (some (suc m)) blocks = min blocks (suc m)

pub bonus_discount : Stats → Option ℕ → Fraction
bonus_discount s max_uses =
    let blocks = limit_blocks max_uses (s.quantity / s.required_quantity) in
    if not s.matched || ltb s.quantity s.required_quantity || leb s.subtotal 0
    then whole 0
    else record { num = blocks * s.bonus_quantity * s.subtotal; den = s.quantity }

-- The `if` chain by the type of discount; the two-for-one mechanic serves where no type before does.
pub raw_discount : DiscountType → Bool → ℕ → ℕ → Fraction → Fraction
raw_discount porcentaje two_for_one subtotal value bonus = record {
  num = subtotal * value;
  den = 10000;
}
raw_discount monto_fijo two_for_one subtotal value bonus = whole value
raw_discount bonificacion two_for_one subtotal value bonus = bonus
raw_discount other_type true subtotal value bonus = bonus
raw_discount other_type false subtotal value bonus = whole 0

-- `Math.min` with whole cents.
pub cap_at : ℕ → Fraction → Fraction
cap_at cents f = if ltb (cents * f.den) f.num then whole cents else f

pub cap_at_max : Option ℕ → Fraction → Fraction
cap_at_max none f = f
cap_at_max (some cents) f = cap_at cents f

-- `Number(discount.toFixed(2))`, rounding half up.
unfoldable pub to_fixed : Fraction → ℕ
to_fixed f = (2 * f.num + f.den) / (2 * f.den)

-- The guard `discount <= 0`, the two caps and the rounding.
pub settle_discount : ℕ → Option ℕ → Fraction → ℕ
settle_discount subtotal max raw =
    if raw.num == 0 then 0 else to_fixed (cap_at subtotal (cap_at_max max raw))

pub calculate_discount : Context → Candidate → ℕ
calculate_discount ctx c =
    let subtotal = bases (eligible_lines ctx c) in
    let bonus = bonus_discount (target_stats ctx c) c.max_usos_por_reserva in
    settle_discount subtotal c.max_descuento
      (raw_discount c.tipo_descuento c.mecanica_dos_por_uno subtotal c.valor bonus)
