-- ===== src/Discounts/Lines.antt =====
-- `buildCanonicalDiscountLines` of services/bookingDiscounts.js: the items of a booking grouped by
-- service, tariff and origin. Amounts are whole cents; texts are as `trim` leaves them.
pub mod Sums
use Prim.Native.String.{String}
use text.Mathlib.Text.{◌==◌ as str_eq}
use masterfadebackend.Prelude.{
  ℕ, zero, suc, ◌+◌, ◌-◌, ◌*◌, List, [], ◌∷◌, Option, none, some, Bool, true, false, ◌&&◌, any,
  filter, length, if◌then◌else◌,
}

-- What tells the lines apart.
pub record GroupKey : Type 0 where
  pub id_servicio : String
  pub id_tarifa : Option String
  pub origen_item_codigo : String

-- `precio_hnl` is the unit price, under either of its names.
pub record BookingItem : Type 0 where
  pub group : GroupKey
  pub cantidad : ℕ
  pub precio_hnl : Option ℕ
  pub subtotal_hnl : Option ℕ
  pub descuento_hnl : ℕ

-- The parts that `buildCanonicalLineKey` joins.
pub record LineKey : Type 0 where
  pub orden_integrante : ℕ
  pub group : GroupKey
  pub occurrence : ℕ

pub record CanonicalLine : Type 0 where
  pub line_key : LineKey
  pub group : GroupKey
  pub cantidad : ℕ
  pub precio_unitario_hnl : ℕ
  pub subtotal_hnl : ℕ
  pub descuento_previo_hnl : ℕ
  pub base_disponible_hnl : ℕ

abbrev same_tariff : Option String → Option String → Bool
same_tariff none none = true
same_tariff (some a) (some b) = str_eq a b
same_tariff _ _ = false

abbrev pub same_group : GroupKey → GroupKey → Bool
same_group a b =
    str_eq a.id_servicio b.id_servicio
    && same_tariff a.id_tarifa b.id_tarifa
    && str_eq a.origen_item_codigo b.origen_item_codigo

abbrev pub at_least_one : ℕ → ℕ
at_least_one zero = 1
at_least_one (suc n) = suc n

abbrev pub or_amount : Option ℕ → ℕ → ℕ
or_amount none n = n
or_amount (some m) n = m

-- A new line of its group, before the item is added; `opened` are the groups that have got one.
pub open_line : ℕ → List GroupKey → BookingItem → CanonicalLine
open_line orden opened i = record {
  line_key = record {
    orden_integrante = at_least_one orden;
    group = i.group;
    occurrence = length (filter (same_group i.group) opened) + 1;
  };
  group = i.group;
  cantidad = 0;
  precio_unitario_hnl = or_amount i.precio_hnl 0;
  subtotal_hnl = 0;
  descuento_previo_hnl = 0;
  base_disponible_hnl = 0;
}

-- The item added to the line of its group.
pub grow : BookingItem → CanonicalLine → CanonicalLine
grow i l =
    let quantity = at_least_one i.cantidad in
    let unit_price = or_amount i.precio_hnl l.precio_unitario_hnl in
    let subtotal = l.subtotal_hnl + or_amount i.subtotal_hnl (unit_price * quantity) in
    let previous = l.descuento_previo_hnl + i.descuento_hnl in
    record {
      line_key = l.line_key;
      group = l.group;
      cantidad = l.cantidad + quantity;
      precio_unitario_hnl = unit_price;
      subtotal_hnl = subtotal;
      descuento_previo_hnl = previous;
      base_disponible_hnl = subtotal - previous;
    }

pub add_item : ℕ → List GroupKey → BookingItem → List CanonicalLine → List CanonicalLine
add_item orden opened i [] = grow i (open_line orden opened i) ∷ []
add_item orden opened i (l ∷ ls) =
    let later = add_item orden opened i ls in
    if same_group l.group i.group then grow i l ∷ ls else l ∷ later

abbrev pub note_group : BookingItem → List CanonicalLine → List GroupKey → List GroupKey
note_group i lines opened =
    if any (λ l. same_group l.group i.group) lines then opened else i.group ∷ opened

-- The loop; an item without a service is skipped.
pub canonical_from : ℕ → List GroupKey → List CanonicalLine → List BookingItem → List CanonicalLine
canonical_from orden opened lines [] = lines
canonical_from orden opened lines (i ∷ is) =
    let added =
      canonical_from orden (note_group i lines opened) (add_item orden opened i lines) is in
    let skipped = canonical_from orden opened lines is in
    if str_eq i.group.id_servicio "" then skipped else added

pub build_canonical_discount_lines : List BookingItem → ℕ → List CanonicalLine
build_canonical_discount_lines items orden = canonical_from orden [] [] items
