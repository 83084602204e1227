-- ===== src/Discounts/Plan.antt =====
-- `buildDiscountPlan` of services/bookingDiscounts.js. Amounts are whole cents, and a negative one is 0.
pub mod Totals
use Prim.Native.String.{String}
use text.Mathlib.Text.{◌==◌ as str_eq}
use masterfadebackend.Prelude.{
  ℕ, ◌+◌, List, [], ◌∷◌, ◌++◌, map, Option, none, some, Bool, true, false, ltb, leb, if◌then◌else◌,
}

-- The sources of `DISCOUNT_SOURCE_TYPES`, and any other text.
pub data SourceType : Type 0 where
  promotion membership reward manual courtesy : SourceType
  unsupported : String → SourceType

abbrev pub is_supported : SourceType → Bool
is_supported (unsupported s) = false
is_supported _ = true

pub record PlanLine : Type 0 where
  pub line_key : String
  pub subtotal : ℕ

pub record SourceAllocation : Type 0 where
  pub line_key : String
  pub source_type : SourceType
  pub source_id : Option String
  pub id_promocion : Option String
  pub id_promocion_regla : Option String
  pub descuento : ℕ

-- What the plan keeps of an allocation.
pub record Applied : Type 0 where
  pub source_type : SourceType
  pub source_id : Option String
  pub id_promocion : Option String
  pub id_promocion_regla : Option String
  pub descuento : ℕ

pub record Entry : Type 0 where
  pub line_key : String
  pub allocations : List Applied
  pub descuento_total : ℕ

pub data PlanError : Type 0 where
  allocation_invalid source_invalid allocation_incomplete : PlanError

pub data Result {ℓ} (A : Type ℓ) : Type ℓ where
  ok : A → Result A
  err : PlanError → Result A

infixl 5 ◌>>=◌
abbrev pub ◌>>=◌ {ℓ κ} : {A : Type ℓ} {B : Type κ} → Result A → (A → Result B) → Result B
ok a >>= f = f a
err e >>= f = err e

-- The lines as a `Map` by key: a later line replaces an earlier one of its key, in its place.
unfoldable pub put_line : PlanLine → List PlanLine → List PlanLine
put_line l [] = l ∷ []
put_line l (m ∷ ms) = if str_eq m.line_key l.line_key then l ∷ ms else m ∷ put_line l ms

unfoldable pub line_map_from : List PlanLine → List PlanLine → List PlanLine
line_map_from done [] = done
line_map_from done (l ∷ ls) = line_map_from (put_line l done) ls

unfoldable pub line_map : List PlanLine → List PlanLine
line_map = line_map_from []

-- A line of the map with its entry in the plan: the two maps have one and the same keys.
pub record Planned : Type 0 where
  pub line : PlanLine
  pub entry : Entry

unfoldable pub empty_entry : PlanLine → Planned
empty_entry l = record {
  line = l;
  entry = record { line_key = l.line_key; allocations = []; descuento_total = 0 };
}

unfoldable pub applied_of : SourceAllocation → Applied
applied_of a = record {
  source_type = a.source_type;
  source_id = a.source_id;
  id_promocion = a.id_promocion;
  id_promocion_regla = a.id_promocion_regla;
  descuento = a.descuento;
}

unfoldable pub add_applied : Planned → SourceAllocation → Planned
add_applied p a = record p {
  entry = record {
    line_key = p.entry.line_key;
    allocations = p.entry.allocations ++ (applied_of a ∷ []);
    descuento_total = p.entry.descuento_total + a.descuento;
  };
}

-- The body of the loop once the entry is found.
unfoldable pub add_to : Planned → SourceAllocation → Result Planned
add_to p a =
    let next_total = p.entry.descuento_total + a.descuento in
    if is_supported a.source_type
    then (if leb a.descuento 0
        then ok p
        else if ltb p.line.subtotal next_total
        then err allocation_incomplete
        else ok (add_applied p a))
    else err source_invalid

-- The entry is found by the key of the allocation.
unfoldable pub add_allocation : List Planned → SourceAllocation → Result (List Planned)
add_allocation [] a = err allocation_invalid
add_allocation (p ∷ ps) a =
    let here = add_to p a >>= λ q. ok (q ∷ ps) in
    let later = add_allocation ps a >>= λ qs. ok (p ∷ qs) in
    if str_eq p.line.line_key a.line_key then here else later

unfoldable pub add_allocations : List Planned → List SourceAllocation → Result (List Planned)
add_allocations ps [] = ok ps
add_allocations ps (a ∷ more) = add_allocation ps a >>= λ qs. add_allocations qs more

unfoldable pub build_plan : List PlanLine → List SourceAllocation → Result (List Planned)
build_plan lines allocations = add_allocations (map empty_entry (line_map lines)) allocations
