-- ===== src/Discounts/Examples.antt =====
-- An allocation and a plan at concrete lines.
use Prim.Native.String.{String}
use text.Mathlib.Text.{◌==◌ as str_eq}
use masterfadebackend.Prelude.{
  Option, some, sum_by, ℕ, ◌≡◌, refl, List, [], ◌∷◌, none, Bool, All, map,
}
use masterfadebackend.Discounts.Allocation.{
  Line, Allocated, eligible_lines, shares, hand_out, bump, final_rows, allocate, allocation_of,
}
use masterfadebackend.Discounts.Allocation.Total.{Settles, allocate-Settles}
use masterfadebackend.Discounts.Lines.{BookingItem, CanonicalLine, build_canonical_discount_lines}
use masterfadebackend.Discounts.Lines.Sums.{IsNet, build_canonical_discount_lines-sums}
use masterfadebackend.Discounts.Plan.{
  SourceType, promotion, membership, PlanLine, SourceAllocation, Planned, ok, put_line,
  line_map_from, line_map, empty_entry, applied_of, add_applied, add_to, add_allocation,
  add_allocations, build_plan,
}
use masterfadebackend.Discounts.Plan.Totals.{
  IsSound, lines_of, totals, discounts, build_plan-IsSound,
}

-- The order of two keys, where the first one stands before every other.
abbrev key_le : String → String → Bool
key_le a b = str_eq a "corte"

abbrev lines : List Line
lines =
    record { line_key = "barba"; base_disponible = 100 }
    ∷ record { line_key = "corte"; base_disponible = 200 }
    ∷ record { line_key = "cortesia"; base_disponible = 0 }
    ∷ []

allocated :
    allocate key_le lines 100
    ≡ Allocated.ok (
        record { line_key = "corte"; descuento = 67 }
        ∷ record { line_key = "barba"; descuento = 33 }
        ∷ [])
unfolding allocate eligible_lines shares hand_out bump final_rows allocation_of
allocated = refl

allocate-Settles_example : Settles key_le lines 100 (allocate key_le lines 100)
allocate-Settles_example = allocate-Settles key_le lines 100

abbrev plan_lines : List PlanLine
plan_lines =
    record { line_key = "corte"; subtotal = 200 }
    ∷ record { line_key = "barba"; subtotal = 100 }
    ∷ []

abbrev given : String → SourceType → ℕ → SourceAllocation
given key source cents = record {
  line_key = key;
  source_type = source;
  source_id = none;
  id_promocion = none;
  id_promocion_regla = none;
  descuento = cents;
}

abbrev allocations : List SourceAllocation
allocations =
    given "corte" promotion 150 ∷ given "corte" membership 50 ∷ given "barba" promotion 30 ∷ []

abbrev planned : PlanLine → List SourceAllocation → ℕ → Planned
planned l given_here total = record {
  line = l;
  entry = record {
    line_key = l.line_key;
    allocations = map applied_of given_here;
    descuento_total = total;
  };
}

abbrev plan : List Planned
plan =
    planned (record { line_key = "corte"; subtotal = 200 })
      (given "corte" promotion 150 ∷ given "corte" membership 50 ∷ []) 200
    ∷ planned (record { line_key = "barba"; subtotal = 100 }) (given "barba" promotion 30 ∷ []) 30
    ∷ []

built : build_plan plan_lines allocations ≡ ok plan
unfolding build_plan line_map line_map_from put_line empty_entry add_allocations add_allocation
    add_to add_applied
built = refl

build_plan-IsSound_example :
    (lines_of plan ≡ line_map plan_lines) × (totals plan ≡ discounts allocations) × All IsSound plan
build_plan-IsSound_example = build_plan-IsSound plan_lines allocations built

abbrev booked : String → ℕ → Option ℕ → Option ℕ → BookingItem
booked service quantity price subtotal = record {
  group = record { id_servicio = service; id_tarifa = none; origen_item_codigo = "manual" };
  cantidad = quantity;
  precio_hnl = price;
  subtotal_hnl = subtotal;
  descuento_hnl = 50;
}

-- Two cuts, an item without a service, and a third cut.
abbrev items : List BookingItem
items =
    booked "corte" 2 (some 200) none
    ∷ booked "" 1 (some 900) none
    ∷ booked "corte" 1 none (some 180)
    ∷ []

build_canonical_discount_lines-sums_example :
    (sum_by CanonicalLine.cantidad (build_canonical_discount_lines items 1) ≡ 3)
    × (sum_by CanonicalLine.subtotal_hnl (build_canonical_discount_lines items 1) ≡ 580)
    × (sum_by CanonicalLine.descuento_previo_hnl (build_canonical_discount_lines items 1) ≡ 100)
    × All IsNet (build_canonical_discount_lines items 1)
build_canonical_discount_lines-sums_example =
    build_canonical_discount_lines-sums items 1 (refl, (refl, (refl, tt)))
