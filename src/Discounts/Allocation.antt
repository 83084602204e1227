-- ===== src/Discounts/Allocation.antt =====
-- `allocateDiscountAcrossLines` of services/bookingDiscounts.js. Amounts are whole cents, the result
-- of `toCents`; a negative amount, which the tests treat as they treat 0, is 0.
pub mod Share
pub mod HandOut
pub mod Total
use Prim.Native.String.{String}
use mathlib.Core.Option
use masterfadebackend.Prelude.{
  ℕ, zero, suc, ◌+◌, ◌-◌, ◌*◌, ◌/◌, ◌%◌, min, List, [], ◌∷◌, map, Option, none, some, Bool, true,
  false, ltb, leb, ◌==◌, if◌then◌else◌, filter, sum_by, sort_by,
}

-- What the allocation reads of a discount line.
pub record Line : Type 0 where
  pub line_key : String
  pub base_disponible : ℕ

pub record Allocation : Type 0 where
  pub line_key : String
  pub descuento : ℕ

-- The two errors, by their messages; both have status 409 and one code.
pub data AllocationError : Type 0 where
  exceeds_capacity sum_mismatch : AllocationError

pub data Allocated : Type 0 where
  ok : List Allocation → Allocated
  err : AllocationError → Allocated

-- A provisional row. `position` is the identity of the object in the array `provisional`, which
-- `byRemainder` holds in another order; `remainder` is the fraction's numerator over the capacity.
pub record Row : Type 0 where
  pub position : ℕ
  pub line_key : String
  pub capacity : ℕ
  pub cents : ℕ
  pub remainder : ℕ

pub share : ℕ → ℕ → ℕ → ℕ → Line → Row
share requested total exact position l =
    let floor = min l.base_disponible exact in
    record {
      position = position;
      line_key = l.line_key;
      capacity = l.base_disponible;
      cents = floor;
      remainder = requested * l.base_disponible - floor * total;
    }

unfoldable pub shares : ℕ → ℕ → ℕ → List Line → List Row
unfolding share
shares requested total position [] = []
shares requested total position (l ∷ ls) =
    share requested total (requested * l.base_disponible / total) position l
    ∷ shares requested total (position + 1) ls

-- `byRemainder.find(...)` and the cent that the row found is given.
unfoldable pub bump : List Row → Option (List Row)
bump [] = none
bump (r ∷ rs) =
    if ltb r.cents r.capacity
    then some (record r { cents = r.cents + 1 } ∷ rs)
    else Option.map (◌∷◌ r) (bump rs)

-- The `while` over the cents that remain.
unfoldable pub hand_out : ℕ → List Row → List Row
hand_out zero rows = rows
hand_out (suc remaining) rows = elim (bump rows) [
  | none ↦ rows
  | some next ↦ hand_out remaining next
]

abbrev pub by_position : Row → Row → Bool
by_position a b = leb a.position b.position

abbrev pub has_capacity : Line → Bool
has_capacity l = ltb 0 l.base_disponible

abbrev pub has_cents : Row → Bool
has_cents r = ltb 0 r.cents

unfoldable pub allocation_of : Row → Allocation
allocation_of r = record { line_key = r.line_key; descuento = r.cents }

-- `key_le a b` says that `a.localeCompare(b)` is not positive.
module _ (key_le : String → String → Bool) where
  abbrev pub by_key : Line → Line → Bool
  by_key a b = key_le a.line_key b.line_key

  abbrev pub by_remainder : Row → Row → Bool
  by_remainder a b =
      if a.remainder == b.remainder
      then key_le a.line_key b.line_key
      else ltb b.remainder a.remainder

  unfoldable pub eligible_lines : List Line → List Line
  eligible_lines lines = sort_by by_key (filter has_capacity lines)

  -- The rows when the loop has ended, in the order of `provisional`.
  unfoldable pub final_rows : ℕ → List Line → List Row
  final_rows requested eligible =
      let provisional = shares requested (sum_by (λ l. l.base_disponible) eligible) 0 eligible in
      let remaining = requested - sum_by (λ r. r.cents) provisional in
      sort_by by_position (hand_out remaining (sort_by by_remainder provisional))

  settle : ℕ → List Row → Allocated
  settle requested rows =
      if sum_by (λ r. r.cents) rows == requested
      then ok (map allocation_of (filter has_cents rows))
      else err sum_mismatch

  unfoldable pub allocate : List Line → ℕ → Allocated
  unfolding settle
  allocate lines requested =
      let eligible = eligible_lines lines in
      if leb requested 0
      then ok []
      else if ltb (sum_by (λ l. l.base_disponible) eligible) requested
      then err exceeds_capacity
      else settle requested (final_rows requested eligible)
