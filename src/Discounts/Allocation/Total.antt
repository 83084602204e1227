-- ===== src/Discounts/Allocation/Total.antt =====
-- What `allocateDiscountAcrossLines` promises.
use Prim.Native.String.{String}
use masterfadebackend.Prelude.{
  ℕ, zero, suc, ◌-◌, ◌≤◌, ◌<◌, ◌≡◌, refl, ◌∙◌, inl, inr, List, [], ◌∷◌, map, Bool, true, false,
  arith, ltb, leb, filter, sum_by, sort_by, All, All-map, All-filter, filter-All, All-sort_by, Some,
  Some-map, sum_by-sort_by, sum_by-filter_pos, Bool-cases, Some-filter, Some-sort_by, tests, eq→==,
}
use masterfadebackend.Discounts.Allocation.{
  Line, Row, Allocation, Allocated, ok, err, exceeds_capacity, shares, hand_out, by_position,
  has_cents, has_capacity, allocation_of, by_key, by_remainder, eligible_lines, final_rows, settle,
  allocate,
}
use masterfadebackend.Discounts.Allocation.Share.{
  capacities, cents_of, IsShare, shares-IsShare, shares-capacities, shares-le,
}
use masterfadebackend.Discounts.Allocation.HandOut.{hand_out-total}

positive_leb : (n : ℕ) → leb (suc n) 0 ≡ false
positive_leb n = ground arith

module _ (key_le : String → String → Bool) where
  capacities-eligible_lines :
      (lines : List Line) → capacities (eligible_lines key_le lines) ≡ capacities lines
  unfolding eligible_lines
  capacities-eligible_lines lines =
      sum_by-sort_by (by_key key_le) (λ l. l.base_disponible) _
      ∙ sum_by-filter_pos (λ l. l.base_disponible) lines

  final_rows-total :
      (requested : ℕ) (lines : List Line)
      → 0 < requested
      → requested ≤ capacities lines
      → (cents_of (final_rows key_le requested lines) ≡ requested)
        × All (IsShare lines) (final_rows key_le requested lines)
  unfolding final_rows
  final_rows-total requested lines pos h =
      let rows = shares requested (capacities lines) 0 lines in
      let order = by_remainder key_le in
      let remaining = requested - cents_of rows in
      let (total, kept) =
        hand_out-total lines remaining (sort_by order rows)
          (All-sort_by order (IsShare lines) rows
            (shares-IsShare requested (capacities lines) 0 lines))
          (omega (
            arith,
            sum_by-sort_by order (λ r. r.cents) rows,
            sum_by-sort_by order (λ r. r.capacity) rows,
            shares-capacities requested (capacities lines) 0 lines,
            shares-le requested 0 lines,
          )) in
      (
        omega (
          arith,
          total,
          sum_by-sort_by by_position (λ r. r.cents) (hand_out remaining (sort_by order rows)),
          sum_by-sort_by order (λ r. r.cents) rows,
          shares-le requested 0 lines,
        ),
        All-sort_by by_position (IsShare lines) _ kept,
      )

  sum_by-allocation_of :
      (rows : List Row) → sum_by (λ a. a.descuento) (map allocation_of rows) ≡ cents_of rows
  unfolding allocation_of
  sum_by-allocation_of [] = refl
  sum_by-allocation_of (r ∷ rows) = omega (arith, sum_by-allocation_of rows)

  -- A positive amount for a line of the list, that the line has room for.
  pub record IsAllocation (lines : List Line) (a : Allocation) : Type 0 where
    pub positive : 0 < a.descuento
    pub line : Some (λ l. (a.line_key ≡ l.line_key) × (a.descuento ≤ l.base_disponible)) lines

  row-IsAllocation :
      (lines : List Line) (r : Row)
      → has_cents r ≡ true
      → IsShare lines r
      → IsAllocation lines (allocation_of r)
  unfolding allocation_of
  row-IsAllocation lines r h k = record {
    positive = ground arith;
    line = Some-map _ _ (λ l e. (e.0, omega (arith, k.within, e.1))) lines k.line;
  }

  rows-IsAllocation :
      (lines : List Line) (rows : List Row)
      → All (λ r. has_cents r ≡ true) rows
      → All (IsShare lines) rows
      → All (IsAllocation lines) (map allocation_of rows)
  rows-IsAllocation lines [] a k = tt
  rows-IsAllocation lines (r ∷ rows) a k =
      (row-IsAllocation lines r a.0 k.0, rows-IsAllocation lines rows a.1 k.1)

  eligible-IsAllocation :
      (lines : List Line) (a : Allocation)
      → IsAllocation (eligible_lines key_le lines) a
      → IsAllocation lines a
  unfolding eligible_lines
  eligible-IsAllocation lines a h = record {
    positive = h.positive;
    line = Some-filter _ has_capacity lines (Some-sort_by (by_key key_le) _ _ h.line);
  }

  -- What the answer says: an amount that fits is allocated in full, another is refused whole.
  abbrev pub Settles : List Line → ℕ → Allocated → Type 0
  Settles lines requested (ok given) =
      (requested ≤ capacities lines)
      × (sum_by (λ a. a.descuento) given ≡ requested)
      × All (IsAllocation lines) given
  Settles lines requested (err e) = (capacities lines < requested) × (e ≡ exceeds_capacity)

  settle-Settles :
      (requested : ℕ) (lines : List Line)
      → 0 < requested
      → requested ≤ capacities lines
      → Settles lines requested
          (settle key_le requested (final_rows key_le requested (eligible_lines key_le lines)))
  unfolding settle
  settle-Settles requested lines pos h =
      let eligible = eligible_lines key_le lines in
      let rows = final_rows key_le requested eligible in
      let (total, kept) =
        final_rows-total requested eligible pos (omega (arith, capacities-eligible_lines lines)) in
      rw (eq→== (cents_of rows) requested total) (
        h,
        sum_by-allocation_of (filter has_cents rows)
            ∙ sum_by-filter_pos (λ r. r.cents) rows
            ∙ total,
        All-map (IsAllocation eligible) (IsAllocation lines) (eligible-IsAllocation lines) _ (
            rows-IsAllocation eligible _ (filter-All has_cents rows)
              (All-filter (IsShare eligible) has_cents rows kept)),
      )

  -- An amount up to the capacity of the lines is allocated in full, in positive amounts that each fit
  -- the line they name; an amount beyond it is refused with the first error. The second error, a sum
  -- that differs from the amount, is never raised.
  pub allocate-Settles :
      (lines : List Line) (requested : ℕ)
      → Settles lines requested (allocate key_le lines requested)
  unfolding allocate
  allocate-Settles lines zero = (omega arith, refl, tt)
  allocate-Settles lines (suc n) =
      elim (Bool-cases (ltb (capacities (eligible_lines key_le lines)) (suc n))) [
        | inl beyond ↦
            rw (positive_leb n, beyond)
              (omega (tests, capacities-eligible_lines lines, beyond), refl)
        | inr fits ↦
            rw (positive_leb n, fits)
              (settle-Settles (suc n) lines (omega arith)
                (ground (arith, capacities-eligible_lines lines)))
      ]
