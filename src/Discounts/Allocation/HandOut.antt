-- ===== src/Discounts/Allocation/HandOut.antt =====
-- The loop that hands out the remaining cents: it never runs out of rows that take a cent.
use masterfadebackend.Prelude.{
  ℕ, zero, suc, ◌+◌, ◌≤◌, ◌<◌, ◌≡◌, refl, inl, inr, List, [], ◌∷◌, some, arith, ltb, All,
  Bool-cases,
}
use masterfadebackend.Discounts.Allocation.{Line, Row, bump, hand_out}
use masterfadebackend.Discounts.Allocation.Share.{cents_of, capacities_of, IsShare}

-- One cent more, over the same lines.
record Bumped (lines : List Line) (rows next : List Row) : Type 0 where
  found : bump rows ≡ some next
  cents : cents_of next ≡ suc (cents_of rows)
  capacity : capacities_of next ≡ capacities_of rows
  all_shares : All (IsShare lines) next

bump-Bumped :
    (lines : List Line) (rows : List Row)
    → All (IsShare lines) rows
    → cents_of rows < capacities_of rows
    → (next : List Row) × Bumped lines rows next
unfolding bump
bump-Bumped lines [] a h = absurd (omega arith)
bump-Bumped lines (r ∷ rs) a h = elim (Bool-cases (ltb r.cents r.capacity)) [
  | inl room ↦ (
    record r { cents = r.cents + 1 } ∷ rs,
    record {
      found = rw room;
      cents = omega arith;
      capacity = refl;
      all_shares = (record { line = a.0.line; within = ground arith }, a.1);
    },
  )
  | inr full ↦
      let (next, b) = bump-Bumped lines rs a.1 (ground arith) in
      (
        r ∷ next,
        record {
          found = rw (full, b.found);
          cents = omega (arith, b.cents);
          capacity = omega (arith, b.capacity);
          all_shares = (a.0, b.all_shares);
        },
      )
]

-- While the rows have room for the remaining cents, all of them are handed out.
pub hand_out-total :
    (lines : List Line) (remaining : ℕ) (rows : List Row)
    → All (IsShare lines) rows
    → cents_of rows + remaining ≤ capacities_of rows
    → (cents_of (hand_out remaining rows) ≡ cents_of rows + remaining)
      × All (IsShare lines) (hand_out remaining rows)
unfolding hand_out
hand_out-total lines zero rows a h = (omega arith, a)
hand_out-total lines (suc remaining) rows a h =
    let (next, b) = bump-Bumped lines rows a (omega arith) in
    let (total, shares) =
      hand_out-total lines remaining next b.all_shares (omega (arith, b.cents, b.capacity)) in
    rw (b.found, hand_out) (omega (arith, total, b.cents), shares)
