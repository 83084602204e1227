-- ===== src/Agenda/Intervals/Ends.antt =====
-- A property of instants that the ends of the inputs have, such as to stand on a whole minute, is had
-- by the ends of what the interval arithmetic returns.
use native.Mathlib.Nat.{max-eq_left, max-eq_right, min-eq_left, min-eq_right}
use masterfadebackend.Prelude.{
  leb→le, leb_total, ℕ, min, max, inl, inr, List, [], ◌∷◌, arith, leb, All, All-append, All-filter,
  All-sort_by, Bool-cases,
}
use masterfadebackend.Agenda.Intervals.{
  Interval, normalize_all, starts_before, extend, merge_from, merge_prepared, merge_intervals,
  last_piece, free_pieces, subtract_each, is_nonempty, subtract_intervals,
}

module _ (P : ℕ → Type 0) where
  abbrev pub Ends : Interval → Type 0
  Ends i = P i.start × P i.end

  normalize_all-Ends : (is : List Interval) → All Ends is → All Ends (normalize_all is)
  unfolding normalize_all
  normalize_all-Ends [] a = tt
  normalize_all-Ends (i ∷ is) a = ground (arith, normalize_all-Ends is a.1)

  extend-Ends : (i c : Interval) → Ends i → Ends c → Ends (extend i c)
  unfolding extend
  extend-Ends i c h k = ground arith

  merge_from-Ends :
      (i : Interval) (is : List Interval) → Ends i → All Ends is → All Ends (merge_from i is)
  unfolding merge_from
  merge_from-Ends i [] h a = (h, tt)
  merge_from-Ends i (c ∷ is) h a = elim (Bool-cases (leb c.start i.end)) [
    | inl touch ↦ rw touch (merge_from-Ends (extend i c) is (extend-Ends i c h a.0) a.1)
    | inr past ↦ rw past (h, merge_from-Ends c is a.0 a.1)
  ]

  merge_prepared-Ends : (is : List Interval) → All Ends is → All Ends (merge_prepared is)
  unfolding merge_prepared
  merge_prepared-Ends [] a = tt
  merge_prepared-Ends (i ∷ is) a = merge_from-Ends i is a.0 a.1

  pub merge_intervals-Ends : (is : List Interval) → All Ends is → All Ends (merge_intervals is)
  unfolding merge_intervals
  merge_intervals-Ends is a =
      merge_prepared-Ends _ (All-sort_by starts_before Ends _ (normalize_all-Ends is a))

  max-P : (a b : ℕ) → P a → P b → P (max a b)
  max-P a b h k = elim (Bool-cases (leb b a)) [
    | inl e ↦ rw (max-eq_left (leb→le b a e)) h
    | inr e ↦ rw (max-eq_right (leb→le a b (leb_total b a e))) k
  ]

  min-P : (a b : ℕ) → P a → P b → P (min a b)
  min-P a b h k = elim (Bool-cases (leb a b)) [
    | inl e ↦ rw (min-eq_left (leb→le a b e)) h
    | inr e ↦ rw (min-eq_right (leb→le b a (leb_total a b e))) k
  ]

  last_piece-Ends : (p e : ℕ) → P p → P e → All Ends (last_piece p e)
  unfolding last_piece
  last_piece-Ends p e h k = ground arith

  free_pieces-Ends :
      (p e : ℕ) (busy : List Interval) → P p → P e → All Ends busy → All Ends (free_pieces p e busy)
  unfolding free_pieces
  free_pieces-Ends p e [] h k a = last_piece-Ends p e h k
  free_pieces-Ends p e (b ∷ bs) h k a = ground (
    arith,
    last_piece-Ends p e h k,
    min-P b.start e a.0.0 k,
    free_pieces-Ends p e bs h k a.1,
    free_pieces-Ends (max p b.end) e bs (max-P p b.end h a.0.1) k a.1,
  )

  subtract_each-Ends :
      (bases busy : List Interval)
      → All Ends bases
      → All Ends busy
      → All Ends (subtract_each bases busy)
  unfolding subtract_each
  subtract_each-Ends [] busy a k = tt
  subtract_each-Ends (b ∷ bs) busy a k =
      All-append Ends _ (subtract_each bs busy) (free_pieces-Ends b.start b.end busy a.0.0 a.0.1 k)
        (subtract_each-Ends bs busy a.1 k)

  pub subtract_intervals-Ends :
      (bases busy : List Interval)
      → All Ends bases
      → All Ends busy
      → All Ends (subtract_intervals bases busy)
  unfolding subtract_intervals
  subtract_intervals-Ends bases busy a k =
      All-filter Ends is_nonempty _ (subtract_each-Ends bases _ a (merge_intervals-Ends busy k))
