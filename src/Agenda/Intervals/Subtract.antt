-- ===== src/Agenda/Intervals/Subtract.antt =====
-- What `subtractIntervals` computes: the instants of the base intervals that are not busy.
use masterfadebackend.Prelude.{
  ℕ, max, min, ◌<◌, ◌≤◌, ◌≡◌, refl, ap, ◌∙◌, inl, inr, List, [], ◌∷◌, Bool, true, false, ◌||◌, ◌&&◌,
  not, arith, leb, ltb, ltb→lt, ap₂, and_true, or_and_distrib, any-append, filter, Bool-cases,
}
use masterfadebackend.Agenda.Intervals.{
  Interval, within, covers, merge_intervals, last_piece, free_pieces, subtract_each, is_nonempty,
  subtract_intervals,
}
use masterfadebackend.Agenda.Intervals.Merge.{
  covers-merge_intervals, merge_intervals-IsApart, IsApart,
}

-- The starts rise from `n` on.
abbrev StartsFrom : ℕ → List Interval → Type 0
StartsFrom n [] = Unit
StartsFrom n (i ∷ is) = (n ≤ i.start) × StartsFrom i.start is

StartsFrom-of : (is : List Interval) → IsApart is → StartsFrom 0 is
StartsFrom-of [] a = tt
StartsFrom-of (i ∷ []) a = (omega arith, tt)
StartsFrom-of (i ∷ j ∷ is) a = (omega arith, (omega arith, (StartsFrom-of (j ∷ is) a.2).1))

before_StartsFrom : (t n : ℕ) (is : List Interval) → StartsFrom n is → t < n → covers t is ≡ false
before_StartsFrom t n [] s h = refl
before_StartsFrom t n (i ∷ is) s h = ground (arith, before_StartsFrom t i.start is s.1)

-- An instant from the pointer on and before the end.
abbrev between : ℕ → ℕ → ℕ → Bool
between t pointer end = leb pointer t && ltb t end

covers-last_piece : (t pointer end : ℕ) → covers t (last_piece pointer end) ≡ between t pointer end
unfolding last_piece
covers-last_piece t pointer end = ground arith

-- What the three ways through the inner loop contribute, with `rest` for what follows.
skip_step :
    (t pointer end : ℕ) (b : Interval) (rest : Bool)
    → leb b.end pointer ≡ true
    → (between t pointer end && not rest) ≡ (between t pointer end && not (within t b || rest))
skip_step t pointer end b rest h = ground arith

break_step :
    (t pointer end : ℕ) (b : Interval) (rest : Bool)
    → leb end b.start ≡ true
    → (ltb t end ≡ true → rest ≡ false)
    → between t pointer end ≡ (between t pointer end && not (within t b || rest))
break_step t pointer end b rest h k = ground arith

next_step :
    (t pointer end : ℕ) (b : Interval) (rest : Bool)
    → leb b.end pointer ≡ false
    → leb end b.start ≡ false
    → ltb pointer b.start ≡ false
    → (between t (max pointer b.end) end && not rest)
      ≡ (between t pointer end && not (within t b || rest))
next_step t pointer end b rest h k l = ground arith

gap_step :
    (t pointer end : ℕ) (b : Interval) (rest : Bool)
    → leb b.end pointer ≡ false
    → leb end b.start ≡ false
    → ltb pointer b.start ≡ true
    → (ltb t b.start ≡ true → rest ≡ false)
    → (between t pointer (min b.start end) || (between t (max pointer b.end) end && not rest))
      ≡ (between t pointer end && not (within t b || rest))
gap_step t pointer end b rest h k l m = ground arith

leb_false→ltb : (a b : ℕ) → leb a b ≡ false → ltb b a ≡ true
leb_false→ltb a b h = ground arith

covers-free_pieces :
    (t pointer end n : ℕ) (busy : List Interval)
    → StartsFrom n busy
    → covers t (free_pieces pointer end busy) ≡ (between t pointer end && not (covers t busy))
unfolding free_pieces
covers-free_pieces t pointer end n [] s =
    covers-last_piece t pointer end ∙ and_true (between t pointer end)
covers-free_pieces t pointer end n (b ∷ busy) s =
    let later = covers-free_pieces t (max pointer b.end) end b.start busy s.1 in
    elim (Bool-cases (leb b.end pointer)) [
      | inl past ↦ rw past (
          covers-free_pieces t pointer end b.start busy s.1
          ∙ skip_step t pointer end b (covers t busy) past)
      | inr open_end ↦ elim (Bool-cases (leb end b.start)) [
        | inl beyond ↦
            rw (open_end, beyond)
              (covers-last_piece t pointer end
                ∙ break_step t pointer end b (covers t busy) beyond
                    (λ h. before_StartsFrom t b.start busy s.1 (ground arith)))
        | inr inside ↦ elim (Bool-cases (ltb pointer b.start)) [
          | inl gap ↦
              rw (open_end, inside, gap, leb_false→ltb b.end pointer open_end)
                (ap (◌||◌ (between t pointer (min b.start end))) later
                  ∙ gap_step t pointer end b (covers t busy) open_end inside gap
                      (λ h. before_StartsFrom t b.start busy s.1 (ltb→lt _ _ h)))
          | inr none_left ↦
              rw (open_end, inside, none_left, leb_false→ltb b.end pointer open_end)
                (later ∙ next_step t pointer end b (covers t busy) open_end inside none_left)
        ]
      ]
    ]

covers-subtract_each :
    (t : ℕ) (bases busy : List Interval)
    → StartsFrom 0 busy
    → covers t (subtract_each bases busy) ≡ (covers t bases && not (covers t busy))
unfolding subtract_each
covers-subtract_each t [] busy s = refl
covers-subtract_each t (b ∷ bases) busy s =
    any-append (within t) (free_pieces b.start b.end busy) (subtract_each bases busy)
    ∙ ap₂ ◌||◌ (covers-free_pieces t b.start b.end 0 busy s) (covers-subtract_each t bases busy s)
    ∙ or_and_distrib (within t b) (covers t bases) (not (covers t busy))

covers-filter : (t : ℕ) (is : List Interval) → covers t (filter is_nonempty is) ≡ covers t is
covers-filter t [] = refl
covers-filter t (i ∷ is) = ground (arith, covers-filter t is)

-- `subtractIntervals` returns the instants that a base interval contains and no busy one does.
pub covers-subtract_intervals :
    (t : ℕ) (bases busy : List Interval)
    → covers t (subtract_intervals bases busy) ≡ (covers t bases && not (covers t busy))
unfolding subtract_intervals
covers-subtract_intervals t bases busy =
    covers-filter t _
    ∙ covers-subtract_each t bases (merge_intervals busy)
        (StartsFrom-of _ (merge_intervals-IsApart busy))
    ∙ ap (λ b. covers t bases && not b) (covers-merge_intervals t busy)
