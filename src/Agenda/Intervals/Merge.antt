-- ===== src/Agenda/Intervals/Merge.antt =====
-- What `mergeIntervals` computes: the same instants, in intervals that are apart and in order.
use mathlib.Core.Bool.{or_assoc}
use masterfadebackend.Prelude.{
  ℕ, ◌<◌, ◌≡◌, refl, ap, subst, ◌∙◌, inl, inr, List, [], ◌∷◌, true, false, ◌||◌, arith, leb, All,
  any-sort_by, All-sort_by, HeadLe, IsSorted, sort_by-IsSorted, leb_total, Bool-cases,
}
use masterfadebackend.Agenda.Intervals.{
  Interval, within, covers, normalize_all, starts_before, extend, merge_from, merge_prepared,
  merge_intervals,
}

normalize_all-covers : (t : ℕ) (is : List Interval) → covers t (normalize_all is) ≡ covers t is
unfolding normalize_all
normalize_all-covers t [] = refl
normalize_all-covers t (i ∷ is) = ground (arith, normalize_all-covers t is)

abbrev IsProper : Interval → Type 0
IsProper i = i.start < i.end

normalize_all-IsProper : (is : List Interval) → All IsProper (normalize_all is)
unfolding normalize_all
normalize_all-IsProper [] = tt
normalize_all-IsProper (i ∷ is) = ground (arith, normalize_all-IsProper is)

within-extend :
    (t : ℕ) (last c : Interval)
    → starts_before last c ≡ true
    → leb c.start last.end ≡ true
    → within t (extend last c) ≡ within t last || within t c
unfolding extend
within-extend t last c h k = ground arith

extend-HeadLe :
    (last c : Interval) (is : List Interval)
    → starts_before last c ≡ true
    → HeadLe starts_before c is
    → HeadLe starts_before (extend last c) is
unfolding extend
extend-HeadLe last c [] h k = tt
extend-HeadLe last c (d ∷ is) h k = ground arith

start-extend : (last c : Interval) → (extend last c).start ≡ last.start
unfolding extend
start-extend last c = ground arith

extend-IsProper : (last c : Interval) → IsProper last → IsProper (extend last c)
unfolding extend
extend-IsProper last c h = ground arith

merge_from-covers :
    (t : ℕ) (last : Interval) (is : List Interval)
    → HeadLe starts_before last is
    → IsSorted starts_before is
    → covers t (merge_from last is) ≡ within t last || covers t is
unfolding merge_from
merge_from-covers t last [] h s = refl
merge_from-covers t last (c ∷ is) h s = elim (Bool-cases (leb c.start last.end)) [
  | inl touch ↦ rw touch (
      merge_from-covers t (extend last c) is (extend-HeadLe last c is h s.0) s.1
      ∙ ap (λ b. b || covers t is) (within-extend t last c h touch)
      ∙ or_assoc (within t last) (within t c) (covers t is))
  | inr past ↦ rw past (ap (◌||◌ (within t last)) (merge_from-covers t c is s.0 s.1))
]

merge_prepared-covers :
    (t : ℕ) (is : List Interval)
    → IsSorted starts_before is
    → covers t (merge_prepared is) ≡ covers t is
unfolding merge_prepared
merge_prepared-covers t [] s = refl
merge_prepared-covers t (i ∷ is) s = merge_from-covers t i is s.0 s.1

starts_before_total : (a b : Interval) → starts_before a b ≡ false → starts_before b a ≡ true
starts_before_total a b = leb_total a.start b.start

-- `mergeIntervals` keeps every instant that some interval of its input contains, and adds none.
pub covers-merge_intervals :
    (t : ℕ) (is : List Interval) → covers t (merge_intervals is) ≡ covers t is
unfolding merge_intervals
covers-merge_intervals t is =
    merge_prepared-covers t _
      (sort_by-IsSorted starts_before starts_before_total (normalize_all is))
    ∙ any-sort_by starts_before (within t) (normalize_all is)
    ∙ normalize_all-covers t is

-- The intervals come in order, and between two of them lies an instant of neither.
abbrev pub IsApart : List Interval → Type 0
IsApart [] = Unit
IsApart (i ∷ []) = i.start < i.end
IsApart (i ∷ j ∷ is) = (i.start < i.end) × (i.end < j.start) × IsApart (j ∷ is)

-- A merged list is apart behind what ends before it.
abbrev ApartFrom : ℕ → List Interval → Type 0
ApartFrom n [] = Unit
ApartFrom n (i ∷ is) = (n < i.start) × (i.start < i.end) × ApartFrom i.end is

-- The head of the merged list starts where the last merged interval starts.
abbrev StartsApart : ℕ → List Interval → Type 0
StartsApart s [] = ⊥
StartsApart s (i ∷ is) = (i.start ≡ s) × (i.start < i.end) × ApartFrom i.end is

ApartFrom-of : (n s : ℕ) (is : List Interval) → n < s → StartsApart s is → ApartFrom n is
ApartFrom-of n s [] h a = absurd a
ApartFrom-of n s (i ∷ is) h a = (omega arith, a.1, a.2)

merge_from-StartsApart :
    (last : Interval) (is : List Interval)
    → IsProper last
    → All IsProper is
    → StartsApart last.start (merge_from last is)
unfolding merge_from
merge_from-StartsApart last [] h a = (refl, h, tt)
merge_from-StartsApart last (c ∷ is) h a = elim (Bool-cases (leb c.start last.end)) [
  | inl touch ↦ rw touch (
      subst (λ s. StartsApart s (merge_from (extend last c) is)) (start-extend last c)
        (merge_from-StartsApart (extend last c) is (extend-IsProper last c h) a.1))
  | inr past ↦ rw past (
    refl,
    h,
    ApartFrom-of last.end c.start (merge_from c is) (ground arith)
        (merge_from-StartsApart c is a.0 a.1),
  )
]

IsApart-of : (s : ℕ) (is : List Interval) → StartsApart s is → IsApart is
IsApart-of s [] a = absurd a
IsApart-of s (i ∷ []) a = a.1
IsApart-of s (i ∷ j ∷ is) a = (a.1, a.2.0, IsApart-of j.start (j ∷ is) (refl, a.2.1, a.2.2))

merge_prepared-IsApart : (is : List Interval) → All IsProper is → IsApart (merge_prepared is)
unfolding merge_prepared
merge_prepared-IsApart [] a = tt
merge_prepared-IsApart (i ∷ is) a = IsApart-of i.start _ (merge_from-StartsApart i is a.0 a.1)

-- `mergeIntervals` returns nonempty intervals in order, each ending before the next one starts.
pub merge_intervals-IsApart : (is : List Interval) → IsApart (merge_intervals is)
unfolding merge_intervals
merge_intervals-IsApart is =
    merge_prepared-IsApart _ (All-sort_by starts_before IsProper _ (normalize_all-IsProper is))
