-- ===== src/Agenda/Slots/Trim.antt =====
-- What `trimIntervalsByMinimumStart` keeps.
use masterfadebackend.Prelude.{
  ℕ, ◌≡◌, refl, ap₂, ◌∙◌, List, [], ◌∷◌, Option, none, some, Bool, true, ◌&&◌, ◌||◌, arith, leb,
  All, All-append, All-map, any-append, or_and_distrib, and_true,
}
use masterfadebackend.Agenda.Intervals.{Interval, within, covers, normalize_interval}
use masterfadebackend.Agenda.Intervals.Ends.{Ends}
use masterfadebackend.Agenda.Slots.{trim_one, trim_from, trim_intervals}

-- The instants that a minimum start leaves.
abbrev pub from_floor : Option ℕ → ℕ → Bool
from_floor none t = true
from_floor (some floor) t = leb floor t

covers-trim_one :
    (t floor : ℕ) (i : Interval)
    → covers t (trim_one floor (normalize_interval i.start i.end)) ≡ (within t i && leb floor t)
unfolding trim_one normalize_interval
covers-trim_one t floor i = ground arith

covers-trim_from :
    (t floor : ℕ) (is : List Interval)
    → covers t (trim_from floor is) ≡ (covers t is && leb floor t)
unfolding trim_from
covers-trim_from t floor [] = refl
covers-trim_from t floor (i ∷ is) =
    any-append (within t) _ (trim_from floor is)
    ∙ ap₂ ◌||◌ (covers-trim_one t floor i) (covers-trim_from t floor is)
    ∙ or_and_distrib (within t i) (covers t is) (leb floor t)

-- With a minimum start, the instants of the intervals from it on are kept; without one, all are.
pub covers-trim_intervals :
    (t : ℕ) (is : List Interval) (floor : Option ℕ)
    → covers t (trim_intervals is floor) ≡ (covers t is && from_floor floor t)
unfolding trim_intervals
covers-trim_intervals t is none = and_true (covers t is)
covers-trim_intervals t is (some floor) = covers-trim_from t floor is

trim_one-Starts :
    (P : ℕ → Type 0) (floor : ℕ) (i : Interval)
    → P floor
    → P i.start
    → All (λ j. P j.start) (trim_one floor (normalize_interval i.start i.end))
unfolding trim_one normalize_interval
trim_one-Starts P floor i h k = ground arith

trim_from-Starts :
    (P : ℕ → Type 0) (floor : ℕ) (is : List Interval)
    → P floor
    → All (Ends P) is
    → All (λ j. P j.start) (trim_from floor is)
unfolding trim_from
trim_from-Starts P floor [] h a = tt
trim_from-Starts P floor (i ∷ is) h a =
    All-append (λ j. P j.start) _ (trim_from floor is) (trim_one-Starts P floor i h a.0.0)
      (trim_from-Starts P floor is h a.1)

abbrev pub FloorHas : (ℕ → Type 0) → Option ℕ → Type 0
FloorHas P none = Unit
FloorHas P (some t) = P t

pub trim_intervals-Starts :
    (P : ℕ → Type 0) (is : List Interval) (floor : Option ℕ)
    → FloorHas P floor
    → All (Ends P) is
    → All (λ j. P j.start) (trim_intervals is floor)
unfolding trim_intervals
trim_intervals-Starts P is none h a = All-map (Ends P) (λ j. P j.start) (λ i e. e.0) is a
trim_intervals-Starts P is (some floor) h a = trim_from-Starts P floor is h a
