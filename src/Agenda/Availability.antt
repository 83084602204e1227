-- ===== src/Agenda/Availability.antt =====
-- `getAvailableSlotsForBarber` of services/agendaService.js between its queries and its answer, for a
-- request that does not ask for the discard reasons.
use masterfadebackend.Prelude.{
  ℕ, ◌%◌, ◌≤◌, ◌<◌, ◌≡◌, sym, ap, ◌∙◌, inl, inr, List, [], Option, Bool, true, false, ◌&&◌, ◌||◌,
  not, if◌then◌else◌, any, All, All-map, All-Memᴰ, Memᴰ, Bool-cases,
}
use masterfadebackend.Agenda.Intervals.{Interval, covers, subtract_intervals}
use masterfadebackend.Agenda.Intervals.Subtract.{covers-subtract_intervals}
use masterfadebackend.Agenda.Intervals.Ends.{Ends, subtract_intervals-Ends}
use masterfadebackend.Agenda.Schedule.{
  BranchException, Shift, horario_especial, apertura_extra, cierre_parcial, is_empty, shift_at,
  build_base_intervals, mode_intervals, is_closed, apply_branch_exceptions,
  covers-apply_branch_exceptions, covers-build_base_intervals,
}
use masterfadebackend.Agenda.Schedule.Ends.{build_base_intervals-Ends, apply_branch_exceptions-Ends}
use masterfadebackend.Agenda.Slots.{minute_ms, Slot, SlotOptions, trim_intervals, build_slots}
use masterfadebackend.Agenda.Slots.Trim.{
  FloorHas, from_floor, covers-trim_intervals, trim_intervals-Starts,
}
use masterfadebackend.Agenda.Slots.Grid.{IsWithin, build_slots-IsWithin}

abbrev pub IsWhole : ℕ → Type 0
IsWhole t = t % minute_ms ≡ 0

abbrev pub IsWholeFloor : Option ℕ → Type 0
IsWholeFloor = FloorHas IsWhole

module _ {T : Type 0} (instant : T → ℕ) (minute_of_day : ℕ → ℕ) (o : SlotOptions) where
  -- Everything before the slots are laid out.
  unfoldable pub sellable_intervals :
      List (Shift T) → List (BranchException T) → List Interval → Option ℕ → List Interval
  sellable_intervals shifts es busy floor =
      trim_intervals
        (subtract_intervals
          (apply_branch_exceptions instant (build_base_intervals instant shifts) es) busy)
        floor

  -- The two early returns answer with no slot, as the empty list of intervals would.
  unfoldable pub available_slots :
      List (Shift T) → List (BranchException T) → List Interval → Option ℕ → List Slot
  available_slots shifts es busy floor =
      let opening = apply_branch_exceptions instant (build_base_intervals instant shifts) es in
      let sellable = sellable_intervals shifts es busy floor in
      if is_empty opening
      then []
      else if is_empty sellable
      then []
      else (build_slots minute_of_day o sellable).slots

  -- The instants at which the branch and the barber are at work, where the shifts give `base`.
  abbrev pub with_base : Bool → ℕ → List (BranchException T) → Bool
  with_base base t es =
      if is_closed instant es
      then false
      else ((if is_empty (mode_intervals instant horario_especial es)
            then base
            else covers t (mode_intervals instant horario_especial es))
          || covers t (mode_intervals instant apertura_extra es))
        && not (covers t (mode_intervals instant cierre_parcial es))

  abbrev pub at_work : List (Shift T) → List (BranchException T) → ℕ → Bool
  at_work shifts es t = with_base (any (shift_at instant t) shifts) t es

  covers-sellable_intervals :
      (t : ℕ) (shifts : List (Shift T)) (es : List (BranchException T)) (busy : List Interval)
      (floor : Option ℕ)
      → covers t (sellable_intervals shifts es busy floor)
        ≡ ((at_work shifts es t && not (covers t busy)) && from_floor floor t)
  unfolding sellable_intervals
  covers-sellable_intervals t shifts es busy floor =
      covers-trim_intervals t _ floor
      ∙ ap (λ b. b && from_floor floor t)
          (covers-subtract_intervals t _ busy
            ∙ ap (λ b. b && not (covers t busy))
                (covers-apply_branch_exceptions instant t (build_base_intervals instant shifts) es
                  ∙ ap (λ b. with_base b t es) (covers-build_base_intervals instant t shifts)))

  sellable_intervals-IsWhole :
      (shifts : List (Shift T)) (es : List (BranchException T)) (busy : List Interval)
      (floor : Option ℕ)
      → ((x : T) → IsWhole (instant x))
      → All (Ends IsWhole) busy
      → IsWholeFloor floor
      → All (λ i. IsWhole i.start) (sellable_intervals shifts es busy floor)
  unfolding sellable_intervals
  sellable_intervals-IsWhole shifts es busy floor times whole h =
      trim_intervals-Starts IsWhole _ floor h (
        subtract_intervals-Ends IsWhole _ busy
          (apply_branch_exceptions-Ends instant IsWhole times _ es
            (build_base_intervals-Ends instant IsWhole times shifts))
          whole)

  available_slots-All :
      (shifts : List (Shift T)) (es : List (BranchException T)) (busy : List Interval)
      (floor : Option ℕ)
      → ((x : T) → IsWhole (instant x))
      → All (Ends IsWhole) busy
      → IsWholeFloor floor
      → All
          (λ s.
            (t : ℕ)
            → s.inicio_at ≤ t
            → t < s.fin_at
            → ((at_work shifts es t && not (covers t busy)) && from_floor floor t) ≡ true)
          (available_slots shifts es busy floor)
  unfolding available_slots
  available_slots-All shifts es busy floor times whole h = elim (Bool-cases (is_empty opening)) [
    | inl shut ↦ rw shut tt
    | inr work ↦ elim (Bool-cases (is_empty sellable)) [
      | inl full ↦ rw (work, full) tt
      | inr left ↦
          rw (work, left)
            (All-map (IsWithin minute_of_day o sellable) _
              (λ s inside t p q.
                sym (covers-sellable_intervals t shifts es busy floor) ∙ inside t p q)
              _
              (build_slots-IsWithin minute_of_day o sellable
                (sellable_intervals-IsWhole shifts es busy floor times whole h)))
    ]
  ]
    where
      opening : List Interval
      opening = apply_branch_exceptions instant (build_base_intervals instant shifts) es

      sellable : List Interval
      sellable = sellable_intervals shifts es busy floor

  -- Where the times of day, the ends of the busy intervals and the earliest start stand on whole
  -- minutes, every instant of every slot offered is one at which branch and barber are at work, lies
  -- in no busy interval, and is not before the earliest start.
  pub available_slots-free :
      (shifts : List (Shift T)) (es : List (BranchException T)) (busy : List Interval)
      (floor : Option ℕ) (s : Slot) (t : ℕ)
      → ((x : T) → IsWhole (instant x))
      → All (Ends IsWhole) busy
      → IsWholeFloor floor
      → Memᴰ s (available_slots shifts es busy floor)
      → s.inicio_at ≤ t
      → t < s.fin_at
      → ((at_work shifts es t && not (covers t busy)) && from_floor floor t) ≡ true
  available_slots-free shifts es busy floor s t times whole h m p q =
      All-Memᴰ _ s (available_slots shifts es busy floor)
        (available_slots-All shifts es busy floor times whole h) m t p q
