-- ===== src/Agenda/Examples.antt =====
-- The agenda at concrete days: instants are minutes of one day, in milliseconds.
use masterfadebackend.Prelude.{
  ℕ, ◌*◌, ◌/◌, ◌≡◌, refl, sym, subst, All, List, [], ◌∷◌, Memᴰ, none, some, true, false, ◌&&◌, ◌||◌,
  not, arith,
}
use masterfadebackend.Agenda.Intervals.{
  Interval, covers, normalize_interval, merge_intervals, subtract_intervals,
}
use masterfadebackend.Agenda.Intervals.Merge.{covers-merge_intervals}
use masterfadebackend.Agenda.Intervals.Subtract.{covers-subtract_intervals}
use masterfadebackend.Agenda.Schedule.{
  Shift, BranchException, cierre_parcial, interval_of, lunch_block, shift_intervals,
  block_intervals, special_hours, extra_hours, closed_hours, build_base_intervals,
  apply_branch_exceptions, mode_intervals, covers-apply_branch_exceptions,
}
use masterfadebackend.Agenda.Slots.{
  minute_ms, Slot, SlotOptions, trim_from, trim_intervals, grid, place, push_discarded,
  discarded_at, slot_at, build_slots, interval_slots, align_to_step,
}
use masterfadebackend.Agenda.Slots.Trim.{from_floor}
use masterfadebackend.Agenda.Slots.Grid.{
  starts_at, IsOffer, IsOnGrid, SpacedFrom, interval_slots-starts_at, interval_slots-IsOffer,
}
use masterfadebackend.Agenda.Availability.{
  available_slots, IsWhole, sellable_intervals, available_slots-free, at_work,
}

abbrev instant : ℕ → ℕ
instant m = m * minute_ms

abbrev minute_of_day : ℕ → ℕ
minute_of_day t = t / minute_ms

abbrev between : ℕ → ℕ → Interval
between from to = record { start = instant from; end = instant to }

abbrev options : SlotOptions
options = record {
  duration_min = 30;
  step_min = 15;
  min_sellable_min = 0;
  include_discarded = false;
}

-- From nine to noon, with lunch from half past ten for half an hour.
abbrev shift : Shift ℕ
shift = record {
  hora_inicio = 540;
  hora_fin = 720;
  almuerzo_inicio = some 630;
  almuerzo_fin = some 660;
}

abbrev closing : BranchException ℕ
closing = record {
  modo_excepcion_codigo = cierre_parcial;
  bloques = record { hora_inicio = 690; hora_fin = 720 } ∷ [];
}

abbrev busy : List Interval
busy = between 570 600 ∷ []

free_intervals :
    sellable_intervals instant minute_of_day options (shift ∷ []) (closing ∷ []) busy none
    ≡ between 540 570 ∷ between 600 630 ∷ between 660 690 ∷ []
unfolding sellable_intervals build_base_intervals apply_branch_exceptions subtract_intervals
    trim_intervals trim_from mode_intervals merge_intervals shift_intervals interval_of lunch_block
    block_intervals special_hours extra_hours closed_hours normalize_interval
free_intervals = refl

offered :
    available_slots instant minute_of_day options (shift ∷ []) (closing ∷ []) busy none
    ≡ slot_at minute_of_day options (between 540 570) (instant 540)
      ∷ slot_at minute_of_day options (between 600 630) (instant 600)
      ∷ slot_at minute_of_day options (between 660 690) (instant 660)
      ∷ []
unfolding available_slots sellable_intervals build_base_intervals apply_branch_exceptions
    subtract_intervals trim_intervals trim_from mode_intervals merge_intervals shift_intervals
    interval_of lunch_block block_intervals special_hours extra_hours closed_hours
    normalize_interval build_slots interval_slots align_to_step slot_at grid place push_discarded
    discarded_at
offered = refl

instant-IsWhole : (m : ℕ) → IsWhole (instant m)
instant-IsWhole m = omega arith

abbrev first_slot : Slot
first_slot = slot_at minute_of_day options (between 540 570) (instant 540)

first_slot-offered :
    Memᴰ first_slot
      (available_slots instant minute_of_day options (shift ∷ []) (closing ∷ []) busy none)
first_slot-offered = subst (Memᴰ first_slot) (sym offered) (Memᴰ.head refl)

available_slots-free_example :
    ((at_work instant minute_of_day options (shift ∷ []) (closing ∷ []) (instant 555)
        && not (covers (instant 555) busy))
      && from_floor none (instant 555))
    ≡ true
unfolding slot_at
available_slots-free_example =
    available_slots-free instant minute_of_day options (shift ∷ []) (closing ∷ []) busy none
      first_slot (instant 555) instant-IsWhole ((refl, refl), tt) tt first_slot-offered
      (omega arith) (omega arith)

interval_slots-starts_at_example :
    starts_at minute_of_day options
      (instant 615)
      (interval_slots minute_of_day options (between 600 660)).slots
    ≡ true
unfolding align_to_step
interval_slots-starts_at_example =
    interval_slots-starts_at minute_of_day options (between 600 660) 1 (instant 615) (omega arith)
      refl (omega arith) (omega arith) refl

interval_slots-IsOffer_example :
    All
      (IsOffer minute_of_day options (between 600 660))
      (interval_slots minute_of_day options (between 600 660)).slots
    × SpacedFrom
        (15 * minute_ms)
        (align_to_step minute_of_day options (instant 600))
        (interval_slots minute_of_day options (between 600 660)).slots
    × All
        (IsOnGrid minute_of_day options (align_to_step minute_of_day options (instant 600)))
        (interval_slots minute_of_day options (between 600 660)).slots
interval_slots-IsOffer_example = interval_slots-IsOffer minute_of_day options (between 600 660)

covers-subtract_intervals_example :
    covers (instant 580) (subtract_intervals (between 540 660 ∷ []) busy)
    ≡ (covers (instant 580) (between 540 660 ∷ []) && not (covers (instant 580) busy))
covers-subtract_intervals_example =
    covers-subtract_intervals (instant 580) (between 540 660 ∷ []) busy

abbrev touching : List Interval
touching = between 600 660 ∷ between 540 600 ∷ between 700 690 ∷ []

covers-merge_intervals_example :
    covers (instant 600) (merge_intervals touching) ≡ covers (instant 600) touching
covers-merge_intervals_example = covers-merge_intervals (instant 600) touching

covers-apply_branch_exceptions_example :
    covers (instant 700) (apply_branch_exceptions instant (between 540 720 ∷ []) (closing ∷ [])) ≡ (
      (covers (instant 700) (between 540 720 ∷ []) || covers (instant 700) [])
      && not (covers (instant 700) (between 690 720 ∷ [])))
unfolding mode_intervals block_intervals interval_of normalize_interval
covers-apply_branch_exceptions_example =
    covers-apply_branch_exceptions instant (instant 700) (between 540 720 ∷ []) (closing ∷ [])
