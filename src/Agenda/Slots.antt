-- ===== src/Agenda/Slots.antt =====
-- The slots of services/agendaService.js: `trimIntervalsByMinimumStart` and `buildSlotsFromIntervals`.
pub mod Trim
pub mod Grid
use masterfadebackend.Prelude.{
  ℕ, zero, suc, ◌+◌, ◌-◌, ◌*◌, ◌/◌, ◌%◌, List, [], ◌∷◌, ◌++◌, Option, none, some, Bool, true, false,
  ◌&&◌, ◌||◌, leb, ltb, if◌then◌else◌,
}
use masterfadebackend.Agenda.Intervals.{Interval, normalize_interval}

abbrev pub minute_ms : ℕ
minute_ms = 60000

trim_one : ℕ → Option Interval → List Interval
trim_one floor none = []
trim_one floor (some i) =
    if leb i.end floor
    then []
    else record { start = if ltb i.start floor then floor else i.start; end = i.end } ∷ []

unfoldable pub trim_from : ℕ → List Interval → List Interval
unfolding trim_one normalize_interval
trim_from floor [] = []
trim_from floor (i ∷ is) = trim_one floor (normalize_interval i.start i.end) ++ trim_from floor is

-- `none` is a minimum start that is no valid date: nothing is trimmed.
unfoldable pub trim_intervals : List Interval → Option ℕ → List Interval
trim_intervals is none = is
trim_intervals is (some floor) = trim_from floor is

-- A slot, with the operational context that the source attaches to it as a hidden property.
-- `hora` is the label of the start, as the minute of the day.
pub record Slot : Type 0 where
  pub inicio_at : ℕ
  pub fin_at : ℕ
  pub hora : ℕ
  pub free_interval_start_at : ℕ
  pub free_interval_end_at : ℕ
  pub free_interval_duration_min : ℕ
  pub residual_before_min : ℕ
  pub residual_after_min : ℕ

pub data DiscardReason : Type 0 where
  residual_gap_not_sellable duration_insufficient : DiscardReason

pub record Discarded : Type 0 where
  pub reason : DiscardReason
  pub inicio_at : ℕ
  pub fin_at : ℕ
  pub intervalo_inicio_at : ℕ
  pub intervalo_fin_at : ℕ

pub record SlotResult : Type 0 where
  pub slots : List Slot
  pub discarded : List Discarded

-- `Math.max(0, Math.round(d / 60000))`, a difference below zero being 0.
abbrev pub diff_minutes : ℕ → ℕ → ℕ
diff_minutes from to = (to - from + 30000) / minute_ms

abbrev pub add_minutes : ℕ → ℕ → ℕ
add_minutes date minutes = date + minutes * minute_ms

-- A residual gap that is too short to sell. With `least` 0 nothing is.
abbrev pub is_short : ℕ → ℕ → Bool
is_short least gap = ltb 0 gap && ltb gap least

abbrev pub has_unsellable_gap : ℕ → ℕ → ℕ → Bool
has_unsellable_gap least before after =
    ltb 0 least && (is_short least before || is_short least after)

pub record SlotOptions : Type 0 where
  pub duration_min : ℕ
  pub step_min : ℕ
  pub min_sellable_min : ℕ
  pub include_discarded : Bool

-- `minute_of_day` is `getMinutesFromDayStart`, the wall clock of the time zone.
module _ (minute_of_day : ℕ → ℕ) (o : SlotOptions) where
  open o use {duration_min, step_min, min_sellable_min, include_discarded}

  unfoldable pub align_to_step : ℕ → ℕ
  align_to_step date =
      let aligned = date / minute_ms * minute_ms in
      let remainder = minute_of_day aligned % step_min in
      if ltb 0 remainder then aligned + (step_min - remainder) * minute_ms else aligned

  unfoldable pub slot_at : Interval → ℕ → Slot
  slot_at i cursor =
      let slot_end = add_minutes cursor duration_min in
      record {
        inicio_at = cursor;
        fin_at = slot_end;
        hora = minute_of_day cursor;
        free_interval_start_at = i.start;
        free_interval_end_at = i.end;
        free_interval_duration_min = diff_minutes i.start i.end;
        residual_before_min = diff_minutes i.start cursor;
        residual_after_min = diff_minutes slot_end i.end;
      }

  unfoldable pub push_discarded : Discarded → List Discarded → List Discarded
  push_discarded d ds = if include_discarded then d ∷ ds else ds

  unfoldable pub discarded_at : DiscardReason → Interval → ℕ → ℕ → Discarded
  discarded_at reason i start end = record {
    reason = reason;
    inicio_at = start;
    fin_at = end;
    intervalo_inicio_at = i.start;
    intervalo_fin_at = i.end;
  }

  -- One round of the `while` at `cursor`, before the results of the later rounds.
  unfoldable pub place : Interval → ℕ → SlotResult → SlotResult
  unfolding discarded_at push_discarded
  place i cursor rest =
      let slot_end = add_minutes cursor duration_min in
      if has_unsellable_gap min_sellable_min (diff_minutes i.start cursor)
        (diff_minutes slot_end i.end)
      then record rest {
        discarded =
            push_discarded (discarded_at residual_gap_not_sellable i cursor slot_end)
              rest.discarded;
      }
      else record rest { slots = slot_at i cursor ∷ rest.slots }

  abbrev no_slots : SlotResult
  no_slots = record { slots = []; discarded = [] }

  -- The `while` over the cursor, on fuel.
  unfoldable pub grid : ℕ → Interval → ℕ → SlotResult
  grid zero i cursor = no_slots
  grid (suc fuel) i cursor =
      let rest = place i cursor (grid fuel i (add_minutes cursor step_min)) in
      if leb (add_minutes cursor duration_min) i.end then rest else no_slots

  -- A step is at least a minute, so the milliseconds of the interval are rounds enough.
  unfoldable pub interval_slots : Interval → SlotResult
  interval_slots i =
      let searched = grid (suc i.end) i (align_to_step i.start) in
      if ltb (diff_minutes i.start i.end) duration_min
      then record {
        slots = [];
        discarded = push_discarded (discarded_at duration_insufficient i i.start i.end) [];
      }
      else searched

  unfoldable pub build_slots : List Interval → SlotResult
  build_slots [] = no_slots
  build_slots (i ∷ is) =
      let here = interval_slots i in
      let rest = build_slots is in
      record { slots = here.slots ++ rest.slots; discarded = here.discarded ++ rest.discarded }
