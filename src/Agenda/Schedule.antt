-- ===== src/Agenda/Schedule.antt =====
-- The opening intervals of a day in services/agendaService.js: work shifts less lunch, the branch's
-- exceptions, and the earliest instant that may still be sold today.
pub mod Ends
use mathlib.Core.Bool.{or-false}
use masterfadebackend.Prelude.{
  ℕ, ◌≤◌, ◌<◌, ◌≡◌, refl, sym, ap, ap₂, ◌∙◌, inl, inr, List, [], ◌∷◌, ◌++◌, map, Option, none, some,
  Bool, true, false, ◌&&◌, ◌||◌, not, arith, leb, ltb, if◌then◌else◌, any, any-append, Bool-cases,
}
use masterfadebackend.Agenda.Intervals.{
  Interval, within, covers, normalize_interval, merge_intervals, subtract_intervals,
}
use masterfadebackend.Agenda.Intervals.Merge.{covers-merge_intervals}
use masterfadebackend.Agenda.Intervals.Subtract.{covers-subtract_intervals}

pub data ExceptionMode : Type 0 where
  cierre_total horario_especial apertura_extra cierre_parcial : ExceptionMode

abbrev pub same_mode : ExceptionMode → ExceptionMode → Bool
same_mode cierre_total cierre_total = true
same_mode horario_especial horario_especial = true
same_mode apertura_extra apertura_extra = true
same_mode cierre_parcial cierre_parcial = true
same_mode _ _ = false

-- `T` is the type of the times of day that the tables hold.
pub record Block (T : Type 0) : Type 0 where
  pub hora_inicio : T
  pub hora_fin : T

pub record BranchException (T : Type 0) : Type 0 where
  pub modo_excepcion_codigo : ExceptionMode
  pub bloques : List (Block T)

pub record Shift (T : Type 0) : Type 0 where
  pub hora_inicio : T
  pub hora_fin : T
  pub almuerzo_inicio : Option T
  pub almuerzo_fin : Option T

abbrev pub option_list {ℓ} : {A : Type ℓ} → Option A → List A
option_list none = []
option_list (some a) = a ∷ []

abbrev pub is_empty {ℓ} : {A : Type ℓ} → List A → Bool
is_empty [] = true
is_empty (x ∷ xs) = false

-- `instant` is `combineDateAndTime` at the day in question.
module _ {T : Type 0} (instant : T → ℕ) where
  unfoldable pub interval_of : T → T → Option Interval
  interval_of start end = normalize_interval (instant start) (instant end)

  unfoldable pub lunch_block : Option T → Option T → List Interval
  lunch_block (some start) (some end) = option_list (interval_of start end)
  lunch_block _ _ = []

  unfoldable pub shift_intervals : Option Interval → List Interval → List Interval
  shift_intervals none lunch = []
  shift_intervals (some work) lunch = subtract_intervals (work ∷ []) lunch

  unfoldable pub build_base_intervals : List (Shift T) → List Interval
  build_base_intervals [] = []
  build_base_intervals (s ∷ rest) =
      shift_intervals (interval_of s.hora_inicio s.hora_fin)
        (lunch_block s.almuerzo_inicio s.almuerzo_fin)
      ++ build_base_intervals rest

  unfoldable pub block_intervals : List (Block T) → List Interval
  block_intervals [] = []
  block_intervals (b ∷ bs) =
      option_list (interval_of b.hora_inicio b.hora_fin) ++ block_intervals bs

  -- `filter` by mode, then `flatMap` over the blocks.
  unfoldable pub mode_intervals : ExceptionMode → List (BranchException T) → List Interval
  mode_intervals m [] = []
  mode_intervals m (e ∷ es) =
      (if same_mode e.modo_excepcion_codigo m then block_intervals e.bloques else [])
      ++ mode_intervals m es

  abbrev pub is_closed : List (BranchException T) → Bool
  is_closed = any (λ e. same_mode e.modo_excepcion_codigo cierre_total)

  unfoldable pub special_hours : List Interval → List Interval → List Interval
  special_hours special intervals = if is_empty special then intervals else merge_intervals special

  unfoldable pub extra_hours : List Interval → List Interval → List Interval
  extra_hours extra intervals =
      if is_empty extra then intervals else merge_intervals (intervals ++ extra)

  unfoldable pub closed_hours : List Interval → List Interval → List Interval
  closed_hours closed intervals =
      if is_empty closed then intervals else subtract_intervals intervals closed

  unfoldable pub apply_branch_exceptions : List Interval → List (BranchException T) → List Interval
  apply_branch_exceptions base es =
      let intervals = merge_intervals base in
      let special = special_hours (mode_intervals horario_especial es) intervals in
      let extra = extra_hours (mode_intervals apertura_extra es) special in
      let open_hours = closed_hours (mode_intervals cierre_parcial es) extra in
      if is_closed es then [] else merge_intervals open_hours

  covers-special_hours :
      (t : ℕ) (special intervals : List Interval)
      → covers t (special_hours special intervals)
        ≡ (if is_empty special then covers t intervals else covers t special)
  unfolding special_hours
  covers-special_hours t [] intervals = refl
  covers-special_hours t (i ∷ is) intervals = covers-merge_intervals t (i ∷ is)

  covers-extra_hours :
      (t : ℕ) (extra intervals : List Interval)
      → covers t (extra_hours extra intervals) ≡ (covers t intervals || covers t extra)
  unfolding extra_hours
  covers-extra_hours t [] intervals = sym (or-false (covers t intervals))
  covers-extra_hours t (i ∷ is) intervals =
      covers-merge_intervals t (intervals ++ (i ∷ is)) ∙ any-append (within t) intervals (i ∷ is)

  covers-closed_hours :
      (t : ℕ) (closed intervals : List Interval)
      → covers t (closed_hours closed intervals) ≡ (covers t intervals && not (covers t closed))
  unfolding closed_hours
  covers-closed_hours t [] intervals = ground arith
  covers-closed_hours t (i ∷ is) intervals = covers-subtract_intervals t intervals (i ∷ is)

  -- A day with a total closure has no opening instant. On any other, an instant is open when the
  -- special hours contain it (or, without special hours, the base ones) or the extra openings do,
  -- and no partial closure contains it.
  pub covers-apply_branch_exceptions :
      (t : ℕ) (base : List Interval) (es : List (BranchException T))
      → covers t (apply_branch_exceptions base es) ≡ (
          if is_closed es
          then false
          else ((if is_empty (mode_intervals horario_especial es)
                then covers t base
                else covers t (mode_intervals horario_especial es))
              || covers t (mode_intervals apertura_extra es))
            && not (covers t (mode_intervals cierre_parcial es)))
  unfolding apply_branch_exceptions
  covers-apply_branch_exceptions t base es = elim (Bool-cases (is_closed es)) [
    | inl shut ↦ rw shut
    | inr open_day ↦ rw open_day (
        covers-merge_intervals t _
        ∙ covers-closed_hours t closed _
        ∙ ap (λ b. b && not (covers t closed))
            (covers-extra_hours t extra _
              ∙ ap (λ b. b || covers t extra)
                  (covers-special_hours t special _
                    ∙ ap (λ b. if is_empty special then b else covers t special)
                        (covers-merge_intervals t base))))
  ]
    where
      special : List Interval
      special = mode_intervals horario_especial es

      extra : List Interval
      extra = mode_intervals apertura_extra es

      closed : List Interval
      closed = mode_intervals cierre_parcial es

  -- The instants of a shift: those of its work interval that are not lunch.
  pub shift_at : ℕ → Shift T → Bool
  shift_at t s =
      covers t (option_list (interval_of s.hora_inicio s.hora_fin))
      && not (covers t (lunch_block s.almuerzo_inicio s.almuerzo_fin))

  covers-shift_intervals :
      (t : ℕ) (work : Option Interval) (lunch : List Interval)
      → covers t (shift_intervals work lunch)
        ≡ (covers t (option_list work) && not (covers t lunch))
  unfolding shift_intervals
  covers-shift_intervals t none lunch = refl
  covers-shift_intervals t (some w) lunch = covers-subtract_intervals t (w ∷ []) lunch

  -- The base intervals contain the instants at which some shift works and is not at lunch.
  pub covers-build_base_intervals :
      (t : ℕ) (shifts : List (Shift T))
      → covers t (build_base_intervals shifts) ≡ any (shift_at t) shifts
  unfolding build_base_intervals shift_at
  covers-build_base_intervals t [] = refl
  covers-build_base_intervals t (s ∷ rest) =
      any-append (within t) _ (build_base_intervals rest)
      ∙ ap₂ ◌||◌ (covers-shift_intervals t _ _) (covers-build_base_intervals t rest)
