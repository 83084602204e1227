-- ===== src/Agenda/Schedule/Ends.antt =====
-- Where every time of day is an instant with a property, the opening intervals have ends with it.
use masterfadebackend.Prelude.{
  ℕ, List, [], ◌∷◌, Option, none, some, inl, inr, arith, All, All-append, Bool-cases,
}
use masterfadebackend.Agenda.Intervals.{Interval, normalize_interval}
use masterfadebackend.Agenda.Intervals.Ends.{Ends, merge_intervals-Ends, subtract_intervals-Ends}
use masterfadebackend.Agenda.Schedule.{
  ExceptionMode, horario_especial, apertura_extra, cierre_parcial, same_mode, Block,
  BranchException, Shift, option_list, interval_of, lunch_block, shift_intervals,
  build_base_intervals, block_intervals, mode_intervals, is_closed, special_hours, extra_hours,
  closed_hours, apply_branch_exceptions,
}

module _ {T : Type 0} (instant : T → ℕ) (P : ℕ → Type 0) (times : (x : T) → P (instant x)) where
  interval_of-Ends : (a b : T) → All (Ends P) (option_list (interval_of instant a b))
  unfolding interval_of normalize_interval
  interval_of-Ends a b = ground (arith, times a, times b)

  lunch_block-Ends : (a b : Option T) → All (Ends P) (lunch_block instant a b)
  unfolding lunch_block
  lunch_block-Ends (some a) (some b) = interval_of-Ends a b
  lunch_block-Ends none _ = tt
  lunch_block-Ends (some a) none = tt

  shift_intervals-Ends :
      (work : Option Interval) (lunch : List Interval)
      → All (Ends P) (option_list work)
      → All (Ends P) lunch
      → All (Ends P) (shift_intervals instant work lunch)
  unfolding shift_intervals
  shift_intervals-Ends none lunch a k = tt
  shift_intervals-Ends (some w) lunch a k = subtract_intervals-Ends P (w ∷ []) lunch a k

  pub build_base_intervals-Ends :
      (shifts : List (Shift T)) → All (Ends P) (build_base_intervals instant shifts)
  unfolding build_base_intervals
  build_base_intervals-Ends [] = tt
  build_base_intervals-Ends (s ∷ rest) =
      All-append (Ends P) _ (build_base_intervals instant rest)
        (shift_intervals-Ends _ _ (interval_of-Ends s.hora_inicio s.hora_fin)
          (lunch_block-Ends s.almuerzo_inicio s.almuerzo_fin))
        (build_base_intervals-Ends rest)

  block_intervals-Ends : (bs : List (Block T)) → All (Ends P) (block_intervals instant bs)
  unfolding block_intervals
  block_intervals-Ends [] = tt
  block_intervals-Ends (b ∷ bs) =
      All-append (Ends P) _ (block_intervals instant bs) (interval_of-Ends b.hora_inicio b.hora_fin)
        (block_intervals-Ends bs)

  mode_intervals-Ends :
      (m : ExceptionMode) (es : List (BranchException T))
      → All (Ends P) (mode_intervals instant m es)
  unfolding mode_intervals
  mode_intervals-Ends m [] = tt
  mode_intervals-Ends m (e ∷ es) = elim (Bool-cases (same_mode e.modo_excepcion_codigo m)) [
    | inl same ↦ rw same (
        All-append (Ends P) _ (mode_intervals instant m es) (block_intervals-Ends e.bloques)
          (mode_intervals-Ends m es))
    | inr other ↦ rw other (mode_intervals-Ends m es)
  ]

  special_hours-Ends :
      (special is : List Interval)
      → All (Ends P) special
      → All (Ends P) is
      → All (Ends P) (special_hours instant special is)
  unfolding special_hours
  special_hours-Ends [] is a k = k
  special_hours-Ends (i ∷ special) is a k = merge_intervals-Ends P (i ∷ special) a

  extra_hours-Ends :
      (extra is : List Interval)
      → All (Ends P) extra
      → All (Ends P) is
      → All (Ends P) (extra_hours instant extra is)
  unfolding extra_hours
  extra_hours-Ends [] is a k = k
  extra_hours-Ends (i ∷ extra) is a k =
      merge_intervals-Ends P _ (All-append (Ends P) is (i ∷ extra) k a)

  closed_hours-Ends :
      (closed is : List Interval)
      → All (Ends P) closed
      → All (Ends P) is
      → All (Ends P) (closed_hours instant closed is)
  unfolding closed_hours
  closed_hours-Ends [] is a k = k
  closed_hours-Ends (i ∷ closed) is a k = subtract_intervals-Ends P is (i ∷ closed) k a

  pub apply_branch_exceptions-Ends :
      (base : List Interval) (es : List (BranchException T))
      → All (Ends P) base
      → All (Ends P) (apply_branch_exceptions instant base es)
  unfolding apply_branch_exceptions
  apply_branch_exceptions-Ends base es a = elim (Bool-cases (is_closed instant es)) [
    | inl shut ↦ rw shut tt
    | inr open_day ↦ rw open_day (
        merge_intervals-Ends P _ (
          closed_hours-Ends _ _ (mode_intervals-Ends cierre_parcial es) (
            extra_hours-Ends _ _ (mode_intervals-Ends apertura_extra es) (
              special_hours-Ends _ _ (mode_intervals-Ends horario_especial es)
                (merge_intervals-Ends P base a)))))
  ]
