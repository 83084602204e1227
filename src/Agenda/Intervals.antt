-- ===== src/Agenda/Intervals.antt =====
-- The interval arithmetic of services/agendaService.js. An instant is a `Date` as its `getTime()`, in milliseconds.
pub mod Merge
pub mod Subtract
pub mod Ends
use masterfadebackend.Prelude.{
  ℕ, min, max, List, [], ◌∷◌, ◌++◌, Option, none, some, Bool, ◌&&◌, ltb, leb, if◌then◌else◌, filter,
  any, sort_by,
}

pub record Interval : Type 0 where
  pub start : ℕ
  pub end : ℕ

-- An interval contains its start and not its end.
abbrev pub within : ℕ → Interval → Bool
within t i = leb i.start t && ltb t i.end

abbrev pub covers : ℕ → List Interval → Bool
covers t = any (within t)

unfoldable pub normalize_interval : ℕ → ℕ → Option Interval
normalize_interval start end =
    if leb end start then none else some (record { start = start; end = end })

abbrev cons_some {ℓ} : {A : Type ℓ} → Option A → List A → List A
cons_some none xs = xs
cons_some (some x) xs = x ∷ xs

-- The `map` of `normalizeInterval` and the `filter(Boolean)` after it.
normalize_all : List Interval → List Interval
unfolding normalize_interval
normalize_all [] = []
normalize_all (i ∷ is) = cons_some (normalize_interval i.start i.end) (normalize_all is)

abbrev starts_before : Interval → Interval → Bool
starts_before a b = leb a.start b.start

-- The last merged interval after one that starts within it or at its end.
extend : Interval → Interval → Interval
extend last current = if ltb last.end current.end then record last { end = current.end } else last

-- The loop of `mergeIntervals`, with the last merged interval at hand.
merge_from : Interval → List Interval → List Interval
unfolding extend
merge_from last [] = last ∷ []
merge_from last (current ∷ rest) =
    let joined = merge_from (extend last current) rest in
    let apart = last ∷ merge_from current rest in
    if leb current.start last.end then joined else apart

merge_prepared : List Interval → List Interval
unfolding merge_from
merge_prepared [] = []
merge_prepared (first ∷ rest) = merge_from first rest

unfoldable pub merge_intervals : List Interval → List Interval
unfolding merge_prepared normalize_all
merge_intervals is = merge_prepared (sort_by starts_before (normalize_all is))

-- What is pushed behind the inner loop of `subtractIntervals`.
last_piece : ℕ → ℕ → List Interval
last_piece pointer end = if ltb pointer end then record { start = pointer; end = end } ∷ [] else []

-- The inner loop of `subtractIntervals`, for one base interval that ends at `end`.
free_pieces : ℕ → ℕ → List Interval → List Interval
unfolding last_piece
free_pieces pointer end [] = last_piece pointer end
free_pieces pointer end (busy ∷ rest) =
    let skipped = free_pieces pointer end rest in
    let next = if ltb pointer busy.end then max pointer busy.end else pointer in
    let later = free_pieces next end rest in
    if leb busy.end pointer
    then skipped
    else if leb end busy.start
    then last_piece pointer end
    else if ltb pointer busy.start
    then record { start = pointer; end = min busy.start end } ∷ later
    else later

subtract_each : List Interval → List Interval → List Interval
unfolding free_pieces
subtract_each [] busy = []
subtract_each (base ∷ bases) busy = free_pieces base.start base.end busy ++ subtract_each bases busy

abbrev is_nonempty : Interval → Bool
is_nonempty i = ltb i.start i.end

unfoldable pub subtract_intervals : List Interval → List Interval → List Interval
unfolding merge_intervals subtract_each
subtract_intervals bases busy = filter is_nonempty (subtract_each bases (merge_intervals busy))
