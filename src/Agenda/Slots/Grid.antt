-- ===== src/Agenda/Slots/Grid.antt =====
-- Which slots the grid search finds: where they lie, how far apart, and that none is missed.
use native.Mathlib.Nat.{le_trans}
use masterfadebackend.Prelude.{
  ℕ, zero, suc, ◌+◌, ◌*◌, ◌/◌, ◌%◌, ◌≤◌, ◌<◌, ◌≡◌, ◌≢◌, inl, inr, List, [], ◌∷◌, Bool, true, false,
  le→leb, ◌⊎◌, subst, sym, arith, leb, ltb, ◌==◌, any, All, All-map, All-append, Bool-cases,
}
use masterfadebackend.Agenda.Intervals.{Interval, covers}
use masterfadebackend.Agenda.Slots.{
  minute_ms, Slot, SlotOptions, SlotResult, diff_minutes, add_minutes, has_unsellable_gap,
  align_to_step, slot_at, place, grid, interval_slots, build_slots,
}

-- Each start is at least `gap` past the one before, and the first is not before `from`.
abbrev pub SpacedFrom : ℕ → ℕ → List Slot → Type 0
SpacedFrom gap from [] = Unit
SpacedFrom gap from (s ∷ ss) = (from ≤ s.inicio_at) × SpacedFrom gap (s.inicio_at + gap) ss

SpacedFrom-mono : (gap m n : ℕ) (ss : List Slot) → m ≤ n → SpacedFrom gap n ss → SpacedFrom gap m ss
SpacedFrom-mono gap m n [] h s = tt
SpacedFrom-mono gap m n (x ∷ ss) h s = (le_trans h s.0, s.1)

-- What `align_to_step` does to an instant, whatever the clock says.
module _ (minute_of_day : ℕ → ℕ) (o : SlotOptions) where
  open o use {duration_min, step_min, min_sellable_min}

  pub start-lt-align_to_step : (t : ℕ) → t < align_to_step minute_of_day o t + minute_ms
  unfolding align_to_step
  start-lt-align_to_step t = ground arith

  pub le-align_to_step : (t : ℕ) → t % minute_ms ≡ 0 → t ≤ align_to_step minute_of_day o t
  unfolding align_to_step
  le-align_to_step t h = ground arith

  -- An instant off the minute whose minute stands on the step is aligned to before itself.
  pub align_to_step-lt :
      (t : ℕ)
      → t % minute_ms ≢ 0
      → minute_of_day (t / minute_ms * minute_ms) % step_min ≡ 0
      → align_to_step minute_of_day o t < t
  unfolding align_to_step
  align_to_step-lt t h k = ground arith

  -- What the code checks of a slot that it offers in the interval `i`.
  pub record IsOffer (i : Interval) (s : Slot) : Type 0 where
    pub lasts : s.fin_at ≡ s.inicio_at + duration_min * minute_ms
    pub fits : s.fin_at ≤ i.end
    pub sellable :
        has_unsellable_gap min_sellable_min
          (diff_minutes i.start s.inicio_at)
          (diff_minutes s.fin_at i.end)
        ≡ false

  place-IsOffer :
      (i : Interval) (c : ℕ) (rest : SlotResult)
      → leb (add_minutes c duration_min) i.end ≡ true
      → All (IsOffer i) rest.slots
      → All (IsOffer i) (place minute_of_day o i c rest).slots
  unfolding place slot_at
  place-IsOffer i c rest h a = ground arith

  grid-IsOffer :
      (fuel : ℕ) (i : Interval) (c : ℕ) → All (IsOffer i) (grid minute_of_day o fuel i c).slots
  unfolding grid
  grid-IsOffer zero i c = tt
  grid-IsOffer (suc fuel) i c = elim (Bool-cases (leb (add_minutes c duration_min) i.end)) [
    | inl more ↦ rw more (place-IsOffer i c _ more (grid-IsOffer fuel i (add_minutes c step_min)))
    | inr over ↦ rw over tt
  ]

  place-SpacedFrom :
      (gap : ℕ) (i : Interval) (c : ℕ) (rest : SlotResult)
      → SpacedFrom gap (c + gap) rest.slots
      → SpacedFrom gap c (place minute_of_day o i c rest).slots
  unfolding place slot_at
  place-SpacedFrom gap i c rest a = ground (arith, SpacedFrom-mono gap c (c + gap) rest.slots)

  grid-SpacedFrom :
      (fuel : ℕ) (i : Interval) (c : ℕ)
      → SpacedFrom (step_min * minute_ms) c (grid minute_of_day o fuel i c).slots
  unfolding grid
  grid-SpacedFrom zero i c = tt
  grid-SpacedFrom (suc fuel) i c = elim (Bool-cases (leb (add_minutes c duration_min) i.end)) [
    | inl more ↦ rw more (
        place-SpacedFrom (step_min * minute_ms) i c _
          (grid-SpacedFrom fuel i (add_minutes c step_min)))
    | inr over ↦ rw over tt
  ]

  abbrev pub starts_at : ℕ → List Slot → Bool
  starts_at c = any (λ s. s.inicio_at == c)

  abbrev IsSellable : Interval → ℕ → Type 0
  IsSellable i c =
      has_unsellable_gap min_sellable_min (diff_minutes i.start c)
        (diff_minutes (add_minutes c duration_min) i.end)
      ≡ false

  place-starts_at :
      (i : Interval) (c d : ℕ) (rest : SlotResult)
      → (starts_at d rest.slots ≡ true) ⊎ ((c ≡ d) × IsSellable i c)
      → starts_at d (place minute_of_day o i c rest).slots ≡ true
  unfolding place slot_at
  place-starts_at i c d rest (inl h) = ground arith
  place-starts_at i c d rest (inr h) = ground arith

  grid-starts_at :
      (fuel k : ℕ) (i : Interval) (c d : ℕ)
      → d ≡ c + k * (step_min * minute_ms)
      → k < fuel
      → add_minutes d duration_min ≤ i.end
      → IsSellable i d
      → starts_at d (grid minute_of_day o fuel i c).slots ≡ true
  unfolding grid
  grid-starts_at zero k i c d e h fits s = absurd (omega arith)
  grid-starts_at (suc fuel) zero i c d e h fits s =
      let same : d ≡ c = omega arith in
      rw (le→leb (add_minutes c duration_min) i.end (omega arith))
        (place-starts_at i c d _ (inr (sym same, subst (IsSellable i) same s)))
  grid-starts_at (suc fuel) (suc k) i c d e h fits s =
      rw (le→leb (add_minutes c duration_min) i.end (omega arith)) (
        place-starts_at i c d _ (
          inl (
            grid-starts_at fuel k i (add_minutes c step_min) d (omega arith) (omega arith) fits s)))

  -- A whole number of steps past `from`.
  pub record IsOnGrid (from : ℕ) (s : Slot) : Type 0 where
    pub steps : ℕ
    pub on_step : s.inicio_at ≡ from + steps * (step_min * minute_ms)

  IsOnGrid-next : (c : ℕ) (s : Slot) → IsOnGrid (add_minutes c step_min) s → IsOnGrid c s
  IsOnGrid-next c s g = record { steps = suc g.steps; on_step = omega (arith, g.on_step) }

  place-IsOnGrid :
      (i : Interval) (c : ℕ) (rest : SlotResult)
      → All (IsOnGrid c) rest.slots
      → All (IsOnGrid c) (place minute_of_day o i c rest).slots
  unfolding place slot_at
  place-IsOnGrid i c rest a =
      let here : IsOnGrid c (slot_at minute_of_day o i c) = record {
        steps = 0;
        on_step = omega arith;
      } in
      ground (arith, here)

  grid-IsOnGrid :
      (fuel : ℕ) (i : Interval) (c : ℕ) → All (IsOnGrid c) (grid minute_of_day o fuel i c).slots
  unfolding grid
  grid-IsOnGrid zero i c = tt
  grid-IsOnGrid (suc fuel) i c = elim (Bool-cases (leb (add_minutes c duration_min) i.end)) [
    | inl more ↦ rw more (
        place-IsOnGrid i c _ (
          All-map (IsOnGrid (add_minutes c step_min)) (IsOnGrid c) (IsOnGrid-next c) _
            (grid-IsOnGrid fuel i (add_minutes c step_min))))
    | inr over ↦ rw over tt
  ]

  -- The slots of one interval start on its grid, that is a whole number of steps past its aligned start,
  -- and a step apart at least; they end in the interval, last as long as the service and leave no gap
  -- too short to sell.
  pub interval_slots-IsOffer :
      (i : Interval)
      → All (IsOffer i) (interval_slots minute_of_day o i).slots
        × SpacedFrom
            (step_min * minute_ms)
            (align_to_step minute_of_day o i.start)
            (interval_slots minute_of_day o i).slots
        × All
            (IsOnGrid (align_to_step minute_of_day o i.start))
            (interval_slots minute_of_day o i).slots
  unfolding interval_slots
  interval_slots-IsOffer i = elim (Bool-cases (ltb (diff_minutes i.start i.end) duration_min)) [
    | inl short ↦ rw short (tt, tt, tt)
    | inr long ↦ rw long (grid-IsOffer _ i _, grid-SpacedFrom _ i _, grid-IsOnGrid _ i _)
  ]

  steps-le : (k c d : ℕ) → 0 < step_min → d ≡ c + k * (step_min * minute_ms) → k ≤ d
  steps-le k c d h e = grind arith

  -- No position is missed: where the service fits behind a step of the grid and leaves no gap too
  -- short to sell, a slot starts. So the rounds that the search is given are enough.
  pub interval_slots-starts_at :
      (i : Interval) (k d : ℕ)
      → 0 < step_min
      → d ≡ align_to_step minute_of_day o i.start + k * (step_min * minute_ms)
      → i.start ≤ d
      → add_minutes d duration_min ≤ i.end
      → IsSellable i d
      → starts_at d (interval_slots minute_of_day o i).slots ≡ true
  unfolding interval_slots
  interval_slots-starts_at i k d pos e from fits s =
      elim (Bool-cases (ltb (diff_minutes i.start i.end) duration_min)) [
        | inl short ↦ absurd (ground arith)
        | inr long ↦ rw long (
            grid-starts_at (suc i.end) k i _ d e
              (omega (arith, steps-le k (align_to_step minute_of_day o i.start) d pos e)) fits s)
      ]

  -- A slot that the interval contains, instant by instant.
  abbrev pub IsWithin : List Interval → Slot → Type 0
  IsWithin is s = (t : ℕ) → s.inicio_at ≤ t → t < s.fin_at → covers t is ≡ true

  offers-IsWithin :
      (i : Interval) (is : List Interval) (from : ℕ) (ss : List Slot)
      → i.start ≤ from
      → All (IsOffer i) ss
      → SpacedFrom (step_min * minute_ms) from ss
      → All (IsWithin (i ∷ is)) ss
  offers-IsWithin i is from [] h a b = tt
  offers-IsWithin i is from (s ∷ ss) h a b = (
    λ t p q. ground (arith, a.0.fits),
    offers-IsWithin i is (s.inicio_at + step_min * minute_ms) ss (omega arith) a.1 b.1,
  )

  IsWithin-cons :
      (i : Interval) (is : List Interval) (s : Slot) → IsWithin is s → IsWithin (i ∷ is) s
  IsWithin-cons i is s h t p q = ground (arith, h t p q)

  -- Where the intervals start on whole minutes, every slot lies within them from start to end.
  pub build_slots-IsWithin :
      (is : List Interval)
      → All (λ i. i.start % minute_ms ≡ 0) is
      → All (IsWithin is) (build_slots minute_of_day o is).slots
  unfolding build_slots
  build_slots-IsWithin [] a = tt
  build_slots-IsWithin (i ∷ is) a =
      let found = interval_slots-IsOffer i in
      All-append (IsWithin (i ∷ is)) _ (build_slots minute_of_day o is).slots
        (offers-IsWithin i is _ _ (le-align_to_step i.start a.0) found.0 found.1)
        (All-map (IsWithin is) (IsWithin (i ∷ is)) (IsWithin-cons i is) _
          (build_slots-IsWithin is a.1))
