-- ===== src/Booking/Attempts/Complete.antt =====
-- What is not left out: a combination without a slot taken twice is tried, where there are not too many.
use masterfadebackend.Prelude.{
  ℕ, ◌+◌, ◌≤◌, ◌≡◌, ◌≢◌, refl, sym, ap, subst, ◌∙◌, inl, inr, List, [], ◌∷◌, ◌++◌, map, Option,
  none, some, Bool, true, false, ◌||◌, ltb, any, length, sum_by, All, All-map, Memᴰ, Bool-cases,
  length-append, arith, if◌then◌else◌,
}
use masterfadebackend.Booking.Attempts.{
  Choice, Integrante, Part, Found, signature, same_signature, clashes, same, same_part, is_seen,
  leaf, is_over, each, walk, options, build_attempts, build_assignment_attempts,
}
use masterfadebackend.Booking.Attempts.Slots.{IsFree, clashes-IsFree, IsFree-clashes}
use masterfadebackend.Booking.Attempts.Combinations.{
  Picks, nobody, picked, append-nil, append-snoc, walk-keeps, Apart, walk-IsSound,
}

same_refl : (a : Option ℕ) → same a a ≡ true
same_refl none = refl
same_refl (some a) = ground arith

same_part_refl : (x : Part) → same_part x x ≡ true
same_part_refl x = ground (arith, same_refl x.barber, same_refl x.start)

same_signature_refl : (xs : List Part) → same_signature xs xs ≡ true
unfolding same_signature
same_signature_refl [] = refl
same_signature_refl (x ∷ xs) = ground (arith, same_part_refl x, same_signature_refl xs)

or_true : (b : Bool) → (b || true) ≡ true
or_true true = refl
or_true false = refl

leaf-sees : (x os : List Choice) (s : Found) → is_seen x s ≡ true → is_seen x (leaf os s) ≡ true
unfolding leaf is_seen
leaf-sees x os s e = elim (Bool-cases (clashes os)) [
  | inl bad ↦ rw bad e
  | inr fine ↦ elim (Bool-cases (is_seen os s)) [
    | inl old ↦ rw (fine, old) e
    | inr new ↦ rw (fine, new, e) (or_true _)
  ]
]

walk-sees :
    (x : List Choice) (max : ℕ) (gs : List (List Choice)) (selected : List Choice) (s : Found)
    → is_seen x s ≡ true
    → is_seen x (walk max gs selected s) ≡ true
walk-sees x max gs selected s e =
    walk-keeps (λ t. is_seen x t ≡ true) max gs selected
      (λ os picks t p. leaf-sees x (selected ++ os) t p) s e

-- Once there are too many, the walk does nothing.
walk-stuck :
    (max : ℕ) (gs : List (List Choice)) (selected : List Choice) (s : Found)
    → is_over max s ≡ true
    → walk max gs selected s ≡ s
unfolding walk
walk-stuck max [] selected s e = rw e refl
walk-stuck max (g ∷ gs) selected s e = rw e refl

each-stuck :
    (max : ℕ) (gs : List (List Choice)) (selected os : List Choice) (s : Found)
    → is_over max s ≡ true
    → each (λ o. walk max gs (selected ++ o ∷ [])) os s ≡ s
each-stuck max gs selected [] s e = refl
each-stuck max gs selected (o ∷ os) s e =
    rw (walk-stuck max gs (selected ++ o ∷ []) s e) (each-stuck max gs selected os s e)

each-sees :
    (x : List Choice) (max : ℕ) (gs : List (List Choice)) (selected os : List Choice) (s : Found)
    → is_seen x s ≡ true
    → is_seen x (each (λ o. walk max gs (selected ++ o ∷ [])) os s) ≡ true
each-sees x max gs selected [] s e = e
each-sees x max gs selected (o ∷ os) s e =
    each-sees x max gs selected os _ (walk-sees x max gs (selected ++ o ∷ []) s e)

-- The walk below an option has not found too many, where the loop after it has not.
each-before :
    (max : ℕ) (gs : List (List Choice)) (selected os : List Choice) (s : Found)
    → is_over max (each (λ o. walk max gs (selected ++ o ∷ [])) os s) ≡ false
    → is_over max s ≡ false
each-before max gs selected os s e = elim (Bool-cases (is_over max s)) [
  | inr fine ↦ fine
  | inl over ↦ sym (ap (is_over max) (each-stuck max gs selected os s over)) ∙ e
]

leaf-done : (os : List Choice) (s : Found) → clashes os ≡ false → is_seen os (leaf os s) ≡ true
unfolding leaf is_seen
leaf-done os s fine = elim (Bool-cases (is_seen os s)) [
  | inl old ↦ rw (fine, old) old
  | inr new ↦ rw (fine, new, same_signature_refl (signature os)) refl
]

-- Every combination below the selection that has no slot taken twice is seen.
Done : List (List Choice) → List Choice → Found → Type 0
Done gs selected s =
    (os : List Choice)
    → Picks gs os
    → clashes (selected ++ os) ≡ false
    → is_seen (selected ++ os) s ≡ true

each-Done :
    (max : ℕ) (gs : List (List Choice)) (selected : List Choice)
    → ((o : Choice) (s : Found)
        → is_over max (walk max gs (selected ++ o ∷ []) s) ≡ false
        → Done gs (selected ++ o ∷ []) (walk max gs (selected ++ o ∷ []) s))
    → (g : List Choice) (s : Found)
    → is_over max (each (λ o. walk max gs (selected ++ o ∷ [])) g s) ≡ false
    → (o : Choice) → Memᴰ o g
    → Done gs (selected ++ o ∷ []) (each (λ o. walk max gs (selected ++ o ∷ [])) g s)
unfolding Done
each-Done max gs selected rest [] s e o m os picks fine = elim m [ ]
each-Done max gs selected rest (p ∷ ps) s e o (Memᴰ.head eq) os picks fine =
    each-sees _ max gs selected ps _ (
      subst (λ q. is_seen ((selected ++ q ∷ []) ++ os) (walk max gs (selected ++ p ∷ []) s) ≡ true)
        (sym eq)
        (rest p s (each-before max gs selected ps _ e) os picks
          (subst (λ q. clashes ((selected ++ q ∷ []) ++ os) ≡ false) eq fine)))
each-Done max gs selected rest (p ∷ ps) s e o (Memᴰ.tail m) os picks fine =
    each-Done max gs selected rest ps (walk max gs (selected ++ p ∷ []) s) e o m os picks fine

walk-before :
    (max : ℕ) (gs : List (List Choice)) (selected : List Choice) (s : Found)
    → is_over max (walk max gs selected s) ≡ false
    → is_over max s ≡ false
walk-before max gs selected s e = elim (Bool-cases (is_over max s)) [
  | inr fine ↦ fine
  | inl over ↦ sym (ap (is_over max) (walk-stuck max gs selected s over)) ∙ e
]

walk-Done :
    (max : ℕ) (gs : List (List Choice)) (selected : List Choice) (s : Found)
    → is_over max (walk max gs selected s) ≡ false
    → Done gs selected (walk max gs selected s)
unfolding walk Done
walk-Done max [] selected s e [] nobody fine = rw (walk-before max [] selected s e) (
    subst (λ xs. is_seen xs (leaf selected s) ≡ true) (sym (append-nil selected))
      (leaf-done selected s (subst (λ xs. clashes xs ≡ false) (append-nil selected) fine)))
walk-Done max [] selected s e (o ∷ os) picks fine = elim picks [ ]
walk-Done max (g ∷ gs) selected s e [] picks fine = elim picks [ ]
walk-Done max (g ∷ gs) selected s e (o ∷ os) (picked m picks) fine =
    let free = walk-before max (g ∷ gs) selected s e in
    rw free (
      subst (λ xs. is_seen xs (each (λ o. walk max gs (selected ++ o ∷ [])) g s) ≡ true)
        (append-snoc selected o os)
        (each-Done max gs selected (λ o s. walk-Done max gs (selected ++ o ∷ []) s) g s
          (rw free at e) o m os picks
          (subst (λ xs. clashes xs ≡ false) (sym (append-snoc selected o os)) fine)))

-- What the attempts are for the options of each member.
pub record IsEveryWay (max : ℕ) (groups xs : List (List Choice)) : Type 0 where
  pub le : length xs ≤ max
  pub fits : All (λ a. Picks groups a × IsFree a) xs
  pub apart : Apart xs
  pub complete :
      (os : List Choice)
      → Picks groups os
      → IsFree os
      → any (λ a. same_signature (signature os) (signature a)) xs ≡ true

within : (max n : ℕ) → ltb max n ≡ false → n ≤ max
within max n e = ground arith

groups-IsEveryWay :
    (max : ℕ) (groups xs : List (List Choice))
    → build_attempts max groups ≡ some xs
    → IsEveryWay max groups xs
unfolding build_attempts Done
groups-IsEveryWay max groups xs e =
    let found = walk max groups [] (record { attempts = []; seen = [] }) in
    elim (Bool-cases (is_over max found)) [
      | inl over ↦ (let wrong : none ≡ some xs = rw over at e in cc)
      | inr fine ↦
          let same' : found.attempts ≡ xs = some-injective (rw fine at e) in
          let sound = walk-IsSound max groups in
          subst (IsEveryWay max groups) same' (record {
            le = within max (length found.attempts) fine;
            fits =
                All-map (λ a. Picks groups a × (clashes a ≡ false)) (λ a. Picks groups a × IsFree a)
                  (λ a p. (p.0, clashes-IsFree a p.1)) found.attempts sound.fits;
            apart = sound.apart;
            complete = λ os picks free.
                sym (sound.tracks (signature os))
                ∙ (unfold is_seen in
                    walk-Done max groups [] (record { attempts = []; seen = [] }) fine os picks
                      (IsFree-clashes os free));
          })
    ]
  where
    some-injective : {a b : List (List Choice)} → some a ≡ some b → a ≡ b
    some-injective q = cc

-- The attempts that are answered are at most as many as allowed. Each picks one of the options of every
-- member, in the order of the members, and takes no barber twice at one time; no two of them have the same
-- orders, barbers and starts; and every such pick of options has an attempt with its orders, barbers and
-- starts.
pub build_assignment_attempts-IsEveryWay :
    (is_uuid : ℕ → Bool) (max : ℕ) (integrantes : List Integrante) (xs : List (List Choice))
    → build_assignment_attempts is_uuid max integrantes ≡ some xs
    → IsEveryWay max (map (options is_uuid) integrantes) xs
unfolding build_assignment_attempts
build_assignment_attempts-IsEveryWay is_uuid max integrantes xs e =
    groups-IsEveryWay max (map (options is_uuid) integrantes) xs e

-- The number of picks of one option of each member.
unfoldable pub ways : List (List Choice) → ℕ
ways [] = 1
ways (g ∷ gs) = sum_by (λ o. ways gs) g

leaf-le : (os : List Choice) (s : Found) → length (leaf os s).attempts ≤ length s.attempts + 1
unfolding leaf
leaf-le os s = elim (Bool-cases (clashes os)) [
  | inl bad ↦ rw bad (omega arith)
  | inr fine ↦ elim (Bool-cases (is_seen os s)) [
    | inl old ↦ rw (fine, old) (omega arith)
    | inr new ↦ rw (fine, new) (omega (arith, length-append s.attempts (os ∷ [])))
  ]
]

each-le :
    (n : ℕ) (f : Choice → Found → Found)
    → ((o : Choice) (s : Found) → length (f o s).attempts ≤ length s.attempts + n)
    → (g : List Choice) (s : Found)
    → length (each f g s).attempts ≤ length s.attempts + sum_by (λ o. n) g
each-le n f le [] s = omega arith
each-le n f le (o ∷ os) s = omega (arith, each-le n f le os (f o s), le o s)

branch-le :
    (b : Bool) (s t : Found) (n : ℕ)
    → length t.attempts ≤ length s.attempts + n
    → length (if b then s else t).attempts ≤ length s.attempts + n
branch-le true s t n h = omega arith
branch-le false s t n h = h

walk-le :
    (max : ℕ) (gs : List (List Choice)) (selected : List Choice) (s : Found)
    → length (walk max gs selected s).attempts ≤ length s.attempts + ways gs
unfolding walk ways
walk-le max [] selected s = branch-le (is_over max s) s (leaf selected s) 1 (leaf-le selected s)
walk-le max (g ∷ gs) selected s =
    branch-le (is_over max s) s (each (λ o. walk max gs (selected ++ o ∷ [])) g s)
      (sum_by (λ o. ways gs) g)
      (each-le (ways gs) (λ o. walk max gs (selected ++ o ∷ []))
        (λ o s. walk-le max gs (selected ++ o ∷ []) s) g s)

crowded : (max n w : ℕ) → ltb max n ≡ true → n ≤ 0 + w → w ≤ max → ⊥
crowded max n w e le few = ground arith

-- Where the members have at most as many picks of options as are allowed, they are all tried: there is an
-- answer, and not the error.
pub build_assignment_attempts-answers :
    (is_uuid : ℕ → Bool) (max : ℕ) (integrantes : List Integrante)
    → ways (map (options is_uuid) integrantes) ≤ max
    → build_assignment_attempts is_uuid max integrantes ≢ none
unfolding build_assignment_attempts build_attempts
build_assignment_attempts-answers is_uuid max integrantes le e =
    let groups = map (options is_uuid) integrantes in
    let found = walk max groups [] (record { attempts = []; seen = [] }) in
    elim (Bool-cases (is_over max found)) [
      | inl over ↦
          absurd
            (crowded max _ _ over (walk-le max groups [] (record { attempts = []; seen = [] })) le)
      | inr fine ↦ (let wrong : some found.attempts ≡ none = rw fine at e in cc)
    ]
