-- ===== src/Booking/Attempts.antt =====
-- `buildAssignmentAttemptsFromIntegrantes` of services/bookingCanonicalReservationService.js: every way to
-- give each member of a reservation one of the barbers that it may have. An identifier or an instant that
-- is missing, or empty when trimmed, is `none`.
pub mod Combinations
pub mod Slots
pub mod Complete
use masterfadebackend.Prelude.{
  ℕ, zero, suc, List, [], ◌∷◌, ◌++◌, map, Option, none, some, Bool, true, false, ◌&&◌, ◌||◌, not,
  ltb, ◌==◌, any, filter, length, take, if◌then◌else◌,
}

-- What an attempt needs of a member, one of its options chosen.
pub record Choice : Type 0 where
  pub orden_integrante : ℕ
  pub id_empleado_barbero : Option ℕ
  pub inicio_at : Option ℕ

-- `selected_barber` is `selection.barber.id_empleado`.
pub record Integrante : Type 0 where
  pub base : Choice
  pub assignment_options : List Choice
  pub barber_candidate_ids : List ℕ
  pub selected_barber : Option ℕ

abbrev is_empty {ℓ} : {A : Type ℓ} → List A → Bool
is_empty [] = true
is_empty (x ∷ xs) = false

abbrev has : ℕ → List ℕ → Bool
has n = any (λ m. m == n)

-- `Array.from(new Set(ids))`, from the identifiers that were seen.
distinct : List ℕ → List ℕ → List ℕ
distinct seen [] = []
distinct seen (id ∷ ids) = if has id seen then distinct seen ids else id ∷ distinct (id ∷ seen) ids

abbrev with_barber : Choice → ℕ → Choice
with_barber c id = record c { id_empleado_barbero = some id }

-- `is_uuid` is the test of the form of an identifier.
module _ (is_uuid : ℕ → Bool) where
  fallback : Option ℕ → List ℕ
  fallback none = []
  fallback (some id) = if is_uuid id then id ∷ [] else []

  unfoldable pub candidates : Integrante → List ℕ
  unfolding distinct fallback
  candidates m =
      let ids = take 6 (distinct [] (filter is_uuid m.barber_candidate_ids)) in
      if is_empty ids then fallback m.selected_barber else ids

  abbrev by_barber : Integrante → Option ℕ → List Choice
  by_barber m (some id) = m.base ∷ []
  by_barber m none = map (with_barber m.base) (candidates m)

  unfoldable pub options : Integrante → List Choice
  unfolding candidates
  options m =
      if is_empty m.assignment_options
      then by_barber m m.base.id_empleado_barbero
      else m.assignment_options

abbrev pub same : Option ℕ → Option ℕ → Bool
same none none = true
same (some a) (some b) = a == b
same none (some b) = false
same (some a) none = false

-- The test of a slot that is taken: a barber and a start, and the same ones.
abbrev pub is_same_slot : Option ℕ → Option ℕ → Choice → Bool
is_same_slot none start d = false
is_same_slot (some b) none d = false
is_same_slot (some b) (some s) d = same (some b) d.id_empleado_barbero && same (some s) d.inicio_at

unfoldable pub clash : Choice → Choice → Bool
clash c d = is_same_slot c.id_empleado_barbero c.inicio_at d

-- The members from the first on, with those that come before them in `occupied`.
unfoldable pub clashes_with : List Choice → List Choice → Bool
unfolding clash
clashes_with occupied [] = false
clashes_with occupied (c ∷ cs) = any (clash c) occupied || clashes_with (c ∷ occupied) cs

unfoldable pub clashes : List Choice → Bool
unfolding clashes_with
clashes selected = clashes_with [] selected

-- The parts of the text that stands for an attempt.
pub record Part : Type 0 where
  pub orden : ℕ
  pub barber : Option ℕ
  pub start : Option ℕ

abbrev part_of : Choice → Part
part_of c = record {
  orden = c.orden_integrante;
  barber = c.id_empleado_barbero;
  start = c.inicio_at;
}

abbrev pub signature : List Choice → List Part
signature selected = map part_of selected

abbrev pub same_part : Part → Part → Bool
same_part x y = (x.orden == y.orden) && same x.barber y.barber && same x.start y.start

unfoldable pub same_signature : List Part → List Part → Bool
same_signature [] [] = true
same_signature (x ∷ xs) (y ∷ ys) = same_part x y && same_signature xs ys
same_signature [] (y ∷ ys) = false
same_signature (x ∷ xs) [] = false

-- `attempts` and `seenAttempts`.
pub record Found : Type 0 where
  pub attempts : List (List Choice)
  pub seen : List (List Part)

unfoldable pub is_seen : List Choice → Found → Bool
unfolding same_signature
is_seen selected s = any (same_signature (signature selected)) s.seen

-- `walk` at its end, with one option of each member selected.
unfoldable pub leaf : List Choice → Found → Found
unfolding clashes is_seen
leaf selected s =
    if clashes selected
    then s
    else if is_seen selected s
    then s
    else record { attempts = s.attempts ++ selected ∷ []; seen = signature selected ∷ s.seen }

abbrev pub is_over : ℕ → Found → Bool
is_over max s = ltb max (length s.attempts)

abbrev pub each : (Choice → Found → Found) → List Choice → Found → Found
each f [] s = s
each f (o ∷ os) s = each f os (f o s)

-- `walk` from the options of the members that are left.
unfoldable pub walk : (max : ℕ) → List (List Choice) → (selected : List Choice) → Found → Found
unfolding leaf
walk max [] selected s = if is_over max s then s else leaf selected s
walk max (g ∷ gs) selected s =
    let found = each (λ o. walk max gs (selected ++ o ∷ [])) g s in
    if is_over max s then s else found

-- The attempts from the options of each member; `none` where there are too many.
unfoldable pub build_attempts : (max : ℕ) → List (List Choice) → Option (List (List Choice))
unfolding walk
build_attempts max groups =
    let found = walk max groups [] (record { attempts = []; seen = [] }) in
    if is_over max found then none else some found.attempts

-- `buildAssignmentAttemptsFromIntegrantes`.
unfoldable pub build_assignment_attempts :
    (is_uuid : ℕ → Bool) → (max : ℕ) → List Integrante → Option (List (List Choice))
unfolding build_attempts options
build_assignment_attempts is_uuid max integrantes =
    build_attempts max (map (options is_uuid) integrantes)
