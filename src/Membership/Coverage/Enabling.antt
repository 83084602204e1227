-- ===== src/Membership/Coverage/Enabling.antt =====
-- When the coverage is enabled, and what the tariffs leave of it.
use masterfadebackend.Prelude.{
  ℕ, ◌≡◌, inl, inr, refl, ap, sym, ◌∙◌, List, [], ◌∷◌, Option, none, some, Bool, true, false, ◌&&◌,
  ◌||◌, arith, ltb, ◌==◌, any, filter, if◌then◌else◌, Bool-cases, Option-cases,
}
use masterfadebackend.Membership.Coverage.{
  Tracker, Service, RequiredService, ActiveContext, remaining_of, set_remaining, is_nonempty,
  is_none, same_branch, is_offered, required_of, disabled_reason, create_coverage_tracker,
  next_remaining, filter_tracker_by_tariff, no_plan_tracker,
}

-- Some of the services of the plan is named and has something left.
abbrev pub has_left : Service → Bool
has_left s = elim s.id_servicio [ none ↦ false | some i ↦ ltb 0 s.restante ]

required_of-nonempty : (ss : List Service) → is_nonempty (required_of ss) ≡ any has_left ss
unfolding required_of
required_of-nonempty [] = refl
required_of-nonempty (s ∷ ss) = elim (Option-cases s.id_servicio) [
  | inl e ↦ ground (arith, required_of-nonempty ss)
  | inr (i, e) ↦ ground (arith, required_of-nonempty ss)
]

disabled_reason-none :
    (operational : Bool) (contracted appointment : Option ℕ) (benefits : Bool)
    → is_none (disabled_reason operational contracted appointment benefits)
      ≡ (operational && same_branch contracted appointment && benefits)
unfolding disabled_reason
disabled_reason-none operational none appointment benefits = ground arith
disabled_reason-none operational (some i) none benefits = ground arith
disabled_reason-none operational (some i) (some j) benefits = ground arith

if_same : (b : Bool) → (if b then b else false) ≡ b
if_same true = refl
if_same false = refl

filter-nonempty :
    (p : RequiredService → Bool) (rs : List RequiredService) → is_nonempty (filter p rs) ≡ any p rs
filter-nonempty p [] = refl
filter-nonempty p (r ∷ rs) = ground (arith, filter-nonempty p rs)

-- The coverage of an active subscription is enabled exactly where its visible state is operational,
-- the appointment is at the branch it was contracted at, and some service has something left; a
-- reason is given exactly where it is not.
pub create_coverage_tracker-enabled :
    (c : ActiveContext) (appointment : Option ℕ)
    → ((create_coverage_tracker (some c) appointment).coverage_enabled
        ≡ (c.operational && same_branch c.contracted_branch appointment && any has_left c.services))
      × (is_none (create_coverage_tracker (some c) appointment).coverage_disabled_reason
          ≡ (create_coverage_tracker (some c) appointment).coverage_enabled)
unfolding create_coverage_tracker
create_coverage_tracker-enabled c appointment =
    let match = same_branch c.contracted_branch appointment in
    let benefits = is_nonempty (required_of c.services) in
    let none_eq = disabled_reason-none c.operational c.contracted_branch appointment benefits in
    (
      ap (λ b. if b then c.operational && match && benefits else false) none_eq
          ∙ if_same (c.operational && match && benefits)
          ∙ ap (λ b. c.operational && match && b) (required_of-nonempty c.services),
      none_eq
          ∙ sym (
              ap (λ b. if b then c.operational && match && benefits else false) none_eq
              ∙ if_same (c.operational && match && benefits)),
    )

-- Without an active subscription nothing is covered.
pub create_coverage_tracker-no_plan :
    (appointment : Option ℕ) → (create_coverage_tracker none appointment).coverage_enabled ≡ false
unfolding create_coverage_tracker no_plan_tracker
create_coverage_tracker-no_plan appointment = refl

abbrev pub is_kept : ℕ → List RequiredService → Bool
is_kept i rs = any (λ r. r.id_servicio == i) rs

next_one :
    (i j : ℕ) (previous next : List (ℕ × ℕ))
    → remaining_of i (
        if ltb 0 (remaining_of j previous)
        then set_remaining j (remaining_of j previous) next
        else next)
      ≡ (if (j == i) && ltb 0 (remaining_of i previous)
          then remaining_of i previous
          else remaining_of i next)
next_one i j previous next = elim (Bool-cases (j == i)) [
  | inl h ↦
      let k : remaining_of j previous ≡ remaining_of i previous =
        ap (λ x. remaining_of x previous) (ground arith) in
      ground arith
  | inr h ↦ ground arith
]

either_kept :
    (a b c : Bool) (n m : ℕ)
    → (if b && c then n else (if a && c then n else m)) ≡ (if (a || b) && c then n else m)
either_kept true b true n m = ground arith
either_kept true b false n m = ground arith
either_kept false b c n m = refl

next_remaining-get :
    (i : ℕ) (rs : List RequiredService) (previous next : List (ℕ × ℕ))
    → remaining_of i (next_remaining rs previous next) ≡ (
        if is_kept i rs && ltb 0 (remaining_of i previous)
        then remaining_of i previous
        else remaining_of i next)
unfolding next_remaining
next_remaining-get i [] previous next = refl
next_remaining-get i (r ∷ rs) previous next =
    let j = r.id_servicio in
    let p = remaining_of i previous in
    next_remaining-get i rs previous (
      if ltb 0 (remaining_of j previous)
      then set_remaining j (remaining_of j previous) next
      else next)
    ∙ (ap (λ n. if is_kept i rs && ltb 0 p then p else n) (next_one i j previous next)
        ∙ either_kept (j == i) (is_kept i rs) (ltb 0 p) p (remaining_of i next))

-- Filtering an enabled tracker keeps what is left of the required services with an active tariff and
-- drops the rest; the coverage stays enabled exactly where one of the required services is kept.
pub filter_tracker-keeps :
    (available : List ℕ) (t : Tracker) (i : ℕ)
    → t.has_plan ≡ true
    → t.coverage_enabled ≡ true
    → (remaining_of i (filter_tracker_by_tariff available t).service_remaining ≡ (
        if is_kept i (filter (is_offered available) t.required_services)
        then remaining_of i t.service_remaining
        else 0))
      × ((filter_tracker_by_tariff available t).coverage_enabled
          ≡ any (is_offered available) t.required_services)
unfolding filter_tracker_by_tariff
filter_tracker-keeps available t i plan enabled =
    let kept = filter (is_offered available) t.required_services in
    let got = next_remaining-get i kept t.service_remaining [] in
    rw (plan, enabled)
      (ground (arith, got), filter-nonempty (is_offered available) t.required_services)
