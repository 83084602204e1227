-- ===== src/Membership/Coverage.antt =====
-- The coverage tracker of services/membershipService.js: `createCoverageTracker` and
-- `filterCoverageTrackerByTariffServices`. Identifiers are numbers,
-- an empty one is `none`, and money is in cents. Whether the visible state of the
-- subscription is `activa` is part of the context, which Membership/State gives.
pub mod Enabling
use masterfadebackend.Prelude.{
  ℕ, ◌+◌, ◌-◌, List, [], ◌∷◌, ◌++◌, Option, none, some, Bool, true, false, ◌&&◌, not, ltb, ◌==◌,
  any, filter, length, map, if◌then◌else◌,
}

-- A service of the summary of the plan, `restante` of it unused.
pub record Service : Type 0 where
  pub id_servicio : Option ℕ
  pub restante : ℕ
  pub total : ℕ

pub record RequiredService : Type 0 where
  pub id_servicio : ℕ
  pub restante : ℕ
  pub total : ℕ

pub data DisabledReason : Type 0 where
  sin_plan_activo non_operational_state missing_contracted_branch : DisabledReason
  appointment_branch_missing branch_mismatch insufficient_benefits : DisabledReason
  services_without_active_tariff : DisabledReason

-- `service_remaining` is the map, the last entry written first.
pub record Tracker : Type 0 where
  pub has_plan : Bool
  pub service_remaining : List (ℕ × ℕ)
  pub branch_match : Bool
  pub has_service_benefits_available : Bool
  pub required_services : List RequiredService
  pub coverage_enabled : Bool
  pub coverage_disabled_reason : Option DisabledReason

-- `Map.get`, where a missing key reads as 0, and `Map.set`.
abbrev pub remaining_of : ℕ → List (ℕ × ℕ) → ℕ
remaining_of i [] = 0
remaining_of i ((j, n) ∷ m) = if j == i then n else remaining_of i m

abbrev pub set_remaining : ℕ → ℕ → List (ℕ × ℕ) → List (ℕ × ℕ)
set_remaining i n m = (i, n) ∷ m

abbrev pub remember : Option ℕ → ℕ → List (ℕ × ℕ) → List (ℕ × ℕ)
remember none n m = m
remember (some i) n m = set_remaining i n m

abbrev pub require_one : Option ℕ → Service → List RequiredService
require_one none s = []
require_one (some i) s =
    if ltb 0 s.restante
    then record { id_servicio = i; restante = s.restante; total = s.total } ∷ []
    else []

-- The loop over the services of the summary, in two: the map, and the services with something left.
fill_remaining : List Service → List (ℕ × ℕ) → List (ℕ × ℕ)
fill_remaining [] m = m
fill_remaining (s ∷ ss) m = fill_remaining ss (remember s.id_servicio s.restante m)

pub required_of : List Service → List RequiredService
required_of [] = []
required_of (s ∷ ss) = require_one s.id_servicio s ++ required_of ss

abbrev pub is_nonempty {ℓ} : {A : Type ℓ} → List A → Bool
is_nonempty [] = false
is_nonempty (x ∷ xs) = true

abbrev pub is_some : Option ℕ → Bool
is_some none = false
is_some (some i) = true

abbrev pub same_branch : Option ℕ → Option ℕ → Bool
same_branch (some i) (some j) = i == j
same_branch (some i) none = false
same_branch none b = false

-- The ladder of the reasons, `none` where the coverage is enabled.
disabled_reason :
    (operational : Bool) (contracted appointment : Option ℕ) (benefits : Bool)
    → Option DisabledReason
disabled_reason operational contracted appointment benefits =
    if not operational
    then some non_operational_state
    else if not (is_some contracted)
    then some missing_contracted_branch
    else if not (is_some appointment)
    then some appointment_branch_missing
    else if not (same_branch contracted appointment)
    then some branch_mismatch
    else if not benefits
    then some insufficient_benefits
    else none

abbrev pub is_none {ℓ} : {A : Type ℓ} → Option A → Bool
is_none none = true
is_none (some x) = false

-- The active subscription: the branch it was contracted at, whether its visible state is `activa`,
-- and the services of its summary.
pub record ActiveContext : Type 0 where
  pub contracted_branch : Option ℕ
  pub operational : Bool
  pub services : List Service

pub no_plan_tracker : Tracker
no_plan_tracker = record {
  has_plan = false;
  service_remaining = [];
  branch_match = false;
  has_service_benefits_available = false;
  required_services = [];
  coverage_enabled = false;
  coverage_disabled_reason = some sin_plan_activo;
}

pub create_coverage_tracker : Option ActiveContext → (appointment : Option ℕ) → Tracker
unfolding fill_remaining required_of disabled_reason no_plan_tracker
create_coverage_tracker none appointment = no_plan_tracker
create_coverage_tracker (some c) appointment =
    let required = required_of c.services in
    let match = same_branch c.contracted_branch appointment in
    let reason =
      disabled_reason c.operational c.contracted_branch appointment (is_nonempty required) in
    record {
      has_plan = true;
      service_remaining = fill_remaining c.services [];
      branch_match = match;
      has_service_benefits_available = is_nonempty required;
      required_services = required;
      coverage_enabled =
          if is_none reason then c.operational && match && is_nonempty required else false;
      coverage_disabled_reason = reason;
    }

-- The map of the services kept, those with something left.
pub next_remaining : List RequiredService → List (ℕ × ℕ) → List (ℕ × ℕ) → List (ℕ × ℕ)
next_remaining [] previous next = next
next_remaining (r ∷ rs) previous next =
    let current = remaining_of r.id_servicio previous in
    next_remaining rs previous
      (if ltb 0 current then set_remaining r.id_servicio current next else next)

abbrev pub is_offered : List ℕ → RequiredService → Bool
is_offered available r = any (λ i. i == r.id_servicio) available

-- `available` are the services with an active tariff at the branch.
pub filter_tracker_by_tariff : List ℕ → Tracker → Tracker
unfolding next_remaining
filter_tracker_by_tariff available t =
    let kept = filter (is_offered available) t.required_services in
    if t.has_plan && t.coverage_enabled
    then record {
      has_plan = t.has_plan;
      service_remaining = next_remaining kept t.service_remaining [];
      branch_match = t.branch_match;
      has_service_benefits_available = is_nonempty kept;
      required_services = kept;
      coverage_enabled = is_nonempty kept;
      coverage_disabled_reason =
          if is_nonempty kept
          then t.coverage_disabled_reason
          else some services_without_active_tariff;
    }
    else t
