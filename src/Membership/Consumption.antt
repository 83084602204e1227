-- ===== src/Membership/Consumption.antt =====
-- `consumeCoverageForServices` of services/membershipService.js: what a tracker covers of the items of
-- an appointment. Money is in cents.
pub mod Payment
use masterfadebackend.Prelude.{
  ℕ, ◌+◌, ◌-◌, List, [], ◌∷◌, Option, none, some, Bool, true, false, ◌&&◌, ltb, ◌==◌, any,
  if◌then◌else◌,
}
use masterfadebackend.Membership.Coverage.{Tracker, remaining_of, set_remaining}

pub record ServiceItem : Type 0 where
  pub id_servicio : Option ℕ
  pub precio_hnl : ℕ

pub data CoverageStatus : Type 0 where
  cubierto_plan extra_pendiente : CoverageStatus

pub record CoveredItem : Type 0 where
  pub id_servicio : Option ℕ
  pub precio_unitario_hnl : ℕ
  pub coverage_status : CoverageStatus
  pub forced_by_membership : Bool

-- The tracker's map is changed in place: the result carries what it is afterwards.
pub record Consumed : Type 0 where
  pub items : List CoveredItem
  pub covered_total_hnl : ℕ
  pub extra_total_hnl : ℕ
  pub remaining_after : List (ℕ × ℕ)

abbrev pub status_of : Bool → Option ℕ → List (ℕ × ℕ) → CoverageStatus
status_of allowed none m = extra_pendiente
status_of allowed (some i) m =
    if allowed && ltb 0 (remaining_of i m) then cubierto_plan else extra_pendiente

abbrev pub take_one : CoverageStatus → Option ℕ → List (ℕ × ℕ) → List (ℕ × ℕ)
take_one extra_pendiente i m = m
take_one cubierto_plan none m = m
take_one cubierto_plan (some i) m = set_remaining i (remaining_of i m - 1) m

abbrev pub is_forced : List ℕ → Option ℕ → Bool
is_forced forced none = false
is_forced forced (some i) = any (λ j. j == i) forced

abbrev pub if_covered : CoverageStatus → ℕ → ℕ → ℕ
if_covered cubierto_plan a b = a
if_covered extra_pendiente a b = b

-- The loop over the items; `allowed` is the plan with its coverage enabled, and the titular's turn.
pub consume_each : (allowed : Bool) (forced : List ℕ) → List ServiceItem → List (ℕ × ℕ) → Consumed
consume_each allowed forced [] m = record {
  items = [];
  covered_total_hnl = 0;
  extra_total_hnl = 0;
  remaining_after = m;
}
consume_each allowed forced (s ∷ ss) m =
    let status = status_of allowed s.id_servicio m in
    let rest = consume_each allowed forced ss (take_one status s.id_servicio m) in
    record {
      items =
          record {
            id_servicio = s.id_servicio;
            precio_unitario_hnl = s.precio_hnl;
            coverage_status = status;
            forced_by_membership = is_forced forced s.id_servicio;
          }
          ∷ rest.items;
      covered_total_hnl = if_covered status s.precio_hnl 0 + rest.covered_total_hnl;
      extra_total_hnl = if_covered status 0 s.precio_hnl + rest.extra_total_hnl;
      remaining_after = rest.remaining_after;
    }

pub consume_coverage_for_services :
    Tracker → List ServiceItem → (is_titular : Bool) → List ℕ → Consumed
unfolding consume_each
consume_coverage_for_services t items is_titular forced =
    consume_each (t.has_plan && t.coverage_enabled && is_titular) forced items t.service_remaining
