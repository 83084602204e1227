-- ===== src/Membership/Examples.antt =====
-- A plan with two cuts and a beard trim left.
use masterfadebackend.Prelude.{
  ℕ, ◌+◌, ◌*◌, ◌≡◌, refl, List, [], ◌∷◌, none, some, true, false, ◌&&◌, if◌then◌else◌, sum_by,
}
use masterfadebackend.Membership.Coverage.{
  Tracker, Service, RequiredService, remaining_of, create_coverage_tracker,
}
use masterfadebackend.Membership.Consumption.{ServiceItem, consume_coverage_for_services}
use masterfadebackend.Membership.State.{
  status_activa, day_ms, SubscriptionRow, Lifecycle, ensure_subscription_lifecycle,
}
use masterfadebackend.Membership.State.Operational.{active_count, coverage_at}
use masterfadebackend.Membership.Consumption.Payment.{is_paid, consume_coverage-pays}

abbrev left : ℕ → ℕ → Service
left i n = record { id_servicio = some i; restante = n; total = 4 }

-- One that ended yesterday by its date, and is stored as active.
abbrev ended : SubscriptionRow
ended = record {
  status = status_activa;
  agotamiento = false;
  contracted_branch = some 7;
  end_at = some 900;
  services = left 1 2 ∷ [];
}

abbrev row : SubscriptionRow
row = record ended {
  end_at = some (1000 + 10 * day_ms);
  services = left 1 2 ∷ left 2 1 ∷ left 3 0 ∷ [];
}

abbrev lifecycle_of : List SubscriptionRow → Lifecycle
lifecycle_of rows = ensure_subscription_lifecycle 1000 rows

-- Ten days before its end, at the branch it was contracted at.
coverage_at_example :
    ((create_coverage_tracker (lifecycle_of (row ∷ ended ∷ [])).active (some 7)).coverage_enabled
      ≡ true)
    × (active_count (lifecycle_of (row ∷ ended ∷ [])).rows
          + (if (lifecycle_of (row ∷ ended ∷ [])).changed then 1 else 0)
        ≡ 2)
    × (((lifecycle_of (row ∷ ended ∷ [])).changed
          && (create_coverage_tracker
              (lifecycle_of (row ∷ ended ∷ [])).active
              (some 7)).coverage_enabled)
        ≡ false)
coverage_at_example = coverage_at 1000 (row ∷ ended ∷ []) (some 7)

-- The one that has ended is written off, and the other one does not cover this appointment.
ended_pays_nothing :
    (create_coverage_tracker (lifecycle_of (ended ∷ row ∷ [])).active (some 7)).coverage_enabled
    ≡ false
ended_pays_nothing = (coverage_at 1000 (ended ∷ row ∷ []) (some 7)).0

abbrev required : ℕ → ℕ → RequiredService
required i n = record { id_servicio = i; restante = n; total = 4 }

abbrev tracker : Tracker
tracker = record {
  has_plan = true;
  service_remaining = (1, 2) ∷ (2, 1) ∷ (3, 0) ∷ [];
  branch_match = true;
  has_service_benefits_available = true;
  required_services = required 1 2 ∷ required 2 1 ∷ [];
  coverage_enabled = true;
  coverage_disabled_reason = none;
}

abbrev items : List ServiceItem
items =
    record { id_servicio = some 1; precio_hnl = 20000 }
    ∷ record { id_servicio = some 1; precio_hnl = 20000 }
    ∷ record { id_servicio = some 1; precio_hnl = 20000 }
    ∷ []

consume_coverage-pays_example :
    (sum_by (is_paid 1) (consume_coverage_for_services tracker items true []).items ≡ 2)
    × (remaining_of 1 (consume_coverage_for_services tracker items true []).remaining_after ≡ 0)
    × ((consume_coverage_for_services tracker items true []).covered_total_hnl
          + (consume_coverage_for_services tracker items true []).extra_total_hnl
        ≡ 60000)
consume_coverage-pays_example = consume_coverage-pays tracker items [] 1 refl refl
