-- ===== src/Membership/State/Operational.antt =====
-- When a membership pays for anything.
use masterfadebackend.Prelude.{
  ℕ, suc, ◌+◌, ◌*◌, ◌/◌, ◌≡◌, inl, inr, refl, ◌∙◌, List, [], ◌∷◌, Option, none, some, Bool, true,
  false, ◌&&◌, ◌||◌, not, arith, ltb, leb, ◌==◌, any, sum_by, if◌then◌else◌, Bool-cases,
  Option-cases,
}
use masterfadebackend.Membership.Coverage.{Service, create_coverage_tracker, same_branch}
use masterfadebackend.Membership.Coverage.Enabling.{
  has_left, create_coverage_tracker-enabled, create_coverage_tracker-no_plan,
}
use masterfadebackend.Membership.State.{
  day_ms, delta_until, compute_time_remaining, is_pending_renewal, SubscriptionStatus,
  status_activa, status_vencida, status_cancelada, status_missing, other_status, is_status_activa,
  resolve_visible_state, is_activa, services_left, services_total, SubscriptionRow, context_at,
  settle_row, ensure_subscription_lifecycle,
}

days-four : (delta : ℕ) → leb (delta / day_ms) 3 ≡ ltb delta (4 * day_ms)
days-four delta = ground arith

-- The visible state is `activa` where the status is, not one service is left, and the end has come or is
-- four days away.
resolve-is_activa :
    (status : SubscriptionStatus) (agotamiento : Bool) (left now : ℕ) (end : Option ℕ)
    → is_activa (resolve_visible_state status agotamiento left (compute_time_remaining now end)) ≡ (
        is_status_activa status
        && not (left == 1)
        && (delta_until now end == 0 || leb (4 * day_ms) (delta_until now end)))
unfolding resolve_visible_state is_pending_renewal compute_time_remaining
resolve-is_activa status_activa agotamiento left now end =
    ground (arith, days-four (delta_until now end))
resolve-is_activa status_vencida agotamiento left now end = ground arith
resolve-is_activa status_cancelada agotamiento left now end = refl
resolve-is_activa status_missing agotamiento left now end = refl
resolve-is_activa (other_status n) agotamiento left now end = refl

none_left : (ss : List Service) → services_left ss ≡ 0 → any has_left ss ≡ false
none_left [] h = refl
none_left (s ∷ ss) h = elim (Option-cases s.id_servicio) [
  | inl e ↦ rw e (none_left ss (omega (arith, h)))
  | inr (i, e) ↦ rw e (ground (arith, h, none_left ss (omega (arith, h))))
]

-- The subscription that the lifecycle looks at.
abbrev pub stored_active : List SubscriptionRow → Option SubscriptionRow
stored_active [] = none
stored_active (row ∷ rows) = if is_status_activa row.status then some row else stored_active rows

abbrev pub active_count : List SubscriptionRow → ℕ
active_count rows = sum_by (λ row. if is_status_activa row.status then 1 else 0) rows

-- What makes a subscription pay for an appointment.
abbrev pub covers_at : ℕ → Option ℕ → Option SubscriptionRow → Bool
covers_at now appointment none = false
covers_at now appointment (some row) =
    not (services_left row.services == 1)
    && leb (4 * day_ms) (delta_until now row.end_at)
    && same_branch row.contracted_branch appointment
    && any has_left row.services

context-enabled :
    (now : ℕ) (row : SubscriptionRow) (appointment : Option ℕ)
    → is_status_activa row.status ≡ true
    → (create_coverage_tracker (some (context_at now row)) appointment).coverage_enabled ≡ (
        not (services_left row.services == 1)
        && (delta_until now row.end_at == 0 || leb (4 * day_ms) (delta_until now row.end_at))
        && same_branch row.contracted_branch appointment
        && any has_left row.services)
unfolding context_at
context-enabled now row appointment h =
    (create_coverage_tracker-enabled (context_at now row) appointment).0
    ∙ rw
        (
          resolve-is_activa row.status row.agotamiento (services_left row.services) now row.end_at,
          h,
        )
        refl

settle_row-enabled :
    (now : ℕ) (row : SubscriptionRow) (rows : List SubscriptionRow) (appointment : Option ℕ)
    → is_status_activa row.status ≡ true
    → ((create_coverage_tracker (settle_row now row rows).active appointment).coverage_enabled
        ≡ covers_at now appointment (some row))
      × (active_count (settle_row now row rows).rows
            + (if (settle_row now row rows).changed then 1 else 0)
          ≡ suc (active_count rows))
      × (((settle_row now row rows).changed
            && (create_coverage_tracker
                (settle_row now row rows).active
                appointment).coverage_enabled)
          ≡ false)
unfolding settle_row compute_time_remaining
settle_row-enabled now row rows appointment h =
    let over = create_coverage_tracker-no_plan appointment in
    elim (Bool-cases (delta_until now row.end_at == 0)) [
      | inl ended ↦ rw (ended, over) (ground (arith, ended), omega arith, refl)
      | inr ahead ↦
          elim (Bool-cases
            (ltb 0 (services_total row.services) && services_left row.services == 0)) [
              | inl used ↦
                  rw (ahead, used, over)
                    (
                      ground (arith, none_left row.services (ground (arith, used))),
                      omega arith,
                      refl,
                    )
              | inr left ↦
                  rw (ahead, left)
                    (
                      context-enabled now row appointment h ∙ rw ahead refl,
                      rw h (omega arith),
                      refl,
                    )
            ]
    ]

-- Whatever subscriptions a client has, the tracker of an appointment is enabled exactly where the
-- latest of those that are stored as active has not one service left in all, ends in four days at least,
-- was contracted at the branch of the appointment, and has something left of some service. The
-- lifecycle before it says that it changed something exactly where it leaves one active subscription
-- less, and then nothing is covered.
pub coverage_at :
    (now : ℕ) (rows : List SubscriptionRow) (appointment : Option ℕ)
    → let lifecycle = ensure_subscription_lifecycle now rows in
      ((create_coverage_tracker lifecycle.active appointment).coverage_enabled
        ≡ covers_at now appointment (stored_active rows))
      × (active_count lifecycle.rows + (if lifecycle.changed then 1 else 0) ≡ active_count rows)
      × ((lifecycle.changed
            && (create_coverage_tracker lifecycle.active appointment).coverage_enabled)
          ≡ false)
unfolding ensure_subscription_lifecycle
coverage_at now [] appointment = (create_coverage_tracker-no_plan appointment, refl, refl)
coverage_at now (row ∷ rows) appointment = elim (Bool-cases (is_status_activa row.status)) [
  | inl h ↦
      let (a, b, c) = settle_row-enabled now row rows appointment h in rw h (a, omega (arith, b), c)
  | inr h ↦ let (a, b, c) = coverage_at now rows appointment in rw h (a, rw h (omega (arith, b)), c)
]
