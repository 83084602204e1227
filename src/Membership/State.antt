-- ===== src/Membership/State.antt =====
-- The visible state of a subscription: `computeTimeRemaining`, `isMembershipPendingRenewal` and
-- `resolveMembershipVisibleState`, and `ensureSubscriptionLifecycle`, which ends a subscription that is
-- over and hands `createCoverageTracker` the active one.
pub mod Operational
use masterfadebackend.Prelude.{
  ℕ, ◌+◌, ◌-◌, ◌*◌, ◌/◌, ◌%◌, List, [], ◌∷◌, Option, none, some, Bool, true, false, ◌&&◌, ◌||◌, not,
  ltb, leb, ◌==◌, sum_by, if◌then◌else◌,
}
use masterfadebackend.Membership.Coverage.{Service, ActiveContext}

pub record TimeRemaining : Type 0 where
  pub dias : ℕ
  pub horas : ℕ
  pub minutos : ℕ
  pub total_ms : ℕ
  pub vencido : Bool

abbrev pub hour_ms : ℕ
hour_ms = 60 * 60 * 1000

abbrev pub day_ms : ℕ
day_ms = 24 * 60 * 60 * 1000

-- A date that is missing or not valid has ended.
abbrev pub delta_until : ℕ → Option ℕ → ℕ
delta_until now none = 0
delta_until now (some end) = end - now

pub compute_time_remaining : ℕ → Option ℕ → TimeRemaining
compute_time_remaining now end =
    let delta = delta_until now end in
    record {
      dias = delta / day_ms;
      horas = (delta % day_ms) / hour_ms;
      minutos = (delta % hour_ms) / (60 * 1000);
      total_ms = delta;
      vencido = delta == 0;
    }

abbrev pub pending_renewal_threshold_days : ℕ
pending_renewal_threshold_days = 3

pub record PendingRenewal : Type 0 where
  pub pending : Bool
  pub pending_by_balance : Bool
  pub pending_by_expiry : Bool

pub is_pending_renewal : (servicios_restantes : ℕ) → TimeRemaining → PendingRenewal
is_pending_renewal left t =
    let by_balance = left == 1 in
    let by_expiry = not t.vencido && leb t.dias pending_renewal_threshold_days in
    record {
      pending = by_balance || by_expiry;
      pending_by_balance = by_balance;
      pending_by_expiry = by_expiry;
    }

-- `estado_suscripcion_codigo`, trimmed and in lower case.
pub data SubscriptionStatus : Type 0 where
  status_activa status_vencida status_cancelada status_missing : SubscriptionStatus
  other_status : ℕ → SubscriptionStatus

pub data VisibleState : Type 0 where
  sin_plan_activo cancelada agotada vencida pendiente_renovacion activa : VisibleState
  other_state : ℕ → VisibleState

-- `agotamiento` tells whether the reason of its end is that.
pub resolve_visible_state :
    SubscriptionStatus
    → (agotamiento : Bool) → (servicios_restantes : ℕ) → TimeRemaining
    → VisibleState
unfolding is_pending_renewal
resolve_visible_state status_cancelada agotamiento left t = cancelada
resolve_visible_state status_vencida agotamiento left t = if agotamiento then agotada else vencida
resolve_visible_state status_activa agotamiento left t =
    if (is_pending_renewal left t).pending then pendiente_renovacion else activa
resolve_visible_state status_missing agotamiento left t = sin_plan_activo
resolve_visible_state (other_status n) agotamiento left t = other_state n

abbrev pub is_activa : VisibleState → Bool
is_activa activa = true
is_activa sin_plan_activo = false
is_activa cancelada = false
is_activa agotada = false
is_activa vencida = false
is_activa pendiente_renovacion = false
is_activa (other_state n) = false

-- `servicios_restantes` of the summary.
abbrev pub services_left : List Service → ℕ
services_left ss = sum_by (λ s. s.restante) ss

-- `servicios_total`.
abbrev pub services_total : List Service → ℕ
services_total ss = sum_by (λ s. s.total) ss

-- A subscription of a client with the services of its summary. `agotamiento` is as above.
pub record SubscriptionRow : Type 0 where
  pub status : SubscriptionStatus
  pub agotamiento : Bool
  pub contracted_branch : Option ℕ
  pub end_at : Option ℕ
  pub services : List Service

abbrev pub is_status_activa : SubscriptionStatus → Bool
is_status_activa status_activa = true
is_status_activa status_vencida = false
is_status_activa status_cancelada = false
is_status_activa status_missing = false
is_status_activa (other_status n) = false

-- What the tracker reads of the active subscription, at `now`.
pub context_at : ℕ → SubscriptionRow → ActiveContext
unfolding resolve_visible_state compute_time_remaining
context_at now row = record {
  contracted_branch = row.contracted_branch;
  operational = is_activa (
      resolve_visible_state row.status row.agotamiento (services_left row.services)
        (compute_time_remaining now row.end_at));
  services = row.services;
}

-- The subscriptions as they are stored afterwards, and the answer.
pub record Lifecycle : Type 0 where
  pub rows : List SubscriptionRow
  pub active : Option ActiveContext
  pub changed : Bool

-- The `UPDATE` of a subscription that is over.
abbrev pub write_off : (agotamiento : Bool) → SubscriptionRow → SubscriptionRow
write_off agotamiento row = record row { status = status_vencida; agotamiento = agotamiento }

-- What happens to the row that was found, where `rows` are those after it.
pub settle_row : ℕ → SubscriptionRow → List SubscriptionRow → Lifecycle
unfolding compute_time_remaining
settle_row now row rows =
    if (compute_time_remaining now row.end_at).vencido
    then record { rows = write_off false row ∷ rows; active = none; changed = true }
    else if ltb 0 (services_total row.services) && services_left row.services == 0
    then record { rows = write_off true row ∷ rows; active = none; changed = true }
    else record { rows = row ∷ rows; active = some (context_at now row); changed = false }

-- The subscriptions of the client come with the latest start first, and the first one whose stored
-- status is active is the one that the query finds.
pub ensure_subscription_lifecycle : ℕ → List SubscriptionRow → Lifecycle
unfolding settle_row
ensure_subscription_lifecycle now [] = record { rows = []; active = none; changed = false }
ensure_subscription_lifecycle now (row ∷ rows) =
    let rest = ensure_subscription_lifecycle now rows in
    if is_status_activa row.status
    then settle_row now row rows
    else record rest { rows = row ∷ rest.rows }
