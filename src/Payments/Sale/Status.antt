-- ===== src/Payments/Sale/Status.antt =====
-- The route `/pixelpay/status` of routes/v1/public/pagos.js: the provider is asked for the state of a sale,
-- and a paid one is reconciled.
use masterfadebackend.Prelude.{
  ℕ, map, Option, none, some, Bool, false, ◌&&◌, not, ◌==◌, if◌then◌else◌,
}
use masterfadebackend.Security.Sessions.{is_null}
use masterfadebackend.Payments.{
  Intent, Db, find_intent, find_cita, group_citas, group_total, group_rows, holds_of,
}
use masterfadebackend.Payments.Approval.{durable_approval}
use masterfadebackend.Payments.Confirmation.{Outside}
use masterfadebackend.Payments.Reconcile.{Paid, PaidAnswer, row_expiry, is_reference, reconcile}
use masterfadebackend.Payments.Sale.{in_group, hold_in_group}

-- `owns`: whether an authenticated user owns the intent.
pub record StatusRequest : Type 0 where
  pub id_grupo : ℕ
  pub id_intent : ℕ
  pub owns : Bool

-- What the provider says of the payment.
pub record ProviderStatus : Type 0 where
  pub payment_uuid : Option ℕ
  pub is_paid : Bool

-- `failed` where the route throws before a reconciliation.
pub data StatusAnswer : Type 0 where
  failed not_paid : StatusAnswer
  reconciled : PaidAnswer → StatusAnswer

pub record Checked : Type 0 where
  pub db : Db
  pub answer : StatusAnswer

-- The checks of `loadPublicIntentForGroup` and of the provider of the intent.
unfoldable pub is_checkable : StatusRequest → Db → Intent → Bool
is_checkable r db i =
    in_group r.id_grupo (find_cita i.id_cita db.citas)
    && hold_in_group i.id_hold (holds_of (group_citas r.id_grupo db))
    && r.owns
    && (i.monto == group_total r.id_grupo db)
    && i.is_pixelpay

-- The reference of the transaction, where it is not the identifier of the payment.
abbrev transaction_of : Intent → ℕ → Option ℕ
transaction_of i uuid =
    if is_reference uuid i.referencia_externa then none else i.referencia_externa

abbrev paid_status : StatusRequest → Db → Intent → ℕ → Option ℕ → Paid
paid_status r db i uuid approval = record {
  id_grupo = r.id_grupo;
  id_intent = r.id_intent;
  payment_uuid = some uuid;
  transaction_id = transaction_of i uuid;
  expected_amount = group_total r.id_grupo db;
  paid_at = approval;
  allow_expired_recovery = not (is_null approval);
  from_durable_approval = false;
}

module _ (o : Outside) (now : ℕ) (r : StatusRequest) (db : Db) where
  abbrev pub settle_status : Intent → (uuid : ℕ) → ProviderStatus → Checked
  settle_status i uuid s =
      if not (is_reference uuid s.payment_uuid)
      then record { db = db; answer = failed }
      else if not s.is_paid
      then record { db = db; answer = not_paid }
      else let approval =
          durable_approval i.id_intent i.id_grupo_cita
            (map (λ row. row_expiry row.hold) (group_rows r.id_grupo db)) db in
        let done = reconcile o now (paid_status r db i uuid approval) db in
        record { db = done.db; answer = reconciled done.answer }

  abbrev pub ask_status : Intent → Option ℕ → Option ProviderStatus → Checked
  ask_status i none s = record { db = db; answer = failed }
  ask_status i (some uuid) none = record { db = db; answer = failed }
  ask_status i (some uuid) (some s) = settle_status i uuid s

  abbrev pub status_found : Option Intent → Option ProviderStatus → Checked
  status_found none s = record { db = db; answer = failed }
  status_found (some i) s =
      if is_checkable r db i
      then ask_status i i.provider_session_id s
      else record { db = db; answer = failed }

  -- The route, with what the provider says; `none` where that call fails.
  unfoldable pub check_status : Option ProviderStatus → Checked
  unfolding is_checkable
  check_status s =
      if o.admitted
      then status_found (find_intent r.id_intent db.intents) s
      else record { db = db; answer = failed }
