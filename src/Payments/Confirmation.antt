-- ===== src/Payments/Confirmation.antt =====
-- `confirmGroupAfterPaid` of routes/v1/public/pagos.js, and the stored procedure that it calls,
-- `app_private.confirmar_reserva_pagada_v1` of db/migrations.
pub mod Outcome
use masterfadebackend.Prelude.{
  ℕ, List, [], ◌∷◌, map, Option, none, some, Bool, true, false, ◌&&◌, ◌||◌, not, leb, ltb, ◌==◌,
  any, if◌then◌else◌,
}
use masterfadebackend.Security.Sessions.{is_null}
use masterfadebackend.Payments.{
  IntentState, confirmado, CitaState, confirmada, expirada, HoldState, Intent, Hold, Cita, Db,
  is_confirmado, is_payable_cita, find_intent, find_cita, find_captured, of_group, group_citas,
  holds_of,
}
use masterfadebackend.Payments.Approval.{least_expiry, hold_expiries}

-- What the transactions take from elsewhere: whether `loadPublicGroup` admits the caller, what the
-- promotions say that an appointment costs now (`none` where they throw), the column `total_hnl` of the
-- group, whether the slots are still free, and whether the statements succeed that redeem the reward,
-- mark the promotions, queue the mails and grant the points.
pub record Outside : Type 0 where
  pub admitted : Bool
  pub price : Cita → Option ℕ
  pub group_total_hnl : ℕ
  pub slots_free : Bool
  pub rest_succeeds : Bool

pub data PaymentError : Type 0 where
  group_forbidden intent_group_mismatch intent_provider_mismatch currency_invalid : PaymentError
  amount_mismatch payment_uuid_missing payment_uuid_mismatch transaction_conflict : PaymentError
  promotion_rejected payment_not_confirmed canonical_rejected group_not_found : PaymentError

abbrev pub is_confirmable : IntentState → Bool
is_confirmable IntentState.fallido = false
is_confirmable IntentState.cancelado = false
is_confirmable _ = true

abbrev pub is_recoverable_cita : CitaState → Bool
is_recoverable_cita expirada = true
is_recoverable_cita c = is_payable_cita c

abbrev pub is_consumable : HoldState → Bool
is_consumable HoldState.activo = true
is_consumable HoldState.expirado = true
is_consumable _ = false

abbrev pub given_or : Option ℕ → Option ℕ → Option ℕ
given_or none b = b
given_or (some a) b = some a

unfoldable pub confirm_intent : ℕ → Option ℕ → Intent → Intent
confirm_intent id reference i =
    if i.id_intent == id
    then record i {
      estado = confirmado;
      referencia_externa = given_or reference i.referencia_externa;
    }
    else i

abbrev consume : Hold → Hold
consume h = if is_consumable h.estado then record h { estado = HoldState.consumido } else h

unfoldable pub confirm_cita : ℕ → Cita → Cita
confirm_cita group c =
    if of_group group c
    then record c {
      estado = if is_recoverable_cita c.estado then confirmada else c.estado;
      holds = map consume c.holds;
    }
    else c

unfoldable pub confirmed_db : Intent → Option ℕ → Db → Db
unfolding confirm_cita confirm_intent
confirmed_db i reference db = record db {
  intents =
      if is_confirmado i.estado
      then db.intents
      else map (confirm_intent i.id_intent reference) db.intents;
  citas = map (confirm_cita i.id_grupo_cita) db.citas;
}

abbrev is_before : ℕ → Option ℕ → Bool
is_before at none = false
is_before at (some t) = leb at t

unfoldable pub may_confirm : Outside → Intent → ℕ → Db → Bool
may_confirm o i at db =
    let expires = least_expiry (hold_expiries (holds_of (group_citas i.id_grupo_cita db))) in
    not (is_null expires)
    && is_confirmable i.estado
    && (is_confirmado i.estado || is_before at expires)
    && (i.monto == o.group_total_hnl)
    && o.slots_free

-- The stored procedure, called with an instant of payment; `none` where it raises.
unfoldable pub canonical_confirm : Outside → Intent → Option ℕ → ℕ → Db → Option Db
unfolding may_confirm confirmed_db
canonical_confirm o i reference at db =
    if may_confirm o i at db then some (confirmed_db i reference db) else none

pub data Confirmation : Type 0 where
  failed : PaymentError → Confirmation
  no_group : Confirmation
  confirmed_group : Db → Confirmation

abbrev pub after_canonical : Outside → Option Db → Confirmation
after_canonical o none = failed canonical_rejected
after_canonical o (some db) =
    if o.rest_succeeds then confirmed_group db else failed canonical_rejected

abbrev confirm_found :
    Outside → (anchor group : ℕ) → Option ℕ → ℕ → Db → Option Intent → Confirmation
confirm_found o anchor group reference at db none = failed intent_group_mismatch
confirm_found o anchor group reference at db (some i) =
    if not (i.id_cita == anchor)
    then failed intent_group_mismatch
    else if is_null (find_captured i.id_intent db.payments)
    then failed payment_not_confirmed
    else after_canonical o (canonical_confirm o i reference at db)

abbrev confirm_anchor :
    Outside → (anchor group id : ℕ) → Option ℕ → ℕ → Db → Option Cita → Confirmation
confirm_anchor o anchor group id reference at db none = no_group
confirm_anchor o anchor group id reference at db (some c) =
    if c.id_grupo_cita == group
    then confirm_found o anchor group reference at db (find_intent id db.intents)
    else failed intent_group_mismatch

-- `anchor` is the appointment of the intent, `at` the instant of the payment.
unfoldable pub confirm_group_after_paid :
    Outside → (anchor group id : ℕ) → Option ℕ → ℕ → Db → Confirmation
unfolding canonical_confirm
confirm_group_after_paid o anchor group id reference at db =
    confirm_anchor o anchor group id reference at db (find_cita anchor db.citas)
