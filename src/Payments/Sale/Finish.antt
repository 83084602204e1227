-- ===== src/Payments/Sale/Finish.antt =====
-- The route `/pixelpay/sale` after the call of the provider: what its result makes of the intent.
use masterfadebackend.Prelude.{
  ℕ, map, Option, none, some, Bool, true, false, ◌&&◌, ◌==◌, if◌then◌else◌,
}
use masterfadebackend.Security.Sessions.{is_null}
use masterfadebackend.Payments.{
  IntentState, pendiente_confirmacion, fallido, Intent, Attempt, Db, is_pendiente,
}
use masterfadebackend.Payments.Confirmation.{Outside, given_or}
use masterfadebackend.Payments.Sale.{Claim}
use masterfadebackend.Payments.Reconcile.{Paid, reconcile}

pub data Outcome : Type 0 where
  approved payment_declined request_error_definitive uncertain : Outcome

-- What the provider answers, or that it throws, perhaps with the result uncertain.
pub data SaleResult : Type 0 where
  thrown : (is_uncertain : Bool) → SaleResult
  returned :
      Outcome
      → (payment_uuid transaction_id : Option ℕ) → (payment_hash_valid amount_matches : Bool)
      → SaleResult

-- `resolvePixelPaySaleFailureState`.
abbrev pub failure_state : Outcome → IntentState
failure_state payment_declined = fallido
failure_state request_error_definitive = fallido
failure_state approved = pendiente_confirmacion
failure_state uncertain = pendiente_confirmacion

-- `resolveTrustedPixelPayReferences`, one of the two references.
abbrev pub trusted : (payment_hash_valid amount_matches : Bool) → Option ℕ → Option ℕ
trusted true true reference = reference
trusted true false reference = none
trusted false amount_matches reference = none

unfoldable pub end_intent : ℕ → IntentState → (uuid tx : Option ℕ) → Intent → Intent
end_intent id state uuid tx i =
    if i.id_intent == id && is_pendiente i.estado
    then record i {
      estado = state;
      referencia_externa = given_or tx i.referencia_externa;
      provider_session_id = given_or uuid i.provider_session_id;
    }
    else i

unfoldable pub reference_intent : ℕ → (uuid tx : Option ℕ) → Intent → Intent
reference_intent id uuid tx i =
    if i.id_intent == id
    then record i { referencia_externa = tx; provider_session_id = uuid }
    else i

-- `finalizePixelPaySaleAttempt`; `found` holds what the answer was found to be.
unfoldable pub finalize_attempt : ℕ → ℕ → Attempt → Attempt → Attempt
finalize_attempt now id found x =
    if x.payment_attempt_id == id && is_null x.finalized_at
    then record found {
      id_intent = x.id_intent;
      payment_attempt_id = x.payment_attempt_id;
      finalized_at = some now;
    }
    else x

abbrev pub with_intents : (Intent → Intent) → Db → Db
with_intents f db = record db { intents = map f db.intents }

abbrev pub paid_by : Claim → (uuid tx : Option ℕ) → Paid
paid_by c uuid tx = record {
  id_grupo = c.id_grupo;
  id_intent = c.id_intent;
  payment_uuid = uuid;
  transaction_id = tx;
  expected_amount = c.amount;
  paid_at = none;
  allow_expired_recovery = false;
  from_durable_approval = false;
}

unfoldable pub settle_sale : Outside → ℕ → Claim → SaleResult → Db → Db
unfolding end_intent reference_intent
settle_sale o now c (thrown true) db =
    with_intents (end_intent c.id_intent pendiente_confirmacion none none) db
settle_sale o now c (thrown false) db = with_intents (end_intent c.id_intent fallido none none) db
settle_sale o now c (returned approved uuid tx hash amount) db =
    (reconcile o now (paid_by c uuid tx)
      (with_intents (reference_intent c.id_intent uuid tx) db)).db
settle_sale o now c (returned uncertain uuid tx hash amount) db =
    with_intents (end_intent c.id_intent (failure_state uncertain) none none) db
settle_sale o now c (returned payment_declined uuid tx hash amount) db =
    with_intents
      (end_intent c.id_intent (failure_state payment_declined) (trusted hash amount uuid)
        (trusted hash amount tx))
      db
settle_sale o now c (returned request_error_definitive uuid tx hash amount) db =
    with_intents
      (end_intent c.id_intent (failure_state request_error_definitive) (trusted hash amount uuid)
        (trusted hash amount tx))
      db

-- The end of `/pixelpay/sale`: the attempt is finalized where that statement succeeds, and the intent
-- follows the result.
unfoldable pub finish_sale :
    Outside → ℕ → (recorded : Bool) → Claim → Attempt → SaleResult → Db → Db
unfolding settle_sale finalize_attempt
finish_sale o now recorded c found result db = settle_sale o now c result (
    if recorded
    then record db { attempts = map (finalize_attempt now c.attempt_id found) db.attempts }
    else db)
