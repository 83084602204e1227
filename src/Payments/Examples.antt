-- ===== src/Payments/Examples.antt =====
-- A reservation of one appointment for 450.00 is paid.
use masterfadebackend.Prelude.{◌≤◌, ◌≡◌, ◌≢◌, refl, arith, List, [], ◌∷◌, none, some, true, false}
use masterfadebackend.Payments.{
  creado, link_generado, pendiente_confirmacion, en_espera, pendiente_pago, HoldState, GroupState,
  Attempt, Intent, Cita, Db, find_intent,
}
use masterfadebackend.Payments.Confirmation.{Outside}
use masterfadebackend.Payments.Approval.{least_expiry, durable_approval}
use masterfadebackend.Payments.Reconcile.{Paid, confirmed, repriced, reconcile}
use masterfadebackend.Payments.Reconcile.Capture.{Accounts, reconcile-Accounts}
use masterfadebackend.Payments.Reconcile.Replay.{IsSettled, IsStill, reconcile-settles}
use masterfadebackend.Payments.Group.Holds.{IsReady, activate-IsReady}
use masterfadebackend.Payments.Group.{is_payable, group_expires_at, is_revalidated, activate}
use masterfadebackend.Payments.Intents.{create_intent}
use masterfadebackend.Payments.Sale.{SaleRequest, start_sale}
use masterfadebackend.Payments.Sale.Operations.{Operation, create, link, start, pay, charges}
use masterfadebackend.Payments.Expiry.{expire_stale}
use masterfadebackend.Payments.Expiry.Stale.{AllCurrent, expire_stale_settles}
use masterfadebackend.Payments.Expiry.Recovery.{expire_stale-blocks}
use masterfadebackend.Payments.Open.{is_open}
use masterfadebackend.Payments.Sale.Charges.{charges_once}

abbrev intent : Intent
intent = record {
  id_intent = 7;
  id_cita = 1;
  id_grupo_cita = 3;
  id_hold = some 5;
  created_by = 9;
  is_pixelpay = true;
  is_hnl = true;
  estado = pendiente_confirmacion;
  monto = 45000;
  referencia_externa = some 62;
  provider_session_id = some 61;
  orden_compra = some 8;
  expires_at = 900;
}

abbrev cita : Cita
cita = record {
  id_cita = 1;
  id_grupo_cita = 3;
  estado = pendiente_pago;
  inicio_at = 5000000;
  total_pagar = 45000;
  holds = record { id_hold = 5; estado = HoldState.activo; expires_at = 900 } ∷ [];
}

abbrev db : Db
db = record {
  intents = intent ∷ [];
  payments = [];
  citas = cita ∷ [];
  grupos = λ g. GroupState.activo;
  attempts = [];
}

abbrev outside : Outside
outside = record {
  admitted = true;
  price = λ c. some 45000;
  group_total_hnl = 45000;
  slots_free = true;
  rest_succeeds = true;
}

abbrev paid : Paid
paid = record {
  id_grupo = 3;
  id_intent = 7;
  payment_uuid = some 61;
  transaction_id = some 62;
  expected_amount = 45000;
  paid_at = none;
  allow_expired_recovery = false;
  from_durable_approval = false;
}

paid_answer : (reconcile outside 500 paid db).answer ≡ confirmed true
unfolding reconcile is_payable group_expires_at repriced least_expiry
paid_answer = refl

reconcile-Accounts_example :
    Accounts 3 7 intent db (reconcile outside 500 paid db).answer (reconcile outside 500 paid db).db
reconcile-Accounts_example = reconcile-Accounts outside 500 paid db intent refl refl

reconcile-settles_example :
    IsSettled 7 (reconcile outside 500 paid db).db
    × IsStill
        (reconcile outside 500 paid db).db
        (reconcile outside 600 paid (reconcile outside 500 paid db).db)
reconcile-settles_example =
    reconcile-settles outside 500 paid db intent true refl refl paid_answer outside 600 paid refl

abbrev created : Db
created = record db { intents = []; citas = record cita { estado = en_espera } ∷ [] }

abbrev request : SaleRequest
request = record {
  id_grupo = 3;
  id_intent = 7;
  items = record { named = true; price = 45000; qty = 1 } ∷ [];
  owns = true;
  card_allowed = true;
  attempt_id = 77;
  grace = 300;
}

-- The sale is asked for twice, and its result is uncertain.
abbrev operations : List Operation
operations =
    create outside 100 (record { id_grupo = 3; new_id = 7; user = 9 })
    ∷ link 101 3 7 8
    ∷ start outside 102 request
    ∷ start outside 103 request
    ∷ pay outside 104 paid
    ∷ []

operations_charge : charges 7 operations created ≡ 1
unfolding charges create_intent activate start_sale reconcile is_payable group_expires_at repriced
    is_revalidated
operations_charge = refl

charges_once_example :
    (charges 7 operations created ≤ 1)
    × ((i : Intent)
        → find_intent 7 created.intents ≡ some i
        → is_open i.estado ≡ false
        → charges 7 operations created ≡ 0)
charges_once_example = charges_once 7 operations created

abbrev fresh_intent : Intent
fresh_intent = record intent { estado = creado }

abbrev unlinked : Db
unlinked = record created { intents = fresh_intent ∷ [] }

abbrev linked : Db
linked = record created {
  intents = record fresh_intent { estado = link_generado; orden_compra = some 4 } ∷ [];
  citas = cita ∷ [];
}

activate-linked : activate 500 3 7 4 unlinked ≡ some linked
unfolding activate is_revalidated
activate-linked = refl

activate-IsReady_example : IsReady 500 3 unlinked fresh_intent
activate-IsReady_example =
    activate-IsReady 500 3 7 4 unlinked linked fresh_intent refl activate-linked

-- An approval that was verified at 800, of a sale that counts as uncertain.
abbrev approval : Attempt
approval = record {
  id_intent = 7;
  payment_attempt_id = 77;
  outcome_approved = true;
  success_response = true;
  status_ok = true;
  finalized_at = some 800;
  response_success = some true;
  response_approved = some true;
  response_incomplete = some false;
  uncertain = some false;
  transaction_result_valid = some true;
  transaction_result_parsed = some true;
  payment_uuid_present = some true;
  transaction_id_present = some true;
  payment_hash_present = some true;
  payment_hash_valid = some true;
  transaction_amount_matches = some true;
  approved_amount_matches = some true;
  amount_matches = some true;
}

abbrev approved_db : Db
approved_db = record db { attempts = approval ∷ [] }

abbrev recovery : Paid
recovery = record paid { from_durable_approval = true }

-- At 1000 the holds have expired, and the recovery confirms the reservation.
recovered : (reconcile outside 1000 recovery approved_db).answer ≡ confirmed true
unfolding reconcile is_payable group_expires_at repriced least_expiry durable_approval
recovered = refl

expire_stale_settles_example :
    AllCurrent 1000 (expire_stale 1000 approved_db)
    × (expire_stale 1000 (expire_stale 1000 approved_db) ≡ expire_stale 1000 approved_db)
expire_stale_settles_example = expire_stale_settles 1000 approved_db

expire_stale-blocks_example :
    (reconcile outside 1000 recovery (expire_stale 1000 approved_db)).answer ≢ confirmed true
expire_stale-blocks_example =
    expire_stale-blocks 1000 approved_db intent outside 1000 recovery true refl refl (omega arith)
      refl
