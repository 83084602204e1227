-- ===== src/Deletion/Examples.antt =====
-- A request that is evaluated, the stages that a test could put in, and an account with one session.
use masterfadebackend.Prelude.{
  ℕ, ◌+◌, ◌*◌, if◌then◌else◌, ◌≡◌, ◌⊎◌, refl, [], ◌∷◌, Option, none, some, true, false, ltb, arith,
}
use masterfadebackend.Security.Sessions.{activa}
use masterfadebackend.Deletion.{
  RequestState, pendiente_confirmacion, load_execution_context, clear_execution_token,
  execution_token_expired, evaluada, procesando, storage_pendiente, auth_pendiente, completada,
  Request, Credential,
}
use masterfadebackend.Deletion.Confirmation.{accept_confirmation, confirm_request}
use masterfadebackend.Deletion.Confirmation.Token.{IsCredentialOf, confirm_request-load}
use masterfadebackend.Deletion.Orchestration.{
  stage_done, Store, Ran, Stages, completed, orchestrate,
}
use masterfadebackend.Deletion.Orchestration.Replay.{orchestrate-replays}
use masterfadebackend.Deletion.Account.{suscripcion_activa, Account, credit, debit}
use masterfadebackend.Deletion.Internal.{Preview, execute_internal}
use masterfadebackend.Deletion.Internal.Revocation.{IsRevoked, execute_internal-IsRevoked}
use masterfadebackend.Deletion.Auth.{user_absent, user_present, AuthAnswers, prepare_auth, run_auth}
use masterfadebackend.Deletion.Auth.Outcome.{IsCompleted, Waits, Stops, run_auth-ends}

abbrev pub request : Request
request = record {
  id_solicitud = 1;
  referencia_publica = 77;
  estado_codigo = evaluada;
  autonomo = true;
  id_cliente = 4;
  id_persona = 5;
  id_usuario = 6;
  reautenticado_at = some 1000;
  procesando_at = none;
  completado_at = none;
  auth_user_id_pendiente = none;
  error_codigo = none;
  storage_asset_ids = [];
  execution_token_hash = some 31;
  execution_token_expires_at = some 600000;
  execution_token_last_used_at = none;
}

abbrev pub credential : Credential
credential = record { reference = 77; is_reference = true; token = 30; token_length = 43 }

abbrev pub hash : ℕ → ℕ
hash n = n + 1

abbrev start : Store ℕ
start = record { request = request; world = 0 }

-- A stage that does nothing but move the request on.
abbrev move_to : RequestState → ℕ → Store ℕ → Ran ℕ
move_to state now s = record {
  store = record s { request = record s.request { estado_codigo = state } };
  result = stage_done;
}

abbrev stages : Stages ℕ
stages = record {
  internal = move_to procesando;
  anonymization = move_to storage_pendiente;
  storage = move_to auth_pendiente;
  auth = move_to completada;
}

abbrev clock : ℕ → ℕ
clock round = 2000 + round * 1000

orchestrate-completes_run :
    (orchestrate hash stages clock credential start).answer ≡ completed false
unfolding orchestrate
orchestrate-completes_run = refl

orchestrate-replays_example :
    ((orchestrate hash stages clock credential start).store.request.estado_codigo ≡ completada)
    × (orchestrate hash stages clock credential
          (orchestrate hash stages clock credential start).store
        ≡ record {
          store = (orchestrate hash stages clock credential start).store;
          answer = completed true;
        })
orchestrate-replays_example =
    orchestrate-replays hash stages stages clock clock credential start false
      orchestrate-completes_run

abbrev pub account : Account
account = record {
  subscriptions =
      record {
        id_cliente = 4;
        estado_suscripcion_codigo = suscripcion_activa;
        renovacion_auto = true;
        cancelada_al_fin = false;
      }
      ∷ [];
  orders = [];
  points =
      record { id_cliente = 4; ajuste_resta = false; puntos = 8; id_cycle = some 31 }
      ∷ record { id_cliente = 4; ajuste_resta = false; puntos = 5; id_cycle = some 30 }
      ∷ [];
  cycles =
      record { id_cycle = 31; id_cliente = 4; activo = true; vence_at = some 700000 }
      ∷ record { id_cycle = 30; id_cliente = 4; activo = true; vence_at = some 1000 }
      ∷ [];
  sessions =
      record {
        id_sesion = 9;
        id_usuario = 6;
        token_jti_hash = 10;
        estado = activa;
        ultimo_uso_at = some 1500;
        expira_at = 900000;
        cierre_at = none;
        revocada_at = none;
        cerrada_por = none;
        motivo_cierre = none;
      }
      ∷ [];
  roles = [];
  users =
      record {
        id_usuario = 6;
        id_persona = 5;
        estado = true;
        acceso_inactivo = false;
        password_hash = some 3;
        deleted_at = none;
      }
      ∷ [];
  clients =
      record {
        id_cliente = 4;
        id_persona = 5;
        id_usuario = 6;
        estado = true;
        consentimiento_marketing = true;
        consentimiento_marketing_at = some 100;
        anonimizado = false;
        deleted_at = none;
      }
      ∷ [];
  assets = [];
}

abbrev pub no_block : Account → Option Preview
no_block a = some record { requires_approval = false; blocking_reasons = [] }

abbrev pub open_account : Store Account
open_account = record { request = request; world = account }

execute_internal-IsRevoked_example :
    ((execute_internal no_block 2000 open_account).store.request.estado_codigo ≡ procesando)
    × IsRevoked 2000 request account (execute_internal no_block 2000 open_account).store.world
execute_internal-IsRevoked_example =
    execute_internal-IsRevoked no_block 2000 open_account refl (unfold execute_internal in refl)

-- The second cycle had ended and held five points. The balance is zero while it is active, and five once
-- it is closed.
abbrev closed_account : Account
closed_account = (execute_internal no_block 2000 open_account).store.world

points_return :
    (credit 4 closed_account.points ≡ 13)
    × (debit 2000 4 closed_account.points account.cycles ≡ 13)
    × (debit 2000 4 closed_account.points closed_account.cycles ≡ 8)
unfolding execute_internal
points_return = (refl, refl, refl)

abbrev auth_request : Request
auth_request = record request {
  estado_codigo = auth_pendiente;
  procesando_at = some 2000;
  auth_user_id_pendiente = some 6;
}

-- The deletion ends with an error, but the service then says that the user is gone.
abbrev pub lost_answer : AuthAnswers
lost_answer = record {
  found = user_present;
  deleted = false;
  after_error = user_absent;
  after_delete = user_absent;
}

-- The preconditions no longer hold after the deletion.
run_auth-ends_example :
    IsCompleted lost_answer
      (run_auth true false none lost_answer 5000 record { request = auth_request; world = account })
    ⊎ (Waits lost_answer (
          run_auth true false none lost_answer 5000
            record { request = auth_request; world = account })
        ⊎ Stops false none lost_answer
            (record { request = auth_request; world = account })
            (run_auth true false none lost_answer 5000
              record { request = auth_request; world = account }))
run_auth-ends_example =
    run_auth-ends false none lost_answer 5000 record { request = auth_request; world = account }
      (unfold prepare_auth in refl)

abbrev unconfirmed : Request
unconfirmed = record request {
  estado_codigo = pendiente_confirmacion;
  execution_token_hash = none;
  execution_token_expires_at = none;
}

confirm_request-load_example :
    load_execution_context hash 300000 credential
      (confirm_request hash 2000 30 1000 (no_block account) unconfirmed).request
    ≡ (let accepted = accept_confirmation hash 2000 30 1000 unconfirmed in
        if ltb 300000 (2000 + 600000)
        then record {
          request = record accepted { execution_token_last_used_at = some 300000 };
          error = none;
        }
        else record {
          request = clear_execution_token accepted;
          error = some execution_token_expired;
        })
unfolding confirm_request IsCredentialOf
confirm_request-load_example =
    confirm_request-load hash 2000 300000 30 1000 (no_block account) unconfirmed false credential
      refl (refl, refl, refl, omega arith, omega arith, refl)
