-- ===== src/Deletion.antt =====
-- The autonomous deletion of a client's account, services/accountDeletionService.js: the row of
-- `solicitudes_eliminacion_cuenta`, its execution token, and what the stages work on. References, tokens,
-- hashes and identifiers are numbers, and instants are milliseconds.
pub mod Account
pub mod Auth
pub mod Confirmation
pub mod Examples
pub mod Internal
pub mod Orchestration
pub mod Storage
use masterfadebackend.Prelude.{
  ℕ, ◌+◌, ◌*◌, List, [], ◌∷◌, Option, none, some, Bool, true, false, ◌&&◌, ◌||◌, not, ltb, leb,
  ◌==◌, if◌then◌else◌,
}

pub data RequestState : Type 0 where
  pendiente_confirmacion bloqueada evaluada procesando storage_pendiente auth_pendiente :
      RequestState
  completada rechazada cancelada : RequestState

-- `error_codigo`: why the last attempt of a stage did not end it.
pub data FailureCode : Type 0 where
  storage_partial_failure auth_lookup_failed auth_delete_failed auth_verification_code : FailureCode

-- `autonomo` is the condition of the statements on the subject and the mode of the request, and
-- `storage_asset_ids` the list of files in the summary of the impact.
pub record Request : Type 0 where
  pub id_solicitud : ℕ
  pub referencia_publica : ℕ
  pub estado_codigo : RequestState
  pub autonomo : Bool
  pub id_cliente : ℕ
  pub id_persona : ℕ
  pub id_usuario : ℕ
  pub reautenticado_at : Option ℕ
  pub procesando_at : Option ℕ
  pub completado_at : Option ℕ
  pub auth_user_id_pendiente : Option ℕ
  pub error_codigo : Option FailureCode
  pub storage_asset_ids : List ℕ
  pub execution_token_hash : Option ℕ
  pub execution_token_expires_at : Option ℕ
  pub execution_token_last_used_at : Option ℕ

pub data DeletionError : Type 0 where
  execution_reference_invalid execution_token_required execution_credential_invalid : DeletionError
  execution_token_expired execution_state_invalid blocked reauth_required : DeletionError
  reauth_expired_for_processing request_not_found request_state_invalid context_not_found :
      DeletionError
  points_reconciliation_failed user_state_changed : DeletionError
  auth_state_invalid auth_identity_mismatch auth_precondition_failed : DeletionError
  storage_state_invalid storage_precondition_failed storage_asset_not_found : DeletionError
  storage_asset_ownership_invalid : DeletionError
  auth_temporary_failure auth_verification_failed orchestration_limit_reached : DeletionError
  other_failure : (status : ℕ) → DeletionError

-- The HTTP status of an error.
abbrev pub status_code : DeletionError → ℕ
status_code execution_reference_invalid = 400
status_code execution_token_required = 400
status_code execution_credential_invalid = 401
status_code execution_token_expired = 401
status_code execution_state_invalid = 409
status_code blocked = 409
status_code reauth_required = 401
status_code reauth_expired_for_processing = 401
status_code request_not_found = 404
status_code request_state_invalid = 409
status_code context_not_found = 404
status_code points_reconciliation_failed = 500
status_code user_state_changed = 409
status_code auth_state_invalid = 409
status_code auth_identity_mismatch = 409
status_code auth_precondition_failed = 409
status_code storage_state_invalid = 409
status_code storage_precondition_failed = 409
status_code storage_asset_not_found = 500
status_code storage_asset_ownership_invalid = 409
status_code auth_temporary_failure = 503
status_code auth_verification_failed = 503
status_code orchestration_limit_reached = 500
status_code (other_failure status) = status

abbrev pub is_completada : RequestState → Bool
is_completada completada = true
is_completada pendiente_confirmacion = false
is_completada bloqueada = false
is_completada evaluada = false
is_completada procesando = false
is_completada storage_pendiente = false
is_completada auth_pendiente = false
is_completada rechazada = false
is_completada cancelada = false

abbrev pub is_evaluada : RequestState → Bool
is_evaluada evaluada = true
is_evaluada completada = false
is_evaluada pendiente_confirmacion = false
is_evaluada bloqueada = false
is_evaluada procesando = false
is_evaluada storage_pendiente = false
is_evaluada auth_pendiente = false
is_evaluada rechazada = false
is_evaluada cancelada = false

-- What a request presents: the trimmed texts of the reference and the token.
pub record Credential : Type 0 where
  pub reference : ℕ
  pub is_reference : Bool
  pub token : ℕ
  pub token_length : ℕ

pub clear_execution_token : Request → Request
clear_execution_token r =
    if is_completada r.estado_codigo
    then r
    else record r { execution_token_hash = none; execution_token_expires_at = none }

abbrev pub is_token : (ℕ → ℕ) → ℕ → Option ℕ → Bool
is_token hash token none = false
is_token hash token (some stored) = hash token == stored

-- A missing instant is the start of 1970.
abbrev is_expired : ℕ → Option ℕ → Bool
is_expired now none = true
is_expired now (some expires) = leb expires now

pub record Loaded : Type 0 where
  pub request : Request
  pub error : Option DeletionError

-- `hash` is SHA-256. The row that the store holds is the only one that a reference can find.
unfoldable pub load_execution_context : (hash : ℕ → ℕ) → ℕ → Credential → Request → Loaded
unfolding clear_execution_token
load_execution_context hash now c r =
    if not c.is_reference
    then record { request = r; error = some execution_reference_invalid }
    else if ltb c.token_length 40 || ltb 100 c.token_length
    then record { request = r; error = some execution_token_required }
    else if not (
        r.referencia_publica == c.reference
        && r.autonomo
        && is_token hash c.token r.execution_token_hash)
    then record { request = r; error = some execution_credential_invalid }
    else if is_evaluada r.estado_codigo && is_expired now r.execution_token_expires_at
    then record { request = clear_execution_token r; error = some execution_token_expired }
    else if is_completada r.estado_codigo
    then record { request = r; error = none }
    else record { request = record r { execution_token_last_used_at = some now }; error = none }
