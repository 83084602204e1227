-- ===== src/Deletion/Auth.antt =====
-- `runClientAccountDeletionAuthCleanup`: the identity is deleted at the authentication service, and the
-- request is completed. What the service answers is an argument, call by call.
pub mod Outcome
use masterfadebackend.Prelude.{
  ℕ, Option, none, some, Bool, true, false, ◌&&◌, ◌||◌, not, ◌==◌, if◌then◌else◌,
}
use masterfadebackend.Security.Sessions.{coalesce, is_null}
use masterfadebackend.Deletion.{
  RequestState, pendiente_confirmacion, bloqueada, evaluada, procesando, storage_pendiente,
  auth_pendiente, completada, rechazada, cancelada, Request, FailureCode, auth_lookup_failed,
  auth_delete_failed, auth_verification_code, DeletionError, request_not_found, auth_state_invalid,
  auth_identity_mismatch, auth_precondition_failed, auth_temporary_failure,
  auth_verification_failed, is_completada,
}
use masterfadebackend.Deletion.Orchestration.{stage_done, stage_failed, Store, Ran}

-- What `getUserById` says: no such user, the user asked for, or an error or another answer.
pub data AuthLookup : Type 0 where
  user_absent user_present lookup_unclear : AuthLookup

-- The answers of one attempt; `deleted` is a deletion without an error.
pub record AuthAnswers : Type 0 where
  pub found : AuthLookup
  pub deleted : Bool
  pub after_error : AuthLookup
  pub after_delete : AuthLookup

pub data Attempt : Type 0 where
  removed : Attempt
  not_removed : FailureCode → DeletionError → Attempt

abbrev pub verified : AuthLookup → Attempt
verified user_absent = removed
verified user_present = not_removed auth_verification_code auth_verification_failed
verified lookup_unclear = not_removed auth_lookup_failed auth_temporary_failure

-- After a deletion with an error, the identity must be seen absent before it is verified.
abbrev pub rechecked : AuthLookup → AuthLookup → Attempt
rechecked user_absent after = verified after
rechecked user_present after = not_removed auth_delete_failed auth_temporary_failure
rechecked lookup_unclear after = not_removed auth_lookup_failed auth_temporary_failure

abbrev pub attempt_from : AuthLookup → AuthAnswers → Attempt
attempt_from user_absent a = removed
attempt_from user_present a =
    if a.deleted then verified a.after_delete else rechecked a.after_error a.after_delete
attempt_from lookup_unclear a = not_removed auth_lookup_failed auth_temporary_failure

unfoldable pub attempt : AuthAnswers → Attempt
attempt a = attempt_from a.found a

abbrev pub is_auth_pendiente : RequestState → Bool
is_auth_pendiente auth_pendiente = true
is_auth_pendiente pendiente_confirmacion = false
is_auth_pendiente bloqueada = false
is_auth_pendiente evaluada = false
is_auth_pendiente procesando = false
is_auth_pendiente storage_pendiente = false
is_auth_pendiente completada = false
is_auth_pendiente rechazada = false
is_auth_pendiente cancelada = false

abbrev pub is_for : ℕ → Option ℕ → Bool
is_for user none = false
is_for user (some pending) = pending == user

pub data Prepared : Type 0 where
  replayed may_delete : Prepared
  not_prepared : DeletionError → Prepared

-- `ready` is the answer of the preconditions on the account.
unfoldable pub prepare_auth : (ready : Bool) → Request → Prepared
prepare_auth ready r =
    if not r.autonomo
    then not_prepared request_not_found
    else if is_completada r.estado_codigo
        && not (is_null r.completado_at)
        && is_null r.auth_user_id_pendiente
    then replayed
    else if not (is_auth_pendiente r.estado_codigo)
        || is_null r.procesando_at
        || not (is_null r.completado_at)
        || is_null r.auth_user_id_pendiente
    then not_prepared auth_state_invalid
    else if not (is_for r.id_usuario r.auth_user_id_pendiente)
    then not_prepared auth_identity_mismatch
    else if not ready
    then not_prepared auth_precondition_failed
    else may_delete

unfoldable pub complete_request : ℕ → Request → Request
complete_request now r = record r {
  estado_codigo = completada;
  auth_user_id_pendiente = none;
  completado_at = some (coalesce r.completado_at now);
  error_codigo = none;
}

pub persist_failure : FailureCode → Request → Request
persist_failure code r =
    if is_auth_pendiente r.estado_codigo && is_for r.id_usuario r.auth_user_id_pendiente
    then record r { error_codigo = some code }
    else r

module _ {ℓ} {World : Type ℓ} where
  -- The second transaction prepares again before it completes. `failure` is what a statement throws after
  -- the service was asked, which rolls the transaction back.
  abbrev pub finalized : (failure : Option DeletionError) → ℕ → Store World → Prepared → Ran World
  finalized failure now s replayed = record { store = s; result = stage_done }
  finalized none now s may_delete = record {
    store = record s { request = complete_request now s.request };
    result = stage_done;
  }
  finalized (some e) now s may_delete = record { store = s; result = stage_failed e }
  finalized failure now s (not_prepared e) = record { store = s; result = stage_failed e }

  abbrev pub after_attempt :
      (ready_after : Bool) (failure : Option DeletionError) → ℕ → Store World → Attempt → Ran World
  after_attempt ready_after failure now s removed =
      finalized failure now s (prepare_auth ready_after s.request)
  after_attempt ready_after none now s (not_removed code e) = record {
    store = record s { request = persist_failure code s.request };
    result = stage_failed e;
  }
  after_attempt ready_after (some thrown) now s (not_removed code e) = record {
    store = s;
    result = stage_failed thrown;
  }

  abbrev pub after_prepared :
      (ready_after : Bool) (failure : Option DeletionError)
      → AuthAnswers
      → ℕ
      → Store World
      → Prepared
      → Ran World
  after_prepared ready_after failure a now s replayed = record { store = s; result = stage_done }
  after_prepared ready_after failure a now s (not_prepared e) = record {
    store = s;
    result = stage_failed e;
  }
  after_prepared ready_after failure a now s may_delete =
      after_attempt ready_after failure now s (attempt a)

-- `ready` are the preconditions before the deletion at the service and after it.
unfoldable pub run_auth {ℓ} :
    {World : Type ℓ} (ready ready_after : Bool) (failure : Option DeletionError)
    → AuthAnswers
    → ℕ
    → Store World
    → Ran World
unfolding prepare_auth attempt complete_request persist_failure
run_auth ready ready_after failure a now s =
    after_prepared ready_after failure a now s (prepare_auth ready s.request)
