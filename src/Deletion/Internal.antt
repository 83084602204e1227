-- ===== src/Deletion/Internal.antt =====
-- `executeClientAccountDeletionInternal` in its transaction: the account is closed, and the request goes to
-- `procesando`.
pub mod Revocation
use masterfadebackend.Prelude.{
  ℕ, ◌+◌, ◌*◌, List, [], ◌∷◌, map, filter, length, Option, none, some, Bool, true, false, ◌&&◌,
  ◌||◌, not, ltb, leb, ◌==◌, if◌then◌else◌,
}
use masterfadebackend.Security.Sessions.{coalesce, is_null}
use masterfadebackend.Deletion.Account.{Account, credit, debit, close_account, is_user, is_client}
use masterfadebackend.Deletion.{
  RequestState, pendiente_confirmacion, bloqueada, evaluada, procesando, storage_pendiente,
  auth_pendiente, completada, rechazada, cancelada, Request, DeletionError, request_not_found,
  request_state_invalid, reauth_expired_for_processing, context_not_found,
  points_reconciliation_failed, user_state_changed, is_evaluada,
}
use masterfadebackend.Deletion.Orchestration.{stage_done, stage_blocked, stage_failed, Store, Ran}

-- What the evaluation of the account tells, its blocking reasons cleaned.
pub record Preview : Type 0 where
  pub requires_approval : Bool
  pub blocking_reasons : List ℕ

block_request : Request → Request
block_request r = record r {
  estado_codigo = bloqueada;
  reautenticado_at = none;
  procesando_at = none;
  auth_user_id_pendiente = none;
  execution_token_hash = none;
  execution_token_expires_at = none;
}

unfoldable pub mark_processing : ℕ → Request → Request
mark_processing now r = record r {
  estado_codigo = procesando;
  procesando_at = some now;
  auth_user_id_pendiente = some r.id_usuario;
  error_codigo = none;
}

-- The session's instant that the caller presents, against the clock and the stored one.
unfoldable pub is_recent : (now authenticated stored : ℕ) → Bool
is_recent now authenticated stored =
    leb authenticated (now + 60 * 1000)
    && leb now (authenticated + 5 * 60 * 1000)
    && leb stored (authenticated + 60 * 1000)

abbrev pub is_procesando : RequestState → Bool
is_procesando procesando = true
is_procesando pendiente_confirmacion = false
is_procesando bloqueada = false
is_procesando evaluada = false
is_procesando storage_pendiente = false
is_procesando auth_pendiente = false
is_procesando completada = false
is_procesando rechazada = false
is_procesando cancelada = false

abbrev pub is_blocking : Preview → Bool
is_blocking p = p.requires_approval || ltb 0 (length p.blocking_reasons)

-- A statement that fails, like an error, rolls the transaction back.
abbrev pub rolled_back : Store Account → DeletionError → Ran Account
rolled_back s e = record { store = s; result = stage_failed e }

unfoldable pub process : ℕ → Store Account → Ran Account
unfolding close_account mark_processing
process now s =
    let r = s.request in
    let after = close_account now r s.world in
    if not (credit r.id_cliente after.points == debit now r.id_cliente after.points s.world.cycles)
    then rolled_back s points_reconciliation_failed
    else if not (length (filter (is_user r.id_usuario r.id_persona) s.world.users) == 1)
    then rolled_back s user_state_changed
    else if not (length (filter (is_client r) s.world.clients) == 1)
    then rolled_back s user_state_changed
    else record {
      store = record { request = mark_processing now r; world = after };
      result = stage_done;
    }

unfoldable pub after_preview : ℕ → Store Account → Option Preview → Ran Account
unfolding process block_request
after_preview now s none = rolled_back s context_not_found
after_preview now s (some p) =
    let processed = process now s in
    if is_blocking p
    then record { store = record s { request = block_request s.request }; result = stage_blocked }
    else processed

-- `evaluate` is the evaluation of the account at this instant, none where it is not found.
unfoldable pub execute_internal :
    (evaluate : Account → Option Preview) → ℕ → Store Account → Ran Account
unfolding after_preview is_recent
execute_internal evaluate now s =
    let r = s.request in
    let authenticated = coalesce r.reautenticado_at 0 in
    let evaluated = after_preview now s (evaluate s.world) in
    if not r.autonomo
    then rolled_back s request_not_found
    else if is_procesando r.estado_codigo
    then record { store = s; result = stage_done }
    else if not (is_evaluada r.estado_codigo) || is_null r.reautenticado_at
    then rolled_back s request_state_invalid
    else if not (is_recent now authenticated authenticated)
    then rolled_back s reauth_expired_for_processing
    else evaluated
