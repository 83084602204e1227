-- ===== src/Deletion/Confirmation.antt =====
-- `createClientAccountDeletionRequest` and `confirmClientAccountDeletionRequest`: the request before it is
-- executed. The table is the list of its rows, the youngest first.
pub mod Token
use masterfadebackend.Prelude.{
  ℕ, ◌+◌, ◌*◌, List, [], ◌∷◌, map, length, Option, none, some, Bool, true, false, ◌&&◌, ◌||◌, not,
  ltb, ◌==◌, if◌then◌else◌,
}
use masterfadebackend.Security.Sessions.{is_null}
use masterfadebackend.Deletion.{
  RequestState, pendiente_confirmacion, bloqueada, evaluada, procesando, storage_pendiente,
  auth_pendiente, completada, rechazada, cancelada, Request, is_evaluada,
}
use masterfadebackend.Deletion.Internal.{Preview, is_blocking}

abbrev pub is_terminal : RequestState → Bool
is_terminal completada = true
is_terminal rechazada = true
is_terminal cancelada = true
is_terminal pendiente_confirmacion = false
is_terminal bloqueada = false
is_terminal evaluada = false
is_terminal procesando = false
is_terminal storage_pendiente = false
is_terminal auth_pendiente = false

abbrev pub is_confirmable : RequestState → Bool
is_confirmable pendiente_confirmacion = true
is_confirmable bloqueada = true
is_confirmable evaluada = false
is_confirmable procesando = false
is_confirmable storage_pendiente = false
is_confirmable auth_pendiente = false
is_confirmable completada = false
is_confirmable rechazada = false
is_confirmable cancelada = false

-- A row with the key of the call that created it.
pub record KeyedRequest : Type 0 where
  pub request : Request
  pub idempotency_key : ℕ

pub data CreateRequestAnswer : Type 0 where
  request_created : RequestState → CreateRequestAnswer
  request_replayed : RequestState → CreateRequestAnswer
  context_missing approval_required already_active : CreateRequestAnswer

pub record RequestCreated : Type 0 where
  pub table : List KeyedRequest
  pub answer : CreateRequestAnswer

abbrev pub is_active_of : ℕ → KeyedRequest → Bool
is_active_of client k = k.request.id_cliente == client && not (is_terminal k.request.estado_codigo)

pub find_active_request : ℕ → List KeyedRequest → Option KeyedRequest
find_active_request client [] = none
find_active_request client (k ∷ ks) =
    if is_active_of client k then some k else find_active_request client ks

-- The identifiers that the database gives to the row and those of the account.
pub record NewRequest : Type 0 where
  pub id_solicitud : ℕ
  pub referencia_publica : ℕ
  pub id_cliente : ℕ
  pub id_persona : ℕ
  pub id_usuario : ℕ
  pub idempotency_key : ℕ

abbrev new_request : NewRequest → RequestState → KeyedRequest
new_request n state = record {
  request = record {
    id_solicitud = n.id_solicitud;
    referencia_publica = n.referencia_publica;
    estado_codigo = state;
    autonomo = true;
    id_cliente = n.id_cliente;
    id_persona = n.id_persona;
    id_usuario = n.id_usuario;
    reautenticado_at = none;
    procesando_at = none;
    completado_at = none;
    auth_user_id_pendiente = none;
    error_codigo = none;
    storage_asset_ids = [];
    execution_token_hash = none;
    execution_token_expires_at = none;
    execution_token_last_used_at = none;
  };
  idempotency_key = n.idempotency_key;
}

abbrev refused_request : List KeyedRequest → CreateRequestAnswer → RequestCreated
refused_request table answer = record { table = table; answer = answer }

abbrev inserted_unless :
    NewRequest → Preview → List KeyedRequest → Option KeyedRequest → RequestCreated
inserted_unless n p table none =
    let state : RequestState =
      if ltb 0 (length p.blocking_reasons) then bloqueada else pendiente_confirmacion in
    record { table = new_request n state ∷ table; answer = request_created state }
inserted_unless n p table (some k) = refused_request table (
    if k.idempotency_key == n.idempotency_key
    then request_replayed k.request.estado_codigo
    else already_active)

-- The preview is none where the account is not found.
pub create_request : NewRequest → Option Preview → List KeyedRequest → RequestCreated
unfolding find_active_request
create_request n none table = refused_request table context_missing
create_request n (some p) table =
    if p.requires_approval
    then refused_request table approval_required
    else inserted_unless n p table (find_active_request n.id_cliente table)

pub data ConfirmAnswer : Type 0 where
  ready_for_processing : (replay : Bool) (token : ℕ) → ConfirmAnswer
  confirmation_blocked confirm_state_invalid confirm_context_missing : ConfirmAnswer

pub record Confirmed : Type 0 where
  pub request : Request
  pub answer : ConfirmAnswer

abbrev pub execution_token_ttl_minutes : ℕ
execution_token_ttl_minutes = 10

unfoldable pub accept_confirmation :
    (hash : ℕ → ℕ) → ℕ → (token authenticated_at : ℕ) → Request → Request
accept_confirmation hash now token authenticated_at r = record r {
  estado_codigo = evaluada;
  reautenticado_at = some authenticated_at;
  execution_token_hash = some (hash token);
  execution_token_expires_at = some (now + execution_token_ttl_minutes * 60 * 1000);
  execution_token_last_used_at = none;
}

pub block_confirmation : Request → Request
block_confirmation r = record r {
  estado_codigo = bloqueada;
  reautenticado_at = none;
  execution_token_hash = none;
  execution_token_expires_at = none;
}

abbrev evaluated_confirmation :
    (hash : ℕ → ℕ) → ℕ → (token authenticated_at : ℕ) → Option Preview → Request → Confirmed
evaluated_confirmation hash now token authenticated_at none r = record {
  request = r;
  answer = confirm_context_missing;
}
evaluated_confirmation hash now token authenticated_at (some p) r =
    if is_blocking p
    then record { request = block_confirmation r; answer = confirmation_blocked }
    else record {
      request = accept_confirmation hash now token authenticated_at r;
      answer = ready_for_processing false token;
    }

-- `token` is the random one that the call issues, `hash` is SHA-256, and the row is the one that the
-- identifiers of the call find.
unfoldable pub confirm_request :
    (hash : ℕ → ℕ) → ℕ → (token authenticated_at : ℕ) → Option Preview → Request → Confirmed
unfolding accept_confirmation block_confirmation
confirm_request hash now token authenticated_at preview r =
    let evaluated = evaluated_confirmation hash now token authenticated_at preview r in
    if is_evaluada r.estado_codigo && not (is_null r.reautenticado_at)
    then record {
      request = accept_confirmation hash now token authenticated_at r;
      answer = ready_for_processing true token;
    }
    else if not (is_confirmable r.estado_codigo)
    then record { request = r; answer = confirm_state_invalid }
    else evaluated
