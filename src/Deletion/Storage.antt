-- ===== src/Deletion/Storage.antt =====
-- `runClientAccountDeletionStorageCleanup`: the files of the account are removed from the object store, and
-- the request goes on where none is left. What the object store holds is an argument.
pub mod Removal
pub mod Examples
use masterfadebackend.Prelude.{
  ℕ, ◌+◌, List, [], ◌∷◌, map, filter, any, length, Option, none, some, Bool, true, false, ◌&&◌,
  ◌||◌, not, ◌==◌, if◌then◌else◌,
}
use masterfadebackend.Security.Sessions.{coalesce, is_null}
use masterfadebackend.Deletion.{
  RequestState, pendiente_confirmacion, bloqueada, evaluada, procesando, storage_pendiente,
  auth_pendiente, completada, rechazada, cancelada, Request, storage_partial_failure, DeletionError,
  request_not_found, storage_state_invalid, storage_precondition_failed, storage_asset_not_found,
  storage_asset_ownership_invalid,
}
use masterfadebackend.Deletion.Orchestration.{stage_done, stage_pending, stage_failed, Store, Ran}
use masterfadebackend.Deletion.Account.{
  AssetStatus, temporal, activo, reemplazado, fallido, eliminado, StorageAsset, Account,
}
use masterfadebackend.Deletion.Auth.{is_auth_pendiente, is_for}

abbrev pub is_eliminado : AssetStatus → Bool
is_eliminado eliminado = true
is_eliminado temporal = false
is_eliminado activo = false
is_eliminado reemplazado = false
is_eliminado fallido = false

abbrev pub is_deleted : StorageAsset → Bool
is_deleted x = is_eliminado x.status && not (is_null x.deleted_at)

abbrev pub is_among : List ℕ → ℕ → Bool
is_among ids n = any (λ id. id == n) ids

pub quarantine : List ℕ → ℕ → StorageAsset → StorageAsset
quarantine ids request x =
    if is_among ids x.id_asset && not (is_eliminado x.status)
    then record x { status = fallido; quarantined_for = some request }
    else x

pub data Outcome : Type 0 where
  already_deleted deleted failed : Outcome

pub record Processed : Type 0 where
  pub id_asset : ℕ
  pub outcome : Outcome

-- Whether the object store has no object at the file's place, before the removal and after it.
pub record ObjectStore : Type 0 where
  pub absent_before : ℕ → Bool
  pub absent_after : ℕ → Bool

unfoldable pub process_asset : ObjectStore → StorageAsset → Processed
process_asset o x = record {
  id_asset = x.id_asset;
  outcome =
      if is_deleted x
      then already_deleted
      else if o.absent_before x.id_asset || o.absent_after x.id_asset
      then deleted
      else failed;
}

pub mark_deleted : ℕ → (request : ℕ) → ℕ → StorageAsset → StorageAsset
mark_deleted now request id x =
    if x.id_asset == id
    then record x {
      status = eliminado;
      deleted_at = some (coalesce x.deleted_at now);
      public_url = none;
      owner_user_id = none;
      owner_cliente_id = none;
      entity_id = none;
      quarantined_for = none;
      deleted_for = some request;
      anonymous_path = true;
    }
    else x

pub mark_failed : ℕ → StorageAsset → StorageAsset
mark_failed id x = if x.id_asset == id then record x { status = fallido; public_url = none } else x

-- The statement for one result; the deleted ones and the failed ones have different ids.
abbrev pub mark_one : ℕ → (request : ℕ) → Processed → StorageAsset → StorageAsset
mark_one now request p x = mark_outcome p.outcome
  where
    mark_outcome : Outcome → StorageAsset
    mark_outcome already_deleted = x
    mark_outcome deleted = mark_deleted now request p.id_asset x
    mark_outcome failed = mark_failed p.id_asset x

pub mark_each : ℕ → (request : ℕ) → List Processed → List StorageAsset → List StorageAsset
unfolding mark_deleted mark_failed
mark_each now request [] table = table
mark_each now request (p ∷ ps) table = mark_each now request ps (map (mark_one now request p) table)

abbrev pub is_failed : Processed → Bool
is_failed p = failed_outcome p.outcome
  where
    failed_outcome : Outcome → Bool
    failed_outcome failed = true
    failed_outcome deleted = false
    failed_outcome already_deleted = false

abbrev pub is_storage_pendiente : RequestState → Bool
is_storage_pendiente storage_pendiente = true
is_storage_pendiente pendiente_confirmacion = false
is_storage_pendiente bloqueada = false
is_storage_pendiente evaluada = false
is_storage_pendiente procesando = false
is_storage_pendiente auth_pendiente = false
is_storage_pendiente completada = false
is_storage_pendiente rechazada = false
is_storage_pendiente cancelada = false

abbrev pub is_anonymised : Request → Account → Bool
is_anonymised r a = any (λ x. x.id_cliente == r.id_cliente && x.anonimizado) a.clients

-- What the statements and the checks on the files answer: the preconditions, and the ownership of the files
-- before the removal and after it.
pub record StorageChecks : Type 0 where
  pub preconditions : Bool
  pub owned : Bool
  pub owned_after : Bool

unfoldable pub advance_to_auth : Request → Request
advance_to_auth r = record r {
  estado_codigo = auth_pendiente;
  auth_user_id_pendiente = some r.id_usuario;
  error_codigo = none;
}

pub note_partial_failure : Request → Request
note_partial_failure r = record r {
  auth_user_id_pendiente = some r.id_usuario;
  error_codigo = some storage_partial_failure;
}

abbrev pub listed_assets : Request → Account → List StorageAsset
listed_assets r a = filter (λ x. is_among r.storage_asset_ids x.id_asset) a.assets

abbrev pub quarantined_store : Store Account → Store Account
quarantined_store s = record s {
  world = record s.world {
    assets = map (quarantine s.request.storage_asset_ids s.request.id_solicitud) s.world.assets;
  };
}

-- `finalizeAccountDeletionStorageCleanup`, on the store that the quarantine left.
unfoldable pub finalize_storage : ℕ → List Processed → Store Account → Ran Account
unfolding mark_each advance_to_auth note_partial_failure
finalize_storage now results s =
    let marked = record s.world {
      assets = mark_each now s.request.id_solicitud results s.world.assets;
    } in
    if any is_failed results
    then record {
      store = record { request = note_partial_failure s.request; world = marked };
      result = stage_pending;
    }
    else record {
      store = record { request = advance_to_auth s.request; world = marked };
      result = stage_done;
    }

abbrev pub storage_refused : Store Account → DeletionError → Ran Account
storage_refused s e = record { store = s; result = stage_failed e }

-- After the quarantine is committed. `assets` are the rows as they were before it.
abbrev pub remove_assets :
    StorageChecks → ObjectStore → ℕ → List StorageAsset → List ℕ → Store Account → Ran Account
remove_assets checks o now assets [] s = record {
  store = record s { request = advance_to_auth s.request };
  result = stage_done;
}
remove_assets checks o now assets (id ∷ ids) s =
    if checks.owned_after
    then finalize_storage now (map (process_asset o) assets) s
    else storage_refused s storage_asset_ownership_invalid

unfoldable pub run_storage : StorageChecks → ObjectStore → ℕ → Store Account → Ran Account
unfolding quarantine process_asset finalize_storage
run_storage checks o now s =
    let r = s.request in
    let assets = listed_assets r s.world in
    let removed = remove_assets checks o now assets r.storage_asset_ids (quarantined_store s) in
    if not (r.autonomo && is_for r.id_usuario r.auth_user_id_pendiente)
    then storage_refused s request_not_found
    else if is_auth_pendiente r.estado_codigo && is_anonymised r s.world
    then record { store = s; result = stage_done }
    else if not (is_storage_pendiente r.estado_codigo) || is_null r.procesando_at
    then storage_refused s storage_state_invalid
    else if not checks.preconditions
    then storage_refused s storage_precondition_failed
    else if not (length assets == length r.storage_asset_ids)
    then storage_refused s storage_asset_not_found
    else if not checks.owned
    then storage_refused s storage_asset_ownership_invalid
    else removed
