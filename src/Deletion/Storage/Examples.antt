-- ===== src/Deletion/Storage/Examples.antt =====
-- The removal of two files of an account.
use masterfadebackend.Prelude.{ℕ, refl, [], ◌∷◌, none, some, true, false}
use masterfadebackend.Deletion.{storage_pendiente}
use masterfadebackend.Deletion.Orchestration.{Store}
use masterfadebackend.Deletion.Account.{activo, StorageAsset, Account}
use masterfadebackend.Deletion.Storage.{StorageChecks, ObjectStore, run_storage}
use masterfadebackend.Deletion.Storage.Removal.{IsEmptied, run_storage-IsEmptied}
use masterfadebackend.Deletion.Examples.{request, account}

abbrev empty_store : ObjectStore
empty_store = record { absent_before = λ id. false; absent_after = λ id. true }

abbrev photo : ℕ → StorageAsset
photo id = record {
  id_asset = id;
  status = activo;
  deleted_at = none;
  public_url = some 1;
  owner_user_id = some 6;
  owner_cliente_id = some 4;
  entity_id = some 4;
  quarantined_for = none;
  deleted_for = none;
  anonymous_path = false;
}

abbrev with_photos : Store Account
with_photos = record {
  request = record request {
    estado_codigo = storage_pendiente;
    procesando_at = some 2000;
    auth_user_id_pendiente = some 6;
    storage_asset_ids = 21 ∷ 22 ∷ [];
  };
  world = record account { assets = photo 21 ∷ photo 22 ∷ photo 23 ∷ [] };
}

abbrev checks : StorageChecks
checks = record { preconditions = true; owned = true; owned_after = true }

run_storage-IsEmptied_example :
    IsEmptied empty_store with_photos.request with_photos.world.assets
      (run_storage checks empty_store 9000 with_photos)
unfolding run_storage
run_storage-IsEmptied_example = run_storage-IsEmptied checks empty_store 9000 with_photos refl refl
