-- ===== src/Deletion/Storage/Removal.antt =====
-- The request goes on to the authentication service with no file of the account left.
use masterfadebackend.Prelude.{
  ℕ, ◌≡◌, refl, sym, subst, inl, inr, List, [], ◌∷◌, map, filter, any, length, Bool, true, false,
  ◌&&◌, ◌||◌, not, arith, ◌==◌, All, All-map, Bool-cases,
}
use masterfadebackend.Security.Sessions.{is_null}
use masterfadebackend.Deletion.{storage_pendiente, auth_pendiente, Request}
use masterfadebackend.Deletion.Orchestration.{stage_done, Store, Ran}
use masterfadebackend.Deletion.Account.{StorageAsset, Account}
use masterfadebackend.Deletion.Auth.{is_auth_pendiente, is_for}
use masterfadebackend.Deletion.Storage.{
  is_deleted, is_among, quarantine, Outcome, already_deleted, deleted, failed, Processed,
  ObjectStore, process_asset, mark_deleted, mark_one, mark_each, is_failed, is_storage_pendiente,
  is_anonymised, StorageChecks, listed_assets, quarantined_store, finalize_storage, remove_assets,
  advance_to_auth, run_storage,
}

-- A listed file is deleted, or its object was seen absent.
abbrev is_gone : ObjectStore → List ℕ → StorageAsset → Bool
is_gone o ids x =
    not (is_among ids x.id_asset)
    || is_deleted x
    || o.absent_before x.id_asset
    || o.absent_after x.id_asset

-- A listed file is deleted.
abbrev is_settled : List ℕ → StorageAsset → Bool
is_settled ids x = not (is_among ids x.id_asset) || is_deleted x

is_removal : ℕ → Processed → Bool
is_removal id p = p.id_asset == id && removal p.outcome
  where
    removal : Outcome → Bool
    removal deleted = true
    removal already_deleted = false
    removal failed = false

-- A listed file is deleted, or a result is its removal.
abbrev Covered : List ℕ → List Processed → StorageAsset → Type 0
Covered ids ps x = is_settled ids x || any (is_removal x.id_asset) ps ≡ true

processed-gone :
    (o : ObjectStore) (ids : List ℕ) (table : List StorageAsset)
    → any is_failed (map (process_asset o) (filter (λ x. is_among ids x.id_asset) table)) ≡ false
    → All (λ x. is_gone o ids x ≡ true) table
unfolding process_asset
processed-gone o ids [] ok = tt
processed-gone o ids (x ∷ xs) ok = (ground arith, processed-gone o ids xs ground arith)

processed-Covered :
    (o : ObjectStore) (ids : List ℕ) (table : List StorageAsset)
    → any is_failed (map (process_asset o) (filter (λ x. is_among ids x.id_asset) table)) ≡ false
    → All (Covered ids (map (process_asset o) (filter (λ x. is_among ids x.id_asset) table))) table
unfolding process_asset is_removal
processed-Covered o ids [] ok = tt
processed-Covered o ids (x ∷ xs) ok = (
  ground arith,
  All-map _ _ (λ y covered. ground (arith, covered)) xs (processed-Covered o ids xs ground arith),
)

quarantine-Covered :
    (ids : List ℕ) (request : ℕ) (ps : List Processed) (table : List StorageAsset)
    → All (Covered ids ps) table
    → All (Covered ids ps) (map (quarantine ids request) table)
unfolding quarantine
quarantine-Covered ids request ps [] a = tt
quarantine-Covered ids request ps (x ∷ xs) a =
    (ground (arith, a.0), quarantine-Covered ids request ps xs a.1)

mark_one-Covered :
    (now request : ℕ) (ids : List ℕ) (p : Processed) (ps : List Processed)
    (table : List StorageAsset)
    → is_failed p ≡ false
    → All (Covered ids (p ∷ ps)) table
    → All (Covered ids ps) (map (mark_one now request p) table)
unfolding mark_deleted is_removal
mark_one-Covered now request ids p ps [] ok a = tt
mark_one-Covered now request ids p ps (x ∷ xs) ok a =
    (ground (arith, a.0), mark_one-Covered now request ids p ps xs ok a.1)

mark_each-settles :
    (now request : ℕ) (ids : List ℕ) (ps : List Processed) (table : List StorageAsset)
    → any is_failed ps ≡ false
    → All (Covered ids ps) table
    → All (λ x. is_settled ids x ≡ true) (mark_each now request ps table)
unfolding mark_each
mark_each-settles now request ids [] table ok a =
    All-map _ _ (λ x covered. ground (arith, covered)) table a
mark_each-settles now request ids (p ∷ ps) table ok a =
    mark_each-settles now request ids ps (map (mark_one now request p) table) ground arith
      (mark_one-Covered now request ids p ps table ground arith a)

nothing-listed :
    (o : ObjectStore) (table : List StorageAsset) → All (λ x. is_gone o [] x ≡ true) table
nothing-listed o [] = tt
nothing-listed o (x ∷ xs) = (refl, nothing-listed o xs)

nothing-settled : (table : List StorageAsset) → All (λ x. is_settled [] x ≡ true) table
nothing-settled [] = tt
nothing-settled (x ∷ xs) = (refl, nothing-settled xs)

-- The request is in `auth_pendiente`, no object of a file listed in it was left, and each is deleted.
pub IsEmptied : ObjectStore → Request → List StorageAsset → Ran Account → Type 0
IsEmptied o r assets ran =
    (ran.store.request.estado_codigo ≡ auth_pendiente)
    × All (λ x. is_gone o r.storage_asset_ids x ≡ true) assets
    × All (λ x. is_settled r.storage_asset_ids x ≡ true) ran.store.world.assets

remove-IsEmptied :
    (checks : StorageChecks) (o : ObjectStore) (now : ℕ) (s : Store Account) (ids : List ℕ)
    → s.request.storage_asset_ids ≡ ids
    → (remove_assets checks o now
        (listed_assets s.request s.world)
        ids
        (quarantined_store s)).result
      ≡ stage_done
    → IsEmptied o s.request s.world.assets
        (remove_assets checks o now (listed_assets s.request s.world) ids (quarantined_store s))
unfolding IsEmptied finalize_storage advance_to_auth
remove-IsEmptied checks o now s [] same ok = (
  refl,
  subst (λ i. All (λ x. is_gone o i x ≡ true) s.world.assets) (sym same)
      (nothing-listed o s.world.assets),
  subst (λ i. All (λ x. is_settled i x ≡ true) (quarantined_store s).world.assets) (sym same)
      (nothing-settled (quarantined_store s).world.assets),
)
remove-IsEmptied checks o now s (id ∷ ids) same ok =
    let listed = s.request.storage_asset_ids in
    let results = map (process_asset o) (listed_assets s.request s.world) in
    elim (Bool-cases checks.owned_after) [
      | inr alien ↦ (let refused = rw alien at ok in cc)
      | inl owned ↦ elim (Bool-cases (any is_failed results)) [
        | inl some_failed ↦ (let refused = rw (owned, some_failed) at ok in cc)
        | inr none_failed ↦
            rw (owned, none_failed)
              (
                refl,
                processed-gone o listed s.world.assets none_failed,
                mark_each-settles now s.request.id_solicitud listed results
                    (quarantined_store s).world.assets none_failed
                    (quarantine-Covered listed s.request.id_solicitud results s.world.assets
                      (processed-Covered o listed s.world.assets none_failed)),
              )
      ]
    ]

-- Where the storage stage of a request in `storage_pendiente` is done, the request is in `auth_pendiente`,
-- every file that is listed in it was deleted before or its object was seen absent from the object store,
-- and the rows of these files are all deleted.
pub run_storage-IsEmptied :
    (checks : StorageChecks) (o : ObjectStore) (now : ℕ) (s : Store Account)
    → s.request.estado_codigo ≡ storage_pendiente
    → (run_storage checks o now s).result ≡ stage_done
    → IsEmptied o s.request s.world.assets (run_storage checks o now s)
unfolding run_storage
run_storage-IsEmptied checks o now s here ok =
    let r = s.request in
    let waits : is_auth_pendiente r.estado_codigo && is_anonymised r s.world ≡ false =
      rw here refl in
    elim (Bool-cases (not (r.autonomo && is_for r.id_usuario r.auth_user_id_pendiente))) [
      | inl alien ↦ (let refused = rw alien at ok in cc)
      | inr own ↦
          elim (Bool-cases
            (not (is_storage_pendiente r.estado_codigo) || is_null r.procesando_at)) [
              | inl invalid ↦ (let refused = rw (own, waits, invalid) at ok in cc)
              | inr valid ↦ elim (Bool-cases (not checks.preconditions)) [
                | inl unmet ↦ (let refused = rw (own, waits, valid, unmet) at ok in cc)
                | inr met ↦
                    elim (Bool-cases
                      (not (length (listed_assets r s.world) == length r.storage_asset_ids))) [
                        | inl missing ↦
                            (let refused = rw (own, waits, valid, met, missing) at ok in cc)
                        | inr there ↦ elim (Bool-cases (not checks.owned)) [
                          | inl shared ↦
                              (let refused = rw (own, waits, valid, met, there, shared) at ok in cc)
                          | inr exclusive ↦
                              rw (own, waits, valid, met, there, exclusive)
                                (remove-IsEmptied checks o now s r.storage_asset_ids refl
                                  (rw (own, waits, valid, met, there, exclusive) at ok))
                        ]
                      ]
              ]
            ]
    ]
