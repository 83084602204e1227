-- ===== src/Deletion/Orchestration.antt =====
-- `orchestrateClientAccountDeletion`: the stages of a deletion, one after another, in at most six rounds.
pub mod Replay
use masterfadebackend.Prelude.{
  ℕ, zero, suc, ◌+◌, Option, none, some, Bool, true, false, not, ◌==◌, if◌then◌else◌,
}
use masterfadebackend.Deletion.{
  RequestState, pendiente_confirmacion, bloqueada, evaluada, procesando, storage_pendiente,
  auth_pendiente, completada, rechazada, cancelada, Request, DeletionError, execution_state_invalid,
  blocked, reauth_required, reauth_expired_for_processing, orchestration_limit_reached, status_code,
  is_completada, Credential, clear_execution_token, Loaded, load_execution_context,
}

-- What a stage returns or throws. `stage_blocked` is a result that is not processed and whose request
-- became blocked, `stage_pending` one whose storage was not processed.
pub data StageResult : Type 0 where
  stage_done stage_blocked stage_pending : StageResult
  stage_failed : DeletionError → StageResult

module _ {ℓ} (World : Type ℓ) where
  -- The request's row beside what the stages work on.
  pub record Store : Type ℓ where
    pub request : Request
    pub world : World

  pub record Ran : Type ℓ where
    pub store : Store
    pub result : StageResult

  -- The runners, each at an instant.
  pub record Stages : Type ℓ where
    pub internal : ℕ → Store → Ran
    pub anonymization : ℕ → Store → Ran
    pub storage : ℕ → Store → Ran
    pub auth : ℕ → Store → Ran

pub data Answer : Type 0 where
  completed : (idempotent_replay : Bool) → Answer
  retryable : (status : RequestState) → Answer
  failed : DeletionError → Answer

pub record Finished {ℓ} (World : Type ℓ) : Type ℓ where
  pub store : Store World
  pub answer : Answer

-- A round ends the request with an answer, or leaves a store for the next round.
pub data Round {ℓ} (World : Type ℓ) : Type ℓ where
  answered : Finished World → Round World
  again : Store World → Round World

abbrev pub or_state : Option RequestState → RequestState → RequestState
or_state none state = state
or_state (some initial) state = initial

abbrev pub is_reauth_expired : DeletionError → Bool
is_reauth_expired reauth_expired_for_processing = true
is_reauth_expired _ = false

module _ {ℓ} {World : Type ℓ} where
  abbrev pub ends_with : Answer → Store World → Round World
  ends_with a s = answered record { store = s; answer = a }

  after_internal : Store World → StageResult → Round World
  unfolding clear_execution_token
  after_internal s stage_done = again s
  after_internal s stage_pending = again s
  after_internal s stage_blocked = ends_with (failed blocked) s
  after_internal s (stage_failed e) =
      if is_reauth_expired e
      then ends_with (failed reauth_required)
          (record s { request = clear_execution_token s.request })
      else ends_with (failed e) s

  after_anonymization : Store World → StageResult → Round World
  after_anonymization s (stage_failed e) = ends_with (failed e) s
  after_anonymization s stage_done = again s
  after_anonymization s stage_blocked = again s
  after_anonymization s stage_pending = again s

  after_storage : Store World → StageResult → Round World
  after_storage s stage_pending = ends_with (retryable storage_pendiente) s
  after_storage s (stage_failed e) = ends_with (failed e) s
  after_storage s stage_done = again s
  after_storage s stage_blocked = again s

  after_auth : Store World → StageResult → Round World
  after_auth s (stage_failed e) =
      if status_code e == 503
      then ends_with (retryable auth_pendiente) s
      else ends_with (failed e) s
  after_auth s stage_done = again s
  after_auth s stage_blocked = again s
  after_auth s stage_pending = again s

  -- What a round does in each state; `initial` is the state that the first round found.
  unfoldable pub dispatch :
      Stages World → ℕ → (initial : RequestState) → RequestState → Store World → Round World
  unfolding after_internal after_anonymization after_storage after_auth
  dispatch stages now initial completada s = ends_with (completed (is_completada initial)) s
  dispatch stages now initial evaluada s =
      (let r = stages.internal now s in after_internal r.store r.result)
  dispatch stages now initial procesando s =
      (let r = stages.anonymization now s in after_anonymization r.store r.result)
  dispatch stages now initial storage_pendiente s =
      (let r = stages.storage now s in after_storage r.store r.result)
  dispatch stages now initial auth_pendiente s =
      (let r = stages.auth now s in after_auth r.store r.result)
  dispatch stages now initial pendiente_confirmacion s =
      ends_with (failed execution_state_invalid) s
  dispatch stages now initial bloqueada s = ends_with (failed execution_state_invalid) s
  dispatch stages now initial rechazada s = ends_with (failed execution_state_invalid) s
  dispatch stages now initial cancelada s = ends_with (failed execution_state_invalid) s

  abbrev pub after_load :
      Stages World → ℕ → Option RequestState → Store World → Option DeletionError → Round World
  after_load stages now initial s (some e) = ends_with (failed e) s
  after_load stages now initial s none =
      dispatch stages now (or_state initial s.request.estado_codigo) s.request.estado_codigo s

  abbrev pub then_round : Round World → (Store World → Finished World) → Finished World
  then_round (answered f) next = f
  then_round (again s) next = next s

  -- `clock` gives the instant of each round.
  unfoldable pub rounds :
      (hash : ℕ → ℕ)
      → Stages World
      → (clock : ℕ → ℕ) → Credential
      → (left done : ℕ) → Option RequestState
      → Store World
      → Finished World
  unfolding dispatch load_execution_context
  rounds hash stages clock c zero done initial s = record {
    store = s;
    answer = failed orchestration_limit_reached;
  }
  rounds hash stages clock c (suc left) done initial s =
      let loaded = load_execution_context hash (clock done) c s.request in
      then_round
        (after_load stages (clock done) initial record { request = loaded.request; world = s.world }
          loaded.error)
        (rounds hash stages clock c left (suc done)
          (some (or_state initial s.request.estado_codigo)))

abbrev max_orchestration_iterations : ℕ
max_orchestration_iterations = 6

unfoldable pub orchestrate {ℓ} :
    {World : Type ℓ} (hash : ℕ → ℕ)
    → Stages World
    → (clock : ℕ → ℕ) → Credential
    → Store World
    → Finished World
unfolding rounds
orchestrate hash stages clock c s = rounds hash stages clock c max_orchestration_iterations 0 none s
