-- ===== src/Deletion/Orchestration/Replay.antt =====
-- What an answer `completed` says: the request is completed, and asking again changes nothing.
use masterfadebackend.Prelude.{
  ℕ, zero, suc, ◌≡◌, inl, inr, refl, Option, none, some, Bool, true, arith, ◌==◌, Bool-cases,
}
use masterfadebackend.Deletion.{
  RequestState, pendiente_confirmacion, bloqueada, evaluada, procesando, storage_pendiente,
  auth_pendiente, completada, rechazada, cancelada, Request, DeletionError, status_code, Credential,
  load_execution_context,
}
use masterfadebackend.Deletion.Orchestration.{
  StageResult, stage_done, stage_blocked, stage_pending, stage_failed, Store, Stages, completed,
  Finished, Round, answered, again, dispatch, after_internal, after_anonymization, after_storage,
  after_auth, after_load, then_round, rounds, orchestrate, is_reauth_expired,
}

-- The credential opens the completed request at any instant, which is left as it is.
abbrev Opens : (ℕ → ℕ) → Credential → Request → Type 0
Opens hash c r =
    (r.estado_codigo ≡ completada)
    × ((now : ℕ) → load_execution_context hash now c r ≡ record { request = r; error = none })

load-Opens :
    (hash : ℕ → ℕ) (now : ℕ) (c : Credential) (r : Request)
    → (load_execution_context hash now c r).error ≡ none
    → (load_execution_context hash now c r).request.estado_codigo ≡ completada
    → Opens hash c (load_execution_context hash now c r).request
unfolding load_execution_context
load-Opens hash now c r e s = ground arith

module _ {World : Type 0} (P : Store World → Type 0) where
  -- Where the round answers `completed`, `P` holds of its store.
  abbrev Ends : Round World → Type 0
  Ends (answered f) = (b : Bool) → f.answer ≡ completed b → P f.store
  Ends (again s) = Unit

  internal-Ends : (s : Store World) (r : StageResult) → Ends (after_internal s r)
  unfolding after_internal
  internal-Ends s stage_done = tt
  internal-Ends s stage_pending = tt
  internal-Ends s stage_blocked = λ b e. cc
  internal-Ends s (stage_failed e) = elim (Bool-cases (is_reauth_expired e)) [
    | inl expired ↦ rw expired (λ b a. cc)
    | inr other ↦ rw other (λ b a. cc)
  ]

  anonymization-Ends : (s : Store World) (r : StageResult) → Ends (after_anonymization s r)
  unfolding after_anonymization
  anonymization-Ends s stage_done = tt
  anonymization-Ends s stage_pending = tt
  anonymization-Ends s stage_blocked = tt
  anonymization-Ends s (stage_failed e) = λ b a. cc

  storage-Ends : (s : Store World) (r : StageResult) → Ends (after_storage s r)
  unfolding after_storage
  storage-Ends s stage_done = tt
  storage-Ends s stage_pending = λ b a. cc
  storage-Ends s stage_blocked = tt
  storage-Ends s (stage_failed e) = λ b a. cc

  auth-Ends : (s : Store World) (r : StageResult) → Ends (after_auth s r)
  unfolding after_auth
  auth-Ends s stage_done = tt
  auth-Ends s stage_pending = tt
  auth-Ends s stage_blocked = tt
  auth-Ends s (stage_failed e) = elim (Bool-cases (status_code e == 503)) [
    | inl unavailable ↦ rw unavailable (λ b a. cc)
    | inr other ↦ rw other (λ b a. cc)
  ]

  dispatch-Ends :
      (stages : Stages World) (now : ℕ) (initial state : RequestState) (s : Store World)
      → (state ≡ completada → P s)
      → Ends (dispatch stages now initial state s)
  unfolding dispatch
  dispatch-Ends stages now initial completada s p = λ b a. p refl
  dispatch-Ends stages now initial evaluada s p =
      internal-Ends (stages.internal now s).store (stages.internal now s).result
  dispatch-Ends stages now initial procesando s p =
      anonymization-Ends (stages.anonymization now s).store (stages.anonymization now s).result
  dispatch-Ends stages now initial storage_pendiente s p =
      storage-Ends (stages.storage now s).store (stages.storage now s).result
  dispatch-Ends stages now initial auth_pendiente s p =
      auth-Ends (stages.auth now s).store (stages.auth now s).result
  dispatch-Ends stages now initial pendiente_confirmacion s p = λ b a. cc
  dispatch-Ends stages now initial bloqueada s p = λ b a. cc
  dispatch-Ends stages now initial rechazada s p = λ b a. cc
  dispatch-Ends stages now initial cancelada s p = λ b a. cc

  load-Ends :
      (stages : Stages World) (now : ℕ) (initial : Option RequestState) (s : Store World)
      (e : Option DeletionError)
      → (e ≡ none → s.request.estado_codigo ≡ completada → P s)
      → Ends (after_load stages now initial s e)
  load-Ends stages now initial s none p =
      dispatch-Ends stages now _ s.request.estado_codigo s (p refl)
  load-Ends stages now initial s (some e) p = λ b a. cc

  then_round-Ends :
      (x : Round World) (next : Store World → Finished World) (b : Bool)
      → Ends x
      → ((s : Store World) → (next s).answer ≡ completed b → P (next s).store)
      → (then_round x next).answer ≡ completed b
      → P (then_round x next).store
  then_round-Ends (answered f) next b ends rest a = ends b a
  then_round-Ends (again s) next b ends rest a = rest s a

module _ {World : Type 0} (hash : ℕ → ℕ) (stages : Stages World) (clock : ℕ → ℕ)
    (c : Credential) where
  rounds-Opens :
      (left done : ℕ) (initial : Option RequestState) (s : Store World) (b : Bool)
      → (rounds hash stages clock c left done initial s).answer ≡ completed b
      → Opens hash c (rounds hash stages clock c left done initial s).store.request
  unfolding rounds
  rounds-Opens zero done initial s b a = cc
  rounds-Opens (suc left) done initial s b a =
      then_round-Ends (λ x. Opens hash c x.request) _ _ b
        (load-Ends (λ x. Opens hash c x.request) stages (clock done) initial _ _
          (load-Opens hash (clock done) c s.request))
        (λ x. rounds-Opens left (suc done) _ x b) a

orchestrated-Opens :
    {World : Type 0} (hash : ℕ → ℕ) (stages : Stages World) (clock : ℕ → ℕ) (c : Credential)
    (s : Store World) (b : Bool)
    → (orchestrate hash stages clock c s).answer ≡ completed b
    → Opens hash c (orchestrate hash stages clock c s).store.request
unfolding orchestrate
orchestrated-Opens hash stages clock c s b a = rounds-Opens hash stages clock c 6 0 none s b a

-- A request that is completed is answered in the first round.
opened-replays :
    {World : Type 0} (hash : ℕ → ℕ) (stages : Stages World) (clock : ℕ → ℕ) (c : Credential)
    (s : Store World)
    → Opens hash c s.request
    → orchestrate hash stages clock c s ≡ record { store = s; answer = completed true }
unfolding orchestrate rounds dispatch
opened-replays hash stages clock c s o = rw (o.1 (clock 0), o.0) refl

-- Where the orchestration answers that the account is deleted, the request is completed, and whoever
-- presents the same credential again, at any time and whatever the stages would do then, gets the same
-- answer, marked as a replay, and changes nothing.
pub orchestrate-replays :
    {World : Type 0} (hash : ℕ → ℕ) (stages later_stages : Stages World) (clock later_clock : ℕ → ℕ)
    (c : Credential) (s : Store World) (b : Bool)
    → (orchestrate hash stages clock c s).answer ≡ completed b
    → ((orchestrate hash stages clock c s).store.request.estado_codigo ≡ completada)
      × (orchestrate hash later_stages later_clock c (orchestrate hash stages clock c s).store
          ≡ record { store = (orchestrate hash stages clock c s).store; answer = completed true })
orchestrate-replays hash stages later_stages clock later_clock c s b a =
    let opens = orchestrated-Opens hash stages clock c s b a in
    (opens.0, opened-replays hash later_stages later_clock c _ opens)
