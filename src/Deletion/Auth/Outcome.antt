-- ===== src/Deletion/Auth/Outcome.antt =====
-- The ends of an attempt to delete the identity: the account is deleted, another attempt may follow, or
-- nothing was written.
use masterfadebackend.Prelude.{
  ℕ, Bool, Option, none, some, ◌≡◌, ◌∙◌, ◌⊎◌, inl, inr, refl, true, false, arith, Bool-cases,
}
use masterfadebackend.Security.Sessions.{is_null}
use masterfadebackend.Deletion.{
  auth_pendiente, completada, Request, FailureCode, DeletionError, auth_precondition_failed,
  status_code,
}
use masterfadebackend.Deletion.Orchestration.{stage_done, stage_failed, Store, Ran}
use masterfadebackend.Deletion.Auth.{
  AuthLookup, user_absent, user_present, lookup_unclear, AuthAnswers, Attempt, removed, not_removed,
  verified, rechecked, attempt_from, attempt, may_delete, not_prepared, prepare_auth,
  complete_request, persist_failure, after_attempt, run_auth,
}

-- The service said that it has no such user, before the deletion or after it.
pub SeenAbsent : AuthAnswers → Type 0
SeenAbsent a = (a.found ≡ user_absent) ⊎ (a.after_delete ≡ user_absent)

-- What an attempt tells.
abbrev Tells : AuthAnswers → Attempt → Type 0
Tells a removed = SeenAbsent a
Tells a (not_removed code e) = status_code e ≡ 503

verified-Tells : (a : AuthAnswers) (x : AuthLookup) → a.after_delete ≡ x → Tells a (verified x)
verified-Tells a user_absent e = unfold SeenAbsent in inr e
verified-Tells a user_present e = refl
verified-Tells a lookup_unclear e = refl

rechecked-Tells : (a : AuthAnswers) (x : AuthLookup) → Tells a (rechecked x a.after_delete)
rechecked-Tells a user_absent = verified-Tells a a.after_delete refl
rechecked-Tells a user_present = refl
rechecked-Tells a lookup_unclear = refl

attempt_from-Tells : (a : AuthAnswers) (x : AuthLookup) → a.found ≡ x → Tells a (attempt_from x a)
unfolding SeenAbsent
attempt_from-Tells a user_absent e = inl e
attempt_from-Tells a user_present e = elim (Bool-cases a.deleted) [
  | inl gone ↦ rw gone (verified-Tells a a.after_delete refl)
  | inr kept ↦ rw kept (rechecked-Tells a a.after_error)
]
attempt_from-Tells a lookup_unclear e = refl

-- The request is completed, its identity seen absent; or it waits in `auth_pendiente` for another attempt.
pub IsCompleted : {World : Type 0} → AuthAnswers → Ran World → Type 0
IsCompleted a ran =
    (ran.result ≡ stage_done)
    × (ran.store.request.estado_codigo ≡ completada)
    × (is_null ran.store.request.completado_at ≡ false)
    × SeenAbsent a

pub Waits : {World : Type 0} → AuthAnswers → Ran World → Type 0
Waits a ran =
    (e : DeletionError) × (code : FailureCode) × (attempt a ≡ not_removed code e)
    × (ran.result ≡ stage_failed e)
    × (status_code e ≡ 503)
    × (ran.store.request.error_codigo ≡ some code)
    × (ran.store.request.estado_codigo ≡ auth_pendiente)
    × (prepare_auth true ran.store.request ≡ may_delete)

prepared-pendiente :
    (r : Request) → prepare_auth true r ≡ may_delete → r.estado_codigo ≡ auth_pendiente
unfolding prepare_auth
prepared-pendiente r p = ground arith

persist-prepared :
    (code : FailureCode) (r : Request)
    → prepare_auth true r ≡ may_delete
    → (persist_failure code r).estado_codigo ≡ r.estado_codigo
      × (prepare_auth true (persist_failure code r) ≡ may_delete)
      × ((persist_failure code r).error_codigo ≡ some code)
unfolding persist_failure prepare_auth
persist-prepared code r p = ground arith

-- Nothing is written: the account no longer meets the preconditions although its identity was seen absent,
-- or a statement failed.
pub record Stops {World : Type 0} (ready_after : Bool) (failure : Option DeletionError)
    (a : AuthAnswers) (s : Store World) (ran : Ran World) : Type 0 where
  pub kept : ran.store ≡ s
  pub reason :
      ((ran.result ≡ stage_failed auth_precondition_failed) × (ready_after ≡ false) × SeenAbsent a)
      ⊎ ((e : DeletionError) × (failure ≡ some e) × (ran.result ≡ stage_failed e))

not_ready :
    (r : Request)
    → prepare_auth true r ≡ may_delete
    → prepare_auth false r ≡ not_prepared auth_precondition_failed
unfolding prepare_auth
not_ready r p = ground arith

after_attempt-ends :
    {World : Type 0} (ready_after : Bool) (failure : Option DeletionError) (a : AuthAnswers)
    (now : ℕ) (s : Store World) (x : Attempt)
    → prepare_auth true s.request ≡ may_delete
    → Tells a x
    → attempt a ≡ x
    → IsCompleted a (after_attempt ready_after failure now s x)
      ⊎ (Waits a (after_attempt ready_after failure now s x)
          ⊎ Stops ready_after failure a s (after_attempt ready_after failure now s x))
unfolding IsCompleted Waits complete_request
after_attempt-ends true none a now s removed p told same = inl (rw p (refl, refl, refl, told))
after_attempt-ends true (some e) a now s removed p told same =
    inr (inr (rw p (record { kept = refl; reason = inr (e, refl, refl) })))
after_attempt-ends false failure a now s removed p told same =
    inr (inr (rw (not_ready s.request p) (record { kept = refl; reason = inl (refl, refl, told) })))
after_attempt-ends ready_after none a now s (not_removed code e) p told same =
    let kept = persist-prepared code s.request p in
    inr (inl (e, code, same, refl, told, kept.2, kept.0 ∙ prepared-pendiente s.request p, kept.1))
after_attempt-ends ready_after (some thrown) a now s (not_removed code e) p told same =
    inr (inr (record { kept = refl; reason = inr (thrown, refl, refl) }))

-- Where the request may be completed before the authentication service is asked, an attempt has one of
-- three ends. It completes the request, and then the service has said that it has no such user. Or it
-- fails with the error of the attempt, of status 503, for which the orchestration asks to try again, its
-- code is noted in the request, and the request still may be completed. Or it writes nothing, with the error of the preconditions where they no longer hold after
-- the service has said that it has no such user, or with what a failed statement throws.
pub run_auth-ends :
    {World : Type 0} (ready_after : Bool) (failure : Option DeletionError) (a : AuthAnswers)
    (now : ℕ) (s : Store World)
    → prepare_auth true s.request ≡ may_delete
    → IsCompleted a (run_auth true ready_after failure a now s)
      ⊎ (Waits a (run_auth true ready_after failure a now s)
          ⊎ Stops ready_after failure a s (run_auth true ready_after failure a now s))
unfolding run_auth attempt
run_auth-ends ready_after failure a now s p = rw p (
    after_attempt-ends ready_after failure a now s (attempt a) p (attempt_from-Tells a a.found refl)
      refl)
