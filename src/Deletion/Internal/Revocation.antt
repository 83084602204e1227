-- ===== src/Deletion/Internal/Revocation.antt =====
-- What the internal stage leaves open of an account: nothing.
use masterfadebackend.Prelude.{
  ℕ, ◌≡◌, ◌≢◌, inl, inr, refl, List, [], ◌∷◌, map, filter, length, Option, none, some, Bool, false,
  ◌||◌, not, arith, ◌==◌, All, any, Bool-cases, ◌+◌, true, if◌then◌else◌,
}
use masterfadebackend.Security.Sessions.{Session, coalesce, is_null}
use masterfadebackend.Security.Sessions.Use.{SessionConfig, valid, validate_active_session}
use masterfadebackend.Security.Sessions.Use.Closing.{IsShut, validate-shut}
use masterfadebackend.Deletion.{evaluada, procesando, Request, is_evaluada}
use masterfadebackend.Deletion.Orchestration.{stage_done, Store}
use masterfadebackend.Deletion.Account.{
  Subscription, PointsTransaction, PointsCycle, Account, credit, debit, held_points, pending_points,
  of_client, reconcile_points, close_cycle, is_running, cancel_subscription, revoke_session,
  close_account, is_user, is_client,
}
use masterfadebackend.Deletion.Internal.{
  Preview, is_blocking, process, after_preview, execute_internal, is_procesando, is_recent,
  mark_processing,
}

revoke_session-IsShut :
    (now later user sid : ℕ) (table : List Session)
    → IsShut later user sid (map (revoke_session now user) table)
revoke_session-IsShut now later user sid [] = tt
revoke_session-IsShut now later user sid (s ∷ ss) =
    (unfold revoke_session in ground arith, revoke_session-IsShut now later user sid ss)

cancel-none_running :
    (client : ℕ) (table : List Subscription)
    → All (λ x. is_running client x ≡ false) (map (cancel_subscription client) table)
cancel-none_running client [] = tt
cancel-none_running client (x ∷ xs) =
    (unfold cancel_subscription in ground arith, cancel-none_running client xs)

-- Once the cycles are closed, the view holds nothing back.
closed-none_pending :
    (later client : ℕ) (points : List PointsTransaction) (cycles : List PointsCycle)
    → pending_points later client points (map (close_cycle client) cycles) ≡ 0
unfolding close_cycle
closed-none_pending later client points [] = refl
closed-none_pending later client points (c ∷ cs) =
    ground (arith, closed-none_pending later client points cs)

closed-none_held :
    (later client : ℕ) (points : List PointsTransaction) (cycles : List PointsCycle)
    → held_points later client points (map (close_cycle client) cycles) ≡ 0
closed-none_held later client points cycles =
    rw (closed-none_pending later client points cycles) (either (any (of_client client) points) 0)
  where
    either : (b : Bool) (n : ℕ) → (if b then n else n) ≡ n
    either true n = refl
    either false n = refl

-- The account `a` was closed at `now`, with the cycles as they stood in `before`.
pub record IsRevoked (now : ℕ) (r : Request) (before : Account) (a : Account) : Type 0 where
  pub reconciled : credit r.id_cliente a.points ≡ debit now r.id_cliente a.points before.cycles
  pub balance :
      (later : ℕ)
      → credit r.id_cliente a.points ≡ (
          debit later r.id_cliente a.points a.cycles
          + held_points now r.id_cliente a.points before.cycles)
  pub cancelled : All (λ x. is_running r.id_cliente x ≡ false) a.subscriptions
  pub revoked :
      (cfg : SessionConfig) (later sid jti : ℕ) (reads writes : Bool)
      → (validate_active_session cfg later reads writes r.id_usuario sid jti a.sessions).answer
        ≢ valid

close_account-IsRevoked :
    (now : ℕ) (r : Request) (a : Account)
    → credit r.id_cliente (close_account now r a).points
      ≡ debit now r.id_cliente (close_account now r a).points a.cycles
    → IsRevoked now r a (close_account now r a)
unfolding close_account
close_account-IsRevoked now r a zeroed =
    let points = reconcile_points now r.id_cliente a.cycles a.points in
    record {
      reconciled = zeroed;
      balance = λ later. omega (arith, zeroed, closed-none_held later r.id_cliente points a.cycles);
      cancelled = cancel-none_running r.id_cliente a.subscriptions;
      revoked = λ cfg later sid jti reads writes.
          validate-shut cfg later reads writes r.id_usuario sid jti _
            (revoke_session-IsShut now later r.id_usuario sid a.sessions);
    }

process-IsRevoked :
    (now : ℕ) (s : Store Account)
    → (process now s).result ≡ stage_done
    → ((process now s).store.request.estado_codigo ≡ procesando)
      × IsRevoked now s.request s.world (process now s).store.world
unfolding process mark_processing
process-IsRevoked now s ok =
    elim (Bool-cases (
      credit s.request.id_cliente (close_account now s.request s.world).points
      == debit now s.request.id_cliente (close_account now s.request s.world).points
          s.world.cycles)) [
            | inr rest ↦ (let refused = rw rest at ok in cc)
            | inl zeroed ↦
                elim (Bool-cases (
                  length (filter (is_user s.request.id_usuario s.request.id_persona) s.world.users)
                  == 1)) [
                    | inr absent ↦ (let refused = rw (zeroed, absent) at ok in cc)
                    | inl present ↦
                        elim (Bool-cases
                          (length (filter (is_client s.request) s.world.clients) == 1)) [
                            | inr absent ↦ (let refused = rw (zeroed, present, absent) at ok in cc)
                            | inl one ↦
                                rw (zeroed, present, one)
                                  (refl, close_account-IsRevoked now s.request s.world ground arith)
                          ]
                  ]
          ]

preview-IsRevoked :
    (now : ℕ) (s : Store Account) (p : Option Preview)
    → (after_preview now s p).result ≡ stage_done
    → ((after_preview now s p).store.request.estado_codigo ≡ procesando)
      × IsRevoked now s.request s.world (after_preview now s p).store.world
unfolding after_preview
preview-IsRevoked now s none ok = cc
preview-IsRevoked now s (some p) ok = elim (Bool-cases (is_blocking p)) [
  | inl blocking ↦ (let refused = rw blocking at ok in cc)
  | inr free ↦ rw free (process-IsRevoked now s (rw free at ok))
]

-- Where the internal stage of an evaluated request is done, the request is in `procesando` and the
-- account is closed: its balance of points was zero while its cycles were as before, and from then on the
-- balance is what its active cycles that had ended still held, since they are closed too; no subscription
-- of the client runs on; and no token of the user's sessions is found valid, at any time.
pub execute_internal-IsRevoked :
    (evaluate : Account → Option Preview) (now : ℕ) (s : Store Account)
    → s.request.estado_codigo ≡ evaluada
    → (execute_internal evaluate now s).result ≡ stage_done
    → ((execute_internal evaluate now s).store.request.estado_codigo ≡ procesando)
      × IsRevoked now s.request s.world (execute_internal evaluate now s).store.world
unfolding execute_internal
execute_internal-IsRevoked evaluate now s here ok =
    let r = s.request in
    let authenticated = coalesce r.reautenticado_at 0 in
    let starts : is_procesando r.estado_codigo ≡ false = rw here refl in
    elim (Bool-cases (not r.autonomo)) [
      | inl alien ↦ (let refused = rw alien at ok in cc)
      | inr own ↦
          elim (Bool-cases (not (is_evaluada r.estado_codigo) || is_null r.reautenticado_at)) [
            | inl invalid ↦ (let refused = rw (own, starts, invalid) at ok in cc)
            | inr confirmed ↦ elim (Bool-cases (not (is_recent now authenticated authenticated))) [
              | inl old ↦ (let refused = rw (own, starts, confirmed, old) at ok in cc)
              | inr recent ↦
                  rw (own, starts, confirmed, recent)
                    (preview-IsRevoked now s (evaluate s.world)
                      (rw (own, starts, confirmed, recent) at ok))
            ]
          ]
    ]
