-- ===== src/Deletion/Confirmation/Token.antt =====
-- The execution token that a confirmation issues is the one that the execution takes.
use masterfadebackend.Prelude.{
  ℕ, ◌+◌, ◌≤◌, ◌≡◌, ap, ◌∙◌, Option, none, some, Bool, true, arith, ltb, if◌then◌else◌,
}
use masterfadebackend.Deletion.{
  Request, execution_token_expired, Credential, clear_execution_token, load_execution_context,
}
use masterfadebackend.Deletion.Internal.{Preview}
use masterfadebackend.Deletion.Confirmation.{
  ready_for_processing, accept_confirmation, confirm_request,
}

-- An answer with a token is an answer of the row that keeps its hash.
ready-accepted :
    (hash : ℕ → ℕ) (now token authenticated_at : ℕ) (preview : Option Preview) (r : Request)
    (replay : Bool)
    → (confirm_request hash now token authenticated_at preview r).answer
      ≡ ready_for_processing replay token
    → (confirm_request hash now token authenticated_at preview r).request
      ≡ accept_confirmation hash now token authenticated_at r
unfolding confirm_request
ready-accepted hash now token authenticated_at none r replay ok = ground arith
ready-accepted hash now token authenticated_at (some p) r replay ok = ground arith

-- A well-formed credential of the row.
unfoldable pub IsCredentialOf : Credential → ℕ → Request → Type 0
IsCredentialOf c token r =
    (c.is_reference ≡ true)
    × (c.reference ≡ r.referencia_publica)
    × (c.token ≡ token)
    × (40 ≤ c.token_length)
    × (c.token_length ≤ 100)
    × (r.autonomo ≡ true)

accepted-loads :
    (hash : ℕ → ℕ) (now later token authenticated_at : ℕ) (c : Credential) (r : Request)
    → IsCredentialOf c token r
    → load_execution_context hash later c (accept_confirmation hash now token authenticated_at r)
      ≡ (let accepted = accept_confirmation hash now token authenticated_at r in
          if ltb later (now + 600000)
          then record {
            request = record accepted { execution_token_last_used_at = some later };
            error = none;
          }
          else record {
            request = clear_execution_token accepted;
            error = some execution_token_expired;
          })
unfolding accept_confirmation load_execution_context clear_execution_token IsCredentialOf
accepted-loads hash now later token authenticated_at c r (a, b, d, e, f, g) = ground arith

-- The token that a confirmation answers with, presented with the reference of its request in the form that
-- is asked for, is taken by the execution in the ten minutes that follow, which leave the request evaluated
-- with that use noted; from then on it is refused as expired, and its hash is gone.
pub confirm_request-load :
    (hash : ℕ → ℕ) (now later token authenticated_at : ℕ) (preview : Option Preview) (r : Request)
    (replay : Bool) (c : Credential)
    → (confirm_request hash now token authenticated_at preview r).answer
      ≡ ready_for_processing replay token
    → IsCredentialOf c token r
    → load_execution_context hash later c
        (confirm_request hash now token authenticated_at preview r).request
      ≡ (let accepted = accept_confirmation hash now token authenticated_at r in
          if ltb later (now + 600000)
          then record {
            request = record accepted { execution_token_last_used_at = some later };
            error = none;
          }
          else record {
            request = clear_execution_token accepted;
            error = some execution_token_expired;
          })
confirm_request-load hash now later token authenticated_at preview r replay c ok credential =
    ap (load_execution_context hash later c)
      (ready-accepted hash now token authenticated_at preview r replay ok)
    ∙ accepted-loads hash now later token authenticated_at c r credential
