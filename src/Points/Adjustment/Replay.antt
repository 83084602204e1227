-- ===== src/Points/Adjustment/Replay.antt =====
-- A key adjusts the points once.
use masterfadebackend.Prelude.{
  ℕ, ◌+◌, ◌≡◌, ◌≢◌, refl, ap, ◌∙◌, inl, inr, List, ◌∷◌, ◌++◌, map, Option, none, some, Bool, true,
  false, ◌&&◌, arith, ltb, ◌==◌, Bool-cases, if◌then◌else◌,
}
use masterfadebackend.Points.Adjustment.{
  Transaction, Adjustment, Response, Claim, Points, adjusted, idempotency_conflict, given, taken,
  find_claim, complete_claim, replayed, adjust_new, adjust_claimed, add_adjustment,
}

-- The key is kept with the hash of its payload and the response.
Keeps : ℕ → ℕ → Response → Points → Type 0
Keeps key payload_hash r p =
    find_claim key p.claims
    ≡ some
        (record { idempotency_key = key; payload_hash = payload_hash; response_payload = some r })

completed-found :
    (key payload_hash : ℕ) (r : Response) (claims : List Claim)
    → find_claim key (
        map (complete_claim key r) (
          record { idempotency_key = key; payload_hash = payload_hash; response_payload = none }
          ∷ claims))
      ≡ some
          (record { idempotency_key = key; payload_hash = payload_hash; response_payload = some r })
unfolding find_claim complete_claim
completed-found key payload_hash r claims = ground arith

adjusted-same : (r s : Response) → adjusted false r ≡ adjusted false s → r ≡ s
adjusted-same r s e = cc

adjust_new-Keeps :
    (id : ℕ) (expired : List Transaction) (key payload_hash : ℕ) (a : Adjustment) (p : Points)
    (r : Response)
    → (adjust_new id expired key payload_hash a p).answer ≡ adjusted false r
    → Keeps key payload_hash r (adjust_new id expired key payload_hash a p).points
unfolding adjust_new Keeps
adjust_new-Keeps id expired key payload_hash a p r ok =
    elim (Bool-cases (
      a.restar
      && ltb (given a.id_cliente (expired ++ p.transactions))
          (taken a.id_cliente (expired ++ p.transactions) + a.puntos))) [
            | inl short ↦ (let refused = rw short at ok in cc)
            | inr enough ↦
                (let same = adjusted-same _ r (rw enough at ok) in
                  rw enough (
                    completed-found key payload_hash _ p.claims
                    ∙ ap
                        (λ x. some (record {
                          idempotency_key = key;
                          payload_hash = payload_hash;
                          response_payload = some x;
                        }))
                        same))
          ]

not-fresh : (o : Option Response) (r : Response) → replayed o ≢ adjusted false r
not-fresh none r e = cc
not-fresh (some s) r e = cc

claimed-Keeps :
    (id : ℕ) (expired : List Transaction) (key payload_hash : ℕ) (a : Adjustment) (p : Points)
    (r : Response) (o : Option Claim)
    → (adjust_claimed id expired key payload_hash a p o).answer ≡ adjusted false r
    → Keeps key payload_hash r (adjust_claimed id expired key payload_hash a p o).points
claimed-Keeps id expired key payload_hash a p r none ok =
    adjust_new-Keeps id expired key payload_hash a p r ok
claimed-Keeps id expired key payload_hash a p r (some x) ok =
    elim (Bool-cases (x.payload_hash == payload_hash)) [
      | inl same ↦ absurd (not-fresh x.response_payload r (rw same at ok))
      | inr other ↦ (let refused = rw other at ok in cc)
    ]

add-Keeps :
    (hash : Adjustment → ℕ) (id : ℕ) (expired : List Transaction) (key : ℕ) (a : Adjustment)
    (p : Points) (r : Response) (allowed : Bool)
    → (add_adjustment hash allowed id expired key a p).answer ≡ adjusted false r
    → Keeps key (hash a) r (add_adjustment hash allowed id expired key a p).points
unfolding add_adjustment
add-Keeps hash id expired key a p r true ok =
    claimed-Keeps id expired key (hash a) a p r (find_claim key p.claims) ok
add-Keeps hash id expired key a p r false ok = cc

kept-answers :
    (hash : Adjustment → ℕ) (id : ℕ) (expired : List Transaction) (key kept : ℕ) (a : Adjustment)
    (p : Points) (r : Response)
    → Keeps key kept r p
    → add_adjustment hash true id expired key a p ≡ record {
      points = p;
      answer = if kept == hash a then adjusted true r else idempotency_conflict;
    }
unfolding add_adjustment Keeps
kept-answers hash id expired key kept a p r k = rw k refl

-- Once an adjustment is made under a key, a call with that key by whoever is allowed changes nothing: it is
-- answered with the same response, marked as a replay, where its payload has the same hash, and as a
-- conflict where it has not.
pub add_adjustment-replays :
    (hash : Adjustment → ℕ) (allowed : Bool) (id later_id : ℕ)
    (expired later_expired : List Transaction) (key : ℕ) (a later : Adjustment) (p : Points)
    (r : Response)
    → (add_adjustment hash allowed id expired key a p).answer ≡ adjusted false r
    → add_adjustment hash true later_id later_expired key later
        (add_adjustment hash allowed id expired key a p).points
      ≡ record {
        points = (add_adjustment hash allowed id expired key a p).points;
        answer = if hash a == hash later then adjusted true r else idempotency_conflict;
      }
add_adjustment-replays hash allowed id later_id expired later_expired key a later p r ok =
    kept-answers hash later_id later_expired key (hash a) later _ r
      (add-Keeps hash id expired key a p r allowed ok)
