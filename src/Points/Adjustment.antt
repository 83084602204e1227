-- ===== src/Points/Adjustment.antt =====
-- `addManualPointsAdjustment` with `claimManualAdjustmentIdempotency`: an administrator adds points to a
-- client or takes some, once for each key. The sign of a transaction is that of its type, which a trigger of
-- the database gives to its points.
pub mod Replay
pub mod Examples
use masterfadebackend.Prelude.{
  ℕ, zero, suc, ◌+◌, ◌-◌, List, [], ◌∷◌, ◌++◌, map, Option, none, some, Bool, true, false, ◌&&◌,
  ◌||◌, not, ltb, ◌==◌, if◌then◌else◌,
}

pub record Transaction : Type 0 where
  pub id_points_tx : ℕ
  pub id_cliente : ℕ
  pub resta : Bool
  pub puntos : ℕ

pub record Adjustment : Type 0 where
  pub id_cliente : ℕ
  pub restar : Bool
  pub puntos : ℕ
  pub motivo : ℕ
  pub usuario_admin : ℕ

pub record Response : Type 0 where
  pub id_points_tx : ℕ
  pub id_cliente : ℕ
  pub restar : Bool
  pub puntos : ℕ
  pub motivo : ℕ
  pub saldo_actual : ℕ
  pub saldo_siguiente : ℕ

-- A row of `points_manual_adjustment_idempotency`.
pub record Claim : Type 0 where
  pub idempotency_key : ℕ
  pub payload_hash : ℕ
  pub response_payload : Option Response

pub record Points : Type 0 where
  pub transactions : List Transaction
  pub claims : List Claim

pub data AdjustAnswer : Type 0 where
  adjusted : (idempotent_replay : Bool) → Response → AdjustAnswer
  out_of_scope idempotency_conflict idempotency_unavailable insufficient_balance : AdjustAnswer

pub record Adjusted : Type 0 where
  pub points : Points
  pub answer : AdjustAnswer

abbrev puntos_if : Bool → ℕ → ℕ
puntos_if true n = n
puntos_if false n = 0

-- The points that a client was given, and those that were taken.
pub given : ℕ → List Transaction → ℕ
given client [] = 0
given client (x ∷ xs) = puntos_if (x.id_cliente == client && not x.resta) x.puntos + given client xs

pub taken : ℕ → List Transaction → ℕ
taken client [] = 0
taken client (x ∷ xs) = puntos_if (x.id_cliente == client && x.resta) x.puntos + taken client xs

abbrev pub saldo : ℕ → List Transaction → ℕ
saldo client xs = given client xs - taken client xs

pub find_claim : ℕ → List Claim → Option Claim
find_claim key [] = none
find_claim key (x ∷ xs) = if x.idempotency_key == key then some x else find_claim key xs

abbrev is_null_response : Option Response → Bool
is_null_response none = true
is_null_response (some r) = false

pub complete_claim : ℕ → Response → Claim → Claim
complete_claim key r x =
    if x.idempotency_key == key && is_null_response x.response_payload
    then record x { response_payload = some r }
    else x

abbrev pub not_adjusted : Points → AdjustAnswer → Adjusted
not_adjusted p answer = record { points = p; answer = answer }

abbrev pub response_of : ℕ → Adjustment → List Transaction → List Transaction → Response
response_of id a before after = record {
  id_points_tx = id;
  id_cliente = a.id_cliente;
  restar = a.restar;
  puntos = a.puntos;
  motivo = a.motivo;
  saldo_actual = saldo a.id_cliente after;
  saldo_siguiente =
      if a.restar
      then saldo a.id_cliente before - a.puntos
      else saldo a.id_cliente before + a.puntos;
}

-- The adjustment under a new key; `id` is the id that the database gives the transaction, and `expired` are
-- the transactions that `materializeCyclesIfAvailable` writes for the cycles that have ended, before
-- the balance is read.
pub adjust_new : ℕ → List Transaction → (key payload_hash : ℕ) → Adjustment → Points → Adjusted
unfolding given taken complete_claim
adjust_new id expired key payload_hash a p =
    let before : List Transaction = expired ++ p.transactions in
    let after : List Transaction =
      record { id_points_tx = id; id_cliente = a.id_cliente; resta = a.restar; puntos = a.puntos }
      ∷ before in
    let response = response_of id a before after in
    let claim : Claim = record {
      idempotency_key = key;
      payload_hash = payload_hash;
      response_payload = none;
    } in
    if a.restar && ltb (given a.id_cliente before) (taken a.id_cliente before + a.puntos)
    then not_adjusted p insufficient_balance
    else record {
      points = record {
        transactions = after;
        claims = map (complete_claim key response) (claim ∷ p.claims);
      };
      answer = adjusted false response;
    }

abbrev pub replayed : Option Response → AdjustAnswer
replayed none = idempotency_unavailable
replayed (some r) = adjusted true r

abbrev pub adjust_claimed :
    ℕ → List Transaction → (key payload_hash : ℕ) → Adjustment → Points → Option Claim → Adjusted
adjust_claimed id expired key payload_hash a p none = adjust_new id expired key payload_hash a p
adjust_claimed id expired key payload_hash a p (some x) =
    not_adjusted p
      (if x.payload_hash == payload_hash then replayed x.response_payload else idempotency_conflict)

-- `hash` is SHA-256 of the payload, and `allowed` the checks of the scope and the client. What is thrown
-- rolls the transaction back.
pub add_adjustment :
    (hash : Adjustment → ℕ)
    → (allowed : Bool) → (id : ℕ) → List Transaction
    → (key : ℕ) → Adjustment
    → Points
    → Adjusted
unfolding adjust_new find_claim
add_adjustment hash allowed id expired key a p =
    let done = adjust_claimed id expired key (hash a) a p (find_claim key p.claims) in
    if allowed then done else not_adjusted p out_of_scope
