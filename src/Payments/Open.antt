-- ===== src/Payments/Open.antt =====
-- Whether an intent may still be sent to the provider, and that changes of its row do not bring that back.
use masterfadebackend.Prelude.{
  ℕ, ◌≤◌, ◌≡◌, List, map, Option, none, some, Bool, true, false, arith, if◌then◌else◌,
}
use masterfadebackend.Payments.{IntentState, creado, link_generado, Intent, Db, find_intent}
use masterfadebackend.Payments.Group.{to_link}
use masterfadebackend.Payments.Intents.{expire_intent}
use masterfadebackend.Payments.Confirmation.{confirm_intent}
use masterfadebackend.Payments.Confirmation.Outcome.{map_intent, find_intent-map}
use masterfadebackend.Payments.Sale.{claim_intent}
use masterfadebackend.Payments.Sale.Finish.{Outcome, failure_state, end_intent, reference_intent}

abbrev pub is_open : IntentState → Bool
is_open creado = true
is_open link_generado = true
is_open _ = false

-- One where the row is open or not there yet, zero where it is closed.
abbrev pub open_row : Option Intent → ℕ
open_row none = 1
open_row (some i) = if is_open i.estado then 1 else 0

abbrev pub open_of : ℕ → Db → ℕ
open_of id db = open_row (find_intent id db.intents)

pub open_row-le : (r : Option Intent) → open_row r ≤ 1
open_row-le none = omega arith
open_row-le (some i) = ground arith

-- A change of rows that keeps their ids and opens none that was closed.
pub record Closes (f : Intent → Intent) : Type 0 where
  pub keeps : (i : Intent) → (f i).id_intent ≡ i.id_intent
  pub opens : (i : Intent) → is_open i.estado ≡ false → is_open (f i).estado ≡ false

open_row-map :
    (f : Intent → Intent) → Closes f → (r : Option Intent) → open_row (map_intent f r) ≤ open_row r
open_row-map f c none = omega arith
open_row-map f c (some i) = ground (arith, c.opens i)

pub open_of-map :
    (f : Intent → Intent)
    → Closes f
    → (id : ℕ) (is : List Intent)
    → open_row (find_intent id (map f is)) ≤ open_row (find_intent id is)
open_of-map f c id is = rw (find_intent-map f c.keeps id is) (open_row-map f c (find_intent id is))

pub to_link-Closes : (id order : ℕ) → Closes (to_link id order)
to_link-Closes id order = record { keeps = λ i. ground arith; opens = λ i h. ground arith }

pub expire_intent-Closes : (id : ℕ) → Closes (expire_intent id)
unfolding expire_intent
expire_intent-Closes id = record { keeps = λ i. ground arith; opens = λ i h. ground arith }

pub confirm_intent-Closes : (id : ℕ) (reference : Option ℕ) → Closes (confirm_intent id reference)
unfolding confirm_intent
confirm_intent-Closes id reference = record {
  keeps = λ i. ground arith;
  opens = λ i h. ground arith;
}

pub claim_intent-Closes : (id expires_at : ℕ) → Closes (claim_intent id expires_at)
unfolding claim_intent
claim_intent-Closes id expires_at = record {
  keeps = λ i. ground arith;
  opens = λ i h. ground arith;
}

pub end_intent-Closes :
    (id : ℕ) (state : IntentState) (uuid tx : Option ℕ)
    → is_open state ≡ false
    → Closes (end_intent id state uuid tx)
unfolding end_intent
end_intent-Closes id state uuid tx shut = record {
  keeps = λ i. ground arith;
  opens = λ i h. ground arith;
}

pub failure_state-shut : (x : Outcome) → is_open (failure_state x) ≡ false
failure_state-shut x = ground arith

pub reference_intent-Closes : (id : ℕ) (uuid tx : Option ℕ) → Closes (reference_intent id uuid tx)
unfolding reference_intent
reference_intent-Closes id uuid tx = record {
  keeps = λ i. ground arith;
  opens = λ i h. ground arith;
}
