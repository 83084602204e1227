-- ===== src/Payments/Approval.antt =====
-- `loadDurablePixelPayApproval` of services/payments/pixelPayDurableApproval.js: the instant of the one
-- verified approval of an intent that came before its holds expired.
use masterfadebackend.Prelude.{
  ℕ, min, List, [], ◌∷◌, Option, none, some, Bool, true, false, ◌&&◌, leb, ◌==◌, if◌then◌else◌,
}
use masterfadebackend.Payments.{Hold, Attempt, Db, group_citas, holds_of}

abbrev is_true : Option Bool → Bool
is_true (some true) = true
is_true (some false) = false
is_true none = false

abbrev is_false : Option Bool → Bool
is_false (some true) = false
is_false (some false) = true
is_false none = false

pub is_verified : Attempt → Bool
is_verified x =
    x.outcome_approved
    && x.success_response
    && x.status_ok
    && is_true x.response_success
    && is_true x.response_approved
    && is_false x.response_incomplete
    && is_false x.uncertain
    && is_true x.transaction_result_valid
    && is_true x.transaction_result_parsed
    && is_true x.payment_uuid_present
    && is_true x.transaction_id_present
    && is_true x.payment_hash_present
    && is_true x.payment_hash_valid
    && is_true x.transaction_amount_matches
    && is_true x.approved_amount_matches
    && is_true x.amount_matches

-- The least of the instants; `none` where there is none, or one is missing.
least_from : ℕ → List (Option ℕ) → Option ℕ
least_from t [] = some t
least_from t (none ∷ ts) = none
least_from t (some s ∷ ts) = least_from (min t s) ts

unfoldable pub least_expiry : List (Option ℕ) → Option ℕ
unfolding least_from
least_expiry [] = none
least_expiry (none ∷ ts) = none
least_expiry (some t ∷ ts) = least_from t ts

abbrev pub hold_expiries : List (ℕ × Hold) → List (Option ℕ)
hold_expiries [] = []
hold_expiries ((id, h) ∷ hs) = some h.expires_at ∷ hold_expiries hs

abbrev is_by : Option ℕ → ℕ → Bool
is_by none limit = false
is_by (some t) limit = leb t limit

finals : ℕ → (limit earliest : ℕ) → List Attempt → List (Option ℕ)
unfolding is_verified
finals id limit earliest [] = []
finals id limit earliest (x ∷ xs) =
    if x.id_intent == id
      && is_verified x
      && is_by x.finalized_at limit
      && is_by x.finalized_at earliest
    then x.finalized_at ∷ finals id limit earliest xs
    else finals id limit earliest xs

abbrev only : List (Option ℕ) → Option ℕ
only [] = none
only (t ∷ []) = t
only (t ∷ u ∷ ts) = none

approval_by : (id : ℕ) → List Attempt → Option ℕ → Option ℕ → Option ℕ
unfolding finals
approval_by id attempts (some limit) (some earliest) = only (finals id limit earliest attempts)
approval_by id attempts none earliest = none
approval_by id attempts (some limit) none = none

-- `expiries` are those of the rows that the caller passes, `group` is the group of the intent.
unfoldable pub durable_approval : (id group : ℕ) → List (Option ℕ) → Db → Option ℕ
unfolding approval_by least_expiry
durable_approval id group expiries db =
    approval_by id db.attempts (least_expiry expiries)
      (least_expiry (hold_expiries (holds_of (group_citas group db))))
