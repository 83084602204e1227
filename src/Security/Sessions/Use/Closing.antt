-- ===== src/Security/Sessions/Use/Closing.antt =====
-- A closed session is refused from then on, and one in use is kept.
use masterfadebackend.Prelude.{
  ℕ, ◌≤◌, ◌≡◌, ◌≢◌, inl, inr, refl, subst, List, [], ◌∷◌, map, Option, none, some, Bool, true,
  false, arith, any, All, Bool-cases,
}
use masterfadebackend.Security.Sessions.{CloseReason, Session}
use masterfadebackend.Security.Sessions.Use.{
  SessionConfig, valid, has_token, find_session, validate_found, validate_active_session,
  or_invalid, map_found, CloseAnswer, closed, close_unconfirmed, close_error, is_of, is_open,
  close_one, closed_already, close_active_session,
}

-- No row of the user with the id is open at `now`.
abbrev pub IsShut : ℕ → ℕ → ℕ → List Session → Type 0
IsShut now user sid table = All (λ s. is_open now user sid s ≡ false) table

close_one-shut :
    (now later user sid : ℕ) (by : Option ℕ) (reason : Option CloseReason) (s : Session)
    → now ≤ later
    → is_open later user sid (close_one now user sid by reason s) ≡ false
unfolding close_one
close_one-shut now later user sid by reason s h = ground arith

map-IsShut :
    (now later user sid : ℕ) (by : Option ℕ) (reason : Option CloseReason) (table : List Session)
    → now ≤ later
    → IsShut later user sid (map (close_one now user sid by reason) table)
map-IsShut now later user sid by reason [] h = tt
map-IsShut now later user sid by reason (s ∷ ss) h =
    (close_one-shut now later user sid by reason s h, map-IsShut now later user sid by reason ss h)

any-IsShut :
    (now later user sid : ℕ) (table : List Session)
    → now ≤ later
    → any (is_open now user sid) table ≡ false
    → IsShut later user sid table
any-IsShut now later user sid [] h a = tt
any-IsShut now later user sid (s ∷ ss) h a =
    (ground arith, any-IsShut now later user sid ss h (ground arith))

-- What is found has the property looked for, and stands in the table.
find_session-All :
    (p : Session → Bool) (P : Session → Type 0) (table : List Session) (s : Session)
    → All P table
    → find_session p table ≡ some s
    → (p s ≡ true) × P s
unfolding find_session
find_session-All p P [] s a h = cc
find_session-All p P (t ∷ ts) s a h = elim (Bool-cases (p t)) [
  | inl found ↦ subst (λ x. (p x ≡ true) × P x) (cc (rw found at h)) (found, a.0)
  | inr missed ↦ find_session-All p P ts s a.1 ground arith
]

found-invalid :
    (cfg : SessionConfig) (later : ℕ) (writes : Bool) (user sid jti : ℕ) (table : List Session)
    (s : Session)
    → has_token user sid jti s ≡ true
    → is_open later user sid s ≡ false
    → (validate_found cfg later writes sid table s).answer ≢ valid
unfolding validate_found
found-invalid cfg later writes user sid jti table s h shut v = ground arith

lookup-invalid :
    (cfg : SessionConfig) (later : ℕ) (writes : Bool) (user sid jti : ℕ) (table : List Session)
    (o : Option Session)
    → ((s : Session)
        → o ≡ some s
        → (has_token user sid jti s ≡ true) × (is_open later user sid s ≡ false))
    → (or_invalid table (map_found (validate_found cfg later writes sid table) o)).answer ≢ valid
lookup-invalid cfg later writes user sid jti table none f v = cc
lookup-invalid cfg later writes user sid jti table (some s) f v =
    let (h, shut) = f s refl in found-invalid cfg later writes user sid jti table s h shut v

pub validate-shut :
    (cfg : SessionConfig) (later : ℕ) (reads writes : Bool) (user sid jti : ℕ)
    (table : List Session)
    → IsShut later user sid table
    → (validate_active_session cfg later reads writes user sid jti table).answer ≢ valid
unfolding validate_active_session
validate-shut cfg later true writes user sid jti table a v =
    lookup-invalid cfg later writes user sid jti table (find_session (has_token user sid jti) table)
      (λ s e. find_session-All (has_token user sid jti) _ table s a e) v
validate-shut cfg later false writes user sid jti table a v = cc

unfoldable pub HasClosed : CloseAnswer → Type 0
HasClosed (closed state) = Unit
HasClosed close_unconfirmed = ⊥
HasClosed close_error = ⊥

closed_already-HasClosed :
    (now user sid : ℕ) (o : Option Session)
    → ((s : Session) → o ≡ some s → (is_of user sid s ≡ true) × (is_open now user sid s ≡ false))
    → HasClosed (closed_already now o)
unfolding closed_already HasClosed
closed_already-HasClosed now user sid none f = tt
closed_already-HasClosed now user sid (some s) f = let (h, shut) = f s refl in ground arith

-- Where its statements succeed, closing a session always ends in an answer that it is closed, or was
-- before, and from then on no token of that session and user is found valid.
pub close_active_session-ends :
    (cfg : SessionConfig) (now later user sid jti : ℕ) (by : Option ℕ) (reason : Option CloseReason)
    (reads writes : Bool) (table : List Session)
    → now ≤ later
    → HasClosed (close_active_session now true user sid by reason table).answer
      × ((validate_active_session cfg later reads writes user sid jti
            (close_active_session now true user sid by reason table).sessions).answer
          ≢ valid)
unfolding close_active_session
close_active_session-ends cfg now later user sid jti by reason reads writes table h =
    elim (Bool-cases (any (is_open now user sid) table)) [
      | inl open_row ↦ rw open_row (
        unfold HasClosed in tt,
        validate-shut cfg later reads writes user sid jti _
            (map-IsShut now later user sid by reason table h),
      )
      | inr none_open ↦ rw none_open (
        closed_already-HasClosed now user sid (find_session (is_of user sid) table) (λ s e.
            find_session-All (is_of user sid) _ table s
              (any-IsShut now now user sid table (omega arith) none_open) e),
        validate-shut cfg later reads writes user sid jti table
            (any-IsShut now later user sid table h none_open),
      )
    ]
