-- ===== src/Security/Sessions/Use/Keeping.antt =====
-- A session in use stays valid: the uses recorded in `ultimo_uso_at` keep the idle limit away.
use masterfadebackend.Prelude.{
  ℕ, ◌+◌, ◌≤◌, ◌<◌, ◌≡◌, inl, inr, refl, List, [], ◌∷◌, map, Option, none, some, Bool, true, false,
  arith, ◌==◌, Bool-cases, Option-cases,
}
use masterfadebackend.Security.Sessions.{Session, is_null, is_activa}
use masterfadebackend.Security.Sessions.Use.{
  SessionConfig, valid, has_token, find_session, is_idle, is_old_use, touch, validate_found,
  validate_active_session, or_invalid, map_found,
}

abbrev map_some : (Session → Session) → Option Session → Option Session
map_some f none = none
map_some f (some s) = some (f s)

find_session-map :
    (p : Session → Bool) (f : Session → Session) (table : List Session)
    → ((s : Session) → p (f s) ≡ p s)
    → find_session p (map f table) ≡ map_some f (find_session p table)
unfolding find_session
find_session-map p f [] same = refl
find_session-map p f (s ∷ ss) same = elim (Bool-cases (p s)) [
  | inl found ↦ rw (same s, found) refl
  | inr missed ↦ rw (same s, missed) (find_session-map p f ss same)
]

touch-has_token :
    (cfg : SessionConfig) (now user sid jti : ℕ) (s : Session)
    → has_token user sid jti (touch cfg now sid s) ≡ has_token user sid jti s
unfolding touch
touch-has_token cfg now user sid jti s = ground arith

-- What an answer `valid` tells of the row, and which rows it leaves.
valid-row :
    (cfg : SessionConfig) (now sid : ℕ) (table : List Session) (s : Session)
    → (validate_found cfg now true sid table s).answer ≡ valid
    → (is_activa s.estado ≡ true)
      × (is_null s.cierre_at ≡ true)
      × (is_null s.revocada_at ≡ true)
      × (is_idle cfg now s.ultimo_uso_at ≡ false)
      × ((validate_found cfg now true sid table s).sessions ≡ map (touch cfg now sid) table)
unfolding validate_found
valid-row cfg now sid table s v = ground arith

-- A recorded use stays recent: what was not idle at `now` is not idle at `later` once it is touched.
touch-recent :
    (cfg : SessionConfig) (now later sid : ℕ) (s : Session)
    → now ≤ later
    → later + cfg.touch_throttle_ms ≤ now + cfg.idle_timeout_ms
    → s.id_sesion == sid ≡ true
    → is_activa s.estado ≡ true
    → is_idle cfg now s.ultimo_uso_at ≡ false
    → is_idle cfg later (touch cfg now sid s).ultimo_uso_at ≡ false
unfolding touch
touch-recent cfg now later sid s h soon same active idle = elim (Option-cases s.ultimo_uso_at) [
  | inl missing ↦ (let idle2 = rw missing at idle in ground arith)
  | inr (used, e) ↦ elim (Bool-cases (is_old_use cfg now s.ultimo_uso_at)) [
    | inl old ↦ rw (same, active, old) ground arith
    | inr fresh ↦
        rw (same, active, fresh, e)
          (let idle2 = rw e at idle in let fresh2 = rw e at fresh in ground arith)
  ]
]

touch-rest :
    (cfg : SessionConfig) (now sid : ℕ) (s : Session)
    → ((touch cfg now sid s).estado ≡ s.estado)
      × ((touch cfg now sid s).cierre_at ≡ s.cierre_at)
      × ((touch cfg now sid s).revocada_at ≡ s.revocada_at)
      × ((touch cfg now sid s).expira_at ≡ s.expira_at)
unfolding touch
touch-rest cfg now sid s = ground arith

-- A row in use whose use is recent is valid.
recent-valid :
    (cfg : SessionConfig) (now sid : ℕ) (writes : Bool) (table : List Session) (s : Session)
    → is_activa s.estado ≡ true
    → is_null s.cierre_at ≡ true
    → is_null s.revocada_at ≡ true
    → now < s.expira_at
    → is_idle cfg now s.ultimo_uso_at ≡ false
    → (validate_found cfg now writes sid table s).answer ≡ valid
unfolding validate_found
recent-valid cfg now sid writes table s a c r e i = ground arith

found-valid :
    (cfg : SessionConfig) (now later user sid jti : ℕ) (writes : Bool) (table rest : List Session)
    (s : Session)
    → now ≤ later
    → later + cfg.touch_throttle_ms ≤ now + cfg.idle_timeout_ms
    → later < s.expira_at
    → has_token user sid jti s ≡ true
    → (validate_found cfg now true sid table s).answer ≡ valid
    → (validate_found cfg later writes sid rest (touch cfg now sid s)).answer ≡ valid
found-valid cfg now later user sid jti writes table rest s h soon exp token v =
    let (active, open_row, kept, used, _) = valid-row cfg now sid table s v in
    let (e1, e2, e3, e4) = touch-rest cfg now sid s in
    recent-valid cfg later sid writes rest (touch cfg now sid s) (rw e1 active) (rw e2 open_row)
      (rw e3 kept) (rw e4 exp) (touch-recent cfg now later sid s h soon ground arith active used)

lookup-valid :
    (cfg : SessionConfig) (now later user sid jti : ℕ) (writes : Bool) (table : List Session)
    → now ≤ later
    → later + cfg.touch_throttle_ms ≤ now + cfg.idle_timeout_ms
    → (o : Option Session) → find_session (has_token user sid jti) table ≡ o
    → ((s : Session) → o ≡ some s → (later < s.expira_at) × (has_token user sid jti s ≡ true))
    → (or_invalid table (map_found (validate_found cfg now true sid table) o)).answer ≡ valid
    → (validate_active_session cfg later true writes user sid jti
        (or_invalid table (map_found (validate_found cfg now true sid table) o)).sessions).answer
      ≡ valid
unfolding validate_active_session
lookup-valid cfg now later user sid jti writes table h soon none at_now f v = cc
lookup-valid cfg now later user sid jti writes table h soon (some s) at_now f v =
    let (exp, token) = f s refl in
    let (_, _, _, _, table_after) = valid-row cfg now sid table s v in
    let find_after =
      find_session-map (has_token user sid jti) (touch cfg now sid) table
        (touch-has_token cfg now user sid jti) in
    rw (table_after, find_after, at_now)
      (found-valid cfg now later user sid jti writes table _ s h soon exp token v)

find_session-token :
    (p : Session → Bool) (table : List Session) (s : Session)
    → find_session p table ≡ some s
    → p s ≡ true
unfolding find_session
find_session-token p [] s e = cc
find_session-token p (t ∷ ts) s e = elim (Bool-cases (p t)) [
  | inl found ↦ (let same = rw found at e in cc)
  | inr missed ↦ find_session-token p ts s (rw missed at e)
]

-- Where the statements succeed, a token found valid at `now` is valid again at `later`, as long as its
-- session has not expired by then and `later` comes the throttle of the touches before the end of the
-- idle limit that runs from `now`, whether the first check recorded the use or not.
pub validate_active_session-keeps :
    (cfg : SessionConfig) (now later user sid jti : ℕ) (writes : Bool) (table : List Session)
    → now ≤ later
    → later + cfg.touch_throttle_ms ≤ now + cfg.idle_timeout_ms
    → ((s : Session) → find_session (has_token user sid jti) table ≡ some s → later < s.expira_at)
    → (validate_active_session cfg now true true user sid jti table).answer ≡ valid
    → (validate_active_session cfg later true writes user sid jti
        (validate_active_session cfg now true true user sid jti table).sessions).answer
      ≡ valid
unfolding validate_active_session
validate_active_session-keeps cfg now later user sid jti writes table h soon exp v =
    lookup-valid cfg now later user sid jti writes table h soon
      (find_session (has_token user sid jti) table) refl
      (λ s e. (exp s e, find_session-token (has_token user sid jti) table s e)) v
