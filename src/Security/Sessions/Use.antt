-- ===== src/Security/Sessions/Use.antt =====
-- `validateActiveSession` and `closeActiveSession`: the use of a session, and its end.
pub mod Closing
pub mod Examples
pub mod Keeping
use masterfadebackend.Prelude.{
  ℕ, ◌+◌, ◌*◌, List, [], ◌∷◌, map, Option, none, some, Bool, true, false, ◌&&◌, ◌||◌, not, ltb, leb,
  ◌==◌, any, if◌then◌else◌,
}
use masterfadebackend.Security.Sessions.{
  SessionState, activa, expirada, revocada, cerrada, CloseReason, sesion_expirada,
  inactividad_20_minutos, logout_usuario, Session, coalesce, is_null, is_activa, live_of,
}

-- The limits in milliseconds.
pub record SessionConfig : Type 0 where
  pub idle_timeout_ms : ℕ
  pub touch_throttle_ms : ℕ

pub data ValidateAnswer : Type 0 where
  valid session_invalid idle_expired validate_error : ValidateAnswer

pub record Validated : Type 0 where
  pub sessions : List Session
  pub answer : ValidateAnswer

abbrev pub has_token : ℕ → ℕ → ℕ → Session → Bool
has_token user sid jti s = s.id_sesion == sid && s.id_usuario == user && s.token_jti_hash == jti

pub find_session : (Session → Bool) → List Session → Option Session
find_session p [] = none
find_session p (s ∷ ss) = if p s then some s else find_session p ss

abbrev pub is_idle : SessionConfig → ℕ → Option ℕ → Bool
is_idle cfg now none = true
is_idle cfg now (some used) = ltb (used + cfg.idle_timeout_ms) now

abbrev pub is_old_use : SessionConfig → ℕ → Option ℕ → Bool
is_old_use cfg now none = false
is_old_use cfg now (some used) = ltb (used + cfg.touch_throttle_ms) now

expire_by_id : ℕ → ℕ → Session → Session
expire_by_id now sid s =
    if s.id_sesion == sid
    then record s {
      estado = expirada;
      cierre_at = some (coalesce s.cierre_at now);
      motivo_cierre = some (coalesce s.motivo_cierre sesion_expirada);
    }
    else s

expire_idle : ℕ → ℕ → Session → Session
expire_idle now sid s =
    if s.id_sesion == sid && is_activa s.estado
    then record s {
      estado = expirada;
      cierre_at = some (coalesce s.cierre_at now);
      motivo_cierre = some inactividad_20_minutos;
      ultimo_uso_at = some now;
    }
    else s

pub touch : SessionConfig → ℕ → ℕ → Session → Session
touch cfg now sid s =
    if s.id_sesion == sid && is_activa s.estado && is_old_use cfg now s.ultimo_uso_at
    then record s { ultimo_uso_at = some now }
    else s

-- An update whose failure is swallowed.
abbrev pub update_if : Bool → (Session → Session) → List Session → List Session
update_if true f table = map f table
update_if false f table = table

pub validate_found : SessionConfig → ℕ → (writes : Bool) → ℕ → List Session → Session → Validated
unfolding expire_by_id expire_idle touch
validate_found cfg now writes sid table s =
    let expired = leb s.expira_at now in
    if not (is_activa s.estado)
      || expired
      || not (is_null s.cierre_at)
      || not (is_null s.revocada_at)
    then record {
      sessions = update_if (writes && expired && is_activa s.estado) (expire_by_id now sid) table;
      answer = session_invalid;
    }
    else if is_idle cfg now s.ultimo_uso_at
    then record { sessions = update_if writes (expire_idle now sid) table; answer = idle_expired }
    else record { sessions = update_if writes (touch cfg now sid) table; answer = valid }

abbrev pub or_invalid : List Session → Option Validated → Validated
or_invalid table none = record { sessions = table; answer = session_invalid }
or_invalid table (some v) = v

abbrev pub map_found : (Session → Validated) → Option Session → Option Validated
map_found f none = none
map_found f (some s) = some (f s)

-- `reads` tells whether the lookup succeeds, `writes` whether the update after it does.
pub validate_active_session :
    SessionConfig → ℕ → (reads writes : Bool) → (user sid jti : ℕ) → List Session → Validated
unfolding validate_found find_session
validate_active_session cfg now reads writes user sid jti table =
    let found = or_invalid table (
      map_found (validate_found cfg now writes sid table)
        (find_session (has_token user sid jti) table)) in
    if reads then found else record { sessions = table; answer = validate_error }

pub data CloseAnswer : Type 0 where
  closed : (state : Option SessionState) → CloseAnswer
  close_unconfirmed close_error : CloseAnswer

pub record Closed : Type 0 where
  pub sessions : List Session
  pub answer : CloseAnswer

abbrev pub is_of : ℕ → ℕ → Session → Bool
is_of user sid s = s.id_sesion == sid && s.id_usuario == user

abbrev pub is_open : ℕ → ℕ → ℕ → Session → Bool
is_open now user sid s = s.id_sesion == sid && live_of now user s

abbrev or_else {ℓ} : {A : Type ℓ} → Option A → Option A → Option A
or_else none b = b
or_else (some a) b = some a

pub close_one : ℕ → ℕ → ℕ → Option ℕ → Option CloseReason → Session → Session
close_one now user sid by reason s =
    if is_open now user sid s
    then record s {
      estado = cerrada;
      cierre_at = some (coalesce s.cierre_at now);
      revocada_at = none;
      cerrada_por = or_else by s.cerrada_por;
      motivo_cierre = some (coalesce (or_else reason s.motivo_cierre) logout_usuario);
      ultimo_uso_at = some now;
    }
    else s

abbrev is_state : SessionState → SessionState → Bool
is_state activa activa = true
is_state expirada expirada = true
is_state revocada revocada = true
is_state cerrada cerrada = true
is_state _ _ = false

-- Where no row was updated: `closed none` is a session that does not exist.
pub closed_already : ℕ → Option Session → CloseAnswer
closed_already now none = closed none
closed_already now (some s) =
    if not (is_null s.revocada_at) || is_state s.estado revocada
    then closed (some revocada)
    else if not (is_null s.cierre_at) || is_state s.estado cerrada
    then closed (some cerrada)
    else if is_state s.estado expirada || leb s.expira_at now
    then closed (some expirada)
    else close_unconfirmed

pub close_active_session :
    ℕ → (succeeds : Bool) → (user sid : ℕ) → Option ℕ → Option CloseReason → List Session → Closed
unfolding close_one closed_already find_session
close_active_session now succeeds user sid by reason table =
    let ended = map (close_one now user sid by reason) table in
    let confirmed = closed_already now (find_session (is_of user sid) table) in
    if not succeeds
    then record { sessions = table; answer = close_error }
    else if any (is_open now user sid) table
    then record { sessions = ended; answer = closed (some cerrada) }
    else record { sessions = table; answer = confirmed }
