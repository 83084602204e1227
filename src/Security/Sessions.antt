-- ===== src/Security/Sessions.antt =====
-- The sessions of services/securityService.js, over the rows of `seguridad_sesiones`. Instants are
-- milliseconds, `NOW()` and `Date.now()` are one instant, and identifiers and hashes are numbers.
pub mod Creation
pub mod Use
use masterfadebackend.Prelude.{
  ℕ, zero, suc, ◌+◌, ◌*◌, min, List, [], ◌∷◌, ◌++◌, map, Option, none, some, Bool, true, false,
  ◌&&◌, ◌||◌, not, ltb, leb, ◌==◌, any, filter, length, if◌then◌else◌,
}

pub data SessionState : Type 0 where
  activa expirada revocada cerrada : SessionState

-- `motivo_cierre`; the last stands for any other text.
pub data CloseReason : Type 0 where
  sesion_expirada reemplazo_sesion_cliente inactividad_20_minutos logout_usuario
        eliminacion_cuenta :
      CloseReason
  other_reason : ℕ → CloseReason

pub record Session : Type 0 where
  pub id_sesion : ℕ
  pub id_usuario : ℕ
  pub token_jti_hash : ℕ
  pub estado : SessionState
  pub ultimo_uso_at : Option ℕ
  pub expira_at : ℕ
  pub cierre_at : Option ℕ
  pub revocada_at : Option ℕ
  pub cerrada_por : Option ℕ
  pub motivo_cierre : Option CloseReason

abbrev pub coalesce {ℓ} : {A : Type ℓ} → Option A → A → A
coalesce none a = a
coalesce (some b) a = b

abbrev pub is_null {ℓ} : {A : Type ℓ} → Option A → Bool
is_null none = true
is_null (some a) = false

abbrev pub is_activa : SessionState → Bool
is_activa activa = true
is_activa expirada = false
is_activa revocada = false
is_activa cerrada = false

-- The condition of the statements that look for a session in use.
abbrev pub is_live : ℕ → Session → Bool
is_live now s =
    is_activa s.estado && is_null s.cierre_at && is_null s.revocada_at && ltb now s.expira_at

abbrev pub live_of : ℕ → ℕ → Session → Bool
live_of now user s = s.id_usuario == user && is_live now s

pub data CollisionAction : Type 0 where
  allow block confirm_replace : CollisionAction

pub record PolicyRow : Type 0 where
  pub max_active_sessions : ℕ
  pub collision_action : CollisionAction

pub record Policy : Type 0 where
  pub max_sessions : ℕ
  pub action : CollisionAction

abbrev pub smaller : ℕ → Option ℕ → Option ℕ
smaller zero rest = rest
smaller (suc n) none = some (suc n)
smaller (suc n) (some m) = some (min (suc n) m)

-- The least positive limit of the rows.
least_limit : List PolicyRow → Option ℕ
least_limit [] = none
least_limit (r ∷ rs) = smaller r.max_active_sessions (least_limit rs)

abbrev pub is_action : CollisionAction → CollisionAction → Bool
is_action allow allow = true
is_action block block = true
is_action confirm_replace confirm_replace = true
is_action _ _ = false

pub resolve_policy : List PolicyRow → Policy
unfolding least_limit
resolve_policy rows = record {
  max_sessions = coalesce (least_limit rows) 5;
  action =
      if any (λ r. is_action r.collision_action confirm_replace) rows
      then confirm_replace
      else if any (λ r. is_action r.collision_action block) rows
      then block
      else allow;
}

pub expire_one : ℕ → ℕ → Session → Session
expire_one now user s =
    if s.id_usuario == user && is_activa s.estado && leb s.expira_at now
    then record s {
      estado = expirada;
      cierre_at = some (coalesce s.cierre_at now);
      motivo_cierre = some (coalesce s.motivo_cierre sesion_expirada);
    }
    else s

pub replace_one : ℕ → ℕ → Session → Session
replace_one now user s =
    if s.id_usuario == user && is_activa s.estado
    then record s {
      estado = revocada;
      revocada_at = some now;
      cierre_at = some (coalesce s.cierre_at now);
      cerrada_por = some user;
      motivo_cierre = some reemplazo_sesion_cliente;
      ultimo_uso_at = some now;
    }
    else s

-- The rows that the statements of `createActiveSession` insert beside the session.
pub data LogRow : Type 0 where
  login_session_limit audit_session_limit_reached audit_session_replaced : LogRow
  alert_cliente_intenta_nueva_sesion : LogRow

pub data CreateAnswer : Type 0 where
  created create_error : CreateAnswer
  limit_reached : (requires_session_replacement : Bool) → CreateAnswer

pub record Created : Type 0 where
  pub sessions : List Session
  pub logs : List LogRow
  pub answer : CreateAnswer

pub record NewSession : Type 0 where
  pub user : ℕ
  pub sid : ℕ
  pub jti_hash : ℕ
  pub exp_unix : ℕ
  pub motivo : Option CloseReason
  pub replace_active_session : Bool

pub new_row : ℕ → NewSession → Session
new_row now n = record {
  id_sesion = n.sid;
  id_usuario = n.user;
  token_jti_hash = n.jti_hash;
  estado = activa;
  ultimo_uso_at = some now;
  expira_at = n.exp_unix * 1000;
  cierre_at = none;
  revocada_at = none;
  cerrada_por = none;
  motivo_cierre = n.motivo;
}

limit_logs : Bool → Bool → List LogRow
limit_logs replacement recent_alert =
    login_session_limit
    ∷ audit_session_limit_reached
    ∷ (if replacement && not recent_alert then alert_cliente_intenta_nueva_sesion ∷ [] else [])

-- The transaction up to its commit, where its statements succeed.
pub create_committed : ℕ → Policy → Bool → NewSession → List Session → Created
unfolding limit_logs
create_committed now policy recent_alert n table =
    let swept = map (expire_one now n.user) table in
    let active = length (filter (live_of now n.user) swept) in
    let replacement = is_action policy.action confirm_replace in
    if leb policy.max_sessions active && not (is_action policy.action allow)
    then (if replacement && n.replace_active_session
        then record {
          sessions = new_row now n ∷ map (replace_one now n.user) swept;
          logs = audit_session_replaced ∷ [];
          answer = created;
        }
        else record {
          sessions = swept;
          logs = limit_logs replacement recent_alert;
          answer = limit_reached replacement;
        })
    else record { sessions = new_row now n ∷ swept; logs = []; answer = created }

-- A statement that fails rolls everything back.
pub create_active_session :
    ℕ → List PolicyRow → (recent_alert commits : Bool) → NewSession → List Session → Created
unfolding create_committed
create_active_session now rows recent_alert commits n table =
    let done = create_committed now (resolve_policy rows) recent_alert n table in
    if commits then done else record { sessions = table; logs = []; answer = create_error }
