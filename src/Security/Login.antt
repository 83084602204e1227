-- ===== src/Security/Login.antt =====
-- Failed logins in services/securityService.js: `getLoginProtectionState`, `checkUserTemporaryLock`,
-- `registerFailedLoginAttempt` and `registerSuccessfulLogin`, over the user's row of
-- `seguridad_usuarios_acceso`. Instants are milliseconds; `NOW()` and `Date.now()` are one instant.
pub mod Lock
pub mod Limits
use masterfadebackend.Prelude.{
  ℕ, zero, suc, ◌+◌, ◌*◌, List, [], ◌∷◌, ◌++◌, Option, none, some, Bool, true, false, ◌||◌, ◌&&◌,
  not, ltb, leb, if◌then◌else◌,
}

pub record LoginConfig : Type 0 where
  pub window_minutes : ℕ
  pub failed_lock_threshold : ℕ
  pub lock_minutes : ℕ
  pub ip_max : ℕ
  pub identifier_max : ℕ
  pub ip_identifier_max : ℕ
  pub delay_fail3_ms : ℕ
  pub delay_fail4_ms : ℕ

pub record AccessRow : Type 0 where
  pub failed_login_count : ℕ
  pub last_failed_login_at : Option ℕ
  pub locked_until_at : Option ℕ
  pub last_login_at : Option ℕ

abbrev pub minutes_ms : ℕ → ℕ
minutes_ms n = n * 60000

pub delay_for_failures : LoginConfig → ℕ → ℕ
delay_for_failures cfg failures =
    if leb 4 failures then cfg.delay_fail4_ms else if leb 3 failures then cfg.delay_fail3_ms else 0

-- The counts of the three queries over the login log, 0 where the address or the identifier is missing.
pub record AttemptCounts : Type 0 where
  pub ip_attempts : ℕ
  pub identifier_failures : ℕ
  pub ip_identifier_attempts : ℕ

pub record ProtectionState : Type 0 where
  pub ok : Bool
  pub blocked : Bool
  pub delay_ms : ℕ
  pub bypassed : Bool
  pub inserts_alert : Bool  -- that of many failures from one address

abbrev pub unavailable : ProtectionState
unavailable = record {
  ok = false;
  blocked = true;
  delay_ms = 0;
  bypassed = false;
  inserts_alert = false;
}

abbrev inserts : Option Bool → Bool
inserts none = false
inserts (some recent) = not recent

abbrev is_failure : Option Bool → Bool
is_failure none = true
is_failure (some recent) = false

-- `none` for the counts is a query that failed. `recent` tells whether a recent alert of the address
-- is open, which holds a second one back; `none` is a failure of that statement.
unfoldable pub login_protection :
    LoginConfig → Bool → Option AttemptCounts → Option Bool → ProtectionState
login_protection cfg protected none recent = unavailable
login_protection cfg true (some n) recent = record {
  ok = true;
  blocked = false;
  delay_ms = 0;
  bypassed = true;
  inserts_alert = false;
}
login_protection cfg false (some n) recent =
    let by_ip = leb cfg.ip_max n.ip_attempts in
    if by_ip && is_failure recent then unavailable else record {
      ok = true;
      blocked =
          by_ip
          || leb cfg.identifier_max n.identifier_failures
          || leb cfg.ip_identifier_max n.ip_identifier_attempts;
      delay_ms = delay_for_failures cfg n.identifier_failures;
      bypassed = false;
      inserts_alert = by_ip && inserts recent;
    }

-- What a query of the lock finds: a failure of the database, or the row if there is one.
pub data Lookup {ℓ} (A : Type ℓ) : Type ℓ where
  failed : Lookup A
  found : A → Lookup A

pub record LockState : Type 0 where
  pub ok : Bool
  pub blocked : Bool
  pub locked_until : Option ℕ

lock_unavailable : LockState
lock_unavailable = record { ok = false; blocked = true; locked_until = none }

abbrev pub is_locked_at : ℕ → Option ℕ → Bool
is_locked_at now none = false
is_locked_at now (some until) = ltb now until

abbrev pub lock_of : Option AccessRow → Option ℕ
lock_of none = none
lock_of (some r) = r.locked_until_at

-- The first lookup is of the protected users, and fails closed.
unfoldable pub check_temporary_lock : ℕ → Lookup Bool → Lookup (Option AccessRow) → LockState
unfolding lock_unavailable
check_temporary_lock now failed row = lock_unavailable
check_temporary_lock now (found true) row = record {
  ok = true;
  blocked = false;
  locked_until = none;
}
check_temporary_lock now (found false) failed = lock_unavailable
check_temporary_lock now (found false) (found row) = record {
  ok = true;
  blocked = is_locked_at now (lock_of row);
  locked_until = lock_of row;
}

-- `prevAt` lies in the window that ends now.
in_window : LoginConfig → ℕ → Option ℕ → Bool
in_window cfg now none = false
in_window cfg now (some at) = leb now (at + minutes_ms cfg.window_minutes)

pub next_count : LoginConfig → ℕ → Option AccessRow → ℕ
unfolding in_window
next_count cfg now none = 1
next_count cfg now (some r) =
    if in_window cfg now r.last_failed_login_at then r.failed_login_count + 1 else 1

abbrev last_login_of : Option AccessRow → Option ℕ
last_login_of none = none
last_login_of (some r) = r.last_login_at

-- The upsert of a failed attempt.
pub failed_row : LoginConfig → ℕ → Option AccessRow → AccessRow
failed_row cfg now row =
    let count = next_count cfg now row in
    record {
      failed_login_count = count;
      last_failed_login_at = some now;
      locked_until_at =
          if leb cfg.failed_lock_threshold count
          then some (now + minutes_ms cfg.lock_minutes)
          else none;
      last_login_at = last_login_of row;
    }

pub data AlertType : Type 0 where
  muchos_fallos_mismo_usuario usuario_bloqueado intentos_contra_super_admin : AlertType

pub record User : Type 0 where
  pub is_super_admin : Bool
  pub is_protected : Bool

pub record FailedOutcome : Type 0 where
  pub row : Option AccessRow
  pub ok : Bool
  pub blocked_now : Bool
  pub bypassed : Bool
  pub alerts : List AlertType

-- `insertSecurityAlertDedup`: nothing is inserted where a recent alert of the type is open.
insert_alert : (AlertType → Bool) → AlertType → List AlertType
insert_alert recent a = if recent a then [] else a ∷ []

abbrev when {ℓ} : {A : Type ℓ} → Bool → List A → List A
when true xs = xs
when false xs = []

failed_alerts : (AlertType → Bool) → Bool → Bool → List AlertType
unfolding insert_alert
failed_alerts recent locks super =
    when locks (insert_alert recent muchos_fallos_mismo_usuario)
    ++ (when locks (insert_alert recent usuario_bloqueado)
        ++ when super (insert_alert recent intentos_contra_super_admin))

-- `none` for the user is an identifier of nobody. A transaction that does not commit is rolled back.
pub register_failed :
    LoginConfig → (AlertType → Bool) → Bool → ℕ → Option User → Option AccessRow → FailedOutcome
unfolding failed_alerts
register_failed cfg recent commits now none row = record {
  row = row;
  ok = true;
  blocked_now = false;
  bypassed = false;
  alerts = [];
}
register_failed cfg recent commits now (some u) row =
    let next = failed_row cfg now row in
    let locks = leb cfg.failed_lock_threshold next.failed_login_count in
    if u.is_protected
    then record { row = row; ok = true; blocked_now = false; bypassed = true; alerts = [] }
    else if commits
    then record {
      row = some next;
      ok = true;
      blocked_now = locks;
      bypassed = false;
      alerts = failed_alerts recent locks u.is_super_admin;
    }
    else record { row = row; ok = false; blocked_now = false; bypassed = false; alerts = [] }

-- `registerSuccessfulLogin`, where the upsert succeeds.
pub successful_row : ℕ → Option AccessRow → AccessRow
successful_row now row = record {
  failed_login_count = 0;
  last_failed_login_at = none;
  locked_until_at = none;
  last_login_at = some now;
}
