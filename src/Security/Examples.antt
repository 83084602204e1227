-- ===== src/Security/Examples.antt =====
-- The lock with the limits of the service's configuration, and the users of a small installation.
use masterfadebackend.Prelude.{
  ℕ, ◌≤◌, ◌≡◌, refl, [], ◌∷◌, Option, none, some, Bool, true, false, arith,
}
use masterfadebackend.Security.Login.{
  AttemptCounts, LoginConfig, AccessRow, AlertType, User, found, check_temporary_lock, minutes_ms,
}
use masterfadebackend.Security.Login.Lock.{fail_each, fail_each-blocked}
use masterfadebackend.Security.Access.{
  AccessState, activo, inactivo, Role, super_admin, Store, Updated, ok, find_user,
  count_active_super_admins, write_state, guard, update_access_state,
}
use masterfadebackend.Security.Access
use masterfadebackend.Security.Access.SuperAdmins.{update_access_state-keeps}

abbrev config : LoginConfig
config = record {
  window_minutes = 15;
  failed_lock_threshold = 5;
  lock_minutes = 30;
  ip_max = 20;
  identifier_max = 5;
  ip_identifier_max = 8;
  delay_fail3_ms = 1000;
  delay_fail4_ms = 2000;
}

abbrev no_alert : AlertType → Bool
no_alert a = false

abbrev user : User
user = record { is_super_admin = false; is_protected = false }

abbrev minute : ℕ → ℕ
minute m = minutes_ms m

-- Five failures within five minutes lock the user until minute thirty-four.
fail_each-blocked_example :
    (check_temporary_lock (minute 33) (found false) (
      found (
        fail_each config no_alert user none
          (minute 0 ∷ minute 1 ∷ minute 2 ∷ minute 3 ∷ minute 4 ∷ [])))).blocked
    ≡ true
fail_each-blocked_example =
    fail_each-blocked config no_alert user none (minute 0)
      (minute 1 ∷ minute 2 ∷ minute 3 ∷ minute 4 ∷ []) (minute 33) refl
      (omega arith, (omega arith, (omega arith, (omega arith, tt)))) (omega arith) (omega arith)

-- Locked at minute four until minute thirty-four.
abbrev locked_row : AccessRow
locked_row = record {
  failed_login_count = 5;
  last_failed_login_at = some (minute 4);
  locked_until_at = some (minute 34);
  last_login_at = none;
}

abbrev person : ℕ → Option AccessState → Access.User
person i s = record {
  id_usuario = i;
  estado = true;
  estado_acceso = s;
  active_roles = super_admin ∷ [];
}

abbrev store : Store
store = record { users = person 1 none ∷ person 2 (some activo) ∷ []; counters = λ i. none }

abbrev after : Store
after = write_state (minute 0) 2 inactivo store

disabled : update_access_state (minute 0) 1 2 inactivo (some false) true store ≡ ok after
unfolding update_access_state guard find_user count_active_super_admins
disabled = refl

update_access_state-keeps_example : 1 ≤ count_active_super_admins after.users
unfolding count_active_super_admins
update_access_state-keeps_example =
    update_access_state-keeps (minute 0) 1 2 inactivo (some false) true store after
      ((λ e. ground arith, tt), (tt, tt)) (omega arith, (omega arith, tt)) (omega arith) disabled

abbrev counts : AttemptCounts
counts = record { ip_attempts = 12; identifier_failures = 3; ip_identifier_attempts = 4 }
