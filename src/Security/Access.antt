-- ===== src/Security/Access.antt =====
-- The access state of a user in services/securityService.js: `countActiveSuperAdmins` and
-- `updateAdminUserAccessState`. The users are the rows of `usuarios` that are not deleted, each with
-- its active role rows; ids are numbers. A query that fails ends in a rollback.
pub mod SuperAdmins
use masterfadebackend.Prelude.{
  ℕ, ◌+◌, ◌*◌, List, [], ◌∷◌, Option, none, some, Bool, true, false, ◌&&◌, ◌||◌, not, ltb, leb,
  ◌==◌, any, filter, length, sum_by, map, if◌then◌else◌,
}

pub data AccessState : Type 0 where
  pendiente_password activo bloqueado inactivo : AccessState

pub data Role : Type 0 where
  super_admin security_admin other : Role

-- `none` is a state that was never written, which counts as `activo`.
pub record User : Type 0 where
  pub id_usuario : ℕ
  pub estado : Bool
  pub estado_acceso : Option AccessState
  pub active_roles : List Role

-- The row of `seguridad_usuarios_acceso` that belongs to a user.
pub record Counters : Type 0 where
  pub failed_login_count : ℕ
  pub locked_until_at : Option ℕ

pub record Store : Type 0 where
  pub users : List User
  pub counters : ℕ → Option Counters

abbrev pub is_super_role : Role → Bool
is_super_role super_admin = true
is_super_role security_admin = false
is_super_role other = false

abbrev pub is_critical_role : Role → Bool
is_critical_role super_admin = true
is_critical_role security_admin = true
is_critical_role other = false

abbrev pub is_super_admin : User → Bool
is_super_admin u = any is_super_role u.active_roles

abbrev pub is_critical_access : User → Bool
is_critical_access u = any is_critical_role u.active_roles

abbrev pub is_disabling : AccessState → Bool
is_disabling bloqueado = true
is_disabling inactivo = true
is_disabling activo = false
is_disabling pendiente_password = false

abbrev pub is_protected_state : AccessState → Bool
is_protected_state bloqueado = true
is_protected_state inactivo = true
is_protected_state pendiente_password = true
is_protected_state activo = false

abbrev pub is_disabled : Option AccessState → Bool
is_disabled none = false
is_disabled (some s) = is_disabling s

-- The rows that the joins of the query give for one user.
abbrev pub super_rows : User → ℕ
super_rows u =
    if u.estado && not (is_disabled u.estado_acceso)
    then length (filter is_super_role u.active_roles)
    else 0

unfoldable pub count_active_super_admins : List User → ℕ
count_active_super_admins us = sum_by super_rows us

unfoldable pub find_user : ℕ → List User → Option User
find_user i [] = none
find_user i (u ∷ us) = if u.id_usuario == i then some u else find_user i us

abbrev pub with_state : ℕ → AccessState → User → User
with_state i s u = if u.id_usuario == i then record u { estado_acceso = some s } else u

-- The upsert of the counters: a block is for thirty minutes, and an active state clears them.
next_counters : ℕ → AccessState → Option Counters → Counters
next_counters now bloqueado none = record {
  failed_login_count = 0;
  locked_until_at = some (now + 30 * 60000);
}
next_counters now bloqueado (some c) = record c { locked_until_at = some (now + 30 * 60000) }
next_counters now activo c = record { failed_login_count = 0; locked_until_at = none }
next_counters now inactivo none = record { failed_login_count = 0; locked_until_at = none }
next_counters now inactivo (some c) = c
next_counters now pendiente_password none = record {
  failed_login_count = 0;
  locked_until_at = none;
}
next_counters now pendiente_password (some c) = c

pub data AccessError : Type 0 where
  user_not_found root_user_protected root_user_protection_check_failed : AccessError
  self_critical_access_forbidden last_super_admin_forbidden update_error : AccessError

pub data Updated : Type 0 where
  ok : Store → Updated
  refused : AccessError → Updated

unfoldable pub write_state : ℕ → ℕ → AccessState → Store → Store
unfolding next_counters
write_state now i s store = record {
  users = map (with_state i s) store.users;
  counters =
      λ j. if j == i then some (next_counters now s (store.counters i)) else store.counters j;
}

protected_first : Option Bool → Option AccessError → Option AccessError
protected_first none rest = some root_user_protection_check_failed
protected_first (some true) rest = some root_user_protected
protected_first (some false) rest = rest

-- A protected user is never disabled, and a lookup that fails refuses too.
guard_protection : AccessState → Option Bool → Option AccessError → Option AccessError
unfolding protected_first
guard_protection s protection rest =
    if is_protected_state s then protected_first protection rest else rest

guard_found :
    (actor target : ℕ) → AccessState → Option Bool → List User → Option User → Option AccessError
unfolding guard_protection count_active_super_admins
guard_found actor target s protection users none = some user_not_found
guard_found actor target s protection users (some u) = guard_protection s protection (
    if actor == target && is_disabling s && is_critical_access u
    then some self_critical_access_forbidden
    else if is_super_admin u && is_disabling s && leb (count_active_super_admins users) 1
    then some last_super_admin_forbidden
    else none)

-- What the guards answer before the write: `protection` is the lookup of the protected users, `none`
-- where it failed.
unfoldable pub guard :
    (actor target : ℕ) → AccessState → (protection : Option Bool) → Store → Option AccessError
unfolding find_user guard_found
guard actor target s protection store =
    guard_found actor target s protection store.users (find_user target store.users)

-- The statements after the guards: `commits` tells whether they and the commit succeed.
answer : (commits : Bool) → Option AccessError → Store → Updated
answer commits (some e) after = refused e
answer true none after = ok after
answer false none after = refused update_error

unfoldable pub update_access_state :
    ℕ → (actor target : ℕ) → AccessState → Option Bool → (commits : Bool) → Store → Updated
unfolding guard write_state answer
update_access_state now actor target s protection commits store =
    answer commits (guard actor target s protection store) (write_state now target s store)
