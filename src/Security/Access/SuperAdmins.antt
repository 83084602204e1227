-- ===== src/Security/Access/SuperAdmins.antt =====
-- That a change of access state leaves an active super administrator.
use masterfadebackend.Prelude.{
  ℕ, suc, ◌+◌, ◌≤◌, ◌≡◌, ◌≢◌, ◌⊎◌, refl, ap, ap₂, subst, inl, inr, List, [], ◌∷◌, Option, none,
  some, Bool, true, false, ◌&&◌, arith, ◌==◌, any, filter, length, sum_by, map, All, Bool-cases,
}
use masterfadebackend.Security.Access.{
  AccessState, User, Role, Store, AccessError, answer, ok, is_super_role, is_super_admin,
  is_disabling, super_rows, count_active_super_admins, find_user, with_state, write_state, guard,
  guard_found, guard_protection, protected_first, update_access_state,
}

abbrev pub IsUnique : List User → Type 0
IsUnique [] = Unit
IsUnique (u ∷ us) = All (λ v. v.id_usuario ≢ u.id_usuario) us × IsUnique us

-- No user has two active rows of the super administrators' role.
abbrev pub IsSingle : User → Type 0
IsSingle u = length (filter is_super_role u.active_roles) ≤ 1

no_rows : (rs : List Role) → any is_super_role rs ≡ false → length (filter is_super_role rs) ≡ 0
no_rows [] h = refl
no_rows (r ∷ rs) h = ground (arith, no_rows rs)

super_rows-not_super : (u : User) → is_super_admin u ≡ false → super_rows u ≡ 0
super_rows-not_super u h = ground (arith, no_rows u.active_roles h)

super_rows-le : (u : User) → IsSingle u → super_rows u ≤ 1
super_rows-le u h = ground arith

with_state-other : (i : ℕ) (s : AccessState) (u : User) → u.id_usuario ≢ i → with_state i s u ≡ u
with_state-other i s u h = ground arith

enabled :
    (s : AccessState) (u : User)
    → is_disabling s ≡ false
    → super_rows u ≤ super_rows (record u { estado_acceso = some s })
enabled s u h = ground arith

map-absent :
    (i : ℕ) (s : AccessState) (us : List User)
    → All (λ v. v.id_usuario ≢ i) us
    → sum_by super_rows (map (with_state i s) us) ≡ sum_by super_rows us
map-absent i s [] a = refl
map-absent i s (u ∷ us) a =
    ap₂ (λ a b. super_rows a + b) (with_state-other i s u a.0) (map-absent i s us a.1)

-- At the user with the id `i` the list is `u ∷ us`, elsewhere the head is left alone.
head-cases :
    (i : ℕ) (s : AccessState) (u : User) (us : List User)
    → IsUnique (u ∷ us)
    → ((u.id_usuario ≡ i) × (sum_by super_rows (map (with_state i s) us) ≡ sum_by super_rows us))
      ⊎ ((u.id_usuario ≢ i) × (with_state i s u ≡ u))
head-cases i s u us a = elim (Bool-cases (u.id_usuario == i)) [
  | inl h ↦
      let e : u.id_usuario ≡ i = ground arith in
      inl (e, map-absent i s us (subst (λ k. All (λ v. v.id_usuario ≢ k) us) e a.0))
  | inr h ↦ let n : u.id_usuario ≢ i = ground arith in inr (n, with_state-other i s u n)
]

loses :
    (i : ℕ) (s : AccessState) (us : List User)
    → IsUnique us
    → All IsSingle us
    → sum_by super_rows us ≤ suc (sum_by super_rows (map (with_state i s) us))
loses i s [] a b = omega arith
loses i s (u ∷ us) a b = elim (head-cases i s u us a) [
  | inl (e, h) ↦ omega (arith, h, super_rows-le u b.0)
  | inr (n, h) ↦ omega (arith, ap super_rows h, loses i s us a.1 b.1)
]

keeps :
    (i : ℕ) (s : AccessState) (us : List User)
    → IsUnique us
    → ((u : User) → find_user i us ≡ some u → (super_rows u ≤ super_rows (with_state i s u)))
    → sum_by super_rows us ≤ sum_by super_rows (map (with_state i s) us)
unfolding find_user
keeps i s [] a f = omega arith
keeps i s (u ∷ us) a f = elim (head-cases i s u us a) [
  | inl (e, h) ↦ omega (arith, h, f u (ground arith))
  | inr (n, h) ↦ omega (arith, ap super_rows h, keeps i s us a.1 (λ v q. f v (ground arith)))
]

guard_protection-none :
    (s : AccessState) (p : Option Bool) (rest : Option AccessError)
    → guard_protection s p rest ≡ none
    → rest ≡ none
unfolding guard_protection protected_first
guard_protection-none s none rest h = ground arith
guard_protection-none s (some true) rest h = ground arith
guard_protection-none s (some false) rest h = ground arith

-- What a write that the guards let through knows: the user exists, and disabling a super
-- administrator leaves a row to count.
guard_found-none :
    (actor target : ℕ) (s : AccessState) (p : Option Bool) (users : List User) (o : Option User)
    → guard_found actor target s p users o ≡ none
    → (u : User) × (o ≡ some u)
      × ((is_super_admin u && is_disabling s) ≡ true → 2 ≤ count_active_super_admins users)
unfolding guard_found
guard_found-none actor target s p users none h = ground arith
guard_found-none actor target s p users (some u) h =
    (u, refl, λ d. let rest = guard_protection-none s p _ h in ground arith)

-- A user that is not a super administrator, or not disabled, still counts as much.
not_lost :
    (target : ℕ) (s : AccessState) (u : User)
    → (is_super_admin u && is_disabling s) ≡ false
    → super_rows u ≤ super_rows (with_state target s u)
not_lost target s u h = elim (Bool-cases (is_super_admin u)) [
  | inl e ↦ let d : is_disabling s ≡ false = ground arith in ground (arith, enabled s u d)
  | inr e ↦ omega (arith, super_rows-not_super u e)
]

after_write :
    (target : ℕ) (s : AccessState) (users : List User) (u : User)
    → IsUnique users
    → All IsSingle users
    → find_user target users ≡ some u
    → ((is_super_admin u && is_disabling s) ≡ true → 2 ≤ count_active_super_admins users)
    → 1 ≤ count_active_super_admins users
    → 1 ≤ count_active_super_admins (map (with_state target s) users)
unfolding count_active_super_admins
after_write target s users u a b e two one =
    elim (Bool-cases (is_super_admin u && is_disabling s)) [
      | inl h ↦ omega (arith, two h, loses target s users a b)
      | inr h ↦ omega (
        arith,
        keeps target s users a (λ v q.
            let k : u ≡ v = cc in
            subst (λ w. super_rows w ≤ super_rows (with_state target s w)) k
              (not_lost target s u h)),
      )
    ]

answer-ok :
    (commits : Bool) (g : Option AccessError) (w after : Store)
    → answer commits g w ≡ ok after
    → (g ≡ none) × (w ≡ after)
unfolding answer
answer-ok commits (some e) w after h = ground arith
answer-ok true none w after h = (refl, cc)
answer-ok false none w after h = ground arith

-- A change of access state that succeeds leaves an active super administrator where there was one,
-- provided that ids are unique and nobody has the role in two active rows.
pub update_access_state-keeps :
    (now actor target : ℕ) (s : AccessState) (p : Option Bool) (commits : Bool)
    (store after : Store)
    → IsUnique store.users
    → All IsSingle store.users
    → 1 ≤ count_active_super_admins store.users
    → update_access_state now actor target s p commits store ≡ ok after
    → 1 ≤ count_active_super_admins after.users
unfolding guard write_state update_access_state
update_access_state-keeps now actor target s p commits store after a b one h =
    let (g, w) = answer-ok commits _ _ after h in
    let (u, e, two) = guard_found-none actor target s p store.users _ g in
    subst (λ x. 1 ≤ count_active_super_admins x.users) w
      (after_write target s store.users u a b e two one)
