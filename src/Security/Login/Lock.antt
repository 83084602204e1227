-- ===== src/Security/Login/Lock.antt =====
-- When a run of failed logins locks the account, and for how long.
use masterfadebackend.Prelude.{
  ℕ, suc, ◌+◌, ◌≤◌, ◌<◌, ◌≡◌, refl, ◌∙◌, ap, List, [], ◌∷◌, Option, none, some, Bool, true, false,
  arith, leb, length, if◌then◌else◌,
}
use masterfadebackend.Security.Login.{
  LoginConfig, AccessRow, AlertType, User, found, minutes_ms, is_locked_at, lock_of, in_window,
  next_count, failed_row, register_failed, check_temporary_lock, successful_row,
}

-- The row after failed attempts of the user at the given instants, each committed.
pub fail_each :
    LoginConfig → (AlertType → Bool) → User → Option AccessRow → List ℕ → Option AccessRow
fail_each cfg recent u row [] = row
fail_each cfg recent u row (t ∷ ts) =
    fail_each cfg recent u (register_failed cfg recent true t (some u) row).row ts

register_failed-row :
    (cfg : LoginConfig) (recent : AlertType → Bool) (t : ℕ) (u : User) (row : Option AccessRow)
    → u.is_protected ≡ false
    → (register_failed cfg recent true t (some u) row).row ≡ some (failed_row cfg t row)
unfolding register_failed
register_failed-row cfg recent t u row h = ground (arith, h)

-- The instants after `t` follow each other within the window.
abbrev pub IsClose : LoginConfig → ℕ → List ℕ → Type 0
IsClose cfg t [] = Unit
IsClose cfg t (u ∷ us) = (u ≤ t + minutes_ms cfg.window_minutes) × IsClose cfg u us

abbrev pub last_of : ℕ → List ℕ → ℕ
last_of t [] = t
last_of t (u ∷ us) = last_of u us

-- A row whose last failure was at `t`, with at least `n` failures counted.
record HasFailed (cfg : LoginConfig) (t n : ℕ) (row : AccessRow) : Type 0 where
  at : row.last_failed_login_at ≡ some t
  counted : n ≤ row.failed_login_count
  lock : row.locked_until_at ≡ (
      if leb cfg.failed_lock_threshold row.failed_login_count
      then some (t + minutes_ms cfg.lock_minutes)
      else none)

first-HasFailed :
    (cfg : LoginConfig) (t : ℕ) (row : Option AccessRow) → HasFailed cfg t 1 (failed_row cfg t row)
unfolding failed_row next_count
first-HasFailed cfg t none = record { at = refl; counted = omega arith; lock = refl }
first-HasFailed cfg t (some r) = record { at = refl; counted = ground arith; lock = refl }

next-HasFailed :
    (cfg : LoginConfig) (t u n : ℕ) (row : AccessRow)
    → HasFailed cfg t n row
    → u ≤ t + minutes_ms cfg.window_minutes
    → HasFailed cfg u (suc n) (failed_row cfg u (some row))
unfolding failed_row next_count in_window
next-HasFailed cfg t u n row h close = record {
  at = refl;
  counted = ground (arith, h.at, h.counted);
  lock = refl;
}

fail_each-HasFailed :
    (cfg : LoginConfig) (recent : AlertType → Bool) (user : User) (t n : ℕ) (row : AccessRow)
    (ts : List ℕ)
    → user.is_protected ≡ false
    → HasFailed cfg t n row
    → IsClose cfg t ts
    → (r : AccessRow) × (fail_each cfg recent user (some row) ts ≡ some r)
      × HasFailed cfg (last_of t ts) (n + length ts) r
unfolding fail_each
fail_each-HasFailed cfg recent user t n row [] p h c =
    (row, refl, record { at = h.at; counted = omega (arith, h.counted); lock = h.lock })
fail_each-HasFailed cfg recent user t n row (u ∷ us) p h c =
    let (r, e, k) =
      fail_each-HasFailed cfg recent user u (suc n) _ us p (next-HasFailed cfg t u n row h c.0)
        c.1 in
    (
      r,
      ap (λ x. fail_each cfg recent user x us) (register_failed-row cfg recent u user (some row) p)
          ∙ e,
      record { at = k.at; counted = omega (arith, k.counted); lock = k.lock },
    )

HasFailed-locked :
    (cfg : LoginConfig) (t n now : ℕ) (row : AccessRow)
    → HasFailed cfg t n row
    → cfg.failed_lock_threshold ≤ n
    → now < t + minutes_ms cfg.lock_minutes
    → is_locked_at now row.locked_until_at ≡ true
HasFailed-locked cfg t n now row h enough early =
    ap (is_locked_at now) h.lock ∙ ground (arith, h.counted)

-- After failed attempts of an unprotected user, each within the window of the one before, as many
-- of them as the threshold at least, the temporary lock blocks the user until `lock_minutes` after
-- the last of them, whatever the row was before.
pub fail_each-blocked :
    (cfg : LoginConfig) (recent : AlertType → Bool) (u : User) (row : Option AccessRow)
    → (t : ℕ) (ts : List ℕ) (now : ℕ) → u.is_protected ≡ false
    → IsClose cfg t ts
    → cfg.failed_lock_threshold ≤ suc (length ts)
    → now < last_of t ts + minutes_ms cfg.lock_minutes
    → (check_temporary_lock now (found false) (found (fail_each cfg recent u row (t ∷ ts)))).blocked
      ≡ true
unfolding fail_each check_temporary_lock
fail_each-blocked cfg recent u row t ts now p c enough early =
    let (r, e, k) = fail_each-HasFailed cfg recent u t 1 _ ts p (first-HasFailed cfg t row) c in
    ap (λ x. is_locked_at now (lock_of (fail_each cfg recent u x ts)))
      (register_failed-row cfg recent t u row p)
    ∙ (ap (λ x. is_locked_at now (lock_of x)) e
        ∙ HasFailed-locked cfg (last_of t ts) _ now r k (omega (arith, enough)) early)

-- A row with at most `n` failures counted, that is locked only from the threshold on.
record HasAtMost (cfg : LoginConfig) (n : ℕ) (row : AccessRow) : Type 0 where
  counted : row.failed_login_count ≤ n
  lock : row.failed_login_count < cfg.failed_lock_threshold → row.locked_until_at ≡ none

next-HasAtMost :
    (cfg : LoginConfig) (u n : ℕ) (row : AccessRow)
    → HasAtMost cfg n row
    → HasAtMost cfg (suc n) (failed_row cfg u (some row))
unfolding failed_row next_count
next-HasAtMost cfg u n row h = record { counted = ground (arith, h.counted); lock = ground arith }

fail_each-HasAtMost :
    (cfg : LoginConfig) (recent : AlertType → Bool) (user : User) (n : ℕ) (row : AccessRow)
    (ts : List ℕ)
    → user.is_protected ≡ false
    → HasAtMost cfg n row
    → (r : AccessRow) × (fail_each cfg recent user (some row) ts ≡ some r)
      × HasAtMost cfg (n + length ts) r
unfolding fail_each
fail_each-HasAtMost cfg recent user n row [] p h =
    (row, refl, record { counted = omega (arith, h.counted); lock = h.lock })
fail_each-HasAtMost cfg recent user n row (u ∷ us) p h =
    let (r, e, k) =
      fail_each-HasAtMost cfg recent user (suc n) _ us p (next-HasAtMost cfg u n row h) in
    (
      r,
      ap (λ x. fail_each cfg recent user x us) (register_failed-row cfg recent u user (some row) p)
          ∙ e,
      record { counted = omega (arith, k.counted); lock = k.lock },
    )

-- After a successful login, fewer committed failed attempts than the threshold never leave an
-- unprotected user locked, at whatever instants they come.
pub fail_each-not_blocked :
    (cfg : LoginConfig) (recent : AlertType → Bool) (u : User) (row : Option AccessRow)
    → (login : ℕ) (ts : List ℕ) (now : ℕ) → u.is_protected ≡ false
    → length ts < cfg.failed_lock_threshold
    → (check_temporary_lock now
        (found false)
        (found (fail_each cfg recent u (some (successful_row login row)) ts))).blocked
      ≡ false
unfolding successful_row check_temporary_lock
fail_each-not_blocked cfg recent u row login ts now p few =
    let (r, e, k) =
      fail_each-HasAtMost cfg recent u 0 (successful_row login row) ts p
        (record { counted = omega arith; lock = λ h. refl }) in
    ap (λ x. is_locked_at now (lock_of x)) e
    ∙ ap (is_locked_at now) (k.lock (omega (arith, k.counted)))

restarted :
    (cfg : LoginConfig) (row : AccessRow) (last now : ℕ)
    → 2 ≤ cfg.failed_lock_threshold
    → row.last_failed_login_at ≡ some last
    → last + minutes_ms cfg.window_minutes < now
    → is_locked_at now (failed_row cfg now (some row)).locked_until_at ≡ false
unfolding failed_row next_count in_window
restarted cfg row last now two prev late =
    ap
      (λ x. is_locked_at now (
        if leb cfg.failed_lock_threshold
          (if in_window cfg now x then row.failed_login_count + 1 else 1)
        then some (now + minutes_ms cfg.lock_minutes)
        else none))
      prev
    ∙ ground arith

-- A committed failed attempt of an unprotected user more than the window after the last one
-- lifts a lock that is still in force, where the threshold is above one: the count starts again
-- at one, and the lock goes with it.
pub register_failed-lifts :
    (cfg : LoginConfig) (recent : AlertType → Bool) (u : User) (row : AccessRow) (last now : ℕ)
    → u.is_protected ≡ false
    → 2 ≤ cfg.failed_lock_threshold
    → row.last_failed_login_at ≡ some last
    → last + minutes_ms cfg.window_minutes < now
    → (check_temporary_lock now (found false) (found (some row))).blocked ≡ true
    → (check_temporary_lock now
        (found false)
        (found (register_failed cfg recent true now (some u) (some row)).row)).blocked
      ≡ false
unfolding check_temporary_lock
register_failed-lifts cfg recent u row last now p two prev late locked =
    ap (λ x. is_locked_at now (lock_of x)) (register_failed-row cfg recent now u (some row) p)
    ∙ restarted cfg row last now two prev late
