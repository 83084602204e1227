-- ===== src/Security/Login/Limits.antt =====
-- What the rate limits let through.
use masterfadebackend.Prelude.{
  ℕ, ◌<◌, ◌≡◌, inl, inr, refl, Option, none, some, Bool, false, arith, leb, Bool-cases,
}
use masterfadebackend.Security.Login.{
  LoginConfig, AttemptCounts, delay_for_failures, login_protection,
}

-- An attempt that may go on is known to be below the three limits, and is delayed by its failures.
pub record IsBelow (cfg : LoginConfig) (delay_ms : ℕ) (n : AttemptCounts) : Type 0 where
  pub ip : n.ip_attempts < cfg.ip_max
  pub identifier : n.identifier_failures < cfg.identifier_max
  pub ip_identifier : n.ip_identifier_attempts < cfg.ip_identifier_max
  pub delay : delay_ms ≡ delay_for_failures cfg n.identifier_failures

-- An attempt on an unprotected identifier is let through only where the counts could be read and
-- each of the three is below its limit, with the delay that belongs to its failures.
pub login_protection-IsBelow :
    (cfg : LoginConfig) (counts : Option AttemptCounts) (recent : Option Bool)
    → (login_protection cfg false counts recent).blocked ≡ false
    → (n : AttemptCounts) × (counts ≡ some n)
      × IsBelow cfg (login_protection cfg false counts recent).delay_ms n
unfolding login_protection
login_protection-IsBelow cfg none recent h = absurd (ground arith)
login_protection-IsBelow cfg (some n) recent h = elim (Bool-cases (leb cfg.ip_max n.ip_attempts)) [
  | inl over ↦ absurd (ground arith)
  | inr under ↦ (
    n,
    refl,
    record {
      ip = ground arith;
      identifier = ground arith;
      ip_identifier = ground arith;
      delay = ground arith;
    },
  )
]
