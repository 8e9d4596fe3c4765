-- ===== src/Stellar/Worker/Attempts.antt =====
-- The attempts of the worker: their spacing, and where they end.
use culturago_stellar.Base.{ℕ, suc, zero, ◌^◌, ◌≤◌, arith}
use culturago_stellar.Stellar.Gateway.Confirm.{backoff_ms}

positive_power : (n : ℕ) → 1 ≤ 2 ^ n
positive_power zero = omega arith
positive_power (suc n) = omega (arith, positive_power n)

-- The pause before the next attempt is at least two seconds and at most a minute, and grows with the
-- number of attempts.
pub backoff_ms-bounds :
    (n : ℕ) → (2000 ≤ backoff_ms n) × (backoff_ms n ≤ 60000) × (backoff_ms n ≤ backoff_ms (suc n))
unfolding backoff_ms
backoff_ms-bounds n = omega (arith, positive_power n)
