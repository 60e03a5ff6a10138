-- ===== src/Retry/Backoff.antt =====
-- The back-off between two deliveries: monotone, capped, and doubling below the cap.
use Prim.Native.Nat.{min}
use native.Mathlib.Nat.{pow-le-pow_right, pow-suc, mul-le-mul_left}
use ch_relay.Prelude.{ℕ, suc, ◌-◌, ◌*◌, ◌+◌, ◌^◌, ◌≤◌, ◌<◌, ◌≡◌, arith}
use ch_relay.Retry.{RetryConfig, backoff, duration_max}

-- A later attempt waits at least as long as an earlier one, and none longer than the cap.
pub backoff_mono :
    (cfg : RetryConfig) (m n : ℕ)
    → m ≤ n
    → (backoff cfg m ≤ backoff cfg n) × (backoff cfg n ≤ cfg.cap)
unfolding backoff
backoff_mono cfg m n h =
    let grows : cfg.base * 2 ^ min (m - 1) 20 ≤ cfg.base * 2 ^ min (n - 1) 20 =
      mul-le-mul_left cfg.base (pow-le-pow_right (omega arith) (omega arith)) in
    (omega arith, omega arith)

double : (n : ℕ) → 2 ^ (suc n) ≡ 2 ^ n + 2 ^ n
double n = omega (arith, pow-suc 2 n)

-- Each of the first twenty further attempts waits twice as long as the one before, until that
-- exceeds the cap.
pub backoff_doubles :
    (cfg : RetryConfig) (n : ℕ)
    → n < 20
    → cfg.cap ≤ duration_max
    → backoff cfg (suc (suc n)) ≡ min (2 * backoff cfg (suc n)) cfg.cap
unfolding backoff
backoff_doubles cfg n h c =
    let a : min (suc (suc n) - 1) 20 ≡ suc n = omega arith in
    let b : min (suc n - 1) 20 ≡ n = omega arith in rw (a, b, double n) (omega arith)
