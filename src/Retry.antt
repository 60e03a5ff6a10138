-- ===== src/Retry.antt =====
-- The redelivery policy of crates/relay-server/src/hub.rs. Durations are nanoseconds; an `Instant` is
-- the nanoseconds since some start.
pub mod Backoff
mod Examples
use Prim.Native.Nat.{min}
use ch_relay.Prelude.{ℕ, ◌-◌, ◌*◌, ◌+◌, ◌^◌}

pub record RetryConfig : Type 0 where
  pub max_attempts : ℕ
  pub base : ℕ
  pub cap : ℕ

-- `Duration::MAX`, where `saturating_mul` stops.
abbrev pub duration_max : ℕ
duration_max = (2 ^ 64 - 1) * 1_000_000_000 + 999_999_999

abbrev pub default_retry : RetryConfig
default_retry = record { max_attempts = 5; base = 5_000_000_000; cap = 60_000_000_000 }

-- `attempt.saturating_sub(1)` is the subtraction of ℕ.
unfoldable pub backoff : RetryConfig → ℕ → ℕ
backoff cfg attempt = min (min (cfg.base * 2 ^ min (attempt - 1) 20) duration_max) cfg.cap
