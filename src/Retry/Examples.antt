-- ===== src/Retry/Examples.antt =====
-- The default policy.
use Prim.Native.Nat.{min}
use ch_relay.Prelude.{◌≡◌, ◌*◌, refl, arith}
use ch_relay.Retry.{default_retry, backoff}
use ch_relay.Retry.Backoff.{backoff_doubles}

backoff_doubles_example :
    backoff default_retry 4 ≡ min (2 * backoff default_retry 3) default_retry.cap
backoff_doubles_example = backoff_doubles default_retry 2 (omega arith) (omega arith)

capped : backoff default_retry 5 ≡ 60_000_000_000
unfolding backoff
capped = refl
