-- ===== src/Hub/Timers.antt =====
-- `Hub::run_retries` of crates/relay-server/src/hub.rs.
use ch_relay.Prelude.{ℕ, Bool, List, [], ◌∷◌, ◌++◌, map, none, some, if◌then◌else◌}
use ch_relay.Prelude.Map.{Map}
use ch_relay.Bytes.{Bytes, codes}
use ch_relay.Router.{ClientId}
use ch_relay.Retry.{RetryConfig}
use ch_relay.Session.{Session, DeadMsg}
use ch_relay.Session.Tick.{tick_retries}
use ch_relay.Hub.{Hub, snapshot_inflight, write_inflights, extend}
use ch_relay.Hub.Delivery.{dead_letters}

-- The session after a tick, its dead letters and its snapshot. Without a channel there is no tick.
unfoldable pub tick_session :
    Bool → RetryConfig → ℕ → Session → Session × List (Bytes × DeadMsg) × List (Bytes × Bytes)
tick_session durable cfg now s = elim s.tx [
  | none ↦ (s, [], [])
  | some sent ↦
      let (s', dead, changed) = tick_retries s now cfg in
      (
        s',
        map (λ d. (s.client_id, d)) dead,
        extend (if changed then snapshot_inflight durable s' else none) [],
      )
]

-- The loop over the sessions.
unfoldable pub tick_sessions :
    Bool
    → RetryConfig
    → ℕ
    → Map ClientId Session
    → Map ClientId Session × List (Bytes × DeadMsg) × List (Bytes × Bytes)
unfolding tick_session
tick_sessions durable cfg now [] = ([], [], [])
tick_sessions durable cfg now ((id, s) ∷ table) =
    let (s', dead, snapshots) = tick_session durable cfg now s in
    let (table', dead', snapshots') = tick_sessions durable cfg now table in
    ((id, s') ∷ table', dead ++ dead', snapshots ++ snapshots')

unfoldable pub run_retries : Hub → ℕ → ℕ → Hub
run_retries h now ts =
    let (by_id, dead, snapshots) = tick_sessions h.is_durable h.retry now h.sessions.by_id in
    dead_letters
      (write_inflights (record h { sessions = record h.sessions { by_id = by_id } }) snapshots) now
      ts (codes "max_delivery_attempts_exceeded") dead
