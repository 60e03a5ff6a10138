-- ===== src/Hub.antt =====
-- The broker state of crates/relay-server/src/hub.rs: the `Inner` of a `Hub` with its `SessionTable`,
-- the durable writes it has queued and the purges it has scheduled. An operation takes the clock as
-- `now`, where it reads an `Instant`, and as `ts`, where it reads the seconds since the epoch.
pub mod Delivery
pub mod Attach
pub mod Timers
pub mod Requests
pub mod Startup
pub mod Consistency
pub mod Keeps
pub mod Sessions
pub mod Generations
pub mod Steps
pub mod Recipients
pub mod Validity
pub mod Counters
pub mod Soundness
pub mod Inbound
mod Examples
use ch_relay.Prelude.{
  ℕ, ◌+◌, ◌-◌, ◌%◌, ◌^◌, Bool, true, false, ◌&&◌, List, [], ◌∷◌, ◌++◌, map, Option, none, some, ltb,
  if◌then◌else◌, nat_eq,
}
use ch_relay.Prelude.Map.{Map, get, insert}
use ch_relay.Bytes.{Bytes, bytes_eq}
use ch_relay.Message.{QoS}
use ch_relay.Router.{Router, ClientId}
use ch_relay.Retained.{RetainedStore}
use ch_relay.Retry.{RetryConfig}
use ch_relay.Session.{Session, u32_mod}
use ch_relay.Codec.{encode_inflight}
use ch_relay.Storage.{PersistOp, put_session, remove_session, put_subscription, put_inflight}

abbrev pub u64_mod : ℕ
u64_mod = 2 ^ 64

-- `NO_EXPIRY`.
abbrev pub no_expiry : ℕ
no_expiry = u32_mod - 1

pub record SessionTable : Type 0 where
  pub by_id : Map ClientId Session
  pub id_of : Map Bytes ClientId
  pub generation : ℕ

-- A purge that is scheduled: the seconds to wait, and the arguments of `purge_if_idle`.
pub record Purge : Type 0 where
  pub after_secs : ℕ
  pub id : ClientId
  pub generation : ℕ

-- `Inner`. The storage and the handle of its worker are there together or not at all: `is_durable`.
pub record Hub : Type 0 where
  pub next_raw : ℕ
  pub router : Router
  pub retained : RetainedStore
  pub sessions : SessionTable
  pub is_durable : Bool
  pub queue : List PersistOp
  pub purges : List Purge
  pub retry : RetryConfig
  pub event_log_max : ℕ

-- `by_id.get_mut(&id)`, written.
abbrev pub set_session : Hub → ClientId → Session → Hub
set_session h id s = record h {
  sessions = record h.sessions { by_id = insert id s h.sessions.by_id };
}

abbrev pub enqueue_all : Hub → List PersistOp → Hub
enqueue_all h ops = record h { queue = if h.is_durable then h.queue ++ ops else h.queue }

abbrev pub enqueue : Hub → PersistOp → Hub
enqueue h op = enqueue_all h (op ∷ [])

abbrev pub persist_meta : Hub → Bytes → ℕ → Hub
persist_meta h client_id expiry_secs =
    enqueue h
      (if ltb 0 expiry_secs then put_session client_id expiry_secs else remove_session client_id)

-- The argument is whether there is a storage.
abbrev pub snapshot_inflight : Bool → Session → Option (Bytes × Bytes)
snapshot_inflight durable s =
    if durable && ltb 0 s.expiry_secs then some (s.client_id, encode_inflight s) else none

abbrev pub write_op : Bytes × Bytes → PersistOp
write_op (client_id, blob) = put_inflight client_id blob

abbrev pub write_inflights : Hub → List (Bytes × Bytes) → Hub
write_inflights h snapshots = enqueue_all h (map write_op snapshots)

-- `extend` with an `Option`.
abbrev pub extend {ℓ} : {A : Type ℓ} → Option A → List A → List A
extend none xs = xs
extend (some x) xs = x ∷ xs

abbrev pub forget_persisted : Hub → Bytes → Hub
forget_persisted h client_id = enqueue h (remove_session client_id)

-- The client id of a session that is kept on disk.
abbrev pub durable_client : Option Session → Option Bytes
durable_client none = none
durable_client (some s) = if ltb 0 s.expiry_secs then some s.client_id else none

abbrev pub subscription_ops : Bytes → QoS → Option Bytes → List PersistOp
subscription_ops raw q none = []
subscription_ops raw q (some client_id) = put_subscription client_id raw q ∷ []

abbrev pub persist_subscription : Hub → ClientId → Bytes → QoS → Hub
persist_subscription h id raw q =
    enqueue_all h (subscription_ops raw q (durable_client (get id h.sessions.by_id)))
