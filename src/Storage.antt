-- ===== src/Storage.antt =====
-- The durable writes of crates/relay-server/src/storage.rs that the hub queues, and what the hub is
-- given at startup. The tables themselves are kept by the library that the storage calls.
pub mod Tables
pub mod Store
pub mod Worker
pub mod EventLog
pub mod Rows
pub mod Listed
mod Examples
use ch_relay.Prelude.{ℕ, List}
use ch_relay.Bytes.{Bytes}
use ch_relay.Message.{QoS}

pub data PersistOp : Type 0 where
  put_session : Bytes → ℕ → PersistOp
  remove_session : Bytes → PersistOp
  put_subscription : Bytes → Bytes → QoS → PersistOp
  remove_subscription : Bytes → Bytes → PersistOp
  put_inflight : Bytes → Bytes → PersistOp
  put_retained : Bytes → Bytes → QoS → PersistOp
  append_dead_letter : Bytes → PersistOp
  append_event : Bytes → ℕ → PersistOp
  flush : PersistOp

pub record PersistedSession : Type 0 where
  pub client_id : Bytes
  pub expiry_secs : ℕ
  pub subscriptions : List (Bytes × QoS)
