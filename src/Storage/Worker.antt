-- ===== src/Storage/Worker.antt =====
-- The persistence worker of crates/relay-server/src/storage.rs.
use ch_relay.Prelude.{Bool, List, [], ◌∷◌, if◌then◌else◌}
use ch_relay.Storage.{PersistOp}
use ch_relay.Storage.Tables.{Database}
use ch_relay.Storage.Store.{
  Store, put_retained, put_session, remove_session, put_subscription, remove_subscription,
  put_inflight, append_dead_letter, append_event,
}

module _ (db : Database) where
  -- A write whose transaction commits. A flush only acknowledges.
  unfoldable pub written : Store db → PersistOp → Store db
  written st (PersistOp.put_session client_id expiry_secs) = put_session db st client_id expiry_secs
  written st (PersistOp.remove_session client_id) = remove_session db st client_id
  written st (PersistOp.put_subscription client_id raw q) = put_subscription db st client_id raw q
  written st (PersistOp.remove_subscription client_id raw) = remove_subscription db st client_id raw
  written st (PersistOp.put_inflight client_id blob) = put_inflight db st client_id blob
  written st (PersistOp.put_retained topic payload q) = put_retained db st topic payload q
  written st (PersistOp.append_dead_letter blob) = append_dead_letter db st blob
  written st (PersistOp.append_event blob retention) = (append_event db st blob retention).0
  written st PersistOp.flush = st

  -- The argument is whether the transaction commits; one that fails is logged and leaves no trace.
  unfoldable pub apply_persist_op : Store db → PersistOp → Bool → Store db
  apply_persist_op st op commits = if commits then written st op else st

  -- The queue is drained in its order.
  unfoldable pub run_worker : Store db → List (PersistOp × Bool) → Store db
  run_worker st [] = st
  run_worker st ((op, commits) ∷ ops) = run_worker (apply_persist_op st op commits) ops
