-- ===== src/Recovery.antt =====
-- The retained messages and the sessions on disk against those in memory:
-- crates/relay-server/src/hub.rs queues each change for the worker of
-- crates/relay-server/src/storage.rs, and reads the tables at startup.
pub mod Keeps
pub mod Calls
pub mod Restart
pub mod Loading
pub mod Sessions
pub mod Expiries
pub mod PublishFrames
pub mod Frames
pub mod Rewriting
pub mod Lasting
pub mod Returns
mod Examples
use ch_relay.Prelude.{
  ℕ, ◌≡◌, refl, ◌∙◌, ap, Bool, true, false, List, [], ◌∷◌, ◌++◌, Option, none, some, map, All,
  arith, Bool-cases, inl, inr, if◌then◌else◌,
}
use ch_relay.Prelude.Map.{Map, get, get-remove}
use ch_relay.Bytes.{Bytes, bytes_eq, bytes_beq, bytes_beq_iff, is_empty, bytes_le}
use ch_relay.Message.{QoS, Message, as_u8, from_u8}
use ch_relay.Message.Orders.{from_u8_iff}
use ch_relay.Retained.Contents.{retained_for}
use ch_relay.Hub.{Hub, enqueue_all}
use ch_relay.Storage.{PersistOp}
use ch_relay.Storage.Tables.{Database}
use ch_relay.Storage.Rows.{get-with_row}
use ch_relay.Storage.Store.{
  Store, message_of, put_retained, put_session, remove_session, put_subscription,
  remove_subscription, put_inflight, append_dead_letter, append_event,
}
use ch_relay.Storage.Worker.{written, apply_persist_op, run_worker}

-- The retained message of a topic, as its row says; one without payload would be cleared.
abbrev pub unless_empty : Option Message → Option Message
unless_empty none = none
unless_empty (some m) = if is_empty m.payload then none else some m

abbrev pub row_message : Bytes → Option Bytes → Option Message
row_message topic none = none
row_message topic (some value) = unless_empty (message_of topic value)

abbrev pub on_disk : (db : Database) → Store db → Bytes → Option Message
on_disk db st topic = row_message topic (get topic (db.texts.rows st.retained))

-- The worker writes the queue, and every transaction commits.
abbrev pub all_commit : List PersistOp → List (PersistOp × Bool)
all_commit ops = map (λ op. (op, true)) ops

abbrev pub drained : (db : Database) → Store db → List PersistOp → Store db
drained db st ops = run_worker db st (all_commit ops)

-- A write that is not of a retained message.
abbrev pub IsOther : PersistOp → Type 0
IsOther (PersistOp.put_session client_id expiry_secs) = Unit
IsOther (PersistOp.remove_session client_id) = Unit
IsOther (PersistOp.put_subscription client_id raw q) = Unit
IsOther (PersistOp.remove_subscription client_id raw) = Unit
IsOther (PersistOp.put_inflight client_id blob) = Unit
IsOther (PersistOp.put_retained topic payload q) = ⊥
IsOther (PersistOp.append_dead_letter blob) = Unit
IsOther (PersistOp.append_event blob retention) = Unit
IsOther PersistOp.flush = Unit

-- The hub has a storage, and once its queue is written the disk holds its retained messages.
abbrev pub Mirrors : (db : Database) → Store db → Hub → Type 0
Mirrors db st h =
    (h.is_durable ≡ true)
    × ((topic : Bytes) → on_disk db (drained db st h.queue) topic ≡ retained_for h.retained topic)

module _ (db : Database) where
  pub drained-append :
      (st : Store db) (xs ys : List PersistOp)
      → drained db st (xs ++ ys) ≡ drained db (drained db st xs) ys
  unfolding run_worker
  drained-append st [] ys = refl
  drained-append st (x ∷ xs) ys = drained-append (apply_persist_op db st x true) xs ys

  written-retained :
      (st : Store db) (op : PersistOp) → IsOther op → (written db st op).retained ≡ st.retained
  unfolding written put_session remove_session put_subscription remove_subscription put_inflight
      append_dead_letter append_event
  written-retained st (PersistOp.put_session client_id expiry_secs) o = refl
  written-retained st (PersistOp.remove_session client_id) o = refl
  written-retained st (PersistOp.put_subscription client_id raw q) o = refl
  written-retained st (PersistOp.remove_subscription client_id raw) o = refl
  written-retained st (PersistOp.put_inflight client_id blob) o = refl
  written-retained st (PersistOp.put_retained topic payload q) o = absurd o
  written-retained st (PersistOp.append_dead_letter blob) o = refl
  written-retained st (PersistOp.append_event blob retention) o = refl
  written-retained st PersistOp.flush o = refl

  drained-retained :
      (st : Store db) (ops : List PersistOp)
      → All IsOther ops
      → (drained db st ops).retained ≡ st.retained
  unfolding run_worker apply_persist_op
  drained-retained st [] a = refl
  drained-retained st (op ∷ ops) a =
      drained-retained (written db st op) ops a.1 ∙ written-retained st op a.0

  -- A retained message that is written, or cleared, and every other topic as it was.
  pub on_disk-put_retained :
      (st : Store db) (topic payload : Bytes) (q : QoS) (other : Bytes)
      → on_disk db (put_retained db st topic payload q) other ≡ (
          if bytes_beq topic other
          then (if is_empty payload
              then none
              else some (record { topic = topic; payload = payload; qos = q; retain = true }))
          else on_disk db st other)
  unfolding put_retained
  on_disk-put_retained st topic payload q other =
      let back : from_u8 (as_u8 q) ≡ some q = (from_u8_iff (as_u8 q) q).1 refl in
      elim (Bool-cases (is_empty payload)) [
        | inl e ↦ ground (
          arith,
          e,
          db.texts.rows-remove topic st.retained,
          get-remove topic other (db.texts.rows st.retained),
        )
        | inr e ↦ ground (
          arith,
          e,
          back,
          db.texts.rows-insert topic (as_u8 q ∷ payload) st.retained,
          get-with_row bytes_le topic other (as_u8 q ∷ payload) (db.texts.rows st.retained),
          bytes_beq_iff topic other,
        )
      ]

  -- Other writes leave the disk in step.
  pub enqueue_all-Mirrors :
      (st : Store db) (h : Hub) (ops : List PersistOp)
      → All IsOther ops
      → Mirrors db st h
      → Mirrors db st (enqueue_all h ops)
  enqueue_all-Mirrors st h ops a (durable, m) =
      let queue : (enqueue_all h ops).queue ≡ h.queue ++ ops = rw durable refl in
      let same : (drained db st (h.queue ++ ops)).retained ≡ (drained db st h.queue).retained =
        ap (λ (s : Store db). s.retained) (drained-append st h.queue ops)
        ∙ drained-retained (drained db st h.queue) ops a in
      (
        durable,
        λ topic.
            ap (λ q. on_disk db (drained db st q) topic) queue
            ∙ ap (λ t. row_message topic (get topic (db.texts.rows t))) same
            ∙ m topic,
      )
