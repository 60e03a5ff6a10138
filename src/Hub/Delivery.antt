-- ===== src/Hub/Delivery.antt =====
-- `Hub::publish`, `Hub::dead_letter`, `Hub::deliver_retained` and `Hub::replay` of
-- crates/relay-server/src/hub.rs.
use ch_relay.Prelude.{
  ℕ, suc, Bool, true, false, not, ◌&&◌, ◌||◌, List, [], ◌∷◌, ◌++◌, Option, none, some, ltb,
  if◌then◌else◌, nat_eq,
}
use ch_relay.Prelude.Map.{Map, get, insert}
use ch_relay.Bytes.{Bytes, codes, starts_with}
use ch_relay.Topic.{TopicFilter, matches}
use ch_relay.Message.{QoS, Message, at_most_once, as_u8, min}
use ch_relay.Router.{ClientId, route}
use ch_relay.Retained.{apply, matching}
use ch_relay.Retry.{RetryConfig}
use ch_relay.Packet.{publish}
use ch_relay.Session.{Session, DeadMsg, deliver, send, is_dlq_topic}
use ch_relay.Codec.{encode_event, encode_dead_letter, decode_event}
use ch_relay.Storage.{PersistOp, put_retained, append_event, append_dead_letter}
use ch_relay.Hub.{
  Hub, set_session, enqueue, enqueue_all, snapshot_inflight, write_inflights, extend,
}

abbrev pub is_tracked : QoS → Bool
is_tracked at_most_once = false
is_tracked _ = true

-- The message that a PUBLISH delivers.
pub record Outgoing : Type 0 where
  pub topic : Bytes
  pub payload : Bytes
  pub qos : QoS

-- The loop over the targets: the sessions, the snapshots to write and the number of recipients. A
-- target without a session is passed over.
unfoldable pub deliver_targets :
    Bool
    → RetryConfig
    → ℕ
    → Outgoing
    → List (ClientId × QoS)
    → Map ClientId Session
    → Map ClientId Session × List (Bytes × Bytes) × ℕ
deliver_targets durable cfg now m [] table = (table, [], 0)
deliver_targets durable cfg now m ((id, granted) ∷ targets) table = elim (get id table) [
  | none ↦ deliver_targets durable cfg now m targets table
  | some s ↦
      let effective = min m.qos granted in
      let s' = deliver s m.topic m.payload effective false now cfg in
      let (table', snapshots, delivered) =
        deliver_targets durable cfg now m targets (insert id s' table) in
      (
        table',
        extend (if is_tracked effective then snapshot_inflight durable s' else none) snapshots,
        suc delivered,
      )
]

-- What `publish` queues before it routes.
abbrev pub publish_ops : ℕ → ℕ → Outgoing → Bool → List PersistOp
publish_ops event_log_max ts m retain =
    (if retain then put_retained m.topic m.payload m.qos ∷ [] else [])
    ++ (if ltb 0 event_log_max && not (starts_with (codes "$") m.topic)
        then append_event (encode_event ts m.topic (as_u8 m.qos) m.payload) event_log_max ∷ []
        else [])

abbrev pub retained_message : Outgoing → Message
retained_message m = record { topic = m.topic; payload = m.payload; qos = m.qos; retain = true }

-- The result is the number of recipients; without targets the sessions stay as they are.
unfoldable pub publish_to_all : Hub → ℕ → ℕ → Outgoing → Bool → Hub × ℕ
publish_to_all h now ts m retain =
    let (router, targets) = route h.router m.topic in
    let (by_id, snapshots, delivered) =
      deliver_targets h.is_durable h.retry now m targets h.sessions.by_id in
    let h' = enqueue_all h (publish_ops h.event_log_max ts m retain) in
    (
      write_inflights
          (record h' {
            router = router;
            retained = if retain then apply h.retained (retained_message m) else h.retained;
            sessions = record h.sessions { by_id = by_id };
          })
          snapshots,
      delivered,
    )

abbrev pub dlq_topic : Bytes → Bytes → Bytes
dlq_topic client_id topic = codes "$dlq/" ++ (client_id ++ (codes "/" ++ topic))

-- The `publish` in it is not retained, and its topic is in the `$dlq/` namespace.
unfoldable pub dead_letter : Hub → ℕ → ℕ → Bytes → DeadMsg → Bytes → Hub
dead_letter h now ts client_id msg reason =
    let p = msg.message in
    if is_dlq_topic p.topic
    then h
    else (publish_to_all
        (enqueue h (
          append_dead_letter
            (encode_dead_letter ts client_id p.topic reason msg.attempts (as_u8 p.qos) p.payload)))
        now ts (record { topic = dlq_topic client_id p.topic; payload = p.payload; qos = p.qos })
        false).0

-- The loops over the dead letters in `run_retries` and `purge_if_idle`.
unfoldable pub dead_letters : Hub → ℕ → ℕ → Bytes → List (Bytes × DeadMsg) → Hub
dead_letters h now ts reason [] = h
dead_letters h now ts reason ((client_id, msg) ∷ dead) =
    dead_letters (dead_letter h now ts client_id msg reason) now ts reason dead

-- The loop of `deliver_retained`: the session, and whether a message went out above QoS 0.
unfoldable pub deliver_each : RetryConfig → ℕ → QoS → List Message → Session → Session × Bool
deliver_each cfg now granted [] s = (s, false)
deliver_each cfg now granted (m ∷ ms) s =
    let effective = min m.qos granted in
    let (s', any_tracked) =
      deliver_each cfg now granted ms (deliver s m.topic m.payload effective true now cfg) in
    (s', is_tracked effective || any_tracked)

unfoldable pub deliver_retained : Hub → ℕ → ClientId → TopicFilter → QoS → Hub
deliver_retained h now id filter granted = elim (get id h.sessions.by_id) [
  | none ↦ h
  | some s ↦
      let (s', any_tracked) = deliver_each h.retry now granted (matching h.retained filter) s in
      write_inflights (set_session h id s')
        (extend (if any_tracked then snapshot_inflight h.is_durable s' else none) [])
]

-- One event of the log on its way to the session; what does not decode or match is passed over. The
-- decimal notation of an offset is the standard library's.
abbrev pub replay_event :
    (ℕ → Bytes) → TopicFilter → ℕ → Option (Bytes × Bytes × QoS) → Session × ℕ → Session × ℕ
replay_event to_string filter offset none (s, n) = (s, n)
replay_event to_string filter offset (some (topic, payload, _)) (s, n) =
    if matches filter topic
    then (
      send s (
          publish (record {
            dup = false;
            retain = false;
            qos = at_most_once;
            topic = topic;
            packet_id = none;
            payload = payload;
            user_properties = (codes "x-replay-offset", to_string offset) ∷ [];
          })),
      suc n,
    )
    else (s, n)

unfoldable pub replay_events :
    (ℕ → Bytes) → TopicFilter → List (ℕ × Bytes) → Session × ℕ → Session × ℕ
replay_events to_string filter [] sn = sn
replay_events to_string filter ((offset, blob) ∷ events) sn =
    replay_events to_string filter events
      (replay_event to_string filter offset (decode_event blob) sn)

-- The argument `load_events` reads the log from an offset on, or fails.
unfoldable pub replay :
    (ℕ → Option (List (ℕ × Bytes))) → (ℕ → Bytes) → Hub → ClientId → ℕ → TopicFilter → Hub × ℕ
replay load_events to_string h id from filter =
    elim (if h.is_durable then load_events from else none) [
      | none ↦ (h, 0)
      | some events ↦ elim (get id h.sessions.by_id) [
        | none ↦ (h, 0)
        | some s ↦
            let (s', n) = replay_events to_string filter events (s, 0) in (set_session h id s', n)
      ]
    ]
