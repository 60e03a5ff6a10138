-- ===== src/Hub/Validity.antt =====
-- The deliveries of the hub of crates/relay-server/src/hub.rs keep its sessions valid: no counter is
-- 0, on which the `expect` of `allocate_id` would panic.
use ch_relay.Prelude.{
  ℕ, ◌≡◌, Bool, true, false, List, [], ◌∷◌, Option, none, some, if◌then◌else◌, Bool-cases,
  Option-cases, inl, inr, nat_eq,
}
use ch_relay.Prelude.Map.{Map, get, insert, AllValues, insert-AllValues, get-AllValues}
use ch_relay.Bytes.{Bytes, bytes_eq}
use ch_relay.Topic.{TopicFilter}
use ch_relay.Message.{QoS, Message, min}
use ch_relay.Retry.{RetryConfig}
use ch_relay.Retained.{matching}
use ch_relay.Router.{ClientId, route}
use ch_relay.Session.{Session, DeadMsg, deliver, send, is_dlq_topic}
use ch_relay.Session.PacketIds.{IsValid, deliver-IsValid}
use ch_relay.Codec.{decode_event}
use ch_relay.Hub.{Hub}
use ch_relay.Hub.Delivery.{
  Outgoing, deliver_targets, publish_to_all, dead_letter, dead_letters, deliver_each,
  deliver_retained, replay, replay_events, replay_event,
}

abbrev pub AreValid : Map ClientId Session → Type 0
AreValid = AllValues IsValid

abbrev pub HasValidSessions : Hub → Type 0
HasValidSessions h = AreValid h.sessions.by_id

pub put-AreValid :
    (id : ClientId) (s : Session) (table : Map ClientId Session)
    → IsValid s
    → AreValid table
    → AreValid (insert id s table)
put-AreValid id s table k v = insert-AllValues IsValid id s table k v

pub got-IsValid :
    (id : ClientId) (s : Session) (table : Map ClientId Session)
    → AreValid table
    → get id table ≡ some s
    → IsValid s
got-IsValid id s table v e = get-AllValues IsValid id s table v e

deliver_targets-AreValid :
    (durable : Bool) (cfg : RetryConfig) (now : ℕ) (m : Outgoing) (targets : List (ClientId × QoS))
    (table : Map ClientId Session)
    → AreValid table
    → AreValid (deliver_targets durable cfg now m targets table).0
unfolding deliver_targets
deliver_targets-AreValid durable cfg now m [] table v = v
deliver_targets-AreValid durable cfg now m ((id, granted) ∷ targets) table v =
    elim (Option-cases (get id table)) [
      | inl e ↦ rw (e, deliver_targets) (deliver_targets-AreValid durable cfg now m targets table v)
      | inr (s, e) ↦
          let q = min m.qos granted in
          let s' = deliver s m.topic m.payload q false now cfg in
          rw (e, deliver_targets)
            (deliver_targets-AreValid durable cfg now m targets (insert id s' table) (
              put-AreValid id s' table
                (deliver-IsValid s (got-IsValid id s table v e) m.topic m.payload q false now cfg)
                v))
    ]

pub publish_to_all-HasValidSessions :
    (h : Hub) (now ts : ℕ) (m : Outgoing) (retain : Bool)
    → HasValidSessions h
    → HasValidSessions (publish_to_all h now ts m retain).0
unfolding publish_to_all
publish_to_all-HasValidSessions h now ts m retain v =
    deliver_targets-AreValid h.is_durable h.retry now m (route h.router m.topic).1 h.sessions.by_id
      v

dead_letter-HasValidSessions :
    (h : Hub) (now ts : ℕ) (client_id : Bytes) (msg : DeadMsg) (reason : Bytes)
    → HasValidSessions h
    → HasValidSessions (dead_letter h now ts client_id msg reason)
unfolding dead_letter
dead_letter-HasValidSessions h now ts client_id msg reason v =
    elim (Bool-cases (is_dlq_topic msg.message.topic)) [
      | inl e ↦ rw e v
      | inr e ↦ rw e (publish_to_all-HasValidSessions _ now ts _ false v)
    ]

pub dead_letters-HasValidSessions :
    (h : Hub) (now ts : ℕ) (reason : Bytes) (dead : List (Bytes × DeadMsg))
    → HasValidSessions h
    → HasValidSessions (dead_letters h now ts reason dead)
unfolding dead_letters
dead_letters-HasValidSessions h now ts reason [] v = v
dead_letters-HasValidSessions h now ts reason ((client_id, msg) ∷ dead) v =
    dead_letters-HasValidSessions (dead_letter h now ts client_id msg reason) now ts reason dead
      (dead_letter-HasValidSessions h now ts client_id msg reason v)

deliver_each-IsValid :
    (cfg : RetryConfig) (now : ℕ) (granted : QoS) (ms : List Message) (s : Session)
    → IsValid s
    → IsValid (deliver_each cfg now granted ms s).0
unfolding deliver_each
deliver_each-IsValid cfg now granted [] s v = v
deliver_each-IsValid cfg now granted (m ∷ ms) s v =
    let q = min m.qos granted in
    deliver_each-IsValid cfg now granted ms (deliver s m.topic m.payload q true now cfg)
      (deliver-IsValid s v m.topic m.payload q true now cfg)

pub deliver_retained-HasValidSessions :
    (h : Hub) (now : ℕ) (id : ClientId) (filter : TopicFilter) (granted : QoS)
    → HasValidSessions h
    → HasValidSessions (deliver_retained h now id filter granted)
unfolding deliver_retained
deliver_retained-HasValidSessions h now id filter granted v =
    elim (Option-cases (get id h.sessions.by_id)) [
      | inl e ↦ rw (e, deliver_retained) v
      | inr (s, e) ↦
          rw (e, deliver_retained)
            (put-AreValid id _ h.sessions.by_id
              (deliver_each-IsValid h.retry now granted (matching h.retained filter) s
                (got-IsValid id s h.sessions.by_id v e))
              v)
    ]

replay_event-IsValid :
    (to_string : ℕ → Bytes) (filter : TopicFilter) (offset : ℕ)
    (event : Option (Bytes × Bytes × QoS)) (sn : Session × ℕ)
    → IsValid sn.0
    → IsValid (replay_event to_string filter offset event sn).0
unfolding send
replay_event-IsValid to_string filter offset none sn v = v
replay_event-IsValid to_string filter offset (some (topic, payload, q)) (s, n) v =
    elim (Bool-cases (ch_relay.Topic.matches filter topic)) [
      | inl e ↦ rw e (record { counter = v.counter; entries = v.entries })
      | inr e ↦ rw e v
    ]

replay_events-IsValid :
    (to_string : ℕ → Bytes) (filter : TopicFilter) (events : List (ℕ × Bytes)) (sn : Session × ℕ)
    → IsValid sn.0
    → IsValid (replay_events to_string filter events sn).0
unfolding replay_events
replay_events-IsValid to_string filter [] sn v = v
replay_events-IsValid to_string filter ((offset, blob) ∷ events) sn v =
    replay_events-IsValid to_string filter events
      (replay_event to_string filter offset (decode_event blob) sn)
      (replay_event-IsValid to_string filter offset (decode_event blob) sn v)

pub replay-HasValidSessions :
    (load_events : ℕ → Option (List (ℕ × Bytes))) (to_string : ℕ → Bytes) (h : Hub) (id : ClientId)
    (from : ℕ) (filter : TopicFilter)
    → HasValidSessions h
    → HasValidSessions (replay load_events to_string h id from filter).0
unfolding replay
replay-HasValidSessions load_events to_string h id from filter v =
    elim (Option-cases (if h.is_durable then load_events from else none)) [
      | inl e ↦ rw (e, replay) v
      | inr (events, e) ↦ elim (Option-cases (get id h.sessions.by_id)) [
        | inl g ↦ rw (e, g, replay) v
        | inr (s, g) ↦
            rw (e, g, replay)
              (put-AreValid id _ h.sessions.by_id
                (replay_events-IsValid to_string filter events (s, 0)
                  (got-IsValid id s h.sessions.by_id v g))
                v)
      ]
    ]
