-- ===== src/Hub/Keeps.antt =====
-- Every operation of the hub of crates/relay-server/src/hub.rs keeps its indices consistent.
use ch_relay.Prelude.{
  ℕ, ◌≡◌, refl, ◌∙◌, Bool, true, false, List, [], ◌∷◌, Option, none, some, arith, if◌then◌else◌,
  Bool-cases, Option-cases, inl, inr, nat_eq,
}
use ch_relay.Prelude.Map.{Map, get}
use ch_relay.Bytes.{Bytes, bytes_eq}
use ch_relay.Topic.{TopicFilter}
use ch_relay.Message.{QoS, Message, min}
use ch_relay.Retry.{RetryConfig}
use ch_relay.Retained.{matching}
use ch_relay.Router.{ClientId, route}
use ch_relay.Session.{Session, DeadMsg, deliver, send, is_dlq_topic}
use ch_relay.Session.PacketIds.{deliver-client_id}
use ch_relay.Codec.{decode_event}
use ch_relay.Hub.{Hub}
use ch_relay.Hub.Delivery.{
  Outgoing, deliver_targets, publish_to_all, dead_letter, dead_letters, deliver_each,
  deliver_retained, replay, replay_events, replay_event,
}
use ch_relay.Hub.Consistency.{IsConsistent, update-IsConsistent}

abbrev pub HasConsistentTable : Hub → Type 0
HasConsistentTable h = IsConsistent h.next_raw h.sessions.by_id h.sessions.id_of

deliver_targets-IsConsistent :
    (durable : Bool) (cfg : RetryConfig) (now : ℕ) (m : Outgoing) (n : ℕ)
    (id_of : Map Bytes ClientId) (targets : List (ClientId × QoS)) (table : Map ClientId Session)
    → IsConsistent n table id_of
    → IsConsistent n (deliver_targets durable cfg now m targets table).0 id_of
unfolding deliver_targets
deliver_targets-IsConsistent durable cfg now m n id_of [] table v = v
deliver_targets-IsConsistent durable cfg now m n id_of ((id, granted) ∷ targets) table v =
    elim (Option-cases (get id table)) [
      | inl e ↦
          rw (e, deliver_targets)
            (deliver_targets-IsConsistent durable cfg now m n id_of targets table v)
      | inr (s, e) ↦
          let q = min m.qos granted in
          rw (e, deliver_targets)
            (deliver_targets-IsConsistent durable cfg now m n id_of targets _ (
              update-IsConsistent v id s (deliver s m.topic m.payload q false now cfg) e
                (deliver-client_id s m.topic m.payload q false now cfg)))
    ]

pub publish_to_all-HasConsistentTable :
    (h : Hub) (now ts : ℕ) (m : Outgoing) (retain : Bool)
    → HasConsistentTable h
    → HasConsistentTable (publish_to_all h now ts m retain).0
unfolding publish_to_all
publish_to_all-HasConsistentTable h now ts m retain v =
    deliver_targets-IsConsistent h.is_durable h.retry now m h.next_raw h.sessions.id_of
      (route h.router m.topic).1 h.sessions.by_id v

pub dead_letter-HasConsistentTable :
    (h : Hub) (now ts : ℕ) (client_id : Bytes) (msg : DeadMsg) (reason : Bytes)
    → HasConsistentTable h
    → HasConsistentTable (dead_letter h now ts client_id msg reason)
unfolding dead_letter
dead_letter-HasConsistentTable h now ts client_id msg reason v =
    elim (Bool-cases (is_dlq_topic msg.message.topic)) [
      | inl e ↦ rw e v
      | inr e ↦ rw e (publish_to_all-HasConsistentTable _ now ts _ false v)
    ]

pub dead_letters-HasConsistentTable :
    (h : Hub) (now ts : ℕ) (reason : Bytes) (dead : List (Bytes × DeadMsg))
    → HasConsistentTable h
    → HasConsistentTable (dead_letters h now ts reason dead)
unfolding dead_letters
dead_letters-HasConsistentTable h now ts reason [] v = v
dead_letters-HasConsistentTable h now ts reason ((client_id, msg) ∷ dead) v =
    dead_letters-HasConsistentTable (dead_letter h now ts client_id msg reason) now ts reason dead
      (dead_letter-HasConsistentTable h now ts client_id msg reason v)

deliver_each-client_id :
    (cfg : RetryConfig) (now : ℕ) (granted : QoS) (ms : List Message) (s : Session)
    → (deliver_each cfg now granted ms s).0.client_id ≡ s.client_id
unfolding deliver_each
deliver_each-client_id cfg now granted [] s = refl
deliver_each-client_id cfg now granted (m ∷ ms) s =
    deliver_each-client_id cfg now granted ms _
    ∙ deliver-client_id s m.topic m.payload (min m.qos granted) true now cfg

pub deliver_retained-HasConsistentTable :
    (h : Hub) (now : ℕ) (id : ClientId) (filter : TopicFilter) (granted : QoS)
    → HasConsistentTable h
    → HasConsistentTable (deliver_retained h now id filter granted)
unfolding deliver_retained
deliver_retained-HasConsistentTable h now id filter granted v =
    elim (Option-cases (get id h.sessions.by_id)) [
      | inl e ↦ rw (e, deliver_retained) v
      | inr (s, e) ↦
          rw (e, deliver_retained)
            (update-IsConsistent v id s _ e
              (deliver_each-client_id h.retry now granted (matching h.retained filter) s))
    ]

replay_event-client_id :
    (to_string : ℕ → Bytes) (filter : TopicFilter) (offset : ℕ)
    (event : Option (Bytes × Bytes × QoS)) (sn : Session × ℕ)
    → (replay_event to_string filter offset event sn).0.client_id ≡ sn.0.client_id
replay_event-client_id to_string filter offset none sn = refl
replay_event-client_id to_string filter offset (some (topic, payload, q)) sn =
    unfold send in ground arith

replay_events-client_id :
    (to_string : ℕ → Bytes) (filter : TopicFilter) (events : List (ℕ × Bytes)) (sn : Session × ℕ)
    → (replay_events to_string filter events sn).0.client_id ≡ sn.0.client_id
unfolding replay_events
replay_events-client_id to_string filter [] sn = refl
replay_events-client_id to_string filter ((offset, blob) ∷ events) sn =
    replay_events-client_id to_string filter events _
    ∙ replay_event-client_id to_string filter offset (decode_event blob) sn

pub replay-HasConsistentTable :
    (load_events : ℕ → Option (List (ℕ × Bytes))) (to_string : ℕ → Bytes) (h : Hub) (id : ClientId)
    (from : ℕ) (filter : TopicFilter)
    → HasConsistentTable h
    → HasConsistentTable (replay load_events to_string h id from filter).0
unfolding replay
replay-HasConsistentTable load_events to_string h id from filter v =
    elim (Option-cases (if h.is_durable then load_events from else none)) [
      | inl e ↦ rw (e, replay) v
      | inr (events, e) ↦ elim (Option-cases (get id h.sessions.by_id)) [
        | inl g ↦ rw (e, g, replay) v
        | inr (s, g) ↦
            rw (e, g, replay)
              (update-IsConsistent v id s _ g
                (replay_events-client_id to_string filter events (s, 0)))
      ]
    ]
