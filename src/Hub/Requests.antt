-- ===== src/Hub/Requests.antt =====
-- What a connection asks of the hub of crates/relay-server/src/hub.rs: subscriptions,
-- acknowledgements, the record of inbound QoS 2 packets, and the statistics.
use ch_relay.Prelude.{
  ℕ, Bool, true, false, not, List, [], ◌∷◌, Option, none, some, ◌==◌, if◌then◌else◌, keep, any,
  length, nat_eq,
}
use ch_relay.Prelude.Map.{get}
use ch_relay.Bytes.{Bytes}
use ch_relay.Topic.{TopicFilter, SharedSubscription, parse_shared}
use ch_relay.Message.{QoS}
use ch_relay.Packet.{Packet}
use ch_relay.Router.{
  Router, ClientId, subscribe, subscribe_shared, unsubscribe, unsubscribe_shared,
  subscription_count,
}
use ch_relay.Retained.{len}
use ch_relay.Session.{Session, on_puback, on_pubrec, on_pubcomp}
use ch_relay.Storage.{PersistOp, remove_subscription}
use ch_relay.Hub.{
  Hub, set_session, enqueue_all, snapshot_inflight, write_inflights, extend, durable_client,
  persist_subscription,
}

unfoldable pub hub_subscribe : Hub → ClientId → TopicFilter → QoS → Bytes → Hub
hub_subscribe h id filter q raw =
    persist_subscription (record h { router = subscribe h.router id filter q }) id raw q

unfoldable pub hub_subscribe_shared : Hub → Bytes → ClientId → TopicFilter → QoS → Bytes → Hub
hub_subscribe_shared h group id filter q raw =
    persist_subscription (record h { router = subscribe_shared h.router group id filter q }) id raw
      q

abbrev pub unsubscribe_raw : Router → ClientId → Bytes → Option SharedSubscription → Router × Bool
unsubscribe_raw r id raw none = unsubscribe r id raw
unsubscribe_raw r id raw (some shared) = unsubscribe_shared r shared.group id shared.filter.as_str

abbrev pub unsubscription_ops : Bytes → Option Bytes → List PersistOp
unsubscription_ops raw none = []
unsubscription_ops raw (some client_id) = remove_subscription client_id raw ∷ []

unfoldable pub hub_unsubscribe : Hub → ClientId → Bytes → Hub × Bool
hub_unsubscribe h id raw =
    let (router, removed) = unsubscribe_raw h.router id raw (parse_shared raw) in
    (
      enqueue_all (record h { router = router })
          (unsubscription_ops raw (durable_client (get id h.sessions.by_id))),
      removed,
    )

-- The three handlers of an acknowledgement differ in what they do to the session.
abbrev pub acknowledge : (Session → Session) → Hub → ClientId → Hub
acknowledge f h id = elim (get id h.sessions.by_id) [
  | none ↦ h
  | some s ↦
      write_inflights (set_session h id (f s)) (extend (snapshot_inflight h.is_durable (f s)) [])
]

unfoldable pub hub_on_puback : Hub → ClientId → ℕ → Hub
hub_on_puback h id pid = acknowledge (λ s. on_puback s pid) h id

unfoldable pub hub_on_pubrec : Hub → ClientId → ℕ → Hub
hub_on_pubrec h id pid = acknowledge (λ s. on_pubrec s pid) h id

unfoldable pub hub_on_pubcomp : Hub → ClientId → ℕ → Hub
hub_on_pubcomp h id pid = acknowledge (λ s. on_pubcomp s pid) h id

-- `HashSet::insert` and `HashSet::remove`.
abbrev pub insert_pid : ℕ → List ℕ → List ℕ × Bool
insert_pid pid seen = if any (λ x. x == pid) seen then (seen, false) else (pid ∷ seen, true)

abbrev pub remove_pid : ℕ → List ℕ → List ℕ
remove_pid pid seen = keep (λ x. not (x == pid)) seen

unfoldable pub inbound_qos2_seen : Hub → ClientId → ℕ → Hub × Bool
inbound_qos2_seen h id pid = elim (get id h.sessions.by_id) [
  | none ↦ (h, true)
  | some s ↦
      let (seen, first) = insert_pid pid s.incoming_qos2 in
      (set_session h id (record s { incoming_qos2 = seen }), first)
]

unfoldable pub inbound_qos2_release : Hub → ClientId → ℕ → Hub
inbound_qos2_release h id pid = elim (get id h.sessions.by_id) [
  | none ↦ h
  | some s ↦ set_session h id (record s { incoming_qos2 = remove_pid pid s.incoming_qos2 })
]

pub record Stats : Type 0 where
  pub clients_online : ℕ
  pub clients_total : ℕ
  pub subscriptions : ℕ
  pub retained : ℕ
  pub dead_letters : ℕ
  pub events : ℕ
  pub next_offset : ℕ

abbrev pub is_online : Option (List Packet) → Bool
is_online none = false
is_online (some sent) = true

-- What the storage counts: its dead letters, its events and its next offset.
pub record Counts : Type 0 where
  pub dead_letters : ℕ
  pub events : ℕ
  pub next_offset : ℕ

unfoldable pub stats : Hub → Counts → Stats
stats h counts = record {
  clients_online =
      length (keep (λ (entry : ClientId × Session). is_online entry.1.tx) h.sessions.by_id);
  clients_total = length h.sessions.by_id;
  subscriptions = subscription_count h.router;
  retained = len h.retained;
  dead_letters = if h.is_durable then counts.dead_letters else 0;
  events = if h.is_durable then counts.events else 0;
  next_offset = if h.is_durable then counts.next_offset else 0;
}
