-- ===== src/Hub/Steps.antt =====
-- Any call of a connection to the hub of crates/relay-server/src/hub.rs, and any of its timers.
use ch_relay.Prelude.{ℕ, ◌+◌, ◌<◌, ◌≡◌, refl, Bool, List, Option, none, some, ap}
use ch_relay.Bytes.{Bytes}
use ch_relay.Topic.{TopicFilter}
use ch_relay.Message.{QoS}
use ch_relay.Router.{ClientId}
use ch_relay.Session.{on_puback, on_pubrec, on_pubcomp}
use ch_relay.Session.PacketIds.{on_pubrec-client_id}
use ch_relay.Hub.{Hub, u64_mod}
use ch_relay.Hub.Delivery.{Outgoing, publish_to_all, deliver_retained, replay}
use ch_relay.Hub.Attach.{Connected, connect, detach, purge_if_idle}
use ch_relay.Hub.Timers.{run_retries}
use ch_relay.Hub.Requests.{
  hub_subscribe, hub_subscribe_shared, hub_unsubscribe, hub_on_puback, hub_on_pubrec,
  hub_on_pubcomp, inbound_qos2_seen, inbound_qos2_release,
}
use ch_relay.Hub.Keeps.{
  HasConsistentTable, publish_to_all-HasConsistentTable, deliver_retained-HasConsistentTable,
  replay-HasConsistentTable,
}
use ch_relay.Hub.Sessions.{
  acknowledge-HasConsistentTable, inbound_qos2_seen-HasConsistentTable,
  inbound_qos2_release-HasConsistentTable, detach-HasConsistentTable,
  purge_if_idle-HasConsistentTable, run_retries-HasConsistentTable, connect-HasConsistentTable,
}

pub data Call : Type 0 where
  connects : ℕ → Bytes → Bool → ℕ → Call
  detaches : ClientId → ℕ → Call
  expires : ℕ → ℕ → ClientId → ℕ → Call
  retries : ℕ → ℕ → Call
  publishes : ℕ → ℕ → Outgoing → Bool → Call
  subscribes : ClientId → TopicFilter → QoS → Bytes → Call
  joins : Bytes → ClientId → TopicFilter → QoS → Bytes → Call
  unsubscribes : ClientId → Bytes → Call
  sends_retained : ℕ → ClientId → TopicFilter → QoS → Call
  pubacks : ClientId → ℕ → Call
  pubrecs : ClientId → ℕ → Call
  pubcomps : ClientId → ℕ → Call
  receives : ClientId → ℕ → Call
  releases : ClientId → ℕ → Call
  replays : (ℕ → Option (List (ℕ × Bytes))) → (ℕ → Bytes) → ClientId → ℕ → TopicFilter → Call

abbrev pub connected : Option (Hub × Connected) → Option Hub
connected none = none
connected (some (h, c)) = some h

-- `none` is the panic of `connect`.
unfoldable pub step : Hub → Call → Option Hub
step h (connects now c clean expiry) = connected (connect h now c clean expiry)
step h (detaches id generation) = some (detach h id generation)
step h (expires now ts id generation) = some (purge_if_idle h now ts id generation)
step h (retries now ts) = some (run_retries h now ts)
step h (publishes now ts m retain) = some (publish_to_all h now ts m retain).0
step h (subscribes id filter q raw) = some (hub_subscribe h id filter q raw)
step h (joins group id filter q raw) = some (hub_subscribe_shared h group id filter q raw)
step h (unsubscribes id raw) = some (hub_unsubscribe h id raw).0
step h (sends_retained now id filter q) = some (deliver_retained h now id filter q)
step h (pubacks id pid) = some (hub_on_puback h id pid)
step h (pubrecs id pid) = some (hub_on_pubrec h id pid)
step h (pubcomps id pid) = some (hub_on_pubcomp h id pid)
step h (receives id pid) = some (inbound_qos2_seen h id pid).0
step h (releases id pid) = some (inbound_qos2_release h id pid)
step h (replays load_events to_string id from filter) =
    some (replay load_events to_string h id from filter).0

-- On a hub whose indices are consistent, and whose next client id has a successor in `u64`, every
-- call and every timer leaves the indices consistent, and none meets the `expect` of `connect` on an
-- id in the index without a session.
pub step-HasConsistentTable :
    (h : Hub) (c : Call)
    → HasConsistentTable h
    → h.next_raw + 1 < u64_mod
    → (h' : Hub) × (step h c ≡ some h') × HasConsistentTable h'
unfolding step hub_subscribe hub_subscribe_shared hub_unsubscribe hub_on_puback hub_on_pubrec
    hub_on_pubcomp on_puback on_pubcomp
step-HasConsistentTable h (connects now c clean expiry) v b =
    let (r, e, w, _) = connect-HasConsistentTable h now c clean expiry v b in
    (r.0, ap connected e, w)
step-HasConsistentTable h (detaches id generation) v b =
    (_, refl, detach-HasConsistentTable h id generation v)
step-HasConsistentTable h (expires now ts id generation) v b =
    (_, refl, purge_if_idle-HasConsistentTable h now ts id generation v)
step-HasConsistentTable h (retries now ts) v b =
    (_, refl, run_retries-HasConsistentTable h now ts v)
step-HasConsistentTable h (publishes now ts m retain) v b =
    (_, refl, publish_to_all-HasConsistentTable h now ts m retain v)
step-HasConsistentTable h (subscribes id filter q raw) v b = (_, refl, v)
step-HasConsistentTable h (joins group id filter q raw) v b = (_, refl, v)
step-HasConsistentTable h (unsubscribes id raw) v b = (_, refl, v)
step-HasConsistentTable h (sends_retained now id filter q) v b =
    (_, refl, deliver_retained-HasConsistentTable h now id filter q v)
step-HasConsistentTable h (pubacks id pid) v b =
    (_, refl, acknowledge-HasConsistentTable (λ s. on_puback s pid) h id (λ s. refl) v)
step-HasConsistentTable h (pubrecs id pid) v b = (
  _,
  refl,
  acknowledge-HasConsistentTable (λ s. on_pubrec s pid) h id (λ s. on_pubrec-client_id s pid) v,
)
step-HasConsistentTable h (pubcomps id pid) v b =
    (_, refl, acknowledge-HasConsistentTable (λ s. on_pubcomp s pid) h id (λ s. refl) v)
step-HasConsistentTable h (receives id pid) v b =
    (_, refl, inbound_qos2_seen-HasConsistentTable h id pid v)
step-HasConsistentTable h (releases id pid) v b =
    (_, refl, inbound_qos2_release-HasConsistentTable h id pid v)
step-HasConsistentTable h (replays load_events to_string id from filter) v b =
    (_, refl, replay-HasConsistentTable load_events to_string h id from filter v)
