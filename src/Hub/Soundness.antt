-- ===== src/Hub/Soundness.antt =====
-- The hub of crates/relay-server/src/hub.rs as every operation leaves it: its indices are consistent,
-- on which the `expect` of `connect` relies, and its sessions are valid, on which that of
-- `allocate_id` relies.
use ch_relay.Prelude.{ℕ, ◌+◌, ◌<◌, ◌≡◌, Bool, List, Option, some}
use ch_relay.Bytes.{Bytes}
use ch_relay.Topic.{TopicFilter}
use ch_relay.Message.{QoS}
use ch_relay.Router.{ClientId}
use ch_relay.Session.{Session}
use ch_relay.Session.PacketIds.{IsValid}
use ch_relay.Hub.{Hub, u64_mod}
use ch_relay.Hub.Delivery.{Outgoing, publish_to_all, deliver_retained, replay}
use ch_relay.Hub.Attach.{Connected, connect, detach, purge_if_idle}
use ch_relay.Hub.Timers.{run_retries}
use ch_relay.Hub.Requests.{acknowledge, inbound_qos2_seen, inbound_qos2_release}
use ch_relay.Hub.Keeps.{
  HasConsistentTable, publish_to_all-HasConsistentTable, deliver_retained-HasConsistentTable,
  replay-HasConsistentTable,
}
use ch_relay.Hub.Sessions.{
  acknowledge-HasConsistentTable, inbound_qos2_seen-HasConsistentTable,
  inbound_qos2_release-HasConsistentTable, detach-HasConsistentTable,
  purge_if_idle-HasConsistentTable, run_retries-HasConsistentTable, connect-HasConsistentTable,
}
use ch_relay.Hub.Validity.{
  HasValidSessions, publish_to_all-HasValidSessions, deliver_retained-HasValidSessions,
  replay-HasValidSessions,
}
use ch_relay.Hub.Counters.{
  acknowledge-HasValidSessions, inbound_qos2_seen-HasValidSessions,
  inbound_qos2_release-HasValidSessions, detach-HasValidSessions, purge_if_idle-HasValidSessions,
  run_retries-HasValidSessions, connect-HasValidSessions,
}

abbrev pub IsSound : Hub → Type 0
IsSound h = HasConsistentTable h × HasValidSessions h

pub publish_to_all-IsSound :
    (h : Hub) (now ts : ℕ) (m : Outgoing) (retain : Bool)
    → IsSound h
    → IsSound (publish_to_all h now ts m retain).0
publish_to_all-IsSound h now ts m retain (v, w) = (
  publish_to_all-HasConsistentTable h now ts m retain v,
  publish_to_all-HasValidSessions h now ts m retain w,
)

pub deliver_retained-IsSound :
    (h : Hub) (now : ℕ) (id : ClientId) (filter : TopicFilter) (granted : QoS)
    → IsSound h
    → IsSound (deliver_retained h now id filter granted)
deliver_retained-IsSound h now id filter granted (v, w) = (
  deliver_retained-HasConsistentTable h now id filter granted v,
  deliver_retained-HasValidSessions h now id filter granted w,
)

pub replay-IsSound :
    (load_events : ℕ → Option (List (ℕ × Bytes))) (to_string : ℕ → Bytes) (h : Hub) (id : ClientId)
    (from : ℕ) (filter : TopicFilter)
    → IsSound h
    → IsSound (replay load_events to_string h id from filter).0
replay-IsSound load_events to_string h id from filter (v, w) = (
  replay-HasConsistentTable load_events to_string h id from filter v,
  replay-HasValidSessions load_events to_string h id from filter w,
)

pub inbound_qos2_seen-IsSound :
    (h : Hub) (id : ClientId) (pid : ℕ) → IsSound h → IsSound (inbound_qos2_seen h id pid).0
inbound_qos2_seen-IsSound h id pid (v, w) =
    (inbound_qos2_seen-HasConsistentTable h id pid v, inbound_qos2_seen-HasValidSessions h id pid w)

pub inbound_qos2_release-IsSound :
    (h : Hub) (id : ClientId) (pid : ℕ) → IsSound h → IsSound (inbound_qos2_release h id pid)
inbound_qos2_release-IsSound h id pid (v, w) = (
  inbound_qos2_release-HasConsistentTable h id pid v,
  inbound_qos2_release-HasValidSessions h id pid w,
)

pub detach-IsSound :
    (h : Hub) (id : ClientId) (generation : ℕ) → IsSound h → IsSound (detach h id generation)
detach-IsSound h id generation (v, w) =
    (detach-HasConsistentTable h id generation v, detach-HasValidSessions h id generation w)

pub purge_if_idle-IsSound :
    (h : Hub) (now ts : ℕ) (id : ClientId) (generation : ℕ)
    → IsSound h
    → IsSound (purge_if_idle h now ts id generation)
purge_if_idle-IsSound h now ts id generation (v, w) = (
  purge_if_idle-HasConsistentTable h now ts id generation v,
  purge_if_idle-HasValidSessions h now ts id generation w,
)

pub run_retries-IsSound : (h : Hub) (now ts : ℕ) → IsSound h → IsSound (run_retries h now ts)
run_retries-IsSound h now ts (v, w) =
    (run_retries-HasConsistentTable h now ts v, run_retries-HasValidSessions h now ts w)

pub acknowledge-IsSound :
    (f : Session → Session) (h : Hub) (id : ClientId)
    → ((s : Session) → (f s).client_id ≡ s.client_id)
    → ((s : Session) → IsValid s → IsValid (f s))
    → IsSound h
    → IsSound (acknowledge f h id)
acknowledge-IsSound f h id same kept (v, w) =
    (acknowledge-HasConsistentTable f h id same v, acknowledge-HasValidSessions f h id kept w)

pub connect-IsSound :
    (h : Hub) (now : ℕ) (client_id : Bytes) (clean_start : Bool) (expiry_secs : ℕ)
    → IsSound h
    → h.next_raw + 1 < u64_mod
    → (r : Hub × Connected) × (connect h now client_id clean_start expiry_secs ≡ some r)
      × IsSound r.0
connect-IsSound h now client_id clean_start expiry_secs (v, w) b =
    let (r, e, k, _) = connect-HasConsistentTable h now client_id clean_start expiry_secs v b in
    (r, e, (k, connect-HasValidSessions h now client_id clean_start expiry_secs r e w))
