-- ===== src/Recovery/Frames.antt =====
-- The calls and timers of crates/relay-server/src/hub.rs that leave the expiry intervals alone.
use ch_relay.Prelude.{
  ℕ, ◌≡◌, refl, sym, ◌∙◌, ap, Bool, true, List, [], ◌∷◌, Option, none, some, map, Option-cases, inl,
  inr, if◌then◌else◌, nat_eq, arith,
}
use mathlib.Core.List.{append-nil}
use ch_relay.Prelude.Map.{Map, get}
use ch_relay.Bytes.{Bytes, codes}
use ch_relay.Topic.{TopicFilter}
use ch_relay.Message.{QoS, Message, min}
use ch_relay.Retry.{RetryConfig}
use ch_relay.Router.{ClientId}
use ch_relay.Retained.{matching}
use ch_relay.Session.{Session, send}
use ch_relay.Session.Tick.{tick_retries}
use ch_relay.Codec.{decode_event}
use ch_relay.Hub.{Hub, set_session, write_op, write_inflights, snapshot_inflight, extend}
use ch_relay.Hub.Delivery.{deliver_each, deliver_retained, replay, replay_events, replay_event}
use ch_relay.Hub.Timers.{tick_session, tick_sessions, run_retries}
use ch_relay.Hub.Requests.{acknowledge, inbound_qos2_seen, inbound_qos2_release}
use ch_relay.Session.PacketIds.{deliver-expiry_secs}
use ch_relay.Hub.Sessions.{get-tick_sessions}
use ch_relay.Recovery.Expiries.{
  session_expiry, durable_expiry, SameExpiries, insert-SameExpiries, Frame, refl-Frame, trans-Frame,
  table-Frame,
}
use ch_relay.Recovery.PublishFrames.{write_ops-IsUnrelated, dead_letters-Frame}

tick_session-expiry_secs :
    (durable : Bool) (cfg : RetryConfig) (now : ℕ) (s : Session)
    → (tick_session durable cfg now s).0.expiry_secs ≡ s.expiry_secs
unfolding tick_session
tick_session-expiry_secs durable cfg now s = elim (Option-cases s.tx) [
  | inl e ↦ rw (e, tick_session) refl
  | inr (sent, e) ↦ rw (e, tick_session) (unfold tick_retries in refl)
]

tick_sessions-SameExpiries :
    (durable : Bool) (cfg : RetryConfig) (now : ℕ) (table : Map ClientId Session)
    → SameExpiries table (tick_sessions durable cfg now table).0
tick_sessions-SameExpiries durable cfg now table i =
    ap session_expiry (get-tick_sessions durable cfg now table i) ∙ go (get i table)
  where
    go :
        (o : Option Session)
        → session_expiry (elim o [ none ↦ none | some s ↦ some (tick_session durable cfg now s).0 ])
          ≡ session_expiry o
    go none = refl
    go (some s) = ap durable_expiry (tick_session-expiry_secs durable cfg now s)

pub run_retries-Frame : (h : Hub) (now ts : ℕ) → Frame h (run_retries h now ts)
unfolding run_retries
run_retries-Frame h now ts =
    let (by_id, dead, snapshots) = tick_sessions h.is_durable h.retry now h.sessions.by_id in
    let k =
      write_inflights (record h { sessions = record h.sessions { by_id = by_id } }) snapshots in
    trans-Frame h k _
      (table-Frame h k (map write_op snapshots) refl refl (write_ops-IsUnrelated snapshots) refl
        (tick_sessions-SameExpiries h.is_durable h.retry now h.sessions.by_id))
      (dead_letters-Frame k now ts (codes "max_delivery_attempts_exceeded") dead)

-- A session that keeps its expiry interval, and the snapshot of its queue.
set_session-Frame :
    (h : Hub) (id : ClientId) (s s' : Session) (snapshots : List (Bytes × Bytes))
    → get id h.sessions.by_id ≡ some s
    → s'.expiry_secs ≡ s.expiry_secs
    → Frame h (write_inflights (set_session h id s') snapshots)
set_session-Frame h id s s' snapshots g e =
    table-Frame h _ (map write_op snapshots) refl refl (write_ops-IsUnrelated snapshots) refl
      (insert-SameExpiries id s s' h.sessions.by_id g e)

-- The same without a snapshot.
pub quiet-Frame :
    (h : Hub) (id : ClientId) (s s' : Session)
    → get id h.sessions.by_id ≡ some s
    → s'.expiry_secs ≡ s.expiry_secs
    → Frame h (set_session h id s')
quiet-Frame h id s s' g e = record {
  ops = [];
  durable = refl;
  queued = λ d. sym (append-nil h.queue);
  unrelated = tt;
  index = refl;
  expiries = insert-SameExpiries id s s' h.sessions.by_id g e;
}

pub acknowledge-Frame :
    (f : Session → Session) (h : Hub) (id : ClientId)
    → ((s : Session) → (f s).expiry_secs ≡ s.expiry_secs)
    → Frame h (acknowledge f h id)
acknowledge-Frame f h id same = elim (Option-cases (get id h.sessions.by_id)) [
  | inl e ↦ rw (e, acknowledge) (refl-Frame h)
  | inr (s, e) ↦
      rw (e, acknowledge)
        (set_session-Frame h id s (f s) (extend (snapshot_inflight h.is_durable (f s)) []) e
          (same s))
]

pub inbound_qos2-Frame :
    (h : Hub) (id : ClientId) (pid : ℕ)
    → Frame h (inbound_qos2_seen h id pid).0 × Frame h (inbound_qos2_release h id pid)
unfolding inbound_qos2_seen inbound_qos2_release
inbound_qos2-Frame h id pid = elim (Option-cases (get id h.sessions.by_id)) [
  | inl e ↦ (rw (e, inbound_qos2_seen) (refl-Frame h), rw (e, inbound_qos2_release) (refl-Frame h))
  | inr (s, e) ↦ (
    rw (e, inbound_qos2_seen) (quiet-Frame h id s _ e refl),
    rw (e, inbound_qos2_release) (quiet-Frame h id s _ e refl),
  )
]

deliver_each-expiry_secs :
    (cfg : RetryConfig) (now : ℕ) (granted : QoS) (ms : List Message) (s : Session)
    → (deliver_each cfg now granted ms s).0.expiry_secs ≡ s.expiry_secs
unfolding deliver_each
deliver_each-expiry_secs cfg now granted [] s = refl
deliver_each-expiry_secs cfg now granted (m ∷ ms) s =
    deliver_each-expiry_secs cfg now granted ms _
    ∙ deliver-expiry_secs s m.topic m.payload (min m.qos granted) true now cfg

pub deliver_retained-Frame :
    (h : Hub) (now : ℕ) (id : ClientId) (filter : TopicFilter) (q : QoS)
    → Frame h (deliver_retained h now id filter q)
unfolding deliver_retained
deliver_retained-Frame h now id filter q = elim (Option-cases (get id h.sessions.by_id)) [
  | inl e ↦ rw (e, deliver_retained) (refl-Frame h)
  | inr (s, e) ↦
      rw (e, deliver_retained)
        (set_session-Frame h id s _ _ e
          (deliver_each-expiry_secs h.retry now q (matching h.retained filter) s))
]

replay_event-expiry_secs :
    (to_string : ℕ → Bytes) (filter : TopicFilter) (offset : ℕ)
    (event : Option (Bytes × Bytes × QoS)) (sn : Session × ℕ)
    → (replay_event to_string filter offset event sn).0.expiry_secs ≡ sn.0.expiry_secs
replay_event-expiry_secs to_string filter offset none sn = refl
replay_event-expiry_secs to_string filter offset (some (topic, payload, q)) sn =
    unfold send in ground arith

replay_events-expiry_secs :
    (to_string : ℕ → Bytes) (filter : TopicFilter) (events : List (ℕ × Bytes)) (sn : Session × ℕ)
    → (replay_events to_string filter events sn).0.expiry_secs ≡ sn.0.expiry_secs
unfolding replay_events
replay_events-expiry_secs to_string filter [] sn = refl
replay_events-expiry_secs to_string filter ((offset, blob) ∷ events) sn =
    replay_events-expiry_secs to_string filter events _
    ∙ replay_event-expiry_secs to_string filter offset (decode_event blob) sn

pub replay-Frame :
    (load_events : ℕ → Option (List (ℕ × Bytes))) (to_string : ℕ → Bytes) (h : Hub) (id : ClientId)
    (from : ℕ) (filter : TopicFilter)
    → Frame h (replay load_events to_string h id from filter).0
unfolding replay
replay-Frame load_events to_string h id from filter =
    elim (Option-cases (if h.is_durable then load_events from else none)) [
      | inl e ↦ rw (e, replay) (refl-Frame h)
      | inr (events, e) ↦ elim (Option-cases (get id h.sessions.by_id)) [
        | inl g ↦ rw (e, g, replay) (refl-Frame h)
        | inr (s, g) ↦
            rw (e, g, replay)
              (quiet-Frame h id s _ g (replay_events-expiry_secs to_string filter events (s, 0)))
      ]
    ]
