-- ===== src/Recovery/Calls.antt =====
-- Every call and every timer of the hub of crates/relay-server/src/hub.rs keeps the disk in step with
-- the retained messages.
use ch_relay.Prelude.{
  ℕ, ◌≡◌, subst, Bool, ◌&&◌, List, [], ◌∷◌, Option, none, some, map, All, Bool-cases, Option-cases,
  inl, inr, if◌then◌else◌, ltb, nat_eq, ◌==◌,
}
use ch_relay.Prelude.Map.{get}
use ch_relay.Bytes.{Bytes, bytes_eq, codes}
use ch_relay.Topic.{TopicFilter}
use ch_relay.Message.{QoS}
use ch_relay.Retained.{matching}
use ch_relay.Router.{ClientId}
use ch_relay.Session.{Session, on_puback, on_pubrec, on_pubcomp}
use ch_relay.Session.Tick.{drain_undelivered}
use ch_relay.Hub.{
  Hub, set_session, persist_meta, durable_client, extend, snapshot_inflight, subscription_ops,
  write_op, no_expiry, forget_persisted,
}
use ch_relay.Hub.Delivery.{deliver_each, deliver_retained, replay}
use ch_relay.Hub.Attach.{
  connect, open_session, drop_session, resume_session, next_generation, discard, leave, detach,
  purge, purge_if_idle, is_offline, removal_ops,
}
use ch_relay.Hub.Timers.{tick_sessions, run_retries}
use ch_relay.Hub.Requests.{
  acknowledge, hub_subscribe, hub_subscribe_shared, hub_unsubscribe, unsubscription_ops,
  hub_on_puback, hub_on_pubrec, hub_on_pubcomp, inbound_qos2_seen, inbound_qos2_release,
}
use ch_relay.Hub.Steps.{
  Call, step, connected, connects, detaches, expires, retries, publishes, subscribes, joins,
  unsubscribes, sends_retained, pubacks, pubrecs, pubcomps, receives, releases, replays,
}
use ch_relay.Storage.{remove_session}
use ch_relay.Storage.Tables.{Database}
use ch_relay.Storage.Store.{Store}
use ch_relay.Recovery.{IsOther, Mirrors, enqueue_all-Mirrors}
use ch_relay.Recovery.Keeps.{write_ops-IsOther, publish_to_all-Mirrors, dead_letters-Mirrors}

removal_ops-IsOther : (o : Option Session) → All IsOther (removal_ops o)
removal_ops-IsOther none = tt
removal_ops-IsOther (some s) = (tt, tt)

subscription_ops-IsOther :
    (raw : Bytes) (q : QoS) (o : Option Bytes) → All IsOther (subscription_ops raw q o)
subscription_ops-IsOther raw q none = tt
subscription_ops-IsOther raw q (some c) = (tt, tt)

unsubscription_ops-IsOther :
    (raw : Bytes) (o : Option Bytes) → All IsOther (unsubscription_ops raw o)
unsubscription_ops-IsOther raw none = tt
unsubscription_ops-IsOther raw (some c) = (tt, tt)

module _ (db : Database) (st : Store db) where
  arrive : (k h' : Hub) → some k ≡ some h' → Mirrors db st k → Mirrors db st h'
  arrive k h' e w = let same : k ≡ h' = cc in subst (Mirrors db st) same w

  persist_meta-Mirrors :
      (h : Hub) (client_id : Bytes) (expiry_secs : ℕ)
      → Mirrors db st h
      → Mirrors db st (persist_meta h client_id expiry_secs)
  persist_meta-Mirrors h client_id expiry_secs v =
      enqueue_all-Mirrors db st h (_ ∷ [])
        (elim (Bool-cases (ltb 0 expiry_secs)) [ inl e ↦ rw e (tt, tt) | inr e ↦ rw e (tt, tt) ]) v

  connect-Mirrors :
      (h : Hub) (now : ℕ) (client_id : Bytes) (clean_start : Bool) (expiry_secs : ℕ) (h' : Hub)
      → Mirrors db st h
      → connected (connect h now client_id clean_start expiry_secs) ≡ some h'
      → Mirrors db st h'
  unfolding connect open_session drop_session resume_session
  connect-Mirrors h now client_id clean_start expiry_secs h' v r =
      elim (Option-cases (get client_id h.sessions.id_of)) [
        | inl e ↦
            arrive (open_session (next_generation h) client_id expiry_secs).0 h'
              (rw (e, connect) at r) (persist_meta-Mirrors h client_id expiry_secs v)
        | inr (id, e) ↦ elim (Bool-cases clean_start) [
          | inl p ↦
              arrive
                (open_session (drop_session (next_generation h) id client_id) client_id
                  expiry_secs).0
                h' (rw (e, p, connect) at r)
                (persist_meta-Mirrors (forget_persisted h client_id) client_id expiry_secs
                  (enqueue_all-Mirrors db st h (remove_session client_id ∷ []) (tt, tt) v))
          | inr p ↦ elim (Option-cases (get id h.sessions.by_id)) [
            | inl g ↦ let k : none ≡ some h' = rw (e, p, g, connect) at r in absurd (cc)
            | inr (s, g) ↦
                arrive (resume_session (next_generation h) now client_id expiry_secs id s).0 h'
                  (rw (e, p, g, connect) at r) (persist_meta-Mirrors h client_id expiry_secs v)
          ]
        ]
      ]

  discard-Mirrors : (h : Hub) (id : ClientId) → Mirrors db st h → Mirrors db st (discard h id)
  unfolding discard
  discard-Mirrors h id v =
      enqueue_all-Mirrors db st h (removal_ops (get id h.sessions.by_id))
        (removal_ops-IsOther (get id h.sessions.by_id)) v

  leave-Mirrors :
      (h : Hub) (id : ClientId) (s : Session) → Mirrors db st h → Mirrors db st (leave h id s)
  unfolding leave
  leave-Mirrors h id s v = elim (Bool-cases (s.expiry_secs == 0)) [
    | inl p ↦ rw (p, leave) (discard-Mirrors (set_session h id (record s { tx = none })) id v)
    | inr p ↦ elim (Bool-cases (s.expiry_secs == no_expiry)) [
      | inl q ↦ rw (p, q, leave) v
      | inr q ↦ rw (p, q, leave) v
    ]
  ]

  detach-Mirrors :
      (h : Hub) (id : ClientId) (generation : ℕ)
      → Mirrors db st h
      → Mirrors db st (detach h id generation)
  unfolding detach
  detach-Mirrors h id generation v = elim (Option-cases (get id h.sessions.by_id)) [
    | inl e ↦ rw (e, detach) v
    | inr (s, e) ↦ elim (Bool-cases (s.generation == generation)) [
      | inl p ↦ rw (e, p, detach) (leave-Mirrors h id s v)
      | inr p ↦ rw (e, p, detach) v
    ]
  ]

  purge_if_idle-Mirrors :
      (h : Hub) (now ts : ℕ) (id : ClientId) (generation : ℕ)
      → Mirrors db st h
      → Mirrors db st (purge_if_idle h now ts id generation)
  unfolding purge_if_idle purge drain_undelivered
  purge_if_idle-Mirrors h now ts id generation v = elim (Option-cases (get id h.sessions.by_id)) [
    | inl e ↦ rw (e, purge_if_idle) v
    | inr (s, e) ↦ elim (Bool-cases (s.generation == generation && is_offline s.tx)) [
      | inl p ↦
          rw (e, p, purge_if_idle)
            (dead_letters-Mirrors db st (discard (set_session h id (drain_undelivered s).0) id) now
              ts (codes "session_expired") _
              (discard-Mirrors (set_session h id (drain_undelivered s).0) id v))
      | inr p ↦ rw (e, p, purge_if_idle) v
    ]
  ]

  run_retries-Mirrors :
      (h : Hub) (now ts : ℕ) → Mirrors db st h → Mirrors db st (run_retries h now ts)
  unfolding run_retries
  run_retries-Mirrors h now ts v =
      let (by_id, dead, snapshots) = tick_sessions h.is_durable h.retry now h.sessions.by_id in
      dead_letters-Mirrors db st _ now ts (codes "max_delivery_attempts_exceeded") dead (
        enqueue_all-Mirrors db st (record h { sessions = record h.sessions { by_id = by_id } })
          (map write_op snapshots) (write_ops-IsOther snapshots) v)

  acknowledge-Mirrors :
      (f : Session → Session) (h : Hub) (id : ClientId)
      → Mirrors db st h
      → Mirrors db st (acknowledge f h id)
  acknowledge-Mirrors f h id v = elim (Option-cases (get id h.sessions.by_id)) [
    | inl e ↦ rw (e, acknowledge) v
    | inr (s, e) ↦
        rw (e, acknowledge)
          (enqueue_all-Mirrors db st (set_session h id (f s))
            (map write_op (extend (snapshot_inflight h.is_durable (f s)) []))
            (write_ops-IsOther (extend (snapshot_inflight h.is_durable (f s)) [])) v)
  ]

  deliver_retained-Mirrors :
      (h : Hub) (now : ℕ) (id : ClientId) (filter : TopicFilter) (q : QoS)
      → Mirrors db st h
      → Mirrors db st (deliver_retained h now id filter q)
  unfolding deliver_retained
  deliver_retained-Mirrors h now id filter q v = elim (Option-cases (get id h.sessions.by_id)) [
    | inl e ↦ rw (e, deliver_retained) v
    | inr (s, e) ↦
        let (s', any_tracked) = deliver_each h.retry now q (matching h.retained filter) s in
        rw (e, deliver_retained)
          (enqueue_all-Mirrors db st (set_session h id s') _
            (write_ops-IsOther
              (extend (if any_tracked then snapshot_inflight h.is_durable s' else none) []))
            v)
  ]

  replay-Mirrors :
      (load_events : ℕ → Option (List (ℕ × Bytes))) (to_string : ℕ → Bytes) (h : Hub)
      (id : ClientId) (from : ℕ) (filter : TopicFilter)
      → Mirrors db st h
      → Mirrors db st (replay load_events to_string h id from filter).0
  unfolding replay
  replay-Mirrors load_events to_string h id from filter v =
      elim (Option-cases (if h.is_durable then load_events from else none)) [
        | inl e ↦ rw (e, replay) v
        | inr (events, e) ↦ elim (Option-cases (get id h.sessions.by_id)) [
          | inl g ↦ rw (e, g, replay) v
          | inr (s, g) ↦ rw (e, g, replay) v
        ]
      ]

  receive-Mirrors :
      (h : Hub) (id : ClientId) (pid : ℕ)
      → Mirrors db st h
      → Mirrors db st (inbound_qos2_seen h id pid).0 × Mirrors db st (inbound_qos2_release h id pid)
  unfolding inbound_qos2_seen inbound_qos2_release
  receive-Mirrors h id pid v = elim (Option-cases (get id h.sessions.by_id)) [
    | inl e ↦ (rw (e, inbound_qos2_seen) v, rw (e, inbound_qos2_release) v)
    | inr (s, e) ↦ (rw (e, inbound_qos2_seen) v, rw (e, inbound_qos2_release) v)
  ]

  -- Whatever the hub is called to do, and whichever timer fires: where the disk holds the retained
  -- messages of a hub once its queue is written, it does so afterwards.
  pub step-Mirrors :
      (h : Hub) (c : Call) (h' : Hub) → Mirrors db st h → step h c ≡ some h' → Mirrors db st h'
  step-Mirrors h (connects now c clean expiry) h' v e =
      unfold step in connect-Mirrors h now c clean expiry h' v e
  step-Mirrors h (detaches id generation) h' v e =
      unfold step in arrive _ h' e (detach-Mirrors h id generation v)
  step-Mirrors h (expires now ts id generation) h' v e =
      unfold step in arrive _ h' e (purge_if_idle-Mirrors h now ts id generation v)
  step-Mirrors h (retries now ts) h' v e =
      unfold step in arrive _ h' e (run_retries-Mirrors h now ts v)
  step-Mirrors h (publishes now ts m retain) h' v e =
      unfold step in arrive _ h' e (publish_to_all-Mirrors db st h now ts m retain v)
  step-Mirrors h (subscribes id filter q raw) h' v e =
      unfold step hub_subscribe in
      arrive _ h' e (
        enqueue_all-Mirrors db st h _
          (subscription_ops-IsOther raw q (durable_client (get id h.sessions.by_id))) v)
  step-Mirrors h (joins group id filter q raw) h' v e =
      unfold step hub_subscribe_shared in
      arrive _ h' e (
        enqueue_all-Mirrors db st h _
          (subscription_ops-IsOther raw q (durable_client (get id h.sessions.by_id))) v)
  step-Mirrors h (unsubscribes id raw) h' v e =
      unfold step hub_unsubscribe in
      arrive _ h' e (
        enqueue_all-Mirrors db st h _
          (unsubscription_ops-IsOther raw (durable_client (get id h.sessions.by_id))) v)
  step-Mirrors h (sends_retained now id filter q) h' v e =
      unfold step in arrive _ h' e (deliver_retained-Mirrors h now id filter q v)
  step-Mirrors h (pubacks id pid) h' v e =
      unfold step hub_on_puback in arrive _ h' e (acknowledge-Mirrors (λ s. on_puback s pid) h id v)
  step-Mirrors h (pubrecs id pid) h' v e =
      unfold step hub_on_pubrec in arrive _ h' e (acknowledge-Mirrors (λ s. on_pubrec s pid) h id v)
  step-Mirrors h (pubcomps id pid) h' v e =
      unfold step hub_on_pubcomp in
      arrive _ h' e (acknowledge-Mirrors (λ s. on_pubcomp s pid) h id v)
  step-Mirrors h (receives id pid) h' v e =
      unfold step in arrive _ h' e (receive-Mirrors h id pid v).0
  step-Mirrors h (releases id pid) h' v e =
      unfold step in arrive _ h' e (receive-Mirrors h id pid v).1
  step-Mirrors h (replays load_events to_string id from filter) h' v e =
      unfold step in arrive _ h' e (replay-Mirrors load_events to_string h id from filter v)
