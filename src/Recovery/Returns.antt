-- ===== src/Recovery/Returns.antt =====
-- The sessions of crates/relay-server/src/hub.rs after a restart.
use ch_relay.Prelude.{
  ℕ, ◌≡◌, refl, sym, ◌∙◌, ap, subst, List, Option, none, some, ◌+◌, ◌<◌, nat_eq, length, lt→ltb,
}
use ch_relay.Prelude.Map.{get}
use ch_relay.Bytes.{Bytes, bytes_eq}
use ch_relay.Retry.{RetryConfig}
use ch_relay.Session.{InflightEntry, on_puback, on_pubrec, on_pubcomp}
use ch_relay.Session.PacketIds.{on_pubrec-expiry_secs}
use ch_relay.Storage.Tables.{Database}
use ch_relay.Storage.Store.{Store}
use ch_relay.Storage.Worker.{run_worker}
use ch_relay.Hub.{Hub, u64_mod, durable_client}
use ch_relay.Router.{ClientId}
use ch_relay.Storage.Store
use ch_relay.Recovery.Restart.{load_sessions_lem}
use ch_relay.Hub.Startup.{new_hub}
use ch_relay.Hub.Keeps.{HasConsistentTable}
use ch_relay.Hub.Requests.{
  hub_subscribe, hub_subscribe_shared, hub_unsubscribe, hub_on_puback, hub_on_pubrec,
  hub_on_pubcomp,
}
use ch_relay.Hub.Steps.{
  Call, connects, detaches, expires, retries, publishes, subscribes, joins, unsubscribes,
  sends_retained, pubacks, pubrecs, pubcomps, receives, releases, replays, step,
  step-HasConsistentTable,
}
use ch_relay.Recovery.{drained}
use ch_relay.Recovery.Sessions.{session_for, reloaded, session_on_disk, booted, booted_lem}
use ch_relay.Recovery.Expiries.{
  durable_expiry, session_expiry, kept_in, row_of, Keeps, Frame, Frame-Keeps, table-Frame,
}
use ch_relay.Recovery.Frames.{
  run_retries-Frame, deliver_retained-Frame, acknowledge-Frame, inbound_qos2-Frame, replay-Frame,
}
use ch_relay.Recovery.PublishFrames.{
  subscription_ops-IsUnrelated, unsubscription_ops-IsUnrelated, publish_to_all-Frame,
}
use ch_relay.Recovery.Lasting.{connect-Keeps, detach-Keeps, purge_if_idle-Keeps}

module _ (db : Database) (st : Store db) (h h' : Hub) (v : HasConsistentTable h)
    (k : Keeps db st h) where
  arrive : (l : Hub) → some l ≡ some h' → Keeps db st l → Keeps db st h'
  arrive l e w = let same : l ≡ h' = cc in subst (Keeps db st) same w

  framed : (l : Hub) → Frame h l → some l ≡ some h' → Keeps db st h'
  framed l f e = arrive l e (Frame-Keeps db st h l f k)

  -- Every call and every timer keeps the expiry intervals on disk in step.
  step-Keeps : (c : Call) → step h c ≡ some h' → Keeps db st h'
  unfolding step
  step-Keeps (connects now c clean expiry) e = connect-Keeps db st h now c clean expiry h' v k e
  step-Keeps (detaches id generation) e = arrive _ e (detach-Keeps db st h id generation v k)
  step-Keeps (expires now ts id generation) e =
      arrive _ e (purge_if_idle-Keeps db st h now ts id generation v k)
  step-Keeps (retries now ts) e = framed _ (run_retries-Frame h now ts) e
  step-Keeps (publishes now ts m retain) e = framed _ (publish_to_all-Frame h now ts m retain) e
  step-Keeps (subscribes id filter q raw) e =
      unfold hub_subscribe in
      framed _
        (table-Frame h (hub_subscribe h id filter q raw) _ refl refl
          (subscription_ops-IsUnrelated raw q (durable_client (get id h.sessions.by_id))) refl
          (λ i. refl))
        e
  step-Keeps (joins group id filter q raw) e =
      unfold hub_subscribe_shared in
      framed _
        (table-Frame h (hub_subscribe_shared h group id filter q raw) _ refl refl
          (subscription_ops-IsUnrelated raw q (durable_client (get id h.sessions.by_id))) refl
          (λ i. refl))
        e
  step-Keeps (unsubscribes id raw) e =
      unfold hub_unsubscribe in
      framed _
        (table-Frame h (hub_unsubscribe h id raw).0 _ refl refl
          (unsubscription_ops-IsUnrelated raw (durable_client (get id h.sessions.by_id))) refl
          (λ i. refl))
        e
  step-Keeps (sends_retained now id filter q) e =
      framed _ (deliver_retained-Frame h now id filter q) e
  step-Keeps (pubacks id pid) e =
      unfold hub_on_puback on_puback in
      framed _ (acknowledge-Frame (λ s. on_puback s pid) h id (λ s. refl)) e
  step-Keeps (pubrecs id pid) e =
      unfold hub_on_pubrec in
      framed _ (acknowledge-Frame (λ s. on_pubrec s pid) h id (λ s. on_pubrec-expiry_secs s pid)) e
  step-Keeps (pubcomps id pid) e =
      unfold hub_on_pubcomp on_pubcomp in
      framed _ (acknowledge-Frame (λ s. on_pubcomp s pid) h id (λ s. refl)) e
  step-Keeps (receives id pid) e = framed _ (inbound_qos2-Frame h id pid).0 e
  step-Keeps (releases id pid) e = framed _ (inbound_qos2-Frame h id pid).1 e
  step-Keeps (replays load_events to_string id from filter) e =
      framed _ (replay-Frame load_events to_string h id from filter) e

-- What calls and timers make of a hub, as long as client ids do not run out.
pub data Becomes (h : Hub) : Hub → Type 0 where
  itself : Becomes h h
  and_then :
      (c : Call) (k l : Hub)
      → Becomes h k
      → k.next_raw + 1 < u64_mod
      → step k c ≡ some l
      → Becomes h l

Becomes-Keeps :
    (db : Database) (st : Store db) (h k : Hub)
    → HasConsistentTable h
    → Keeps db st h
    → Becomes h k
    → HasConsistentTable k × Keeps db st k
Becomes-Keeps db st h _ v w itself = (v, w)
Becomes-Keeps db st h _ v w (and_then c k l r b e) =
    let (x, y) = Becomes-Keeps db st h k v w r in
    let (m, f, z) = step-HasConsistentTable k c x b in
    let same : m ≡ l = cc in (subst HasConsistentTable same z, step-Keeps db st k l x y c e)

-- The expiry interval of a client's session.
abbrev pub expiry_for : Hub → Bytes → Option ℕ
expiry_for h c = elim (session_for h c) [ none ↦ none | some s ↦ some s.expiry_secs ]

reloaded-expiry_secs :
    (c : Bytes) (e : ℕ) (o : Option (ℕ × List InflightEntry)) → (reloaded c e o).expiry_secs ≡ e
reloaded-expiry_secs c e none = refl
reloaded-expiry_secs c e (some (next_id, queue)) = refl

kept_in-session_for :
    (h : Hub) (c : Bytes)
    → kept_in h.sessions.id_of h.sessions.by_id c ≡ session_expiry (session_for h c)
kept_in-session_for h c = go (get c h.sessions.id_of)
  where
    go :
        (o : Option ClientId)
        → elim o [ none ↦ none | some i ↦ session_expiry (get i h.sessions.by_id) ]
          ≡ session_expiry (elim o [ none ↦ none | some i ↦ get i h.sessions.by_id ])
    go none = refl
    go (some i) = refl

module _ (db : Database) (now : ℕ) (cfg : RetryConfig) (event_log_max : ℕ) where
  -- The session of a row has the interval of the row.
  row_lem :
      (st : Store db) (c : Bytes) (o : Option ℕ)
      → elim (session_on_disk db st now cfg c o) [ none ↦ none | some s ↦ some s.expiry_secs ] ≡ o
  row_lem st c none = refl
  row_lem st c (some e) = ap some (reloaded-expiry_secs c e _)

  expiry_for-booted :
      (st : Store db) (c : Bytes)
      → 1 + length (db.numbers.rows st.sessions) < u64_mod
      → expiry_for (booted db st now cfg event_log_max) c ≡ row_of db st c
  expiry_for-booted st c b =
      ap (λ o. elim o [ none ↦ none | some s ↦ some s.expiry_secs ])
        ((booted_lem db st now cfg event_log_max b).1 c)
      ∙ row_lem st c (row_of db st c)

  kept_row :
      (st : Store db) (c : Bytes) (o : Option ℕ)
      → ((e : ℕ) → o ≡ some e → 0 < e)
      → session_expiry (session_on_disk db st now cfg c o) ≡ o
  kept_row st c none p = refl
  kept_row st c (some e) p =
      ap durable_expiry (reloaded-expiry_secs c e _) ∙ rw (lt→ltb 0 e (p e refl)) refl

  booted-Keeps :
      (st : Store db)
      → 1 + length (db.numbers.rows st.sessions) < u64_mod
      → ((c : Bytes) (e : ℕ) → row_of db st c ≡ some e → 0 < e)
      → Keeps db st (booted db st now cfg event_log_max)
  unfolding new_hub
  booted-Keeps st b p =
      let (r, d, q) =
        load_sessions_lem now (Store.load_inflight db st) (Store.load_sessions db st) _ in
      (
        d,
        λ c.
            ap (λ ops. row_of db (drained db st ops) c) q
            ∙ unfold run_worker in
              sym (
                kept_in-session_for (booted db st now cfg event_log_max) c
                ∙ ap session_expiry ((booted_lem db st now cfg event_log_max b).1 c)
                ∙ kept_row st c (row_of db st c) (p c)),
      )

-- A broker that is started on a storage, on which no session has the expiry interval zero, has done
-- whatever it was called to do, and is started again once its queue is written, with every
-- transaction committed, has a session for exactly the clients whose session had an expiry interval
-- above zero, each with that interval; provided that ids do not run out on the way or at startup.
pub sessions_restart_lem :
    (db : Database) (st : Store db) (now : ℕ) (cfg : RetryConfig) (event_log_max : ℕ) (h : Hub)
    → 1 + length (db.numbers.rows st.sessions) < u64_mod
    → ((c : Bytes) (e : ℕ) → row_of db st c ≡ some e → 0 < e)
    → Becomes (booted db st now cfg event_log_max) h
    → (later : ℕ) → 1 + length (db.numbers.rows (drained db st h.queue).sessions) < u64_mod
    → (c : Bytes)
    → expiry_for (booted db (drained db st h.queue) later cfg event_log_max) c
      ≡ session_expiry (session_for h c)
sessions_restart_lem db st now cfg event_log_max h b p r later b' c =
    let (v, k) =
      Becomes-Keeps db st (booted db st now cfg event_log_max) h
        (booted_lem db st now cfg event_log_max b).0 (booted-Keeps db now cfg event_log_max st b p)
        r in
    expiry_for-booted db later cfg event_log_max (drained db st h.queue) c b'
    ∙ k.1 c
    ∙ kept_in-session_for h c
