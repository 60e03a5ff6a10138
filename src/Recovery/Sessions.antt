-- ===== src/Recovery/Sessions.antt =====
-- The sessions that `Hub::new` of crates/relay-server/src/hub.rs finds on disk.
use ch_relay.Prelude.{
  ℕ, suc, ◌+◌, ◌<◌, ◌≡◌, refl, ◌∙◌, ap, sym, true, false, List, [], ◌∷◌, Option, none, some, arith,
  Bool-cases, Option-cases, inl, inr, length, All, All-In, In, nat_eq,
}
use ch_relay.Prelude.Map.{Map, get, Lacks, HasUniqueKeys, remove}
use ch_relay.Bytes.{Bytes, bytes_eq, bytes_beq, bytes_beq_iff}
use ch_relay.Message.{QoS}
use ch_relay.Router.{ClientId}
use ch_relay.Retry.{RetryConfig}
use ch_relay.Session.{Session, InflightEntry, new}
use ch_relay.Codec.{decode_inflight}
use ch_relay.Hub.{Hub, u64_mod}
use ch_relay.Hub.Consistency.{empty-IsConsistent}
use ch_relay.Hub.Keeps.{HasConsistentTable}
use ch_relay.Hub.Startup.{new_hub, load_retained, in_memory, restore, decoded}
use ch_relay.Storage.{PersistedSession}
use ch_relay.Storage.Tables.{Database}
use ch_relay.Storage.Store.{Store, sessions_of}
use ch_relay.Storage.Store
use ch_relay.Recovery.Loading.{
  Distinct, load_sessions-HasConsistentTable, load_sessions-index, load_sessions-there,
}

-- The rows of the table of the sessions have distinct keys, and so the loaded sessions are distinct.
sessions_of-Distinct :
    (rows : Map Bytes ℕ) (m : Map Bytes (List (Bytes × QoS)))
    → HasUniqueKeys rows
    → Distinct (sessions_of rows m)
unfolding sessions_of
sessions_of-Distinct [] m u = tt
sessions_of-Distinct ((c, e) ∷ rows) m (l, u) =
    (others rows _ l, sessions_of-Distinct rows (remove c m) u)
  where
    others :
        (rows : Map Bytes ℕ) (m : Map Bytes (List (Bytes × QoS)))
        → Lacks c rows
        → All (λ q. bytes_beq q.client_id c ≡ false) (sessions_of rows m)
    others [] m l = tt
    others ((d, f) ∷ rows) m l = (l.0, others rows _ l.1)

length-sessions_of :
    (rows : Map Bytes ℕ) (m : Map Bytes (List (Bytes × QoS)))
    → length (sessions_of rows m) ≡ length rows
unfolding sessions_of
length-sessions_of [] m = refl
length-sessions_of ((c, e) ∷ rows) m = ap suc (length-sessions_of rows (remove c m))

-- A row of the table is one of the loaded sessions.
In-sessions_of :
    (rows : Map Bytes ℕ) (m : Map Bytes (List (Bytes × QoS))) (c : Bytes) (expiry : ℕ)
    → get c rows ≡ some expiry
    → (p : PersistedSession) × In p (sessions_of rows m)
      × (p.client_id ≡ c)
      × (p.expiry_secs ≡ expiry)
unfolding sessions_of
In-sessions_of [] m c expiry h = absurd (cc)
In-sessions_of ((d, e) ∷ rows) m c expiry h = elim (Bool-cases (bytes_beq d c)) [
  | inl k ↦
      let same : some e ≡ some expiry = rw k at h in (_, inl refl, (bytes_beq_iff d c).0 k, cc)
  | inr k ↦
      let (p, i, f, g) = In-sessions_of rows (remove d m) c expiry (rw k at h) in (p, inr i, f, g)
]

-- No row, no loaded session.
others-sessions_of :
    (rows : Map Bytes ℕ) (m : Map Bytes (List (Bytes × QoS))) (c : Bytes)
    → get c rows ≡ none
    → All (λ q. bytes_beq q.client_id c ≡ false) (sessions_of rows m)
unfolding sessions_of
others-sessions_of [] m c h = tt
others-sessions_of ((d, e) ∷ rows) m c h = elim (Bool-cases (bytes_beq d c)) [
  | inl k ↦ let found : some e ≡ none = rw k at h in absurd (cc)
  | inr k ↦ (k, others-sessions_of rows (remove d m) c (rw k at h))
]

abbrev pub session_for : Hub → Bytes → Option Session
session_for h c = elim (get c h.sessions.id_of) [ none ↦ none | some i ↦ get i h.sessions.by_id ]

-- What the table of the queues has under a client id: a counter and a queue, if there is a blob and
-- it decodes.
abbrev pub stored_queue : ℕ → RetryConfig → Option Bytes → Option (ℕ × List InflightEntry)
stored_queue now cfg none = none
stored_queue now cfg (some blob) = decode_inflight blob now cfg

-- An offline session at generation 0.
abbrev pub reloaded : Bytes → ℕ → Option (ℕ × List InflightEntry) → Session
reloaded c expiry_secs none = record {
  client_id = c;
  tx = none;
  next_id = 1;
  inflight = [];
  incoming_qos2 = [];
  expiry_secs = expiry_secs;
  generation = 0;
}
reloaded c expiry_secs (some (next_id, queue)) = record {
  client_id = c;
  tx = none;
  next_id = next_id;
  inflight = queue;
  incoming_qos2 = [];
  expiry_secs = expiry_secs;
  generation = 0;
}

-- A row of the table of the sessions, and what the table of the queues has for it, as a session.
abbrev pub session_on_disk :
    (db : Database) → Store db → ℕ → RetryConfig → Bytes → Option ℕ → Option Session
session_on_disk db st now cfg c none = none
session_on_disk db st now cfg c (some expiry_secs) =
    some (reloaded c expiry_secs (stored_queue now cfg (get c (db.texts.rows st.inflight))))

decoded_lem :
    (now : ℕ) (cfg : RetryConfig) (o : Option Bytes) → decoded now cfg o ≡ stored_queue now cfg o
decoded_lem now cfg none = refl
decoded_lem now cfg (some blob) = refl

restore_lem :
    (c : Bytes) (expiry_secs : ℕ) (o : Option (ℕ × List InflightEntry))
    → restore (new c none expiry_secs 0) o ≡ reloaded c expiry_secs o
restore_lem c expiry_secs none = refl
restore_lem c expiry_secs (some (next_id, queue)) = refl

-- `Hub::new` on all that a storage loads.
abbrev pub booted : (db : Database) → Store db → ℕ → RetryConfig → ℕ → Hub
booted db st now cfg event_log_max =
    new_hub
      (some (record {
        messages = some (Store.load_retained db st);
        inflight = some (Store.load_inflight db st);
        persisted = some (Store.load_sessions db st);
      }))
      now cfg event_log_max

session_for-known :
    (h : Hub) (c : Bytes) (i : ClientId) (s : Session)
    → get c h.sessions.id_of ≡ some i
    → get i h.sessions.by_id ≡ some s
    → session_for h c ≡ some s
session_for-known h c i s e f = rw (e, session_for) f

session_for-unknown : (h : Hub) (c : Bytes) → get c h.sessions.id_of ≡ none → session_for h c ≡ none
session_for-unknown h c e = rw (e, session_for) refl

-- A broker that is started on a storage with room for the ids of its sessions has consistent indices,
-- and has exactly the clients of the table of the sessions: the session of each is offline, at
-- generation 0, with the expiry of its row and without inbound QoS 2 ids, and it has the counter and
-- the queue that the table of the queues has for the client, or 1 and no queue where there is no blob
-- or it does not decode.
pub booted_lem :
    (db : Database) (st : Store db) (now : ℕ) (cfg : RetryConfig) (event_log_max : ℕ)
    → 1 + length (db.numbers.rows st.sessions) < u64_mod
    → HasConsistentTable (booted db st now cfg event_log_max)
      × ((c : Bytes)
          → session_for (booted db st now cfg event_log_max) c
            ≡ session_on_disk db st now cfg c (get c (db.numbers.rows st.sessions)))
unfolding new_hub Store.load_sessions Store.load_inflight
booted_lem db st now cfg event_log_max b =
    let rows = db.numbers.rows st.sessions in
    let ps = Store.load_sessions db st in
    let groups = Store.group_subscriptions (db.texts.rows st.subscriptions) [] in
    let few = length-sessions_of rows groups in
    let base : Hub = record (in_memory cfg event_log_max) {
      retained = load_retained ch_relay.Retained.empty (Store.load_retained db st);
      is_durable = true;
    } in
    let distinct : Distinct ps =
      sessions_of-Distinct rows groups (db.numbers.distinct st.sessions) in
    (
      load_sessions-HasConsistentTable now (Store.load_inflight db st) ps base empty-IsConsistent
          distinct (All-In ps (λ p i. refl)) (omega (arith, b, few)),
      λ c. elim (Option-cases (get c rows)) [
        | inl n ↦ rw n (
            session_for-unknown (booted db st now cfg event_log_max) c (
              load_sessions-index now (Store.load_inflight db st) ps base c
                (others-sessions_of rows groups c n)))
        | inr (expiry, n) ↦ rw n (
            let (p, j, f, g) = In-sessions_of rows groups c expiry n in
            let (i, x, y) =
              load_sessions-there now (Store.load_inflight db st) ps base p j distinct
                (omega (arith, b, few)) in
            ap (session_for (booted db st now cfg event_log_max)) (sym f)
            ∙ session_for-known (booted db st now cfg event_log_max) p.client_id i _ x y
            ∙ rw (f, g)
                (ap some (restore_lem c expiry _ ∙ ap (reloaded c expiry) (decoded_lem now cfg _))))
      ],
    )
