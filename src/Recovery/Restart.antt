-- ===== src/Recovery/Restart.antt =====
-- A restart of the broker: `Hub::new` of crates/relay-server/src/hub.rs on what the worker of
-- crates/relay-server/src/storage.rs has written.
use ch_relay.Prelude.{
  ℕ, ◌≡◌, refl, ◌∙◌, ap, sym, subst, true, List, [], ◌∷◌, Option, none, some, arith, Bool-cases,
  Option-cases, inl, inr, if◌then◌else◌,
}
use ch_relay.Prelude.Map.{Map, get, Lacks, HasUniqueKeys}
use ch_relay.Bytes.{Bytes, bytes_eq, bytes_beq, bytes_beq_iff}
use ch_relay.Retained.{RetainedStore, empty}
use ch_relay.Retained.Contents.{retained_for, retained_for-apply}
use ch_relay.Retry.{RetryConfig}
use ch_relay.Hub.{Hub}
use ch_relay.Hub.Startup.{Loaded, new_hub, load_retained, load_sessions, or_nothing}
use ch_relay.Hub.Steps.{Call, step}
use ch_relay.Storage.{PersistedSession}
use ch_relay.Storage.Tables.{Database}
use ch_relay.Storage.Store.{Store, message_of, messages_of}
use ch_relay.Storage.Store
use ch_relay.Storage.Worker.{run_worker}
use ch_relay.Recovery.{row_message, unless_empty, on_disk, drained, Mirrors}
use ch_relay.Recovery.Calls.{step-Mirrors}

message_of_lem :
    (topic value : Bytes) (s : RetainedStore) (other : Bytes)
    → retained_for (load_retained s (messages_of ((topic, value) ∷ []))) other ≡ (
        if bytes_beq topic other
        then elim (message_of topic value) [
          | none ↦ retained_for s other
          | some m ↦ unless_empty (some m)
        ]
        else retained_for s other)
unfolding messages_of load_retained
message_of_lem topic [] s other = ground arith
message_of_lem topic (b ∷ payload) s other = retained_for-apply s _ other

load-cons :
    (topic value : Bytes) (rows : Map Bytes Bytes) (s : RetainedStore)
    → load_retained s (messages_of ((topic, value) ∷ rows))
      ≡ load_retained (load_retained s (messages_of ((topic, value) ∷ []))) (messages_of rows)
unfolding messages_of load_retained
load-cons topic [] rows s = refl
load-cons topic (b ∷ payload) rows s = refl

load-absent :
    (rows : Map Bytes Bytes) (s : RetainedStore) (topic : Bytes)
    → Lacks topic rows
    → retained_for (load_retained s (messages_of rows)) topic ≡ retained_for s topic
load-absent [] s topic l = unfold messages_of load_retained in refl
load-absent ((t, value) ∷ rows) s topic l =
    ap (λ r. retained_for r topic) (load-cons t value rows s)
    ∙ load-absent rows (load_retained s (messages_of ((t, value) ∷ []))) topic l.1
    ∙ message_of_lem t value s topic
    ∙ rw (l.0) refl

-- The table of the retained messages, loaded into a store without the topic.
load_lem :
    (rows : Map Bytes Bytes) (s : RetainedStore) (topic : Bytes)
    → HasUniqueKeys rows
    → retained_for s topic ≡ none
    → retained_for (load_retained s (messages_of rows)) topic ≡ row_message topic (get topic rows)
load_lem [] s topic u h = unfold messages_of load_retained in h
load_lem ((t, value) ∷ rows) s topic u h =
    let first = message_of_lem t value s topic in
    let next = load_retained s (messages_of ((t, value) ∷ [])) in
    ap (λ r. retained_for r topic) (load-cons t value rows s)
    ∙ elim (Bool-cases (bytes_beq t topic)) [
      | inl e ↦
          let same : t ≡ topic = (bytes_beq_iff t topic).0 e in
          load-absent rows next topic (subst (λ k. Lacks k rows) same u.0)
          ∙ first
          ∙ here value same e
      | inr e ↦
          let clear : retained_for next topic ≡ none = ground (arith, first, e, h) in
          load_lem rows next topic u.1 clear ∙ rw e refl
    ]
  where
    here :
        (v : Bytes)
        → t ≡ topic
        → bytes_beq t topic ≡ true
        → (if bytes_beq t topic
            then elim (message_of t v) [
              | none ↦ retained_for s topic
              | some m ↦ unless_empty (some m)
            ]
            else retained_for s topic)
          ≡ row_message topic (get topic ((t, v) ∷ rows))
    here [] same e = rw e h
    here (b ∷ payload) same e = rw e (ap (λ k. unless_empty (message_of k (b ∷ payload))) same)

pub load_sessions_lem :
    (now : ℕ) (inflight : Map Bytes Bytes) (persisted : List PersistedSession) (h : Hub)
    → ((load_sessions now inflight h persisted).retained ≡ h.retained)
      × ((load_sessions now inflight h persisted).is_durable ≡ h.is_durable)
      × ((load_sessions now inflight h persisted).queue ≡ h.queue)
unfolding load_sessions
load_sessions_lem now inflight [] h = (refl, refl, refl)
load_sessions_lem now inflight (ps ∷ persisted) h = load_sessions_lem now inflight persisted _

-- What the storage loads at startup. The in-flight queues and the sessions may be any.
abbrev pub loaded :
    (db : Database) → Store db → Option (Map Bytes Bytes) → Option (List PersistedSession) → Loaded
loaded db st inflight persisted = record {
  messages = some (Store.load_retained db st);
  inflight = inflight;
  persisted = persisted;
}

module _ (db : Database) (inflight : Option (Map Bytes Bytes))
    (persisted : Option (List PersistedSession)) (now : ℕ) (cfg : RetryConfig)
    (event_log_max : ℕ) where
  abbrev pub started : Store db → Hub
  started st = new_hub (some (loaded db st inflight persisted)) now cfg event_log_max

  started-retained :
      (st : Store db) (topic : Bytes)
      → retained_for (started st).retained topic ≡ on_disk db st topic
  unfolding new_hub ch_relay.Storage.Store.load_retained
  started-retained st topic =
      ap (λ r. retained_for r topic)
        (load_sessions_lem now (or_nothing inflight) (or_nothing persisted) _).0
      ∙ load_lem (db.texts.rows st.retained) empty topic (db.texts.distinct st.retained) refl

  pub started-Mirrors : (st : Store db) → Mirrors db st (started st)
  unfolding new_hub
  started-Mirrors st =
      let (r, d, q) = load_sessions_lem now (or_nothing inflight) (or_nothing persisted) _ in
      (
        d,
        λ topic.
            ap (λ ops. on_disk db (drained db st ops) topic) q
            ∙ unfold run_worker in sym (started-retained st topic),
      )

-- Calls and timers, one after the other; `none` is a panic.
unfoldable pub run_hub : Hub → List Call → Option Hub
run_hub h [] = some h
run_hub h (c ∷ calls) = elim (step h c) [ none ↦ none | some h' ↦ run_hub h' calls ]

run_hub-Mirrors :
    (db : Database) (st : Store db) (calls : List Call) (h h' : Hub)
    → Mirrors db st h
    → run_hub h calls ≡ some h'
    → Mirrors db st h'
unfolding run_hub
run_hub-Mirrors db st [] h h' v e = let same : h ≡ h' = cc in subst (Mirrors db st) same v
run_hub-Mirrors db st (c ∷ calls) h h' v e = elim (Option-cases (step h c)) [
  | inl n ↦ let k : none ≡ some h' = rw (n, run_hub) at e in absurd (cc)
  | inr (k, n) ↦
      run_hub-Mirrors db st calls k h' (step-Mirrors db st h c k v n) (rw (n, run_hub) at e)
]

-- A broker that is started on a storage, has done whatever it was called to do, and is started again
-- once its queue is written, with every transaction committed, has the retained messages that it had.
pub restart_lem :
    (db : Database) (inflight : Option (Map Bytes Bytes))
    (persisted : Option (List PersistedSession)) (now : ℕ) (cfg : RetryConfig) (event_log_max : ℕ)
    (st : Store db) (calls : List Call) (h : Hub)
    → run_hub (started db inflight persisted now cfg event_log_max st) calls ≡ some h
    → (topic : Bytes)
    → retained_for
        (started db inflight persisted now cfg event_log_max (drained db st h.queue)).retained
        topic
      ≡ retained_for h.retained topic
restart_lem db inflight persisted now cfg event_log_max st calls h e topic =
    let start = started db inflight persisted now cfg event_log_max st in
    started-retained db inflight persisted now cfg event_log_max (drained db st h.queue) topic
    ∙ (run_hub-Mirrors db st calls start h
          (started-Mirrors db inflight persisted now cfg event_log_max st) e).1
        topic
