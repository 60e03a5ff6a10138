-- ===== src/Storage/Store.antt =====
-- `Storage` of crates/relay-server/src/storage.rs: its tables, and what each operation does to them
-- in the transaction that it commits.
use ch_relay.Prelude.{
  ℕ, zero, suc, ◌+◌, ◌%◌, ◌^◌, true, false, List, [], ◌∷◌, ◌++◌, map, Option, none, some, keep, ltb,
  if◌then◌else◌, nat_eq,
}
use ch_relay.Prelude.Map.{Map, get, insert, remove}
use ch_relay.Bytes.{Bytes, bytes_eq, is_empty, starts_with, split_once}
use ch_relay.Message.{QoS, Message, at_most_once, as_u8, from_u8}
use ch_relay.Storage.{PersistedSession}
use ch_relay.Storage.Tables.{Database}

abbrev pub key_mod : ℕ
key_mod = 2 ^ 64

-- `SEP`.
abbrev pub sep : ℕ
sep = 0

pub record Store (db : Database) : Type 0 where
  pub retained : db.texts.Table
  pub sessions : db.numbers.Table
  pub subscriptions : db.texts.Table
  pub inflight : db.texts.Table
  pub dead_letters : db.logs.Table
  pub events : db.logs.Table

abbrev or_lowest : Option QoS → QoS
or_lowest none = at_most_once
or_lowest (some q) = q

-- A row of the retained messages, read back; an empty value is passed over.
abbrev pub message_of : Bytes → Bytes → Option Message
message_of topic [] = none
message_of topic (b ∷ payload) =
    some (record { topic = topic; payload = payload; qos = or_lowest (from_u8 b); retain = true })

abbrev cons_some : {A : Type 0} → Option A → List A → List A
cons_some none xs = xs
cons_some (some x) xs = x ∷ xs

unfoldable pub messages_of : Map Bytes Bytes → List Message
messages_of [] = []
messages_of ((topic, value) ∷ rows) = cons_some (message_of topic value) (messages_of rows)

-- The QoS in the first byte of a subscription's value.
abbrev pub qos_of : Bytes → QoS
qos_of [] = at_most_once
qos_of (b ∷ s) = or_lowest (from_u8 b)

abbrev or_nil : {A : Type 0} → Option (List A) → List A
or_nil none = []
or_nil (some xs) = xs

abbrev grouped :
    Map Bytes (List (Bytes × QoS)) → Bytes → Option (Bytes × Bytes) → Map Bytes (List (Bytes × QoS))
grouped m value none = m
grouped m value (some (client_id, raw)) =
    insert client_id (or_nil (get client_id m) ++ (raw, qos_of value) ∷ []) m

-- The subscriptions by client. A key without the separator is passed over.
unfoldable pub group_subscriptions :
    Map Bytes Bytes → Map Bytes (List (Bytes × QoS)) → Map Bytes (List (Bytes × QoS))
group_subscriptions [] m = m
group_subscriptions ((key, value) ∷ rows) m =
    group_subscriptions rows (grouped m value (split_once sep key))

unfoldable pub sessions_of : Map Bytes ℕ → Map Bytes (List (Bytes × QoS)) → List PersistedSession
sessions_of [] m = []
sessions_of ((client_id, expiry_secs) ∷ rows) m =
    record {
      client_id = client_id;
      expiry_secs = expiry_secs;
      subscriptions = or_nil (get client_id m);
    }
    ∷ sessions_of rows (remove client_id m)

-- One past the newest key.
abbrev pub next_key : Option (ℕ × Bytes) → ℕ
next_key none = 0
next_key (some (k, v)) = (k + 1) % key_mod

module _ (db : Database) where
  abbrev texts_remove_all : List Bytes → db.texts.Table → db.texts.Table
  texts_remove_all [] t = t
  texts_remove_all (key ∷ keys) t = texts_remove_all keys (db.texts.remove key t)

  unfoldable pub put_retained : Store db → Bytes → Bytes → QoS → Store db
  put_retained st topic payload q = record st {
    retained =
        if is_empty payload
        then db.texts.remove topic st.retained
        else db.texts.insert topic (as_u8 q ∷ payload) st.retained;
  }

  unfoldable pub load_retained : Store db → List Message
  load_retained st = messages_of (db.texts.rows st.retained)

  unfoldable pub put_session : Store db → Bytes → ℕ → Store db
  put_session st client_id expiry_secs = record st {
    sessions = db.numbers.insert client_id expiry_secs st.sessions;
  }

  unfoldable pub remove_session : Store db → Bytes → Store db
  remove_session st client_id =
      let prefix = client_id ++ sep ∷ [] in
      let keys =
        keep (starts_with prefix)
          (map (λ (row : Bytes × Bytes). row.0) (db.texts.rows st.subscriptions)) in
      record st {
        sessions = db.numbers.remove client_id st.sessions;
        subscriptions = texts_remove_all keys st.subscriptions;
        inflight = db.texts.remove client_id st.inflight;
      }

  abbrev pub subscription_key : Bytes → Bytes → Bytes
  subscription_key client_id raw = client_id ++ sep ∷ raw

  unfoldable pub put_subscription : Store db → Bytes → Bytes → QoS → Store db
  put_subscription st client_id raw q = record st {
    subscriptions = db.texts.insert (client_id ++ sep ∷ raw) (as_u8 q ∷ []) st.subscriptions;
  }

  unfoldable pub remove_subscription : Store db → Bytes → Bytes → Store db
  remove_subscription st client_id raw = record st {
    subscriptions = db.texts.remove (client_id ++ sep ∷ raw) st.subscriptions;
  }

  unfoldable pub put_inflight : Store db → Bytes → Bytes → Store db
  put_inflight st client_id blob = record st {
    inflight =
        if is_empty blob
        then db.texts.remove client_id st.inflight
        else db.texts.insert client_id blob st.inflight;
  }

  unfoldable pub load_inflight : Store db → Map Bytes Bytes
  load_inflight st = db.texts.rows st.inflight

  unfoldable pub append_dead_letter : Store db → Bytes → Store db
  append_dead_letter st blob = record st {
    dead_letters = db.logs.insert (next_key (db.logs.last st.dead_letters)) blob st.dead_letters;
  }

  -- The loop that takes the oldest rows off; each round shortens the table.
  unfoldable pub prune : ℕ → ℕ → db.logs.Table → db.logs.Table
  prune zero retention t = t
  prune (suc fuel) retention t = elim (ltb retention (db.logs.len t)) [
    | false ↦ t
    | true ↦ elim (db.logs.first t) [
      | none ↦ t
      | some (oldest, v) ↦ prune fuel retention (db.logs.remove oldest t)
    ]
  ]

  -- The new offset is returned, too.
  unfoldable pub append_event : Store db → Bytes → ℕ → Store db × ℕ
  unfolding prune
  append_event st blob retention =
      let offset = next_key (db.logs.last st.events) in
      let t = db.logs.insert offset blob st.events in
      (
        record st { events = if ltb 0 retention then prune (db.logs.len t) retention t else t },
        offset,
      )

  unfoldable pub load_events : Store db → ℕ → List (ℕ × Bytes)
  load_events st from = db.logs.from_key from st.events

  unfoldable pub dead_letter_count : Store db → ℕ
  dead_letter_count st = db.logs.len st.dead_letters

  unfoldable pub event_count : Store db → ℕ
  event_count st = db.logs.len st.events

  unfoldable pub next_offset : Store db → ℕ
  next_offset st = next_key (db.logs.last st.events)

  unfoldable pub load_sessions : Store db → List PersistedSession
  load_sessions st =
      sessions_of (db.numbers.rows st.sessions)
        (group_subscriptions (db.texts.rows st.subscriptions) [])
