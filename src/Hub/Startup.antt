-- ===== src/Hub/Startup.antt =====
-- `Hub::new` of crates/relay-server/src/hub.rs, with what the storage loads as arguments; `none` is a
-- table that could not be read.
use ch_relay.Prelude.{
  ℕ, ◌+◌, ◌%◌, true, false, List, [], ◌∷◌, ◌++◌, Option, none, some, ◌==◌, if◌then◌else◌, nat_eq,
}
use ch_relay.Prelude.Map.{Map, get, insert}
use ch_relay.Bytes.{Bytes, bytes_eq}
use ch_relay.Topic.{TopicFilter, SharedSubscription, parse, parse_shared}
use ch_relay.Message.{QoS, Message}
use ch_relay.Router.{Router, ClientId, subscribe, subscribe_shared}
use ch_relay.Retained.{RetainedStore, apply}
use ch_relay.Retry.{RetryConfig}
use ch_relay.Session.{Session, InflightEntry, new}
use ch_relay.Codec.{decode_inflight}
use ch_relay.Storage.{PersistedSession}
use ch_relay.Hub.{Hub, no_expiry, u64_mod}

unfoldable pub load_retained : RetainedStore → List Message → RetainedStore
load_retained store [] = store
load_retained store (m ∷ ms) = load_retained (apply store m) ms

abbrev pub load_plain : Router → ClientId → QoS → Option TopicFilter → Router
load_plain r id q none = r
load_plain r id q (some filter) = subscribe r id filter q

-- A text that is no filter is passed over.
abbrev pub load_subscription : Router → ClientId → Bytes → QoS → Option SharedSubscription → Router
load_subscription r id raw q none = load_plain r id q (parse raw)
load_subscription r id raw q (some shared) = subscribe_shared r shared.group id shared.filter q

unfoldable pub load_subscriptions : Router → ClientId → List (Bytes × QoS) → Router
load_subscriptions r id [] = r
load_subscriptions r id ((raw, q) ∷ subs) =
    load_subscriptions (load_subscription r id raw q (parse_shared raw)) id subs

-- The counter and the queue of a blob, if there is one that decodes.
abbrev pub restore : Session → Option (ℕ × List InflightEntry) → Session
restore s none = s
restore s (some (next_id, queue)) = record s { next_id = next_id; inflight = queue }

abbrev pub decoded : ℕ → RetryConfig → Option Bytes → Option (ℕ × List InflightEntry)
decoded now cfg none = none
decoded now cfg (some blob) = decode_inflight blob now cfg

abbrev pub session_of : ℕ → Map Bytes Bytes → RetryConfig → PersistedSession → Session
session_of now inflight cfg ps =
    restore (new ps.client_id none ps.expiry_secs 0) (decoded now cfg (get ps.client_id inflight))

-- Every session is there again, offline and at generation 0.
unfoldable pub load_sessions : ℕ → Map Bytes Bytes → Hub → List PersistedSession → Hub
load_sessions now inflight h [] = h
load_sessions now inflight h (ps ∷ sessions) =
    let id = h.next_raw in
    let session = session_of now inflight h.retry ps in
    load_sessions now inflight
      (record h {
        next_raw = (id + 1) % u64_mod;
        router = load_subscriptions h.router id ps.subscriptions;
        sessions = record h.sessions {
          id_of = insert ps.client_id id h.sessions.id_of;
          by_id = insert id session h.sessions.by_id;
        };
        purges =
            if ps.expiry_secs == no_expiry
            then h.purges
            else h.purges ++ record { after_secs = ps.expiry_secs; id = id; generation = 0 } ∷ [];
      })
      sessions

-- What is on disk at startup.
pub record Loaded : Type 0 where
  pub messages : Option (List Message)
  pub inflight : Option (Map Bytes Bytes)
  pub persisted : Option (List PersistedSession)

abbrev pub or_nothing {ℓ} : {A : Type ℓ} → Option (List A) → List A
or_nothing none = []
or_nothing (some xs) = xs

abbrev pub in_memory : RetryConfig → ℕ → Hub
in_memory cfg event_log_max = record {
  next_raw = 1;
  router = ch_relay.Router.empty;
  retained = ch_relay.Retained.empty;
  sessions = record { by_id = []; id_of = []; generation = 0 };
  is_durable = false;
  queue = [];
  purges = [];
  retry = cfg;
  event_log_max = event_log_max;
}

unfoldable pub new_hub : Option Loaded → ℕ → RetryConfig → ℕ → Hub
new_hub none now cfg event_log_max = in_memory cfg event_log_max
new_hub (some loaded) now cfg event_log_max =
    load_sessions now (or_nothing loaded.inflight)
      (record (in_memory cfg event_log_max) {
        retained = load_retained ch_relay.Retained.empty (or_nothing loaded.messages);
        is_durable = true;
      })
      (or_nothing loaded.persisted)
