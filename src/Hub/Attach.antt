-- ===== src/Hub/Attach.antt =====
-- `Hub::connect`, `Hub::detach`, `Hub::purge_if_idle` and `Hub::discard` of
-- crates/relay-server/src/hub.rs.
use ch_relay.Prelude.{
  ℕ, ◌+◌, ◌%◌, Bool, true, false, not, ◌&&◌, List, [], ◌∷◌, ◌++◌, map, Option, none, some, ◌==◌,
  if◌then◌else◌, keep, nat_eq,
}
use ch_relay.Prelude.Map.{get, insert, remove}
use ch_relay.Bytes.{Bytes, codes, bytes_eq}
use ch_relay.Packet.{Packet}
use ch_relay.Router.{ClientId, remove_client}
use ch_relay.Session.{Session, new, retransmit}
use ch_relay.Session.Tick.{drain_undelivered}
use ch_relay.Storage.{PersistOp, remove_session}
use ch_relay.Hub.{Hub, u64_mod, no_expiry, set_session, enqueue_all, persist_meta, forget_persisted}
use ch_relay.Hub.Delivery.{dead_letters}

-- `Connected`; its receiver is the channel of the session.
pub record Connected : Type 0 where
  pub id : ClientId
  pub generation : ℕ
  pub session_present : Bool

-- A new session under the next id, with an empty channel.
unfoldable pub open_session : Hub → Bytes → ℕ → Hub × Connected
open_session h client_id expiry_secs =
    let id = h.next_raw in
    let generation = h.sessions.generation in
    (
      persist_meta
          (record h {
            next_raw = (h.next_raw + 1) % u64_mod;
            sessions = record h.sessions {
              id_of = insert client_id id h.sessions.id_of;
              by_id = insert id (new client_id (some []) expiry_secs generation) h.sessions.by_id;
            };
          })
          client_id expiry_secs,
      record { id = id; generation = generation; session_present = false },
    )

-- A clean start drops the old session and its subscriptions.
unfoldable pub drop_session : Hub → ClientId → Bytes → Hub
drop_session h id client_id =
    forget_persisted
      (record h {
        router = remove_client h.router id;
        sessions = record h.sessions { by_id = remove id h.sessions.by_id };
      })
      client_id

abbrev pub resumed : Hub → ℕ → ℕ → Session → Session
resumed h now expiry_secs s =
    retransmit
      (record s { tx = some []; expiry_secs = expiry_secs; generation = h.sessions.generation }) now
      h.retry

unfoldable pub resume_session : Hub → ℕ → Bytes → ℕ → ClientId → Session → Hub × Connected
resume_session h now client_id expiry_secs id s = (
  persist_meta (set_session h id (resumed h now expiry_secs s)) client_id expiry_secs,
  record { id = id; generation = h.sessions.generation; session_present = true },
)

abbrev pub next_generation : Hub → Hub
next_generation h = record h {
  sessions = record h.sessions { generation = (h.sessions.generation + 1) % u64_mod };
}

-- `none` is the panic of the `expect`: an id in the index without a session in the table.
unfoldable pub connect : Hub → ℕ → Bytes → Bool → ℕ → Option (Hub × Connected)
connect h now client_id clean_start expiry_secs =
    let h' = next_generation h in
    elim (get client_id h.sessions.id_of) [
      | none ↦ some (open_session h' client_id expiry_secs)
      | some id ↦
          if clean_start
          then some (open_session (drop_session h' id client_id) client_id expiry_secs)
          else elim (get id h.sessions.by_id) [
            | none ↦ none
            | some s ↦ some (resume_session h' now client_id expiry_secs id s)
          ]
    ]

abbrev pub removal_ops : Option Session → List PersistOp
removal_ops none = []
removal_ops (some s) = remove_session s.client_id ∷ []

unfoldable pub discard : Hub → ClientId → Hub
discard h id =
    enqueue_all
      (record h {
        router = remove_client h.router id;
        sessions = record h.sessions {
          by_id = remove id h.sessions.by_id;
          id_of = keep (λ (entry : Bytes × ClientId). not (entry.1 == id)) h.sessions.id_of;
        };
      })
      (removal_ops (get id h.sessions.by_id))

-- What a detachment does to the session of this connection.
unfoldable pub leave : Hub → ClientId → Session → Hub
leave h id s =
    let h' = set_session h id (record s { tx = none }) in
    if s.expiry_secs == 0
    then discard h' id
    else if s.expiry_secs == no_expiry
    then h'
    else record h' {
      purges =
          h.purges
          ++ record { after_secs = s.expiry_secs; id = id; generation = s.generation } ∷ [];
    }

unfoldable pub detach : Hub → ClientId → ℕ → Hub
detach h id generation = elim (get id h.sessions.by_id) [
  | none ↦ h
  | some s ↦ if s.generation == generation then leave h id s else h
]

abbrev pub is_offline : Option (List Packet) → Bool
is_offline none = true
is_offline (some sent) = false

-- What could not be delivered is dead-lettered after the session is gone.
unfoldable pub purge : Hub → ℕ → ℕ → ClientId → Session → Hub
purge h now ts id s =
    let (s', dead) = drain_undelivered s in
    dead_letters (discard (set_session h id s') id) now ts (codes "session_expired")
      (map (λ d. (s.client_id, d)) dead)

unfoldable pub purge_if_idle : Hub → ℕ → ℕ → ClientId → ℕ → Hub
purge_if_idle h now ts id generation = elim (get id h.sessions.by_id) [
  | none ↦ h
  | some s ↦ if s.generation == generation && is_offline s.tx then purge h now ts id s else h
]
