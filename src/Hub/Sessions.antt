-- ===== src/Hub/Sessions.antt =====
-- Every operation that ends or begins a connection, and every request of one, keeps the indices of
-- the hub of crates/relay-server/src/hub.rs consistent; so does the timer.
use ch_relay.Prelude.{
  ℕ, ◌+◌, ◌%◌, ◌<◌, ◌≡◌, refl, ◌∙◌, Bool, ◌&&◌, [], ◌∷◌, none, some, ◌==◌, arith, Bool-cases,
  Option-cases, inl, inr, nat_eq,
}
use ch_relay.Prelude.Map.{Map, get}
use ch_relay.Bytes.{Bytes, codes, bytes_eq}
use ch_relay.Retry.{RetryConfig}
use ch_relay.Router.{ClientId}
use ch_relay.Session.{Session, new, retransmit}
use ch_relay.Session.Tick.{tick_retries, drain_undelivered}
use ch_relay.Hub.{Hub, u64_mod, no_expiry, set_session}
use ch_relay.Hub.Attach.{
  Connected, open_session, drop_session, resume_session, next_generation, connect, discard, leave,
  detach, purge, purge_if_idle, is_offline,
}
use ch_relay.Hub.Timers.{tick_session, tick_sessions, run_retries}
use ch_relay.Hub.Requests.{acknowledge, inbound_qos2_seen, inbound_qos2_release}
use ch_relay.Hub.Consistency.{
  IsConsistent, update-IsConsistent, open-IsConsistent, discard-IsConsistent, restart-IsConsistent,
}
use ch_relay.Hub.Keeps.{HasConsistentTable, dead_letters-HasConsistentTable}

pub acknowledge-HasConsistentTable :
    (f : Session → Session) (h : Hub) (id : ClientId)
    → ((s : Session) → (f s).client_id ≡ s.client_id)
    → HasConsistentTable h
    → HasConsistentTable (acknowledge f h id)
acknowledge-HasConsistentTable f h id same v = elim (Option-cases (get id h.sessions.by_id)) [
  | inl e ↦ rw (e, acknowledge) v
  | inr (s, e) ↦ rw (e, acknowledge) (update-IsConsistent v id s (f s) e (same s))
]

pub inbound_qos2_seen-HasConsistentTable :
    (h : Hub) (id : ClientId) (pid : ℕ)
    → HasConsistentTable h
    → HasConsistentTable (inbound_qos2_seen h id pid).0
unfolding inbound_qos2_seen
inbound_qos2_seen-HasConsistentTable h id pid v = elim (Option-cases (get id h.sessions.by_id)) [
  | inl e ↦ rw (e, inbound_qos2_seen) v
  | inr (s, e) ↦ rw (e, inbound_qos2_seen) (update-IsConsistent v id s _ e refl)
]

pub inbound_qos2_release-HasConsistentTable :
    (h : Hub) (id : ClientId) (pid : ℕ)
    → HasConsistentTable h
    → HasConsistentTable (inbound_qos2_release h id pid)
unfolding inbound_qos2_release
inbound_qos2_release-HasConsistentTable h id pid v = elim (Option-cases (get id h.sessions.by_id)) [
  | inl e ↦ rw (e, inbound_qos2_release) v
  | inr (s, e) ↦ rw (e, inbound_qos2_release) (update-IsConsistent v id s _ e refl)
]

discard-HasConsistentTable :
    (h : Hub) (id : ClientId) → HasConsistentTable h → HasConsistentTable (discard h id)
unfolding discard
discard-HasConsistentTable h id v = discard-IsConsistent v id

leave-HasConsistentTable :
    (h : Hub) (id : ClientId) (s : Session)
    → get id h.sessions.by_id ≡ some s
    → HasConsistentTable h
    → HasConsistentTable (leave h id s)
unfolding leave
leave-HasConsistentTable h id s e v =
    let w : HasConsistentTable (set_session h id (record s { tx = none })) =
      update-IsConsistent v id s _ e refl in
    elim (Bool-cases (s.expiry_secs == 0)) [
      | inl p ↦ rw (p, leave) (discard-HasConsistentTable _ id w)
      | inr p ↦ elim (Bool-cases (s.expiry_secs == no_expiry)) [
        | inl q ↦ rw (p, q, leave) w
        | inr q ↦ rw (p, q, leave) w
      ]
    ]

pub detach-HasConsistentTable :
    (h : Hub) (id : ClientId) (generation : ℕ)
    → HasConsistentTable h
    → HasConsistentTable (detach h id generation)
unfolding detach
detach-HasConsistentTable h id generation v = elim (Option-cases (get id h.sessions.by_id)) [
  | inl e ↦ rw (e, detach) v
  | inr (s, e) ↦ elim (Bool-cases (s.generation == generation)) [
    | inl p ↦ rw (e, p, detach) (leave-HasConsistentTable h id s e v)
    | inr p ↦ rw (e, p, detach) v
  ]
]

purge-HasConsistentTable :
    (h : Hub) (now ts : ℕ) (id : ClientId) (s : Session)
    → get id h.sessions.by_id ≡ some s
    → HasConsistentTable h
    → HasConsistentTable (purge h now ts id s)
unfolding purge drain_undelivered
purge-HasConsistentTable h now ts id s e v =
    dead_letters-HasConsistentTable _ now ts (codes "session_expired") _
      (discard-HasConsistentTable _ id (update-IsConsistent v id s _ e refl))

-- A purge, with the dead letters that it publishes, leaves the indices consistent.
pub purge_if_idle-HasConsistentTable :
    (h : Hub) (now ts : ℕ) (id : ClientId) (generation : ℕ)
    → HasConsistentTable h
    → HasConsistentTable (purge_if_idle h now ts id generation)
unfolding purge_if_idle
purge_if_idle-HasConsistentTable h now ts id generation v =
    elim (Option-cases (get id h.sessions.by_id)) [
      | inl e ↦ rw (e, purge_if_idle) v
      | inr (s, e) ↦ elim (Bool-cases (s.generation == generation && is_offline s.tx)) [
        | inl p ↦ rw (e, p, purge_if_idle) (purge-HasConsistentTable h now ts id s e v)
        | inr p ↦ rw (e, p, purge_if_idle) v
      ]
    ]

tick_session-client_id :
    (durable : Bool) (cfg : RetryConfig) (now : ℕ) (s : Session)
    → (tick_session durable cfg now s).0.client_id ≡ s.client_id
unfolding tick_session
tick_session-client_id durable cfg now s = elim (Option-cases s.tx) [
  | inl e ↦ rw (e, tick_session) refl
  | inr (sent, e) ↦ rw (e, tick_session) (unfold tick_retries in refl)
]

-- Each session is replaced by itself after a tick.
pub get-tick_sessions :
    (durable : Bool) (cfg : RetryConfig) (now : ℕ) (table : Map ClientId Session) (i : ClientId)
    → get i (tick_sessions durable cfg now table).0
      ≡ elim (get i table) [ none ↦ none | some s ↦ some (tick_session durable cfg now s).0 ]
unfolding tick_sessions
get-tick_sessions durable cfg now [] i = refl
get-tick_sessions durable cfg now ((id, s) ∷ table) i =
    ground (arith, get-tick_sessions durable cfg now table i)

tick_sessions-IsConsistent :
    (durable : Bool) (cfg : RetryConfig) (now n : ℕ) (id_of : Map Bytes ClientId)
    (table : Map ClientId Session)
    → IsConsistent n table id_of
    → IsConsistent n (tick_sessions durable cfg now table).0 id_of
tick_sessions-IsConsistent durable cfg now n id_of table v = record {
  keys = v.keys;
  forward = λ c i h.
      let (s, k, e) = v.forward c i h in
      (
        (tick_session durable cfg now s).0,
        get-tick_sessions durable cfg now table i ∙ rw k refl,
        tick_session-client_id durable cfg now s ∙ e,
      );
  backward = λ i s' g.
      let (s, k, e) = before i s' g in
      ground (arith, v.backward i s k, tick_session-client_id durable cfg now s);
  below = λ i s' g. let (s, k, e) = before i s' g in v.below i s k;
}
  where
    before :
        (i : ClientId) (s' : Session)
        → get i (tick_sessions durable cfg now table).0 ≡ some s'
        → (s : Session) × (get i table ≡ some s) × (s' ≡ (tick_session durable cfg now s).0)
    before i s' g = elim (Option-cases (get i table)) [
      | inl e ↦ absurd (ground (arith, get-tick_sessions durable cfg now table i))
      | inr (s, e) ↦ (s, e, ground (arith, get-tick_sessions durable cfg now table i))
    ]

-- The redelivery timer, with the dead letters that it publishes, leaves the indices consistent.
pub run_retries-HasConsistentTable :
    (h : Hub) (now ts : ℕ) → HasConsistentTable h → HasConsistentTable (run_retries h now ts)
unfolding run_retries
run_retries-HasConsistentTable h now ts v =
    dead_letters-HasConsistentTable _ now ts (codes "max_delivery_attempts_exceeded") _ (
      tick_sessions-IsConsistent h.is_durable h.retry now h.next_raw h.sessions.id_of
        h.sessions.by_id v)

-- On a hub with consistent indices `connect` finds the session of every id in the index and returns,
-- whether it opens, restarts or resumes the session, and the indices are consistent again. At most one id is used; the
-- next one must still be a `u64`.
pub connect-HasConsistentTable :
    (h : Hub) (now : ℕ) (client_id : Bytes) (clean_start : Bool) (expiry_secs : ℕ)
    → HasConsistentTable h
    → h.next_raw + 1 < u64_mod
    → (r : Hub × Connected) × (connect h now client_id clean_start expiry_secs ≡ some r)
      × HasConsistentTable r.0
      × (r.0.next_raw < h.next_raw + 2)
unfolding connect open_session drop_session resume_session retransmit
connect-HasConsistentTable h now client_id clean_start expiry_secs v b =
    let next : (h.next_raw + 1) % u64_mod ≡ h.next_raw + 1 = omega arith in
    elim (Option-cases (get client_id h.sessions.id_of)) [
      | inl e ↦ (
        open_session (next_generation h) client_id expiry_secs,
        rw (e, connect) refl,
        rw next (open-IsConsistent v (new client_id (some []) expiry_secs _) e),
        omega arith,
      )
      | inr (id, e) ↦ elim (Bool-cases clean_start) [
        | inl p ↦ (
          open_session (drop_session (next_generation h) id client_id) client_id expiry_secs,
          rw (e, p, connect) refl,
          rw next (restart-IsConsistent v id (new client_id (some []) expiry_secs _) e),
          omega arith,
        )
        | inr p ↦
            let (s, g, c) = v.forward client_id id e in
            (
              resume_session (next_generation h) now client_id expiry_secs id s,
              rw (e, p, g, connect) refl,
              update-IsConsistent v id s _ g refl,
              omega arith,
            )
      ]
    ]
