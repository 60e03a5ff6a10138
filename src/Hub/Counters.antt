-- ===== src/Hub/Counters.antt =====
-- Connections, their requests and the timers keep the sessions of the hub of
-- crates/relay-server/src/hub.rs valid.
use ch_relay.Prelude.{
  ℕ, ◌≡◌, refl, Bool, ◌&&◌, [], ◌∷◌, none, some, ◌==◌, Bool-cases, Option-cases, inl, inr, nat_eq,
  subst,
}
use ch_relay.Prelude.Map.{Map, get, insert, remove-AllValues}
use ch_relay.Bytes.{Bytes, codes, bytes_eq}
use ch_relay.Retry.{RetryConfig}
use ch_relay.Router.{ClientId}
use ch_relay.Session.{Session}
use ch_relay.Session.Tick.{drain_undelivered}
use ch_relay.Session.PacketIds.{IsValid, new-IsValid, retransmit-IsValid}
use ch_relay.Session.Steps.{tick_retries-IsValid, drain_undelivered-IsValid}
use ch_relay.Hub.{Hub, no_expiry, set_session}
use ch_relay.Hub.Attach.{
  Connected, open_session, drop_session, resume_session, resumed, next_generation, connect, discard,
  leave, detach, purge, purge_if_idle, is_offline,
}
use ch_relay.Hub.Timers.{tick_session, tick_sessions, run_retries}
use ch_relay.Hub.Requests.{acknowledge, inbound_qos2_seen, inbound_qos2_release}
use ch_relay.Hub.Validity.{
  AreValid, HasValidSessions, put-AreValid, got-IsValid, dead_letters-HasValidSessions,
}

pub acknowledge-HasValidSessions :
    (f : Session → Session) (h : Hub) (id : ClientId)
    → ((s : Session) → IsValid s → IsValid (f s))
    → HasValidSessions h
    → HasValidSessions (acknowledge f h id)
acknowledge-HasValidSessions f h id kept v = elim (Option-cases (get id h.sessions.by_id)) [
  | inl e ↦ rw (e, acknowledge) v
  | inr (s, e) ↦
      rw (e, acknowledge)
        (put-AreValid id (f s) h.sessions.by_id (kept s (got-IsValid id s h.sessions.by_id v e)) v)
]

-- What leaves the counter and the queue of a session as they are.
put-same :
    (id : ClientId) (s s' : Session) (table : Map ClientId Session)
    → AreValid table
    → get id table ≡ some s
    → s'.next_id ≡ s.next_id
    → s'.inflight ≡ s.inflight
    → AreValid (insert id s' table)
put-same id s s' table v e n q =
    let k = got-IsValid id s table v e in
    put-AreValid id s' table (record { counter = rw n k.counter; entries = rw q k.entries }) v

pub inbound_qos2_seen-HasValidSessions :
    (h : Hub) (id : ClientId) (pid : ℕ)
    → HasValidSessions h
    → HasValidSessions (inbound_qos2_seen h id pid).0
unfolding inbound_qos2_seen
inbound_qos2_seen-HasValidSessions h id pid v = elim (Option-cases (get id h.sessions.by_id)) [
  | inl e ↦ rw (e, inbound_qos2_seen) v
  | inr (s, e) ↦ rw (e, inbound_qos2_seen) (put-same id s _ h.sessions.by_id v e refl refl)
]

pub inbound_qos2_release-HasValidSessions :
    (h : Hub) (id : ClientId) (pid : ℕ)
    → HasValidSessions h
    → HasValidSessions (inbound_qos2_release h id pid)
unfolding inbound_qos2_release
inbound_qos2_release-HasValidSessions h id pid v = elim (Option-cases (get id h.sessions.by_id)) [
  | inl e ↦ rw (e, inbound_qos2_release) v
  | inr (s, e) ↦ rw (e, inbound_qos2_release) (put-same id s _ h.sessions.by_id v e refl refl)
]

discard-HasValidSessions :
    (h : Hub) (id : ClientId) → HasValidSessions h → HasValidSessions (discard h id)
unfolding discard
discard-HasValidSessions h id v = remove-AllValues IsValid id h.sessions.by_id v

leave-HasValidSessions :
    (h : Hub) (id : ClientId) (s : Session)
    → get id h.sessions.by_id ≡ some s
    → HasValidSessions h
    → HasValidSessions (leave h id s)
unfolding leave
leave-HasValidSessions h id s e v =
    let w : HasValidSessions (set_session h id (record s { tx = none })) =
      put-same id s _ h.sessions.by_id v e refl refl in
    elim (Bool-cases (s.expiry_secs == 0)) [
      | inl p ↦ rw (p, leave) (discard-HasValidSessions _ id w)
      | inr p ↦ elim (Bool-cases (s.expiry_secs == no_expiry)) [
        | inl q ↦ rw (p, q, leave) w
        | inr q ↦ rw (p, q, leave) w
      ]
    ]

pub detach-HasValidSessions :
    (h : Hub) (id : ClientId) (generation : ℕ)
    → HasValidSessions h
    → HasValidSessions (detach h id generation)
unfolding detach
detach-HasValidSessions h id generation v = elim (Option-cases (get id h.sessions.by_id)) [
  | inl e ↦ rw (e, detach) v
  | inr (s, e) ↦ elim (Bool-cases (s.generation == generation)) [
    | inl p ↦ rw (e, p, detach) (leave-HasValidSessions h id s e v)
    | inr p ↦ rw (e, p, detach) v
  ]
]

purge-HasValidSessions :
    (h : Hub) (now ts : ℕ) (id : ClientId) (s : Session)
    → get id h.sessions.by_id ≡ some s
    → HasValidSessions h
    → HasValidSessions (purge h now ts id s)
unfolding purge
purge-HasValidSessions h now ts id s e v =
    dead_letters-HasValidSessions _ now ts (codes "session_expired") _ (
      discard-HasValidSessions (set_session h id (drain_undelivered s).0) id (
        put-AreValid id _ h.sessions.by_id
          (drain_undelivered-IsValid s (got-IsValid id s h.sessions.by_id v e)) v))

pub purge_if_idle-HasValidSessions :
    (h : Hub) (now ts : ℕ) (id : ClientId) (generation : ℕ)
    → HasValidSessions h
    → HasValidSessions (purge_if_idle h now ts id generation)
unfolding purge_if_idle
purge_if_idle-HasValidSessions h now ts id generation v =
    elim (Option-cases (get id h.sessions.by_id)) [
      | inl e ↦ rw (e, purge_if_idle) v
      | inr (s, e) ↦ elim (Bool-cases (s.generation == generation && is_offline s.tx)) [
        | inl p ↦ rw (e, p, purge_if_idle) (purge-HasValidSessions h now ts id s e v)
        | inr p ↦ rw (e, p, purge_if_idle) v
      ]
    ]

tick_session-IsValid :
    (durable : Bool) (cfg : RetryConfig) (now : ℕ) (s : Session)
    → IsValid s
    → IsValid (tick_session durable cfg now s).0
unfolding tick_session
tick_session-IsValid durable cfg now s v = elim (Option-cases s.tx) [
  | inl e ↦ rw (e, tick_session) v
  | inr (sent, e) ↦ rw (e, tick_session) (tick_retries-IsValid cfg s now v)
]

tick_sessions-AreValid :
    (durable : Bool) (cfg : RetryConfig) (now : ℕ) (table : Map ClientId Session)
    → AreValid table
    → AreValid (tick_sessions durable cfg now table).0
unfolding tick_sessions
tick_sessions-AreValid durable cfg now [] v = tt
tick_sessions-AreValid durable cfg now ((id, s) ∷ table) v =
    (tick_session-IsValid durable cfg now s v.0, tick_sessions-AreValid durable cfg now table v.1)

pub run_retries-HasValidSessions :
    (h : Hub) (now ts : ℕ) → HasValidSessions h → HasValidSessions (run_retries h now ts)
unfolding run_retries
run_retries-HasValidSessions h now ts v =
    dead_letters-HasValidSessions _ now ts (codes "max_delivery_attempts_exceeded") _
      (tick_sessions-AreValid h.is_durable h.retry now h.sessions.by_id v)

resumed-IsValid :
    (h : Hub) (now expiry_secs : ℕ) (s : Session)
    → IsValid s
    → IsValid (resumed h now expiry_secs s)
resumed-IsValid h now expiry_secs s v =
    retransmit-IsValid _ (record { counter = v.counter; entries = v.entries }) now h.retry

pub connect-HasValidSessions :
    (h : Hub) (now : ℕ) (client_id : Bytes) (clean_start : Bool) (expiry_secs : ℕ)
    (r : Hub × Connected)
    → connect h now client_id clean_start expiry_secs ≡ some r
    → HasValidSessions h
    → HasValidSessions r.0
unfolding connect open_session drop_session resume_session
connect-HasValidSessions h now client_id clean_start expiry_secs r c v =
    let fresh =
      new-IsValid client_id (some []) expiry_secs (next_generation h).sessions.generation in
    elim (Option-cases (get client_id h.sessions.id_of)) [
      | inl e ↦
          let l = open_session (next_generation h) client_id expiry_secs in
          let got : some l ≡ some r = rw (e, connect) at c in
          arrive l got (put-AreValid h.next_raw _ h.sessions.by_id fresh v)
      | inr (id, e) ↦ elim (Bool-cases clean_start) [
        | inl p ↦
            let l =
              open_session (drop_session (next_generation h) id client_id) client_id expiry_secs in
            let got : some l ≡ some r = rw (e, p, connect) at c in
            arrive l got
              (put-AreValid h.next_raw _ _ fresh (remove-AllValues IsValid id h.sessions.by_id v))
        | inr p ↦ elim (Option-cases (get id h.sessions.by_id)) [
          | inl g ↦ let never : none ≡ some r = rw (e, p, g, connect) at c in absurd (cc)
          | inr (s, g) ↦
              let l = resume_session (next_generation h) now client_id expiry_secs id s in
              let got : some l ≡ some r = rw (e, p, g, connect) at c in
              arrive l got (
                put-AreValid id _ h.sessions.by_id
                  (resumed-IsValid (next_generation h) now expiry_secs s
                    (got-IsValid id s h.sessions.by_id v g))
                  v)
        ]
      ]
    ]
  where
    arrive : (l : Hub × Connected) → some l ≡ some r → HasValidSessions l.0 → HasValidSessions r.0
    arrive l e w = let same : l ≡ r = cc in subst (λ x. HasValidSessions x.0) same w
