-- ===== src/Connection/Reconnects.antt =====
-- A second CONNECT on a connection of crates/relay-server/src/connection.rs.
use mathlib.Core.List.{append-nil}
use ch_relay.Prelude.{
  List, keep, keep-append, ap, ℕ, ◌≡◌, ◌≢◌, ◌∙◌, refl, Bool, true, [], ◌∷◌, none, some, arith, ◌==◌,
  ==_iff, ◌++◌, Bool-cases, Option-cases, inl, inr, nat_eq,
}
use ch_relay.Prelude.Map.{get, get-insert, get-remove, insert, remove}
use ch_relay.Prelude.Results.{ok}
use ch_relay.Bytes.{Bytes, bytes_eq}
use ch_relay.Auth.{Principal}
use ch_relay.Router.{ClientId}
use ch_relay.Session.{Session, new}
use ch_relay.Hub.{Hub, Purge, u64_mod, no_expiry}
use ch_relay.Hub.Attach.{
  Connected, connect, open_session, drop_session, resume_session, next_generation, resumed, discard,
  leave, detach,
}
use ch_relay.Hub.Keeps.{HasConsistentTable}
use ch_relay.Connection.{Env, Conn, Turn, continues, Moment, Connect, Inbound, connects, reply}
use ch_relay.Connection.Turns.{handle_packet, on_connect, authenticated, identified, will_allowed}
use ch_relay.Connection.Serving.{finish}

discard-others :
    (h : Hub) (id d : ClientId)
    → d ≢ id
    → get d (discard h id).sessions.by_id ≡ get d h.sessions.by_id
unfolding discard
discard-others h id d ne = ground (arith, get-remove id d h.sessions.by_id, ==_iff id d, ne)

leave-others :
    (h : Hub) (id : ClientId) (s : Session) (d : ClientId)
    → d ≢ id
    → get d (leave h id s).sessions.by_id ≡ get d h.sessions.by_id
unfolding leave
leave-others h id s d ne =
    let t = record s { tx = none } in
    let e : get d (insert id t h.sessions.by_id) ≡ get d h.sessions.by_id =
      ground (arith, get-insert id d t h.sessions.by_id, ==_iff id d, ne) in
    elim (Bool-cases (s.expiry_secs == 0)) [
      | inl p ↦ rw (p, leave) (discard-others (ch_relay.Hub.set_session h id t) id d ne ∙ e)
      | inr p ↦ elim (Bool-cases (s.expiry_secs == no_expiry)) [
        | inl q ↦ rw (p, q, leave) e
        | inr q ↦ rw (p, q, leave) e
      ]
    ]

detach-others :
    (h : Hub) (id : ClientId) (generation : ℕ) (d : ClientId)
    → d ≢ id
    → get d (detach h id generation).sessions.by_id ≡ get d h.sessions.by_id
unfolding detach
detach-others h id generation d ne = elim (Option-cases (get id h.sessions.by_id)) [
  | inl e ↦ rw (e, detach) refl
  | inr (s, e) ↦ elim (Bool-cases (s.generation == generation)) [
    | inl p ↦ rw (e, p, detach) (leave-others h id s d ne)
    | inr p ↦ rw (e, p, detach) refl
  ]
]

-- The purges that are scheduled for a session.
abbrev pub purges_for : ClientId → Hub → List Purge
purges_for i h = keep (λ (pu : Purge). pu.id == i) h.purges

leave-purges :
    (h : Hub) (id : ClientId) (s : Session) (i : ClientId)
    → i ≢ id
    → purges_for i (leave h id s) ≡ purges_for i h
unfolding leave discard
leave-purges h id s i ne = elim (Bool-cases (s.expiry_secs == 0)) [
  | inl p ↦ rw (p, leave) refl
  | inr p ↦ elim (Bool-cases (s.expiry_secs == no_expiry)) [
    | inl q ↦ rw (p, q, leave) refl
    | inr q ↦
        let pu : Purge = record {
          after_secs = s.expiry_secs;
          id = id;
          generation = s.generation;
        } in
        rw (p, q, leave)
          (keep-append (λ (x : Purge). x.id == i) h.purges (pu ∷ [])
            ∙ ground (arith, ==_iff id i, ne, append-nil (purges_for i h)))
  ]
]

detach-purges :
    (h : Hub) (id : ClientId) (generation : ℕ) (i : ClientId)
    → i ≢ id
    → purges_for i (detach h id generation) ≡ purges_for i h
unfolding detach
detach-purges h id generation i ne = elim (Option-cases (get id h.sessions.by_id)) [
  | inl e ↦ rw (e, detach) refl
  | inr (s, e) ↦ elim (Bool-cases (s.generation == generation)) [
    | inl p ↦ rw (e, p, detach) (leave-purges h id s i ne)
    | inr p ↦ rw (e, p, detach) refl
  ]
]

-- A connection of another client leaves a session as it is, and schedules nothing.
connect-others :
    (h : Hub) (now : ℕ) (client_id : Bytes) (clean_start : Bool) (expiry_secs : ℕ) (i : ClientId)
    (s : Session)
    → HasConsistentTable h
    → get i h.sessions.by_id ≡ some s
    → client_id ≢ s.client_id
    → (r : Hub × Connected) × (connect h now client_id clean_start expiry_secs ≡ some r)
      × (get i r.0.sessions.by_id ≡ some s)
      × (i ≢ r.1.id)
      × (r.0.purges ≡ h.purges)
unfolding connect open_session drop_session resume_session
connect-others h now client_id clean_start expiry_secs i s v g ne =
    let below = v.below i s g in
    elim (Option-cases (get client_id h.sessions.id_of)) [
      | inl e ↦
          let t = new client_id (some []) expiry_secs (next_generation h).sessions.generation in
          (
            open_session (next_generation h) client_id expiry_secs,
            rw (e, connect) refl,
            ground (arith, get-insert h.next_raw i t h.sessions.by_id, below, ==_iff h.next_raw i),
            λ k. omega (arith, k, below),
            refl,
          )
      | inr (id, e) ↦
          let (u, l, k) = v.forward client_id id e in
          let apart : i ≢ id = λ q. ne (ground (arith, q, l, g, k)) in
          elim (Bool-cases clean_start) [
            | inl p ↦
                let t =
                  new client_id (some []) expiry_secs (next_generation h).sessions.generation in
                (
                  open_session (drop_session (next_generation h) id client_id) client_id
                      expiry_secs,
                  rw (e, p, connect) refl,
                  ground (
                    arith,
                    get-insert h.next_raw i t (remove id h.sessions.by_id),
                    get-remove id i h.sessions.by_id,
                    below,
                    apart,
                    ==_iff id i,
                    ==_iff h.next_raw i,
                  ),
                  λ q. omega (arith, q, below),
                  refl,
                )
            | inr p ↦ (
              resume_session (next_generation h) now client_id expiry_secs id u,
              rw (e, p, l, connect) refl,
              ground (
                arith,
                get-insert id i (resumed (next_generation h) now expiry_secs u) h.sessions.by_id,
                apart,
                ==_iff id i,
              ),
              apart,
              refl,
            )
          ]
    ]

-- On a consistent hub, a second CONNECT under another client id than that of the connection's own
-- session is accepted, if its token and its will are allowed and the reply is taken. The first session
-- is then lost sight of: after a DISCONNECT the end of the connection leaves it exactly as it was, so
-- where it had a channel it keeps it, and no purge is scheduled for it beyond those before.
pub second_connect_leaks :
    (env : Env) (at : Moment) (c : Conn) (p : Connect) (principal : Principal) (i : ClientId)
    (s : Session)
    → HasConsistentTable c.hub
    → c.session_id ≡ some i
    → get i c.hub.sessions.by_id ≡ some s
    → env.authenticate p.password ≡ ok principal
    → will_allowed principal.acl p.last_will ≡ true
    → (identified env p).0 ≢ s.client_id
    → at.takes ≡ true
    → (c' : Conn) × (handle_packet env at c (connects p) ≡ continues c')
      × (get i (finish at (record c' { clean_disconnect = true })).sessions.by_id ≡ some s)
      × (purges_for i (finish at (record c' { clean_disconnect = true })) ≡ purges_for i c.hub)
unfolding handle_packet on_connect authenticated finish
second_connect_leaks env at c p principal i s v own g a w ne takes =
    let (client_id, clean) = identified env p in
    let (r, e, k, apart, same) =
      connect-others c.hub at.now client_id clean p.session_expiry_interval_secs i s v g ne in
    let c' : Conn = record c {
      access = principal.acl;
      hub = r.0;
      session_id = some r.1.id;
      generation = r.1.generation;
      will = p.last_will;
      sent = c.sent ++ ch_relay.Connection.connack r.1.session_present true ∷ [];
    } in
    (
      c',
      rw (a, w, e, takes) refl,
      detach-others r.0 r.1.id r.1.generation i apart ∙ k,
      detach-purges r.0 r.1.id r.1.generation i apart ∙ ap (keep (λ (pu : Purge). pu.id == i)) same,
    )
