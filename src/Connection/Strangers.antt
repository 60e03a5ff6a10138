-- ===== src/Connection/Strangers.antt =====
-- A client that never presents a token that crates/relay-server/src/auth.rs accepts, on a connection
-- of crates/relay-server/src/connection.rs.
use ch_relay.Prelude.{◌≡◌, refl, true, false, List, ◌∷◌, none, some, All, Bool-cases, inl, inr}
use ch_relay.Prelude.Results.{err}
use ch_relay.Auth.{AuthError}
use ch_relay.Hub.{Hub}
use ch_relay.Connection.{
  Env, Conn, Moment, Inbound, connects, subscribes, publishes, pubacks, pubrecs, pubcomps, pubrels,
  unsubscribes, pings, disconnects, other, opened,
}
use ch_relay.Connection.Turns.{handle_packet, on_connect, authenticated, with_hub, in_session}
use ch_relay.Connection.Serving.{
  Event, inbound, protocol_error, closed, channel, turn, finish, Outcome, running, over, panicked,
  serve,
}
use ch_relay.Connection.Endings.{Leaves, Ends, reply-Leaves, refuse-Leaves, run_loop-Ends}

-- Nothing in the hub differs but its queue of durable writes.
abbrev pub Untouched : Hub → Hub → Type 0
Untouched h h' = record h' { queue = h.queue } ≡ h

-- A CONNECT has a password that is not accepted.
abbrev pub IsRefused : Env → Inbound → Type 0
IsRefused env (connects p) = (e : AuthError) × (env.authenticate p.password ≡ err e)
IsRefused env (subscribes packet_id filters) = Unit
IsRefused env (publishes p) = Unit
IsRefused env (pubacks pid) = Unit
IsRefused env (pubrecs pid) = Unit
IsRefused env (pubcomps pid) = Unit
IsRefused env (pubrels pid) = Unit
IsRefused env (unsubscribes packet_id filters) = Unit
IsRefused env pings = Unit
IsRefused env (disconnects normal) = Unit
IsRefused env other = Unit

abbrev pub IsRefusedEvent : Env → Moment × Event → Type 0
IsRefusedEvent env (at, inbound p) = IsRefused env p
IsRefusedEvent env (at, protocol_error) = Unit
IsRefusedEvent env (at, closed) = Unit
IsRefusedEvent env (at, channel o) = Unit

-- The connection of a stranger: without session and will.
pub record IsStranger (h : Hub) (c : Conn) : Type 0 where
  pub no_session : c.session_id ≡ none
  pub no_will : c.will ≡ none
  pub untouched : Untouched h c.hub

handle_packet-IsStranger :
    (h : Hub) (env : Env) (at : Moment) (c : Conn) (p : Inbound)
    → IsRefused env p
    → IsStranger h c
    → Leaves ⊥ (IsStranger h) (handle_packet env at c p)
unfolding handle_packet on_connect authenticated
handle_packet-IsStranger h env at c (connects p) (e, q) v = rw q (
    refuse-Leaves ⊥ (IsStranger h) at c _ v
      (record { no_session = v.no_session; no_will = v.no_will; untouched = v.untouched }))
handle_packet-IsStranger h env at c (subscribes packet_id filters) q v =
    rw (v.no_session, in_session) v
handle_packet-IsStranger h env at c (publishes p) q v = rw (v.no_session, in_session) v
handle_packet-IsStranger h env at c (pubacks pid) q v = rw (v.no_session, with_hub) v
handle_packet-IsStranger h env at c (pubrecs pid) q v = rw (v.no_session, with_hub) v
handle_packet-IsStranger h env at c (pubcomps pid) q v = rw (v.no_session, with_hub) v
handle_packet-IsStranger h env at c (pubrels pid) q v =
    rw (v.no_session, with_hub)
      (reply-Leaves ⊥ (IsStranger h) at c _ v
        (record { no_session = v.no_session; no_will = v.no_will; untouched = v.untouched }))
handle_packet-IsStranger h env at c (unsubscribes packet_id filters) q v =
    rw (v.no_session, in_session) v
handle_packet-IsStranger h env at c pings q v =
    reply-Leaves ⊥ (IsStranger h) at _ _
      (record { no_session = v.no_session; no_will = v.no_will; untouched = v.untouched })
      (record { no_session = v.no_session; no_will = v.no_will; untouched = v.untouched })
handle_packet-IsStranger h env at c (disconnects true) q v = record {
  no_session = v.no_session;
  no_will = v.no_will;
  untouched = v.untouched;
}
handle_packet-IsStranger h env at c (disconnects false) q v = v
handle_packet-IsStranger h env at c other q v = v

turn-IsStranger :
    (h : Hub) (env : Env) (at : Moment) (c : Conn) (e : Event)
    → IsRefusedEvent env (at, e)
    → IsStranger h c
    → Leaves ⊥ (IsStranger h) (turn env at c e)
unfolding turn
turn-IsStranger h env at c (inbound p) q v = handle_packet-IsStranger h env at c p q v
turn-IsStranger h env at c protocol_error q v = v
turn-IsStranger h env at c closed q v = v
turn-IsStranger h env at c (channel none) q v = v
turn-IsStranger h env at c (channel (some packet)) q v =
    reply-Leaves ⊥ (IsStranger h) at c _ v
      (record { no_session = v.no_session; no_will = v.no_will; untouched = v.untouched })

finish-Untouched : (h : Hub) (at : Moment) (c : Conn) → IsStranger h c → Untouched h (finish at c)
unfolding finish
finish-Untouched h at c v = elim (Bool-cases c.clean_disconnect) [
  | inl e ↦ rw (v.no_session, e) v.untouched
  | inr e ↦ rw (v.no_session, e, v.no_will) v.untouched
]

-- Whatever a client sends that is let in by no token it presents, its connection does not panic, and
-- neither while it lasts nor at its end is anything in the hub touched but the queue of writes, in
-- which a ping has the hub wait for those before it.
pub serve-Untouched :
    (env : Env) (h : Hub) (at : Moment) (p : Inbound) (events : List (Moment × Event))
    → IsRefused env p
    → All (IsRefusedEvent env) events
    → Ends ⊥ (λ c. Untouched h c.hub) (Untouched h) (serve env h (some (at, p)) events)
unfolding serve
serve-Untouched env h at p events q qs = forget _ (
    run_loop-Ends ⊥ (IsStranger h) (Untouched h) (IsRefusedEvent env) env
      (λ a c e r v. turn-IsStranger h env a c e r v) (λ a c v. finish-Untouched h a c v)
      ((at, inbound p) ∷ events) (opened h) (q, qs)
      (record { no_session = refl; no_will = refl; untouched = refl }))
  where
    forget :
        (o : Outcome)
        → Ends ⊥ (IsStranger h) (Untouched h) o
        → Ends ⊥ (λ c. Untouched h c.hub) (Untouched h) o
    forget (running c) v = v.untouched
    forget (over h') v = v
    forget panicked v = v
