-- ===== src/Connection/Quota.antt =====
-- The subscription quota of crates/relay-server/src/connection.rs.
use ch_relay.Prelude.{
  ℕ, ◌≡◌, refl, Bool, true, false, List, ◌∷◌, Option, none, some, arith, subst, All-In, Bool-cases,
  Option-cases, inl, inr,
}
use ch_relay.Prelude.Results.{Result, ok, err}
use ch_relay.Bytes.{codes, strip_prefix}
use ch_relay.Topic.{TopicFilter}
use ch_relay.Message.{QoS, at_most_once, at_least_once, exactly_once}
use ch_relay.Acl.{can_publish}
use ch_relay.Router.{ClientId}
use ch_relay.Auth.{Principal, AuthError}
use ch_relay.Hub.{Hub}
use ch_relay.Hub.Attach.{Connected, connect}
use ch_relay.Hub.Requests.{inbound_qos2_seen, inbound_qos2_release}
use ch_relay.Connection.{
  Env, Conn, Turn, continues, breaks, panics, Moment, Connect, InboundPublish, Inbound, connects,
  subscribes, publishes, pubacks, pubrecs, pubcomps, pubrels, unsubscribes, pings, disconnects,
  other, opened, parse_replay,
}
use ch_relay.Connection.Endings.{
  Leaves, Ends, run_loop-Ends, reply-Leaves, refuse-Leaves, in_session-Leaves,
}
use ch_relay.Connection.Requests.{Job}
use ch_relay.Connection.Turns.{
  handle_packet, on_connect, authenticated, attached, on_subscribe, then_jobs, on_publish,
  acknowledged, routed, routed_once, on_unsubscribe, replayed, identified, will_allowed, with_hub,
}
use ch_relay.Connection.Serving.{
  Event, inbound, protocol_error, closed, channel, turn, running, serve,
}
use ch_relay.Connection.FilterQuota.{
  IsWithin, subscribe_each-IsWithin, deliver_jobs-active_filters, unsubscribe_each-IsWithin,
}

authenticated-IsWithin :
    (limit : ℕ) (env : Env) (at : Moment) (c : Conn) (p : Connect) (r : Result AuthError Principal)
    → IsWithin limit c
    → Leaves (Unit {0}) (IsWithin limit) (authenticated env at c p r)
unfolding authenticated
authenticated-IsWithin limit env at c p (err e) h =
    refuse-Leaves (Unit {0}) (IsWithin limit) at c _ h h
authenticated-IsWithin limit env at c p (ok principal) h =
    elim (Bool-cases (will_allowed principal.acl p.last_will)) [
      | inl w ↦ rw w (
          attached_lem (
            connect c.hub at.now (identified env p).0 (identified env p).1
              p.session_expiry_interval_secs))
      | inr w ↦ rw w (refuse-Leaves (Unit {0}) (IsWithin limit) at _ _ h h)
    ]
  where
    attached_lem :
        (o : Option (Hub × Connected))
        → Leaves (Unit {0}) (IsWithin limit) (attached at (record c { access = principal.acl }) p o)
    attached_lem none = tt
    attached_lem (some (hub, conn)) = reply-Leaves (Unit {0}) (IsWithin limit) at _ _ h h

acknowledged-IsWithin :
    (limit : ℕ) (at : Moment) (c : Conn) (q : QoS) (pid : Option ℕ) (success : Bool)
    → IsWithin limit c
    → Leaves (Unit {0}) (IsWithin limit) (acknowledged at c q pid success)
acknowledged-IsWithin limit at c at_most_once pid success h = h
acknowledged-IsWithin limit at c at_least_once none success h = h
acknowledged-IsWithin limit at c at_least_once (some pid) success h =
    reply-Leaves (Unit {0}) (IsWithin limit) at c _ h h
acknowledged-IsWithin limit at c exactly_once none success h = h
acknowledged-IsWithin limit at c exactly_once (some pid) success h =
    reply-Leaves (Unit {0}) (IsWithin limit) at c _ h h

replayed-active_filters :
    (env : Env) (c : Conn) (id : ClientId) (o : Option (ℕ × TopicFilter))
    → (replayed env c id o).active_filters ≡ c.active_filters
replayed-active_filters env c id none = refl
replayed-active_filters env c id (some (from, filter)) = ground arith

routed-IsWithin :
    (limit : ℕ) (at : Moment) (c : Conn) (id : ClientId) (p : InboundPublish) (q : QoS)
    (pid : Option ℕ)
    → IsWithin limit c
    → Leaves (Unit {0}) (IsWithin limit) (routed at c id p q pid)
unfolding routed routed_once
routed-IsWithin limit at c id p at_most_once pid h = h
routed-IsWithin limit at c id p at_least_once none h = h
routed-IsWithin limit at c id p at_least_once (some pid) h =
    reply-Leaves (Unit {0}) (IsWithin limit) at _ _ h h
routed-IsWithin limit at c id p exactly_once none h = h
routed-IsWithin limit at c id p exactly_once (some pid) h =
    elim (Bool-cases (inbound_qos2_seen c.hub id pid).1) [
      | inl e ↦ rw e (reply-Leaves (Unit {0}) (IsWithin limit) at _ _ h h)
      | inr e ↦ rw e (reply-Leaves (Unit {0}) (IsWithin limit) at _ _ h h)
    ]

on_publish-IsWithin :
    (limit : ℕ) (env : Env) (at : Moment) (c : Conn) (id : ClientId) (p : InboundPublish)
    → IsWithin limit c
    → Leaves (Unit {0}) (IsWithin limit) (on_publish env at c id p)
unfolding on_publish
on_publish-IsWithin limit env at c id p h =
    elim (Option-cases (strip_prefix (codes "$replay/") p.topic)) [
      | inr (rest, e) ↦
          rw (e, on_publish)
            (acknowledged-IsWithin limit at _ p.qos p.packet_id true
              (rw (replayed-active_filters env c id (parse_replay rest)) h))
      | inl e ↦ elim (Bool-cases (can_publish c.access p.topic)) [
        | inl a ↦ rw (e, a, on_publish) (routed-IsWithin limit at c id p p.qos p.packet_id h)
        | inr a ↦ rw (e, a, on_publish) (acknowledged-IsWithin limit at c p.qos p.packet_id false h)
      ]
    ]

then_jobs-IsWithin :
    (limit : ℕ) (at : Moment) (id : ClientId) (jobs : List Job) (t : Turn)
    → Leaves (Unit {0}) (IsWithin limit) t
    → Leaves (Unit {0}) (IsWithin limit) (then_jobs at id jobs t)
then_jobs-IsWithin limit at id jobs (continues c) h =
    rw (deliver_jobs-active_filters at.now c id jobs) h
then_jobs-IsWithin limit at id jobs (breaks c) h = h
then_jobs-IsWithin limit at id jobs panics h = tt

with_hub-active_filters :
    (c : Conn) (f : Hub → ClientId → Hub) → (with_hub c f).active_filters ≡ c.active_filters
with_hub-active_filters c f = ground arith

handle_packet-IsWithin :
    (env : Env) (at : Moment) (c : Conn) (p : Inbound)
    → IsWithin env.max_subscriptions c
    → Leaves (Unit {0}) (IsWithin env.max_subscriptions) (handle_packet env at c p)
unfolding handle_packet
handle_packet-IsWithin env at c (connects p) h =
    unfold on_connect in
    authenticated-IsWithin env.max_subscriptions env at c p (env.authenticate p.password) h
handle_packet-IsWithin env at c (subscribes packet_id filters) h =
    unfold on_subscribe in
    in_session-Leaves (Unit {0}) (IsWithin env.max_subscriptions) c _ h (λ id.
      let k = subscribe_each-IsWithin env.max_subscriptions c id filters h in
      then_jobs-IsWithin env.max_subscriptions at id _ _
        (reply-Leaves (Unit {0}) (IsWithin env.max_subscriptions) at _ _ k k))
handle_packet-IsWithin env at c (publishes p) h =
    in_session-Leaves (Unit {0}) (IsWithin env.max_subscriptions) c _ h
      (λ id. on_publish-IsWithin env.max_subscriptions env at c id p h)
handle_packet-IsWithin env at c (pubacks pid) h = rw (with_hub-active_filters c _) h
handle_packet-IsWithin env at c (pubrecs pid) h = rw (with_hub-active_filters c _) h
handle_packet-IsWithin env at c (pubcomps pid) h = rw (with_hub-active_filters c _) h
handle_packet-IsWithin env at c (pubrels pid) h =
    let k : IsWithin env.max_subscriptions
        (with_hub c (λ hub id. inbound_qos2_release hub id pid)) =
      rw (with_hub-active_filters c _) h in
    reply-Leaves (Unit {0}) (IsWithin env.max_subscriptions) at _ _ k k
handle_packet-IsWithin env at c (unsubscribes packet_id filters) h =
    unfold on_unsubscribe in
    in_session-Leaves (Unit {0}) (IsWithin env.max_subscriptions) c _ h (λ id.
      let k = unsubscribe_each-IsWithin env.max_subscriptions c id filters h in
      reply-Leaves (Unit {0}) (IsWithin env.max_subscriptions) at _ _ k k)
handle_packet-IsWithin env at c pings h =
    reply-Leaves (Unit {0}) (IsWithin env.max_subscriptions) at _ _ h h
handle_packet-IsWithin env at c (disconnects true) h = h
handle_packet-IsWithin env at c (disconnects false) h = h
handle_packet-IsWithin env at c other h = h

pub turn-IsWithin :
    (env : Env) (at : Moment) (c : Conn) (e : Event)
    → IsWithin env.max_subscriptions c
    → Leaves (Unit {0}) (IsWithin env.max_subscriptions) (turn env at c e)
unfolding turn
turn-IsWithin env at c (inbound p) h = handle_packet-IsWithin env at c p h
turn-IsWithin env at c protocol_error h = h
turn-IsWithin env at c closed h = h
turn-IsWithin env at c (channel none) h = h
turn-IsWithin env at c (channel (some packet)) h =
    reply-Leaves (Unit {0}) (IsWithin env.max_subscriptions) at c _ h h

-- However a client subscribes, unsubscribes and connects anew on its connection, it never has more
-- active filters on it than the limit.
pub serve-IsWithin :
    (env : Env) (h : Hub) (first : Option (Moment × Inbound)) (events : List (Moment × Event))
    (c : Conn)
    → serve env h first events ≡ running c
    → IsWithin env.max_subscriptions c
unfolding serve
serve-IsWithin env h none events c e = absurd (cc)
serve-IsWithin env h (some (at, p)) events c e =
    subst (Ends (Unit {0}) (IsWithin env.max_subscriptions) (λ _. Unit {0})) e (
      run_loop-Ends (Unit {0}) (IsWithin env.max_subscriptions) (λ _. Unit {0}) (λ _. Unit {0}) env
        (λ a d f _ k. turn-IsWithin env a d f k) (λ a d k. tt) ((at, inbound p) ∷ events) (opened h)
        (All-In ((at, inbound p) ∷ events) (λ a i. tt)) (omega arith))
