-- ===== src/Connection/Consistency.antt =====
-- A connection of crates/relay-server/src/connection.rs against the hub: it keeps the hub sound,
-- whatever its client sends.
use ch_relay.Prelude.{
  ℕ, ◌+◌, ◌<◌, refl, Bool, true, false, Option, none, some, Bool-cases, Option-cases, inl, inr,
}
use ch_relay.Prelude.Results.{Result, ok, err}
use ch_relay.Bytes.{codes, strip_prefix}
use ch_relay.Topic.{TopicFilter}
use ch_relay.Message.{QoS, Message, at_most_once, at_least_once, exactly_once}
use ch_relay.Acl.{can_publish, can_subscribe}
use ch_relay.Router.{ClientId}
use ch_relay.Auth.{Principal, AuthError}
use ch_relay.Session.{on_puback, on_pubrec, on_pubcomp}
use ch_relay.Session.PacketIds.{
  on_pubrec-client_id, on_puback-IsValid, on_pubrec-IsValid, on_pubcomp-IsValid,
}
use ch_relay.Storage.{flush}
use ch_relay.Hub.{Hub, u64_mod, enqueue}
use ch_relay.Hub.Requests.{
  hub_on_puback, hub_on_pubrec, hub_on_pubcomp, inbound_qos2_seen, inbound_qos2_release,
}
use ch_relay.Hub.Soundness.{
  IsSound, publish_to_all-IsSound, replay-IsSound, acknowledge-IsSound, inbound_qos2_seen-IsSound,
  inbound_qos2_release-IsSound, detach-IsSound, connect-IsSound,
}
use ch_relay.Connection.{
  Env, Conn, Moment, Connect, InboundPublish, Inbound, connects, subscribes, publishes, pubacks,
  pubrecs, pubcomps, pubrels, unsubscribes, pings, disconnects, other, parse_replay,
}
use ch_relay.Connection.Turns.{
  handle_packet, on_connect, authenticated, on_subscribe, on_publish, acknowledged, routed,
  routed_once, on_unsubscribe, replayed, identified, will_allowed, with_hub, outgoing_of, published,
}
use ch_relay.Connection.Serving.{
  Event, inbound, protocol_error, closed, channel, turn, finish, publish_will, detach_session,
}
use ch_relay.Connection.Endings.{Leaves, reply-Leaves, refuse-Leaves, in_session-Leaves}
use ch_relay.Connection.FilterLoops.{
  HasSoundHub, subscribe_each-HasSoundHub, then_jobs-HasSoundHub, unsubscribe_each-HasSoundHub,
}

authenticated-HasSoundHub :
    (env : Env) (at : Moment) (c : Conn) (p : Connect) (r : Result AuthError Principal)
    → HasSoundHub c
    → c.hub.next_raw + 1 < u64_mod
    → Leaves ⊥ HasSoundHub (authenticated env at c p r)
unfolding authenticated
authenticated-HasSoundHub env at c p (err e) v b = refuse-Leaves ⊥ HasSoundHub at c _ v v
authenticated-HasSoundHub env at c p (ok principal) v b =
    let (client_id, clean) = identified env p in
    elim (Bool-cases (will_allowed principal.acl p.last_will)) [
      | inl w ↦
          let (r, e, k) =
            connect-IsSound c.hub at.now client_id clean p.session_expiry_interval_secs v b in
          rw (w, e) (reply-Leaves ⊥ HasSoundHub at _ _ k k)
      | inr w ↦ rw w (refuse-Leaves ⊥ HasSoundHub at _ _ v v)
    ]

acknowledged-HasSoundHub :
    (at : Moment) (c : Conn) (q : QoS) (pid : Option ℕ) (success : Bool)
    → HasSoundHub c
    → Leaves ⊥ HasSoundHub (acknowledged at c q pid success)
acknowledged-HasSoundHub at c at_most_once pid success v = v
acknowledged-HasSoundHub at c at_least_once none success v = v
acknowledged-HasSoundHub at c at_least_once (some pid) success v =
    reply-Leaves ⊥ HasSoundHub at c _ v v
acknowledged-HasSoundHub at c exactly_once none success v = v
acknowledged-HasSoundHub at c exactly_once (some pid) success v =
    reply-Leaves ⊥ HasSoundHub at c _ v v

replayed-HasSoundHub :
    (env : Env) (c : Conn) (id : ClientId) (o : Option (ℕ × TopicFilter))
    → HasSoundHub c
    → HasSoundHub (replayed env c id o)
replayed-HasSoundHub env c id none v = v
replayed-HasSoundHub env c id (some (from, filter)) v =
    elim (Bool-cases (can_subscribe c.access filter.as_str)) [
      | inl a ↦
          rw a (replay-IsSound env.load_events env.to_string (enqueue c.hub flush) id from filter v)
      | inr a ↦ rw a v
    ]

published-HasSoundHub :
    (at : Moment) (c : Conn) (p : InboundPublish) → HasSoundHub c → HasSoundHub (published at c p)
published-HasSoundHub at c p v =
    publish_to_all-IsSound c.hub at.now at.ts (outgoing_of p) p.retain v

routed-HasSoundHub :
    (at : Moment) (c : Conn) (id : ClientId) (p : InboundPublish) (q : QoS) (pid : Option ℕ)
    → HasSoundHub c
    → Leaves ⊥ HasSoundHub (routed at c id p q pid)
unfolding routed routed_once
routed-HasSoundHub at c id p at_most_once pid v = published-HasSoundHub at c p v
routed-HasSoundHub at c id p at_least_once none v = v
routed-HasSoundHub at c id p at_least_once (some pid) v =
    let k = published-HasSoundHub at c p v in reply-Leaves ⊥ HasSoundHub at _ _ k k
routed-HasSoundHub at c id p exactly_once none v = v
routed-HasSoundHub at c id p exactly_once (some pid) v =
    let seen = inbound_qos2_seen-IsSound c.hub id pid v in
    elim (Bool-cases (inbound_qos2_seen c.hub id pid).1) [
      | inl e ↦
          let k =
            published-HasSoundHub at (record c { hub = (inbound_qos2_seen c.hub id pid).0 }) p
              seen in
          rw e (reply-Leaves ⊥ HasSoundHub at _ _ k k)
      | inr e ↦ rw e (reply-Leaves ⊥ HasSoundHub at _ _ seen seen)
    ]

on_publish-HasSoundHub :
    (env : Env) (at : Moment) (c : Conn) (id : ClientId) (p : InboundPublish)
    → HasSoundHub c
    → Leaves ⊥ HasSoundHub (on_publish env at c id p)
unfolding on_publish
on_publish-HasSoundHub env at c id p v =
    elim (Option-cases (strip_prefix (codes "$replay/") p.topic)) [
      | inr (rest, e) ↦
          rw (e, on_publish)
            (acknowledged-HasSoundHub at _ p.qos p.packet_id true
              (replayed-HasSoundHub env c id (parse_replay rest) v))
      | inl e ↦ elim (Bool-cases (can_publish c.access p.topic)) [
        | inl a ↦ rw (e, a, on_publish) (routed-HasSoundHub at c id p p.qos p.packet_id v)
        | inr a ↦ rw (e, a, on_publish) (acknowledged-HasSoundHub at c p.qos p.packet_id false v)
      ]
    ]

with_hub-HasSoundHub :
    (c : Conn) (f : Hub → ClientId → Hub)
    → HasSoundHub c
    → ((id : ClientId) → IsSound (f c.hub id))
    → HasSoundHub (with_hub c f)
with_hub-HasSoundHub c f v k = elim (Option-cases c.session_id) [
  | inl e ↦ rw (e, with_hub) v
  | inr (id, e) ↦ rw (e, with_hub) (k id)
]

handle_packet-HasSoundHub :
    (env : Env) (at : Moment) (c : Conn) (p : Inbound)
    → HasSoundHub c
    → c.hub.next_raw + 1 < u64_mod
    → Leaves ⊥ HasSoundHub (handle_packet env at c p)
unfolding handle_packet
handle_packet-HasSoundHub env at c (connects p) v b =
    unfold on_connect in authenticated-HasSoundHub env at c p (env.authenticate p.password) v b
handle_packet-HasSoundHub env at c (subscribes packet_id filters) v b =
    unfold on_subscribe in
    in_session-Leaves ⊥ HasSoundHub c _ v (λ id.
      let k = subscribe_each-HasSoundHub env.max_subscriptions c id filters v in
      then_jobs-HasSoundHub at id _ _ (reply-Leaves ⊥ HasSoundHub at _ _ k k))
handle_packet-HasSoundHub env at c (publishes p) v b =
    in_session-Leaves ⊥ HasSoundHub c _ v (λ id. on_publish-HasSoundHub env at c id p v)
handle_packet-HasSoundHub env at c (pubacks pid) v b =
    with_hub-HasSoundHub c (λ h id. hub_on_puback h id pid) v
      (λ id.
        unfold hub_on_puback on_puback in
        acknowledge-IsSound (λ s. on_puback s pid) c.hub id (λ s. refl)
          (λ s k. on_puback-IsValid s k pid) v)
handle_packet-HasSoundHub env at c (pubrecs pid) v b =
    with_hub-HasSoundHub c (λ h id. hub_on_pubrec h id pid) v
      (λ id.
        unfold hub_on_pubrec in
        acknowledge-IsSound (λ s. on_pubrec s pid) c.hub id (λ s. on_pubrec-client_id s pid)
          (λ s k. on_pubrec-IsValid s k pid) v)
handle_packet-HasSoundHub env at c (pubcomps pid) v b =
    with_hub-HasSoundHub c (λ h id. hub_on_pubcomp h id pid) v
      (λ id.
        unfold hub_on_pubcomp on_pubcomp in
        acknowledge-IsSound (λ s. on_pubcomp s pid) c.hub id (λ s. refl)
          (λ s k. on_pubcomp-IsValid s k pid) v)
handle_packet-HasSoundHub env at c (pubrels pid) v b =
    let k =
      with_hub-HasSoundHub c (λ h id. inbound_qos2_release h id pid) v
        (λ id. inbound_qos2_release-IsSound c.hub id pid v) in
    reply-Leaves ⊥ HasSoundHub at _ _ k k
handle_packet-HasSoundHub env at c (unsubscribes packet_id filters) v b =
    unfold on_unsubscribe in
    in_session-Leaves ⊥ HasSoundHub c _ v (λ id.
      let k = unsubscribe_each-HasSoundHub c id filters v in reply-Leaves ⊥ HasSoundHub at _ _ k k)
handle_packet-HasSoundHub env at c pings v b = reply-Leaves ⊥ HasSoundHub at _ _ v v
handle_packet-HasSoundHub env at c (disconnects true) v b = v
handle_packet-HasSoundHub env at c (disconnects false) v b = v
handle_packet-HasSoundHub env at c other v b = v

publish_will-IsSound :
    (at : Moment) (h : Hub) (will : Option Message) → IsSound h → IsSound (publish_will at h will)
publish_will-IsSound at h none v = v
publish_will-IsSound at h (some w) v = publish_to_all-IsSound h at.now at.ts _ w.retain v

detach_session-IsSound :
    (h : Hub) (o : Option ClientId) (generation : ℕ)
    → IsSound h
    → IsSound (detach_session h o generation)
detach_session-IsSound h none generation v = v
detach_session-IsSound h (some id) generation v = detach-IsSound h id generation v

pub finish-IsSound : (at : Moment) (c : Conn) → HasSoundHub c → IsSound (finish at c)
finish-IsSound at c v =
    unfold finish in
    detach_session-IsSound _ c.session_id c.generation (elim (Bool-cases c.clean_disconnect) [
      | inl e ↦ rw e v
      | inr e ↦ rw e (publish_will-IsSound at c.hub c.will v)
    ])

-- Whatever a client sends next on its connection, if the hub is sound and its next client id has a
-- successor in `u64`, the turn does not meet the `expect` of `connect` and leaves the hub sound; and
-- the end of the connection, with its will and its detachment, leaves it sound too.
pub turn-HasSoundHub :
    (env : Env) (at : Moment) (c : Conn) (e : Event)
    → HasSoundHub c
    → c.hub.next_raw + 1 < u64_mod
    → Leaves ⊥ HasSoundHub (turn env at c e) × IsSound (finish at c)
unfolding turn
turn-HasSoundHub env at c e v b = (go e, finish-IsSound at c v)
  where
    go : (e : Event) → Leaves ⊥ HasSoundHub (turn env at c e)
    go (inbound p) = handle_packet-HasSoundHub env at c p v b
    go protocol_error = v
    go closed = v
    go (channel none) = v
    go (channel (some packet)) = reply-Leaves ⊥ HasSoundHub at c _ v v
