-- ===== src/Connection/Turns.antt =====
-- The packets of `handle` in crates/relay-server/src/connection.rs, one function for each kind.
use ch_relay.Prelude.{ℕ, Bool, true, false, List, ◌++◌, Option, none, some, if◌then◌else◌}
use ch_relay.Prelude.Results.{Result, ok, err}
use ch_relay.Bytes.{Bytes, codes, is_empty, strip_prefix}
use ch_relay.Topic.{TopicFilter}
use ch_relay.Message.{QoS, Message, at_most_once, at_least_once, exactly_once}
use ch_relay.Acl.{Acl, can_publish, can_subscribe}
use ch_relay.Router.{ClientId}
use ch_relay.Auth.{Principal, AuthError}
use ch_relay.Storage.{flush}
use ch_relay.Hub.{Hub, enqueue}
use ch_relay.Hub.Delivery.{Outgoing, publish_to_all, replay}
use ch_relay.Hub.Attach.{Connected, connect}
use ch_relay.Hub.Requests.{
  hub_on_puback, hub_on_pubrec, hub_on_pubcomp, inbound_qos2_seen, inbound_qos2_release,
}
use ch_relay.Connection.{
  Env, Conn, Turn, continues, breaks, panics, Moment, connack, suback, unsuback, puback, pubrec,
  pubcomp, ping_response, Connect, InboundPublish, Inbound, connects, subscribes, publishes,
  pubacks, pubrecs, pubcomps, pubrels, unsubscribes, pings, disconnects, other, reply, refuse,
  parse_replay,
}
use ch_relay.Connection.Requests.{subscribe_each, deliver_jobs, unsubscribe_each}

-- An empty client id becomes one of the peer's, without a session to resume.
abbrev pub identified : Env → Connect → Bytes × Bool
identified env p =
    if is_empty p.client_id then (codes "anon:" ++ env.peer, true) else (p.client_id, p.clean_start)

abbrev pub will_allowed : Acl → Option Message → Bool
will_allowed access none = true
will_allowed access (some w) = can_publish access w.topic

-- After the hub has connected.
abbrev pub attached : Moment → Conn → Connect → Option (Hub × Connected) → Turn
attached at c p none = panics
attached at c p (some (h, conn)) =
    reply at
      (record c {
        hub = h;
        session_id = some conn.id;
        generation = conn.generation;
        will = p.last_will;
      })
      (connack conn.session_present true)

unfoldable pub authenticated : Env → Moment → Conn → Connect → Result AuthError Principal → Turn
authenticated env at c p (err e) = refuse at c (connack false false)
authenticated env at c p (ok principal) =
    let c' = record c { access = principal.acl } in
    let (client_id, clean_start) = identified env p in
    if will_allowed principal.acl p.last_will
    then attached at c' p
        (connect c.hub at.now client_id clean_start p.session_expiry_interval_secs)
    else refuse at c' (connack false false)

unfoldable pub on_connect : Env → Moment → Conn → Connect → Turn
unfolding authenticated
on_connect env at c p = authenticated env at c p (env.authenticate p.password)

-- The retained messages are sent after the SUBACK.
abbrev pub then_jobs : Moment → ClientId → List (TopicFilter × QoS) → Turn → Turn
then_jobs at id jobs (continues c) = continues (deliver_jobs at.now c id jobs)
then_jobs at id jobs (breaks c) = breaks c
then_jobs at id jobs panics = panics

unfoldable pub on_subscribe : Env → Moment → Conn → ClientId → ℕ → List (Bytes × QoS) → Turn
on_subscribe env at c id packet_id filters =
    let (c', statuses, jobs) = subscribe_each env.max_subscriptions c id filters in
    then_jobs at id jobs (reply at c' (suback packet_id statuses))

-- The acknowledgement of a PUBLISH that is not routed.
abbrev pub acknowledged : Moment → Conn → QoS → Option ℕ → Bool → Turn
acknowledged at c at_least_once (some packet_id) success = reply at c (puback packet_id success)
acknowledged at c exactly_once (some packet_id) success = reply at c (pubrec packet_id success)
acknowledged at c at_most_once packet_id success = continues c
acknowledged at c at_least_once none success = continues c
acknowledged at c exactly_once none success = continues c

abbrev pub replayed : Env → Conn → ClientId → Option (ℕ × TopicFilter) → Conn
replayed env c id none = c
replayed env c id (some (from, filter)) =
    if can_subscribe c.access filter.as_str
    then record c {
      hub = (replay env.load_events env.to_string (enqueue c.hub flush) id from filter).0;
    }
    else c

abbrev pub outgoing_of : InboundPublish → Outgoing
outgoing_of p = record { topic = p.topic; payload = p.payload; qos = p.qos }

abbrev pub published : Moment → Conn → InboundPublish → Conn
published at c p = record c { hub = (publish_to_all c.hub at.now at.ts (outgoing_of p) p.retain).0 }

-- A QoS 2 PUBLISH is routed the first time only, and answered each time.
unfoldable pub routed_once : Moment → Conn → ClientId → InboundPublish → ℕ → Turn
routed_once at c id p packet_id =
    let (h, first) = inbound_qos2_seen c.hub id packet_id in
    let c' = record c { hub = h } in
    reply at (if first then published at c' p else c') (pubrec packet_id true)

unfoldable pub routed : Moment → Conn → ClientId → InboundPublish → QoS → Option ℕ → Turn
unfolding routed_once
routed at c id p at_most_once packet_id = continues (published at c p)
routed at c id p at_least_once none = breaks c
routed at c id p at_least_once (some packet_id) =
    reply at (published at c p) (puback packet_id true)
routed at c id p exactly_once none = breaks c
routed at c id p exactly_once (some packet_id) = routed_once at c id p packet_id

unfoldable pub on_publish : Env → Moment → Conn → ClientId → InboundPublish → Turn
unfolding routed
on_publish env at c id p = elim (strip_prefix (codes "$replay/") p.topic) [
  | some rest ↦ acknowledged at (replayed env c id (parse_replay rest)) p.qos p.packet_id true
  | none ↦
      if can_publish c.access p.topic
      then routed at c id p p.qos p.packet_id
      else acknowledged at c p.qos p.packet_id false
]

unfoldable pub on_unsubscribe : Moment → Conn → ClientId → ℕ → List Bytes → Turn
on_unsubscribe at c id packet_id filters =
    let (c', existed) = unsubscribe_each c id filters in reply at c' (unsuback packet_id existed)

-- `if let Some(id) = session_id { .. }`.
abbrev pub with_hub : Conn → (Hub → ClientId → Hub) → Conn
with_hub c f = elim c.session_id [ none ↦ c | some id ↦ record c { hub = f c.hub id } ]

-- `let Some(id) = session_id else { break }`.
abbrev pub in_session : Conn → (ClientId → Turn) → Turn
in_session c f = elim c.session_id [ none ↦ breaks c | some id ↦ f id ]

unfoldable pub handle_packet : Env → Moment → Conn → Inbound → Turn
unfolding on_connect on_subscribe on_publish on_unsubscribe
handle_packet env at c (connects p) = on_connect env at c p
handle_packet env at c (subscribes packet_id filters) =
    in_session c (λ id. on_subscribe env at c id packet_id filters)
handle_packet env at c (publishes p) = in_session c (λ id. on_publish env at c id p)
handle_packet env at c (pubacks pid) = continues (with_hub c (λ h id. hub_on_puback h id pid))
handle_packet env at c (pubrecs pid) = continues (with_hub c (λ h id. hub_on_pubrec h id pid))
handle_packet env at c (pubcomps pid) = continues (with_hub c (λ h id. hub_on_pubcomp h id pid))
handle_packet env at c (pubrels pid) =
    reply at (with_hub c (λ h id. inbound_qos2_release h id pid)) (pubcomp pid)
handle_packet env at c (unsubscribes packet_id filters) =
    in_session c (λ id. on_unsubscribe at c id packet_id filters)
handle_packet env at c pings = reply at (record c { hub = enqueue c.hub flush }) ping_response
handle_packet env at c (disconnects normal) =
    breaks (if normal then record c { clean_disconnect = true } else c)
handle_packet env at c other = continues c
