-- ===== src/Connection/Requests.antt =====
-- The loops of `handle` in crates/relay-server/src/connection.rs over the filters of a SUBSCRIBE and
-- of an UNSUBSCRIBE.
use ch_relay.Prelude.{
  ℕ, Bool, not, ◌&&◌, List, [], ◌∷◌, ◌++◌, Option, none, some, leb, if◌then◌else◌, length,
}
use ch_relay.Bytes.{Bytes}
use ch_relay.Topic.{TopicFilter, SharedSubscription, parse, parse_shared}
use ch_relay.Message.{QoS, min}
use ch_relay.Acl.{can_subscribe}
use ch_relay.Router.{ClientId}
use ch_relay.Hub.Delivery.{deliver_retained}
use ch_relay.Hub.Requests.{hub_subscribe, hub_subscribe_shared, hub_unsubscribe}
use ch_relay.Connection.{
  Conn, SubscribeStatus, granted, not_authorized, quota_exceeded, filter_invalid, max_qos,
  has_filter, add_filter, remove_filter,
}

-- The filter that the permission is asked for.
abbrev pub effective : Bytes → Option SharedSubscription → Bytes
effective filter none = filter
effective filter (some s) = s.filter.as_str

-- A retained job: a filter whose retained messages are to be sent, and the granted QoS.
abbrev pub Job : Type 0
Job = TopicFilter × QoS

unfoldable pub subscribe_plain :
    Conn → ClientId → Bytes → QoS → Option TopicFilter → Conn × SubscribeStatus × List Job
subscribe_plain c id filter q none = (c, filter_invalid, [])
subscribe_plain c id filter q (some tf) = (
  record c {
    hub = hub_subscribe c.hub id tf q filter;
    active_filters = add_filter filter c.active_filters;
  },
  granted q,
  (tf, q) ∷ [],
)

unfoldable pub subscribe_granted :
    Conn → ClientId → Bytes → QoS → Option SharedSubscription → Conn × SubscribeStatus × List Job
unfolding subscribe_plain
subscribe_granted c id filter q none = subscribe_plain c id filter q (parse filter)
subscribe_granted c id filter q (some shared) = (
  record c {
    hub = hub_subscribe_shared c.hub shared.group id shared.filter q filter;
    active_filters = add_filter filter c.active_filters;
  },
  granted q,
  [],
)

-- One round of the loop of a SUBSCRIBE.
unfoldable pub subscribe_one : ℕ → Conn → ClientId → Bytes → QoS → Conn × SubscribeStatus × List Job
unfolding subscribe_granted
subscribe_one limit c id filter qos =
    let shared = parse_shared filter in
    if not (can_subscribe c.access (effective filter shared))
    then (c, not_authorized, [])
    else if not (has_filter filter c.active_filters) && leb limit (length c.active_filters)
    then (c, quota_exceeded, [])
    else subscribe_granted c id filter (min qos max_qos) shared

unfoldable pub subscribe_each :
    ℕ → Conn → ClientId → List (Bytes × QoS) → Conn × List SubscribeStatus × List Job
unfolding subscribe_one
subscribe_each limit c id [] = (c, [], [])
subscribe_each limit c id ((filter, qos) ∷ filters) =
    let (c', status, jobs) = subscribe_one limit c id filter qos in
    let (c'', statuses, later) = subscribe_each limit c' id filters in
    (c'', status ∷ statuses, jobs ++ later)

-- The loop over the retained jobs, after the SUBACK.
unfoldable pub deliver_jobs : ℕ → Conn → ClientId → List Job → Conn
deliver_jobs now c id [] = c
deliver_jobs now c id ((tf, q) ∷ jobs) =
    deliver_jobs now (record c { hub = deliver_retained c.hub now id tf q }) id jobs

unfoldable pub unsubscribe_each : Conn → ClientId → List Bytes → Conn × List Bool
unsubscribe_each c id [] = (c, [])
unsubscribe_each c id (filter ∷ filters) =
    let (h, existed) = hub_unsubscribe c.hub id filter in
    let (c', rest) =
      unsubscribe_each
        (record c { hub = h; active_filters = remove_filter filter c.active_filters }) id filters in
    (c', existed ∷ rest)
