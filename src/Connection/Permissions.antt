-- ===== src/Connection/Permissions.antt =====
-- What a connection of crates/relay-server/src/connection.rs lets its client do: it subscribes only
-- to what the client may subscribe to, and publishes only to what it may publish to.
use ch_relay.Prelude.{
  ℕ, ◌≡◌, ◌≢◌, ◌∙◌, refl, Bool, true, false, not, ◌&&◌, List, [], ◌∷◌, Option, none, some, leb,
  arith, if◌then◌else◌, length, Bool-cases, Option-cases, inl, inr, subst, sym,
}
use ch_relay.Bytes.{Bytes, codes, strip_prefix}
use ch_relay.Topic.{TopicFilter, SharedSubscription, parse, parse_shared}
use ch_relay.Topic.Parsing.{parse_iff}
use ch_relay.Message.{QoS, at_most_once, at_least_once, exactly_once, min}
use ch_relay.Acl.{can_publish, can_subscribe}
use ch_relay.Router.{Router, ClientId}
use ch_relay.Hub.{Hub}
use ch_relay.Hub.Delivery.{deliver_retained}
use ch_relay.Hub.Requests.{hub_subscribe, hub_subscribe_shared}
use ch_relay.Connection.{
  Env, Conn, Turn, continues, breaks, panics, Moment, InboundPublish, max_qos, has_filter,
}
use ch_relay.Connection.Requests.{
  effective, Job, subscribe_plain, subscribe_granted, subscribe_one, subscribe_each,
}
use ch_relay.Hub.Delivery.{replay}
use ch_relay.Hub.{enqueue, set_session}
use ch_relay.Storage.{flush}
use ch_relay.Prelude.{nat_eq, ==_iff}
use ch_relay.Prelude.Map.{get, get-insert}
use ch_relay.Connection.{parse_replay, puback, pubrec}
use ch_relay.Connection.Requests.{deliver_jobs}
use ch_relay.Connection.Turns.{on_subscribe, then_jobs, on_publish, acknowledged, replayed}
use ch_relay.Connection.Endings.{Leaves, reply-Leaves}
use ch_relay.Connection.RouterChanges.{
  ChangesOnly, same-ChangesOnly, trans-ChangesOnly, subscribe-ChangesOnly,
  subscribe_shared-ChangesOnly,
}

-- What a round of the loop leaves, along with the permissions themselves.
abbrev Confined : ClientId → Conn → Conn → Type 0
Confined id c c' = (c'.access ≡ c.access) × ChangesOnly id c.access c.hub.router c'.hub.router

subscribe_plain-Confined :
    (c : Conn) (id : ClientId) (filter : Bytes) (q : QoS) (tf : Option TopicFilter)
    → parse filter ≡ tf
    → can_subscribe c.access filter ≡ true
    → Confined id c (subscribe_plain c id filter q tf).0
unfolding subscribe_plain hub_subscribe
subscribe_plain-Confined c id filter q none e a = (refl, same-ChangesOnly id c.access c.hub.router)
subscribe_plain-Confined c id filter q (some tf) e a = (
  refl,
  subscribe-ChangesOnly c.hub.router id c.access tf q
      (subst (λ g. can_subscribe c.access g ≡ true) (sym ((parse_iff filter tf).0 e).1) a),
)

subscribe_granted-Confined :
    (c : Conn) (id : ClientId) (filter : Bytes) (q : QoS) (shared : Option SharedSubscription)
    → can_subscribe c.access (effective filter shared) ≡ true
    → Confined id c (subscribe_granted c id filter q shared).0
unfolding subscribe_granted hub_subscribe_shared
subscribe_granted-Confined c id filter q none a =
    subscribe_plain-Confined c id filter q (parse filter) refl a
subscribe_granted-Confined c id filter q (some shared) a =
    (refl, subscribe_shared-ChangesOnly c.hub.router shared.group id c.access shared.filter q a)

subscribe_one-Confined :
    (limit : ℕ) (c : Conn) (id : ClientId) (filter : Bytes) (q : QoS)
    → Confined id c (subscribe_one limit c id filter q).0
subscribe_one-Confined limit c id filter q =
    unfold subscribe_one in
    let same : Confined id c c = (refl, same-ChangesOnly id c.access c.hub.router) in
    elim (Bool-cases (can_subscribe c.access (effective filter (parse_shared filter)))) [
      | inr d ↦ rw d same
      | inl d ↦
          elim (Bool-cases
            (not (has_filter filter c.active_filters) && leb limit (length c.active_filters))) [
              | inl e ↦ rw (d, e) same
              | inr e ↦
                  rw (d, e)
                    (subscribe_granted-Confined c id filter (min q max_qos) (parse_shared filter) d)
            ]
    ]

subscribe_each-Confined :
    (limit : ℕ) (c : Conn) (id : ClientId) (filters : List (Bytes × QoS))
    → Confined id c (subscribe_each limit c id filters).0
unfolding subscribe_each
subscribe_each-Confined limit c id [] = (refl, same-ChangesOnly id c.access c.hub.router)
subscribe_each-Confined limit c id ((filter, q) ∷ filters) =
    let (a, h) = subscribe_one-Confined limit c id filter q in
    let c' = (subscribe_one limit c id filter q).0 in
    let (b, k) = subscribe_each-Confined limit c' id filters in
    (
      b ∙ a,
      trans-ChangesOnly c.hub.router c'.hub.router (subscribe_each limit c' id filters).0.hub.router
          h
          (subst
            (λ x. ChangesOnly id x c'.hub.router (subscribe_each limit c' id filters).0.hub.router)
            a k),
    )

deliver_retained-router :
    (h : Hub) (now : ℕ) (id : ClientId) (tf : TopicFilter) (q : QoS)
    → (deliver_retained h now id tf q).router ≡ h.router
unfolding deliver_retained
deliver_retained-router h now id tf q = elim (Option-cases (get id h.sessions.by_id)) [
  | inl e ↦ rw (e, deliver_retained) refl
  | inr (s, e) ↦ rw (e, deliver_retained) refl
]

deliver_jobs-router :
    (now : ℕ) (c : Conn) (id : ClientId) (jobs : List Job)
    → (deliver_jobs now c id jobs).hub.router ≡ c.hub.router
unfolding deliver_jobs
deliver_jobs-router now c id [] = refl
deliver_jobs-router now c id ((tf, q) ∷ jobs) =
    deliver_jobs-router now (record c { hub = deliver_retained c.hub now id tf q }) id jobs
    ∙ deliver_retained-router c.hub now id tf q

then_jobs-Leaves :
    (P : Router → Type 0) (at : Moment) (id : ClientId) (jobs : List Job) (t : Turn)
    → Leaves (Unit {0}) (λ c. P c.hub.router) t
    → Leaves (Unit {0}) (λ c. P c.hub.router) (then_jobs at id jobs t)
then_jobs-Leaves P at id jobs (continues c) h = rw (deliver_jobs-router at.now c id jobs) h
then_jobs-Leaves P at id jobs (breaks c) h = h
then_jobs-Leaves P at id jobs panics h = tt

-- A SUBSCRIBE, whatever its filters, changes no subscription of another client, and of this client
-- only subscriptions to filters that its permissions cover, within a share group or outside.
pub on_subscribe-ChangesOnly :
    (env : Env) (at : Moment) (c : Conn) (id : ClientId) (packet_id : ℕ)
    (filters : List (Bytes × QoS))
    → Leaves
        (Unit {0})
        (λ c'. ChangesOnly id c.access c.hub.router c'.hub.router)
        (on_subscribe env at c id packet_id filters)
unfolding on_subscribe
on_subscribe-ChangesOnly env at c id packet_id filters =
    let k = (subscribe_each-Confined env.max_subscriptions c id filters).1 in
    then_jobs-Leaves (ChangesOnly id c.access c.hub.router) at id _ _ (
      reply-Leaves (Unit {0}) (λ c'. ChangesOnly id c.access c.hub.router c'.hub.router) at _ _ k k)

-- The same but for the session of one client.
pub record SameButSession (id : ClientId) (h h' : Hub) : Type 0 where
  pub router : h'.router ≡ h.router
  pub retained : h'.retained ≡ h.retained
  pub others : (d : ClientId) → d ≢ id → get d h'.sessions.by_id ≡ get d h.sessions.by_id

acknowledged-Leaves :
    (P : Hub → Type 0) (at : Moment) (c : Conn) (q : QoS) (pid : Option ℕ) (success : Bool)
    → P c.hub
    → Leaves (Unit {0}) (λ c'. P c'.hub) (acknowledged at c q pid success)
acknowledged-Leaves P at c at_most_once pid success h = h
acknowledged-Leaves P at c at_least_once none success h = h
acknowledged-Leaves P at c at_least_once (some pid) success h =
    reply-Leaves (Unit {0}) (λ c'. P c'.hub) at c (puback pid success) h h
acknowledged-Leaves P at c exactly_once none success h = h
acknowledged-Leaves P at c exactly_once (some pid) success h =
    reply-Leaves (Unit {0}) (λ c'. P c'.hub) at c (pubrec pid success) h h

set_session-SameButSession :
    (h : Hub) (id : ClientId) (s : ch_relay.Session.Session)
    → SameButSession id h (set_session h id s)
set_session-SameButSession h id s = record {
  router = refl;
  retained = refl;
  others = λ d ne. ground (arith, get-insert id d s h.sessions.by_id, ==_iff id d, ne);
}

replay-SameButSession :
    (load_events : ℕ → Option (List (ℕ × Bytes))) (to_string : ℕ → Bytes) (h : Hub) (id : ClientId)
    (from : ℕ) (filter : TopicFilter)
    → SameButSession id h (replay load_events to_string h id from filter).0
unfolding replay
replay-SameButSession load_events to_string h id from filter =
    elim (Option-cases (if h.is_durable then load_events from else none)) [
      | inl e ↦ rw (e, replay) same
      | inr (events, e) ↦ elim (Option-cases (get id h.sessions.by_id)) [
        | inl g ↦ rw (e, g, replay) same
        | inr (s, g) ↦ rw (e, g, replay) (set_session-SameButSession h id _)
      ]
    ]
  where
    same : SameButSession id h h
    same = record { router = refl; retained = refl; others = λ d ne. refl }

replayed-SameButSession :
    (env : Env) (c : Conn) (id : ClientId) (o : Option (ℕ × TopicFilter))
    → SameButSession id c.hub (replayed env c id o).hub
replayed-SameButSession env c id none = record {
  router = refl;
  retained = refl;
  others = λ d ne. refl;
}
replayed-SameButSession env c id (some (from, filter)) =
    elim (Bool-cases (can_subscribe c.access filter.as_str)) [
      | inl a ↦
          let v =
            replay-SameButSession env.load_events env.to_string (enqueue c.hub flush) id from
              filter in
          rw a (record { router = v.router; retained = v.retained; others = v.others })
      | inr a ↦ rw a (record { router = refl; retained = refl; others = λ d ne. refl })
    ]

-- A PUBLISH to a topic that the client may not publish to reaches no other session, no subscription
-- and no retained message, also where it is a request to replay events.
pub on_publish-SameButSession :
    (env : Env) (at : Moment) (c : Conn) (id : ClientId) (p : InboundPublish)
    → can_publish c.access p.topic ≡ false
    → Leaves (Unit {0}) (λ c'. SameButSession id c.hub c'.hub) (on_publish env at c id p)
unfolding on_publish
on_publish-SameButSession env at c id p a =
    elim (Option-cases (strip_prefix (codes "$replay/") p.topic)) [
      | inr (rest, e) ↦
          rw (e, on_publish)
            (acknowledged-Leaves (SameButSession id c.hub) at _ p.qos p.packet_id true
              (replayed-SameButSession env c id (parse_replay rest)))
      | inl e ↦
          rw (e, a, on_publish)
            (acknowledged-Leaves (SameButSession id c.hub) at c p.qos p.packet_id false
              (record { router = refl; retained = refl; others = λ d ne. refl }))
    ]
