-- ===== src/Hub/Recipients.antt =====
-- What a publish does to each session of the hub of crates/relay-server/src/hub.rs.
use ch_relay.Prelude.{
  ℕ, ◌≡◌, refl, Bool, false, List, [], ◌∷◌, Option, none, some, ◌==◌, arith, if◌then◌else◌,
  Option-cases, inl, inr, nat_eq, ==_iff,
}
use ch_relay.Prelude.Map.{Map, get, insert, get-insert}
use ch_relay.Message.{QoS, min}
use ch_relay.Retry.{RetryConfig}
use ch_relay.Router.{ClientId, route}
use ch_relay.Session.{Session, deliver}
use ch_relay.Hub.{Hub}
use ch_relay.Hub.Delivery.{Outgoing, deliver_targets, publish_to_all}

-- The deliveries of one client among the targets, in their order.
pub received : RetryConfig → ℕ → Outgoing → ClientId → List (ClientId × QoS) → Session → Session
received cfg now m i [] s = s
received cfg now m i ((id, granted) ∷ targets) s =
    received cfg now m i targets
      (if id == i then deliver s m.topic m.payload (min m.qos granted) false now cfg else s)

abbrev pub received_of :
    RetryConfig → ℕ → Outgoing → ClientId → List (ClientId × QoS) → Option Session → Option Session
received_of cfg now m i targets none = none
received_of cfg now m i targets (some s) = some (received cfg now m i targets s)

get-deliver_targets :
    (durable : Bool) (cfg : RetryConfig) (now : ℕ) (m : Outgoing) (i : ClientId)
    (targets : List (ClientId × QoS)) (table : Map ClientId Session)
    → get i (deliver_targets durable cfg now m targets table).0
      ≡ received_of cfg now m i targets (get i table)
unfolding deliver_targets received
get-deliver_targets durable cfg now m i [] table = elim (Option-cases (get i table)) [
  | inl e ↦ rw e refl
  | inr (s, e) ↦ rw e refl
]
get-deliver_targets durable cfg now m i ((id, granted) ∷ targets) table =
    elim (Option-cases (get id table)) [
      | inl e ↦
          rw (e, deliver_targets)
            (ground (arith, get-deliver_targets durable cfg now m i targets table, ==_iff id i))
      | inr (s, e) ↦
          let s' = deliver s m.topic m.payload (min m.qos granted) false now cfg in
          rw (e, deliver_targets)
            (ground (
              arith,
              get-deliver_targets durable cfg now m i targets (insert id s' table),
              get-insert id i s' table,
              ==_iff id i,
            ))
    ]

-- A publish reaches the session of each client that the router names, once for each time it is
-- named, at the lower of the message's and the granted QoS, and leaves every other session as it is.
pub publish_to_all_lem :
    (h : Hub) (now ts : ℕ) (m : Outgoing) (retain : Bool) (i : ClientId)
    → get i (publish_to_all h now ts m retain).0.sessions.by_id
      ≡ received_of h.retry now m i (route h.router m.topic).1 (get i h.sessions.by_id)
unfolding publish_to_all
publish_to_all_lem h now ts m retain i =
    get-deliver_targets h.is_durable h.retry now m i (route h.router m.topic).1 h.sessions.by_id
