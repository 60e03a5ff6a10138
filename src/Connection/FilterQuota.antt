-- ===== src/Connection/FilterQuota.antt =====
-- The loops over filters in crates/relay-server/src/connection.rs keep to the quota.
use ch_relay.Prelude.{
  ℕ, ◌≤◌, ◌≡◌, refl, false, not, ◌&&◌, List, [], ◌∷◌, Option, none, some, leb, arith, length,
  length-keep-le, Bool-cases, inl, inr,
}
use ch_relay.Bytes.{Bytes, bytes_beq}
use ch_relay.Topic.{TopicFilter, SharedSubscription, parse, parse_shared}
use ch_relay.Message.{QoS, min}
use ch_relay.Acl.{can_subscribe}
use ch_relay.Router.{ClientId}
use ch_relay.Hub.Delivery.{deliver_retained}
use ch_relay.Hub.Requests.{hub_unsubscribe}
use ch_relay.Connection.{Conn, max_qos, has_filter, remove_filter}
use ch_relay.Connection.Requests.{
  effective, Job, subscribe_plain, subscribe_granted, subscribe_one, subscribe_each, deliver_jobs,
  unsubscribe_each,
}

-- The connection has no more active filters than it may.
abbrev pub IsWithin : ℕ → Conn → Type 0
IsWithin limit c = length c.active_filters ≤ limit

subscribe_plain-IsWithin :
    (limit : ℕ) (c : Conn) (id : ClientId) (filter : Bytes) (q : QoS) (tf : Option TopicFilter)
    → IsWithin limit c
    → (not (has_filter filter c.active_filters) && leb limit (length c.active_filters)) ≡ false
    → IsWithin limit (subscribe_plain c id filter q tf).0
unfolding subscribe_plain
subscribe_plain-IsWithin limit c id filter q none h e = h
subscribe_plain-IsWithin limit c id filter q (some tf) h e = ground (arith, h, e)

subscribe_granted-IsWithin :
    (limit : ℕ) (c : Conn) (id : ClientId) (filter : Bytes) (q : QoS)
    (shared : Option SharedSubscription)
    → IsWithin limit c
    → (not (has_filter filter c.active_filters) && leb limit (length c.active_filters)) ≡ false
    → IsWithin limit (subscribe_granted c id filter q shared).0
unfolding subscribe_granted
subscribe_granted-IsWithin limit c id filter q none h e =
    subscribe_plain-IsWithin limit c id filter q (parse filter) h e
subscribe_granted-IsWithin limit c id filter q (some shared) h e = ground (arith, h, e)

subscribe_one-IsWithin :
    (limit : ℕ) (c : Conn) (id : ClientId) (filter : Bytes) (q : QoS)
    → IsWithin limit c
    → IsWithin limit (subscribe_one limit c id filter q).0
subscribe_one-IsWithin limit c id filter q h =
    unfold subscribe_one in
    elim (Bool-cases (not (can_subscribe c.access (effective filter (parse_shared filter))))) [
      | inl d ↦ rw d h
      | inr d ↦
          elim (Bool-cases
            (not (has_filter filter c.active_filters) && leb limit (length c.active_filters))) [
              | inl e ↦ rw (d, e) h
              | inr e ↦
                  rw (d, e)
                    (subscribe_granted-IsWithin limit c id filter (min q max_qos)
                      (parse_shared filter) h e)
            ]
    ]

pub subscribe_each-IsWithin :
    (limit : ℕ) (c : Conn) (id : ClientId) (filters : List (Bytes × QoS))
    → IsWithin limit c
    → IsWithin limit (subscribe_each limit c id filters).0
unfolding subscribe_each
subscribe_each-IsWithin limit c id [] h = h
subscribe_each-IsWithin limit c id ((filter, q) ∷ filters) h =
    subscribe_each-IsWithin limit (subscribe_one limit c id filter q).0 id filters
      (subscribe_one-IsWithin limit c id filter q h)

pub deliver_jobs-active_filters :
    (now : ℕ) (c : Conn) (id : ClientId) (jobs : List Job)
    → (deliver_jobs now c id jobs).active_filters ≡ c.active_filters
unfolding deliver_jobs
deliver_jobs-active_filters now c id [] = refl
deliver_jobs-active_filters now c id ((tf, q) ∷ jobs) =
    deliver_jobs-active_filters now (record c { hub = deliver_retained c.hub now id tf q }) id jobs

pub unsubscribe_each-IsWithin :
    (limit : ℕ) (c : Conn) (id : ClientId) (filters : List Bytes)
    → IsWithin limit c
    → IsWithin limit (unsubscribe_each c id filters).0
unfolding unsubscribe_each
unsubscribe_each-IsWithin limit c id [] h = h
unsubscribe_each-IsWithin limit c id (filter ∷ filters) h =
    unsubscribe_each-IsWithin limit
      (record c {
        hub = (hub_unsubscribe c.hub id filter).0;
        active_filters = remove_filter filter c.active_filters;
      })
      id filters
      (omega (arith, h, length-keep-le {0} (λ g. not (bytes_beq g filter)) c.active_filters))
