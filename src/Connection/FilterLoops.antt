-- ===== src/Connection/FilterLoops.antt =====
-- The loops over filters in crates/relay-server/src/connection.rs keep the hub sound.
use ch_relay.Prelude.{
  ℕ, not, ◌&&◌, List, [], ◌∷◌, Option, none, some, leb, length, Bool-cases, inl, inr,
}
use ch_relay.Bytes.{Bytes}
use ch_relay.Topic.{TopicFilter, SharedSubscription, parse, parse_shared}
use ch_relay.Message.{QoS, min}
use ch_relay.Acl.{can_subscribe}
use ch_relay.Router.{ClientId}
use ch_relay.Hub.Delivery.{deliver_retained}
use ch_relay.Hub.Requests.{hub_subscribe, hub_subscribe_shared, hub_unsubscribe}
use ch_relay.Hub.Soundness.{IsSound, deliver_retained-IsSound}
use ch_relay.Connection.{
  Conn, Turn, continues, breaks, panics, Moment, max_qos, has_filter, remove_filter,
}
use ch_relay.Connection.Requests.{
  effective, Job, subscribe_plain, subscribe_granted, subscribe_one, subscribe_each, deliver_jobs,
  unsubscribe_each,
}
use ch_relay.Connection.Turns.{then_jobs}
use ch_relay.Connection.Endings.{Leaves}

abbrev pub HasSoundHub : Conn → Type 0
HasSoundHub c = IsSound c.hub

subscribe_plain-HasSoundHub :
    (c : Conn) (id : ClientId) (filter : Bytes) (q : QoS) (tf : Option TopicFilter)
    → HasSoundHub c
    → HasSoundHub (subscribe_plain c id filter q tf).0
unfolding subscribe_plain hub_subscribe
subscribe_plain-HasSoundHub c id filter q none v = v
subscribe_plain-HasSoundHub c id filter q (some tf) v = v

subscribe_granted-HasSoundHub :
    (c : Conn) (id : ClientId) (filter : Bytes) (q : QoS) (shared : Option SharedSubscription)
    → HasSoundHub c
    → HasSoundHub (subscribe_granted c id filter q shared).0
unfolding subscribe_granted hub_subscribe_shared
subscribe_granted-HasSoundHub c id filter q none v =
    subscribe_plain-HasSoundHub c id filter q (parse filter) v
subscribe_granted-HasSoundHub c id filter q (some shared) v = v

subscribe_one-HasSoundHub :
    (limit : ℕ) (c : Conn) (id : ClientId) (filter : Bytes) (q : QoS)
    → HasSoundHub c
    → HasSoundHub (subscribe_one limit c id filter q).0
subscribe_one-HasSoundHub limit c id filter q v =
    unfold subscribe_one in
    elim (Bool-cases (not (can_subscribe c.access (effective filter (parse_shared filter))))) [
      | inl d ↦ rw d v
      | inr d ↦
          elim (Bool-cases
            (not (has_filter filter c.active_filters) && leb limit (length c.active_filters))) [
              | inl e ↦ rw (d, e) v
              | inr e ↦
                  rw (d, e)
                    (subscribe_granted-HasSoundHub c id filter (min q max_qos) (parse_shared filter)
                      v)
            ]
    ]

pub subscribe_each-HasSoundHub :
    (limit : ℕ) (c : Conn) (id : ClientId) (filters : List (Bytes × QoS))
    → HasSoundHub c
    → HasSoundHub (subscribe_each limit c id filters).0
unfolding subscribe_each
subscribe_each-HasSoundHub limit c id [] v = v
subscribe_each-HasSoundHub limit c id ((filter, q) ∷ filters) v =
    subscribe_each-HasSoundHub limit (subscribe_one limit c id filter q).0 id filters
      (subscribe_one-HasSoundHub limit c id filter q v)

deliver_jobs-HasSoundHub :
    (now : ℕ) (c : Conn) (id : ClientId) (jobs : List Job)
    → HasSoundHub c
    → HasSoundHub (deliver_jobs now c id jobs)
unfolding deliver_jobs
deliver_jobs-HasSoundHub now c id [] v = v
deliver_jobs-HasSoundHub now c id ((tf, q) ∷ jobs) v =
    deliver_jobs-HasSoundHub now (record c { hub = deliver_retained c.hub now id tf q }) id jobs
      (deliver_retained-IsSound c.hub now id tf q v)

pub then_jobs-HasSoundHub :
    (at : Moment) (id : ClientId) (jobs : List Job) (t : Turn)
    → Leaves ⊥ HasSoundHub t
    → Leaves ⊥ HasSoundHub (then_jobs at id jobs t)
then_jobs-HasSoundHub at id jobs (continues c) v = deliver_jobs-HasSoundHub at.now c id jobs v
then_jobs-HasSoundHub at id jobs (breaks c) v = v
then_jobs-HasSoundHub at id jobs panics v = v

pub unsubscribe_each-HasSoundHub :
    (c : Conn) (id : ClientId) (filters : List Bytes)
    → HasSoundHub c
    → HasSoundHub (unsubscribe_each c id filters).0
unfolding unsubscribe_each hub_unsubscribe
unsubscribe_each-HasSoundHub c id [] v = v
unsubscribe_each-HasSoundHub c id (filter ∷ filters) v =
    unsubscribe_each-HasSoundHub
      (record c {
        hub = (hub_unsubscribe c.hub id filter).0;
        active_filters = remove_filter filter c.active_filters;
      })
      id filters v
