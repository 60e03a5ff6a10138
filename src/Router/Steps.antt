-- ===== src/Router/Steps.antt =====
-- The router as a whole: after any sequence of operations its table is valid, and it is the two maps of
-- granted QoS that the operations say.
use ch_relay.Prelude.{◌≡◌, refl, ◌&&◌, List, [], ◌∷◌, Option, none, some, ◌==◌, if◌then◌else◌}
use ch_relay.Bytes.{Bytes, bytes_beq}
use ch_relay.Topic.{TopicFilter}
use ch_relay.Message.{QoS}
use ch_relay.Router.{
  ClientId, Router, empty, subscribe, subscribe_shared, unsubscribe, unsubscribe_shared,
  remove_client, route,
}
use ch_relay.Router.Granted.{
  granted-subscribe, shared_granted-subscribe_shared, granted-unsubscribe,
  shared_granted-unsubscribe_shared, granted-remove_client, shared_granted-remove_client,
  shared_granted-unsubscribe, granted-unsubscribe_shared, granted-route, shared_granted-route,
}
use ch_relay.Router.GrantLists.{granted, shared_granted}
use ch_relay.Router.Validity.{IsValid, empty-IsValid}
use ch_relay.Router.Kept.{remove_client-IsValid, route-IsValid}
use ch_relay.Router.KeptBySubscribing.{
  subscribe-IsValid, subscribe_shared-IsValid, unsubscribe-IsValid, unsubscribe_shared-IsValid,
}

-- The operations that change the table, as the hub calls them.
pub data Call : Type 0 where
  subscribes : ClientId → TopicFilter → QoS → Call
  joins : Bytes → ClientId → TopicFilter → QoS → Call
  unsubscribes : ClientId → Bytes → Call
  leaves : Bytes → ClientId → Bytes → Call
  removes : ClientId → Call
  routes : Bytes → Call

pub step : Router → Call → Router
step r (subscribes c f q) = subscribe r c f q
step r (joins group c f q) = subscribe_shared r group c f q
step r (unsubscribes c f) = (unsubscribe r c f).0
step r (leaves group c f) = (unsubscribe_shared r group c f).0
step r (removes c) = remove_client r c
step r (routes topic) = (route r topic).0

pub run_calls : Router → List Call → Router
run_calls r [] = r
run_calls r (c ∷ calls) = run_calls (step r c) calls

-- Every operation keeps a valid table valid.
pub step-IsValid : {r : Router} (c : Call) → IsValid r → IsValid (step r c)
unfolding step
step-IsValid (subscribes c f q) v = subscribe-IsValid v c f q
step-IsValid (joins group c f q) v = subscribe_shared-IsValid v group c f q
step-IsValid (unsubscribes c f) v = unsubscribe-IsValid v c f
step-IsValid (leaves group c f) v = unsubscribe_shared-IsValid v group c f
step-IsValid (removes c) v = remove_client-IsValid c v
step-IsValid (routes topic) v = route-IsValid topic v

run_calls-IsValid_from : (r : Router) (calls : List Call) → IsValid r → IsValid (run_calls r calls)
unfolding run_calls
run_calls-IsValid_from r [] v = v
run_calls-IsValid_from r (c ∷ calls) v = run_calls-IsValid_from (step r c) calls (step-IsValid c v)

-- After any sequence of operations on a new router the table is valid: clients and groups are
-- distinct keys, no client is left without subscriptions and no group without members, no filter
-- is twice in a client's list nor in a group for one client, and the cursors are `usize` values.
pub run_calls-IsValid : (calls : List Call) → IsValid (run_calls empty calls)
run_calls-IsValid calls = run_calls-IsValid_from empty calls empty-IsValid

-- The abstract router: the QoS granted to a client for a filter, and within a group.
pub record Grants : Type 0 where
  pub direct : ClientId → Bytes → Option QoS
  pub within : Bytes → ClientId → Bytes → Option QoS

abbrev pub grants : Router → Grants
grants r = record { direct = granted r; within = shared_granted r }

-- What each operation means for the grants. Routing a message does not change them.
abbrev pub spec_step : Grants → Call → Grants
spec_step v (subscribes c f q) = record v {
  direct = λ d g. if c == d && bytes_beq f.as_str g then some q else v.direct d g;
}
spec_step v (joins group c f q) = record v {
  within = λ other d g.
      if bytes_beq group other && (c == d && bytes_beq f.as_str g)
      then some q
      else v.within other d g;
}
spec_step v (unsubscribes c f) = record v {
  direct = λ d g. if c == d && bytes_beq f g then none else v.direct d g;
}
spec_step v (leaves group c f) = record v {
  within = λ other d g.
      if bytes_beq group other && (c == d && bytes_beq f g) then none else v.within other d g;
}
spec_step v (removes c) = record {
  direct = λ d g. if c == d then none else v.direct d g;
  within = λ other d g. if c == d then none else v.within other d g;
}
spec_step v (routes topic) = v

pub record SameGrants (v w : Grants) : Type 0 where
  pub same_direct : (c : ClientId) (f : Bytes) → v.direct c f ≡ w.direct c f
  pub same_within :
      (group : Bytes) (c : ClientId) (f : Bytes) → v.within group c f ≡ w.within group c f

-- On a valid table every operation does to the grants what the abstract router does: it changes the
-- grants that it names, and no other grant of any client.
pub step-SameGrants :
    (r : Router) (c : Call) → IsValid r → SameGrants (grants (step r c)) (spec_step (grants r) c)
unfolding step
step-SameGrants r (subscribes c f q) v = record {
  same_direct = granted-subscribe r c f q;
  same_within = unfold subscribe shared_granted in λ group d g. refl;
}
step-SameGrants r (joins group c f q) v = record {
  same_direct = unfold subscribe_shared granted in λ d g. refl;
  same_within = shared_granted-subscribe_shared r group c f q;
}
step-SameGrants r (unsubscribes c f) v = record {
  same_direct = granted-unsubscribe r c f;
  same_within = shared_granted-unsubscribe r c f;
}
step-SameGrants r (leaves group c f) v = record {
  same_direct = granted-unsubscribe_shared r group c f;
  same_within = shared_granted-unsubscribe_shared r group c f;
}
step-SameGrants r (removes c) v = record {
  same_direct = granted-remove_client r c;
  same_within = λ group d g. shared_granted-remove_client r c group d g v.groups;
}
step-SameGrants r (routes topic) v = record {
  same_direct = granted-route r topic;
  same_within = shared_granted-route r topic;
}
