-- ===== src/Router/Examples.antt =====
-- A router with a subscriber and a share group of two.
use mathlib.Core.List.{Perm}
use ch_relay.Prelude.{◌≡◌, ◌↔◌, refl, [], ◌∷◌, ◌++◌, List, In, arith, length, nat_eq}
use ch_relay.Prelude.Sort.{IsSorted}
use ch_relay.Bytes.{codes, bytes_beq, split}
use ch_relay.Topic.{TopicFilter, topic_matches, match_levels}
use ch_relay.Message.{QoS, at_most_once, at_least_once}
use ch_relay.Router.{
  ClientId, Router, SharedGroup, empty, by_client, matching_subscribers, matching_members, route,
  pick_member,
}
use ch_relay.Router.Validity.{IsValid}
use ch_relay.Router.Steps.{
  Call, subscribes, joins, removes, routes, run_calls, step, run_calls-IsValid, step-SameGrants,
  SameGrants, grants, spec_step,
}
use ch_relay.Router.Matching.{matching_subscribers_iff}
use ch_relay.Router.BestGrants.{IsBestGrant}
use ch_relay.Router.Routing.{OnePerGroup, route_lem}
use ch_relay.Router.RoundRobin.{turns, turns-perm}

abbrev jobs : TopicFilter
jobs = record { as_str = codes "jobs" }

abbrev calls : List Call
calls =
    subscribes 9 jobs at_most_once
    ∷ joins (codes "workers") 1 jobs at_least_once
    ∷ joins (codes "workers") 2 jobs at_most_once
    ∷ routes (codes "jobs")
    ∷ []

abbrev busy : Router
busy = run_calls empty calls

busy-IsValid : IsValid busy
busy-IsValid = run_calls-IsValid calls

run_calls-IsValid_example : IsValid (run_calls empty calls)
run_calls-IsValid_example = run_calls-IsValid calls

step-SameGrants_example :
    SameGrants (grants (step busy (removes 1))) (spec_step (grants busy) (removes 1))
step-SameGrants_example = step-SameGrants busy (removes 1) busy-IsValid

matching_subscribers_iff_example :
    In (9, at_most_once) (matching_subscribers busy (codes "jobs"))
    ↔ IsBestGrant busy (codes "jobs") 9 at_most_once
matching_subscribers_iff_example =
    matching_subscribers_iff busy-IsValid (codes "jobs") 9 at_most_once

route_lem_example :
    (ps : List (ClientId × QoS)) × OnePerGroup (codes "jobs") busy.shared ps
    × Perm (route busy (codes "jobs")).1 (matching_subscribers busy (codes "jobs") ++ ps)
    × IsSorted by_client (route busy (codes "jobs")).1
route_lem_example = route_lem busy (codes "jobs")

abbrev workers : SharedGroup
workers = record {
  members =
      (1, record { filter = jobs; qos = at_least_once })
      ∷ (2, record { filter = jobs; qos = at_most_once })
      ∷ [];
  cursor = 7;
}

two_members :
    matching_members (codes "jobs") workers.members ≡ (1, at_least_once) ∷ (2, at_most_once) ∷ []
unfolding matching_members topic_matches match_levels split bytes_beq
two_members = refl

turns-perm_example :
    Perm
      (turns (codes "jobs") (length (matching_members (codes "jobs") workers.members)) workers)
      (matching_members (codes "jobs") workers.members)
turns-perm_example =
    turns-perm (codes "jobs") workers (rw two_members (omega arith)) (rw two_members (omega arith))

first_then_second : turns (codes "jobs") 2 workers ≡ (2, at_most_once) ∷ (1, at_least_once) ∷ []
unfolding turns pick_member matching_members topic_matches match_levels split bytes_beq
first_then_second = refl
