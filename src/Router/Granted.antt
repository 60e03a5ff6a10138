-- ===== src/Router/Granted.antt =====
-- The router as two finite maps: the QoS granted to a client for a filter, and to a member of a
-- group for a filter. Each operation changes these maps at its own key and nowhere else.
use ch_relay.Prelude.{
  ap, ◌≡◌, ◌↔◌, refl, false, not, ◌&&◌, List, [], ◌∷◌, none, some, ◌==◌, arith, if◌then◌else◌,
  length, keep, length-keep-le, nat_eq, Option-cases, inl, inr,
}
use ch_relay.Prelude.Map.{
  Map, get, insert, get-insert, get-remove, HasUniqueKeys, Lacks, get_of_Lacks,
}
use ch_relay.Bytes.{Bytes, bytes_beq, bytes_beq_iff, bytes_eq}
use ch_relay.Topic.{TopicFilter}
use ch_relay.Message.{QoS}
use ch_relay.Router.{
  route, route_groups, ClientId, Router, Sub, SharedGroup, or_default, no_members, upsert_sub,
  subscribe, subscribe_shared, without_filter, without_member, unsubscribe, unsubscribe_shared,
  leave_groups, remove_client, join_group,
}
use ch_relay.Router.GrantLists.{
  sub_qos, member_qos, subs_of, members_of, granted, shared_granted, sub_qos-upsert_sub,
  sub_qos-without_filter, member_qos-upsert_member, member_qos-without_member,
}

-- After a subscription the client is granted its QoS for the filter, whatever it had before, and
-- every other grant of every client is as it was.
pub granted-subscribe :
    (r : Router) (c : ClientId) (f : TopicFilter) (q : QoS) (d : ClientId) (g : Bytes)
    → granted (subscribe r c f q) d g
      ≡ (if c == d && bytes_beq f.as_str g then some q else granted r d g)
unfolding granted subscribe
granted-subscribe r c f q d g = ground (
  arith,
  get-insert c d (upsert_sub f q (subs_of r c)) r.normal,
  sub_qos-upsert_sub f q g (subs_of r c),
)

pub shared_granted-subscribe_shared :
    (r : Router) (group : Bytes) (c : ClientId) (f : TopicFilter) (q : QoS) (other : Bytes)
    (d : ClientId) (g : Bytes)
    → shared_granted (subscribe_shared r group c f q) other d g ≡ (
        if bytes_beq group other && (c == d && bytes_beq f.as_str g)
        then some q
        else shared_granted r other d g)
unfolding shared_granted subscribe_shared
shared_granted-subscribe_shared r group c f q other d g = ground (
  arith,
  get-insert group other (join_group (or_default no_members (get group r.shared)) c f q) r.shared,
  member_qos-upsert_member c f q d g (members_of r group),
  bytes_beq_iff group other,
)

-- After an unsubscription the grant is gone, and every other grant is as it was.
pub granted-unsubscribe :
    (r : Router) (c : ClientId) (f : Bytes) (d : ClientId) (g : Bytes)
    → granted (unsubscribe r c f).0 d g ≡ (if c == d && bytes_beq f g then none else granted r d g)
unfolding granted unsubscribe
granted-unsubscribe r c f d g = elim (Option-cases (get c r.normal)) [
  | inl e ↦ ground arith
  | inr (subs, e) ↦ ground (
    arith,
    get-insert c d (without_filter f subs) r.normal,
    get-remove c d (insert c (without_filter f subs) r.normal),
    sub_qos-without_filter f g subs,
  )
]

pub shared_granted-unsubscribe_shared :
    (r : Router) (group : Bytes) (c : ClientId) (f : Bytes) (other : Bytes) (d : ClientId)
    (g : Bytes)
    → shared_granted (unsubscribe_shared r group c f).0 other d g ≡ (
        if bytes_beq group other && (c == d && bytes_beq f g)
        then none
        else shared_granted r other d g)
unfolding shared_granted unsubscribe_shared
shared_granted-unsubscribe_shared r group c f other d g = elim (Option-cases (get group r.shared)) [
  | inl e ↦ ground (arith, bytes_beq_iff group other)
  | inr (s, e) ↦
      let kept = record s { members = without_member c f s.members } in
      ground (
        arith,
        get-insert group other kept r.shared,
        get-remove group other (insert group kept r.shared),
        member_qos-without_member c f d g s.members,
        bytes_beq_iff group other,
      )
]

length-without_filter :
    (f : Bytes) (subs : List Sub)
    → (length (without_filter f subs) ≡ length subs) ↔ (sub_qos f subs ≡ none)
length-without_filter f [] = ground arith
length-without_filter f (s ∷ subs) = ground (
  arith,
  length-without_filter f subs,
  length-keep-le (λ (t : Sub). not (bytes_beq t.filter.as_str f)) subs,
)

length-without_member :
    (c : ClientId) (f : Bytes) (members : List (ClientId × Sub))
    → (length (without_member c f members) ≡ length members) ↔ (member_qos c f members ≡ none)
length-without_member c f [] = ground arith
length-without_member c f ((d, s) ∷ members) = ground (
  arith,
  length-without_member c f members,
  length-keep-le (λ (m : ClientId × Sub). not (m.0 == c && bytes_beq m.1.filter.as_str f)) members,
)

-- `unsubscribe` reports whether the subscription was there.
pub unsubscribe_reports :
    (r : Router) (c : ClientId) (f : Bytes)
    → ((unsubscribe r c f).1 ≡ false) ↔ (granted r c f ≡ none)
unfolding granted unsubscribe
unsubscribe_reports r c f = elim (Option-cases (get c r.normal)) [
  | inl e ↦ ground arith
  | inr (subs, e) ↦ ground (arith, length-without_filter f subs)
]

pub unsubscribe_shared_reports :
    (r : Router) (group : Bytes) (c : ClientId) (f : Bytes)
    → ((unsubscribe_shared r group c f).1 ≡ false) ↔ (shared_granted r group c f ≡ none)
unfolding shared_granted unsubscribe_shared
unsubscribe_shared_reports r group c f = elim (Option-cases (get group r.shared)) [
  | inl e ↦ ground arith
  | inr (g, e) ↦ ground (arith, length-without_member c f g.members)
]

pub member_qos-leave_group :
    (c d : ClientId) (f : Bytes) (members : List (ClientId × Sub))
    → member_qos d f (keep (λ m. not (m.0 == c)) members)
      ≡ (if c == d then none else member_qos d f members)
member_qos-leave_group c d f [] = ground arith
member_qos-leave_group c d f ((b, s) ∷ members) =
    ground (arith, member_qos-leave_group c d f members)

pub leave_groups-Lacks :
    (c : ClientId) (group : Bytes) (m : Map Bytes SharedGroup)
    → Lacks group m
    → Lacks group (leave_groups c m)
unfolding leave_groups
leave_groups-Lacks c group [] l = tt
leave_groups-Lacks c group ((name, g) ∷ m) l = ground (arith, leave_groups-Lacks c group m l.1)

member_qos-leave_groups :
    (c d : ClientId) (f group : Bytes) (m : Map Bytes SharedGroup)
    → HasUniqueKeys m
    → member_qos d f (or_default no_members (get group (leave_groups c m))).members
      ≡ (if c == d then none else member_qos d f (or_default no_members (get group m)).members)
unfolding leave_groups
member_qos-leave_groups c d f group [] u = ground arith
member_qos-leave_groups c d f group ((name, g) ∷ m) u = ground (
  arith,
  member_qos-leave_groups c d f group m u.1,
  member_qos-leave_group c d f g.members,
  leave_groups-Lacks c name m u.0,
  get_of_Lacks name (leave_groups c m),
  bytes_beq_iff name group,
)

-- A removed client is granted nothing any more, in no group either, and every other client keeps
-- what it was granted.
pub granted-remove_client :
    (r : Router) (c d : ClientId) (f : Bytes)
    → granted (remove_client r c) d f ≡ (if c == d then none else granted r d f)
unfolding granted remove_client
granted-remove_client r c d f = ground (arith, get-remove c d r.normal)

pub shared_granted-remove_client :
    (r : Router) (c : ClientId) (group : Bytes) (d : ClientId) (f : Bytes)
    → HasUniqueKeys r.shared
    → shared_granted (remove_client r c) group d f
      ≡ (if c == d then none else shared_granted r group d f)
unfolding shared_granted remove_client
shared_granted-remove_client r c group d f u = member_qos-leave_groups c d f group r.shared u

pub shared_granted-unsubscribe :
    (r : Router) (c : ClientId) (f group : Bytes) (d : ClientId) (g : Bytes)
    → shared_granted (unsubscribe r c f).0 group d g ≡ shared_granted r group d g
unfolding shared_granted unsubscribe
shared_granted-unsubscribe r c f group d g = ground arith

pub granted-unsubscribe_shared :
    (r : Router) (group : Bytes) (c : ClientId) (f : Bytes) (d : ClientId) (g : Bytes)
    → granted (unsubscribe_shared r group c f).0 d g ≡ granted r d g
unfolding granted unsubscribe_shared
granted-unsubscribe_shared r group c f d g = ground arith

pub granted-route :
    (r : Router) (topic : Bytes) (d : ClientId) (g : Bytes)
    → granted (route r topic).0 d g ≡ granted r d g
unfolding granted route
granted-route r topic d g = refl

members-route_groups :
    (topic : Bytes) (m : Map Bytes SharedGroup) (group : Bytes)
    → (or_default no_members (get group (route_groups topic m).0)).members
      ≡ (or_default no_members (get group m)).members
unfolding route_groups
members-route_groups topic [] group = refl
members-route_groups topic ((name, s) ∷ m) group =
    ground (arith, members-route_groups topic m group)

pub shared_granted-route :
    (r : Router) (topic group : Bytes) (d : ClientId) (g : Bytes)
    → shared_granted (route r topic).0 group d g ≡ shared_granted r group d g
unfolding shared_granted route
shared_granted-route r topic group d g =
    ap (member_qos d g) (members-route_groups topic r.shared group)
