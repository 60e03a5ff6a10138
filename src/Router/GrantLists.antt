-- ===== src/Router/GrantLists.antt =====
-- What the lists of a client and of a group in crates/relay-core/src/router.rs grant.
use ch_relay.Prelude.{
  ◌≡◌, refl, ◌&&◌, List, [], ◌∷◌, Option, none, some, ◌==◌, arith, if◌then◌else◌, nat_eq,
}
use ch_relay.Prelude.Map.{get}
use ch_relay.Bytes.{Bytes, bytes_beq, bytes_beq_iff, bytes_eq}
use ch_relay.Topic.{TopicFilter}
use ch_relay.Message.{QoS}
use ch_relay.Router.{
  ClientId, Router, Sub, or_default, no_members, upsert_sub, upsert_member, without_filter,
  without_member,
}

abbrev pub sub_qos : Bytes → List Sub → Option QoS
sub_qos f [] = none
sub_qos f (s ∷ subs) =
    let rest = sub_qos f subs in if bytes_beq s.filter.as_str f then some s.qos else rest

abbrev pub member_qos : ClientId → Bytes → List (ClientId × Sub) → Option QoS
member_qos c f [] = none
member_qos c f ((d, s) ∷ members) =
    let rest = member_qos c f members in
    if d == c && bytes_beq s.filter.as_str f then some s.qos else rest

abbrev pub subs_of : Router → ClientId → List Sub
subs_of r c = or_default [] (get c r.normal)

abbrev pub members_of : Router → Bytes → List (ClientId × Sub)
members_of r group = (or_default no_members (get group r.shared)).members

-- The granted QoS of a normal subscription, and of a membership.
unfoldable pub granted : Router → ClientId → Bytes → Option QoS
granted r c f = sub_qos f (subs_of r c)

unfoldable pub shared_granted : Router → Bytes → ClientId → Bytes → Option QoS
shared_granted r group c f = member_qos c f (members_of r group)

pub sub_qos-upsert_sub :
    (f : TopicFilter) (q : QoS) (g : Bytes) (subs : List Sub)
    → sub_qos g (upsert_sub f q subs) ≡ (if bytes_beq f.as_str g then some q else sub_qos g subs)
unfolding upsert_sub
sub_qos-upsert_sub f q g [] = refl
sub_qos-upsert_sub f q g (s ∷ subs) = ground (
  arith,
  sub_qos-upsert_sub f q g subs,
  bytes_beq_iff s.filter.as_str f.as_str,
  bytes_beq_iff s.filter.as_str g,
  bytes_beq_iff f.as_str g,
)

pub sub_qos-without_filter :
    (f g : Bytes) (subs : List Sub)
    → sub_qos g (without_filter f subs) ≡ (if bytes_beq f g then none else sub_qos g subs)
sub_qos-without_filter f g [] = ground arith
sub_qos-without_filter f g (s ∷ subs) = ground (
  arith,
  sub_qos-without_filter f g subs,
  bytes_beq_iff s.filter.as_str f,
  bytes_beq_iff s.filter.as_str g,
  bytes_beq_iff f g,
)

pub member_qos-upsert_member :
    (c : ClientId) (f : TopicFilter) (q : QoS) (d : ClientId) (g : Bytes)
    (members : List (ClientId × Sub))
    → member_qos d g (upsert_member c f q members)
      ≡ (if c == d && bytes_beq f.as_str g then some q else member_qos d g members)
unfolding upsert_member
member_qos-upsert_member c f q d g [] = refl
member_qos-upsert_member c f q d g ((b, s) ∷ members) = ground (
  arith,
  member_qos-upsert_member c f q d g members,
  bytes_beq_iff s.filter.as_str f.as_str,
  bytes_beq_iff s.filter.as_str g,
  bytes_beq_iff f.as_str g,
)

pub member_qos-without_member :
    (c : ClientId) (f : Bytes) (d : ClientId) (g : Bytes) (members : List (ClientId × Sub))
    → member_qos d g (without_member c f members)
      ≡ (if c == d && bytes_beq f g then none else member_qos d g members)
member_qos-without_member c f d g [] = ground arith
member_qos-without_member c f d g ((b, s) ∷ members) = ground (
  arith,
  member_qos-without_member c f d g members,
  bytes_beq_iff s.filter.as_str f,
  bytes_beq_iff s.filter.as_str g,
  bytes_beq_iff f g,
)
