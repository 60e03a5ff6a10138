-- ===== src/Router/KeptBySubscribing.antt =====
-- Subscribing and unsubscribing in crates/relay-core/src/router.rs keep the router well formed.
use ch_relay.Prelude.{
  ◌<◌, ◌≡◌, refl, false, not, List, [], ◌∷◌, some, ◌==◌, arith, nat_eq, Option-cases, Bool-cases,
  inl, inr, keep,
}
use ch_relay.Prelude.Map.{
  get, insert-HasUniqueKeys, remove-HasUniqueKeys, insert-AllValues, get-AllValues,
  remove-insert-AllValues,
}
use ch_relay.Bytes.{Bytes, bytes_beq_iff, bytes_eq}
use ch_relay.Topic.{TopicFilter}
use ch_relay.Message.{QoS}
use ch_relay.Router.{
  ClientId, Router, Sub, SharedGroup, usize_mod, or_default, no_members, is_nil, upsert_sub,
  upsert_member, subscribe, subscribe_shared, without_filter, without_member, unsubscribe,
  unsubscribe_shared, drop_sub, drop_member,
}
use ch_relay.Router.Granted.{member_qos-leave_group}
use ch_relay.Router.GrantLists.{
  sub_qos-upsert_sub, sub_qos-without_filter, member_qos-upsert_member, member_qos-without_member,
  subs_of,
}
use ch_relay.Router.Validity.{IsValid, IsSubList, IsGroup, HasDistinctFilters, HasDistinctMembers}

upsert_sub-IsSubList :
    (f : TopicFilter) (q : QoS) (subs : List Sub)
    → HasDistinctFilters subs
    → IsSubList (upsert_sub f q subs)
unfolding upsert_sub
upsert_sub-IsSubList f q [] d = (refl, (refl, tt))
upsert_sub-IsSubList f q (s ∷ subs) d = ground (
  arith,
  upsert_sub-IsSubList f q subs d.1,
  sub_qos-upsert_sub f q s.filter.as_str subs,
  bytes_beq_iff s.filter.as_str f.as_str,
  bytes_beq_iff f.as_str s.filter.as_str,
)

upsert_member-distinct :
    (c : ClientId) (f : TopicFilter) (q : QoS) (members : List (ClientId × Sub))
    → HasDistinctMembers members
    → (is_nil (upsert_member c f q members) ≡ false)
      × HasDistinctMembers (upsert_member c f q members)
unfolding upsert_member
upsert_member-distinct c f q [] d = (refl, (refl, tt))
upsert_member-distinct c f q ((b, s) ∷ members) d = ground (
  arith,
  upsert_member-distinct c f q members d.1,
  member_qos-upsert_member c f q b s.filter.as_str members,
  bytes_beq_iff s.filter.as_str f.as_str,
  bytes_beq_iff f.as_str s.filter.as_str,
)

without_filter-distinct :
    (f : Bytes) (subs : List Sub)
    → HasDistinctFilters subs
    → HasDistinctFilters (without_filter f subs)
without_filter-distinct f [] d = tt
without_filter-distinct f (s ∷ subs) d =
    ground
      (arith, without_filter-distinct f subs d.1, sub_qos-without_filter f s.filter.as_str subs)

without_member-distinct :
    (c : ClientId) (f : Bytes) (members : List (ClientId × Sub))
    → HasDistinctMembers members
    → HasDistinctMembers (without_member c f members)
without_member-distinct c f [] d = tt
without_member-distinct c f ((b, s) ∷ members) d = ground (
  arith,
  without_member-distinct c f members d.1,
  member_qos-without_member c f b s.filter.as_str members,
)

pub leave_group-distinct :
    (c : ClientId) (members : List (ClientId × Sub))
    → HasDistinctMembers members
    → HasDistinctMembers (keep (λ m. not (m.0 == c)) members)
leave_group-distinct c [] d = tt
leave_group-distinct c ((b, s) ∷ members) d =
    ground (
      arith,
      leave_group-distinct c members d.1,
      member_qos-leave_group c b s.filter.as_str members,
    )

module _ {r : Router} (v : IsValid r) where
  distinct_of : (c : ClientId) → HasDistinctFilters (subs_of r c)
  distinct_of c = elim (Option-cases (get c r.normal)) [
    | inl e ↦ rw e tt
    | inr (subs, e) ↦ rw e (get-AllValues IsSubList c subs r.normal v.sub_lists e).1
  ]

  group_of :
      (group : Bytes)
      → HasDistinctMembers (or_default no_members (get group r.shared)).members
        × ((or_default no_members (get group r.shared)).cursor < usize_mod)
  group_of group = elim (Option-cases (get group r.shared)) [
    | inl e ↦ rw e (tt, omega arith)
    | inr (g, e) ↦ let i = get-AllValues IsGroup group g r.shared v.members e in rw e (i.1, i.2)
  ]

  pub subscribe-IsValid : (c : ClientId) (f : TopicFilter) (q : QoS) → IsValid (subscribe r c f q)
  unfolding subscribe
  subscribe-IsValid c f q = record {
    clients = insert-HasUniqueKeys c _ r.normal v.clients;
    groups = v.groups;
    sub_lists =
        insert-AllValues IsSubList c _ r.normal
          (upsert_sub-IsSubList f q (subs_of r c) (distinct_of c)) v.sub_lists;
    members = v.members;
  }

  pub subscribe_shared-IsValid :
      (group : Bytes) (c : ClientId) (f : TopicFilter) (q : QoS)
      → IsValid (subscribe_shared r group c f q)
  unfolding subscribe_shared
  subscribe_shared-IsValid group c f q =
      let (distinct, cursor) = group_of group in
      let joined = upsert_member-distinct c f q _ distinct in
      record {
        clients = v.clients;
        groups = insert-HasUniqueKeys group _ r.shared v.groups;
        sub_lists = v.sub_lists;
        members = insert-AllValues IsGroup group _ r.shared (joined.0, joined.1, cursor) v.members;
      }

  drop_sub-IsValid :
      (c : ClientId) (f : Bytes) (subs : List Sub)
      → HasDistinctFilters subs
      → IsValid (drop_sub r c f (some subs)).0
  unfolding drop_sub
  drop_sub-IsValid c f subs d =
      let kept = without_filter f subs in
      elim (Bool-cases (is_nil kept)) [
        | inl e ↦ rw e (record {
          clients = remove-HasUniqueKeys c _ (insert-HasUniqueKeys c kept r.normal v.clients);
          groups = v.groups;
          sub_lists = remove-insert-AllValues IsSubList c kept r.normal v.sub_lists;
          members = v.members;
        })
        | inr e ↦ rw e (record {
          clients = insert-HasUniqueKeys c kept r.normal v.clients;
          groups = v.groups;
          sub_lists =
              insert-AllValues IsSubList c kept r.normal (e, without_filter-distinct f subs d)
                v.sub_lists;
          members = v.members;
        })
      ]

  pub unsubscribe-IsValid : (c : ClientId) (f : Bytes) → IsValid (unsubscribe r c f).0
  unfolding unsubscribe
  unsubscribe-IsValid c f = elim (Option-cases (get c r.normal)) [
    | inl e ↦ rw (e, unsubscribe, drop_sub) v
    | inr (subs, e) ↦
        rw (e, unsubscribe)
          (drop_sub-IsValid c f subs (get-AllValues IsSubList c subs r.normal v.sub_lists e).1)
  ]

  drop_member-IsValid :
      (group : Bytes) (c : ClientId) (f : Bytes) (g : SharedGroup)
      → IsGroup g
      → IsValid (drop_member r group c f (some g)).0
  unfolding drop_member
  drop_member-IsValid group c f g d =
      let kept = without_member c f g.members in
      elim (Bool-cases (is_nil kept)) [
        | inl e ↦ rw e (record {
          clients = v.clients;
          groups = remove-HasUniqueKeys group _ (insert-HasUniqueKeys group _ r.shared v.groups);
          sub_lists = v.sub_lists;
          members =
              remove-insert-AllValues IsGroup group (record g { members = kept }) r.shared
                v.members;
        })
        | inr e ↦ rw e (record {
          clients = v.clients;
          groups = insert-HasUniqueKeys group _ r.shared v.groups;
          sub_lists = v.sub_lists;
          members =
              insert-AllValues IsGroup group _ r.shared
                (e, without_member-distinct c f g.members d.1, d.2) v.members;
        })
      ]

  pub unsubscribe_shared-IsValid :
      (group : Bytes) (c : ClientId) (f : Bytes) → IsValid (unsubscribe_shared r group c f).0
  unfolding unsubscribe_shared
  unsubscribe_shared-IsValid group c f = elim (Option-cases (get group r.shared)) [
    | inl e ↦ rw (e, unsubscribe_shared, drop_member) v
    | inr (g, e) ↦
        rw (e, unsubscribe_shared)
          (drop_member-IsValid group c f g (get-AllValues IsGroup group g r.shared v.members e))
  ]
