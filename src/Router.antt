-- ===== src/Router.antt =====
-- crates/relay-core/src/router.rs: the subscription table and the routing of a topic.
-- A `ClientId` is its number. The order of a map's entries is the iteration order of the `HashMap`.
pub mod Validity
pub mod GrantLists
pub mod Granted
pub mod KeptBySubscribing
pub mod Kept
pub mod Steps
pub mod BestGrants
pub mod Matching
pub mod Routing
pub mod RoundRobin
mod Examples
use ch_relay.Prelude.{
  ℕ, ◌+◌, ◌%◌, ◌^◌, Bool, true, false, not, ◌&&◌, List, [], ◌∷◌, ◌++◌, Option, none, some, ◌==◌,
  leb, if◌then◌else◌, length, keep, get_elem?, nat_eq,
}
use ch_relay.Prelude.Map.{Map, get, insert, remove}
use ch_relay.Prelude.Sort.{sort}
use ch_relay.Bytes.{Bytes, bytes_beq, bytes_eq}
use ch_relay.Topic.{TopicFilter, matches}
use ch_relay.Message.{QoS, max}

abbrev pub ClientId : Type 0
ClientId = ℕ

pub record Sub : Type 0 where
  pub filter : TopicFilter
  pub qos : QoS

pub record SharedGroup : Type 0 where
  pub members : List (ClientId × Sub)
  pub cursor : ℕ

pub record Router : Type 0 where
  pub normal : Map ClientId (List Sub)
  pub shared : Map Bytes SharedGroup

-- The modulus of `usize`.
abbrev pub usize_mod : ℕ
usize_mod = 2 ^ 64

abbrev pub empty : Router
empty = record { normal = []; shared = [] }

-- `entry(key).or_default()`, read.
abbrev or_default {ℓ} : {A : Type ℓ} → A → Option A → A
or_default d none = d
or_default d (some a) = a

-- `iter_mut().find(..)`, then an update or a push.
pub upsert_sub : TopicFilter → QoS → List Sub → List Sub
upsert_sub filter qos [] = record { filter = filter; qos = qos } ∷ []
upsert_sub filter qos (s ∷ subs) =
    let rest = upsert_sub filter qos subs in
    if bytes_beq s.filter.as_str filter.as_str then record s { qos = qos } ∷ subs else s ∷ rest

pub upsert_member : ClientId → TopicFilter → QoS → List (ClientId × Sub) → List (ClientId × Sub)
upsert_member client filter qos [] = (client, record { filter = filter; qos = qos }) ∷ []
upsert_member client filter qos ((c, s) ∷ members) =
    let rest = upsert_member client filter qos members in
    if c == client && bytes_beq s.filter.as_str filter.as_str
    then (c, record s { qos = qos }) ∷ members
    else (c, s) ∷ rest

unfoldable pub subscribe : Router → ClientId → TopicFilter → QoS → Router
unfolding upsert_sub
subscribe r client filter qos = record r {
  normal = insert client (upsert_sub filter qos (or_default [] (get client r.normal))) r.normal;
}

abbrev pub no_members : SharedGroup
no_members = record { members = []; cursor = 0 }

join_group : SharedGroup → ClientId → TopicFilter → QoS → SharedGroup
unfolding upsert_member
join_group g client filter qos = record g { members = upsert_member client filter qos g.members }

unfoldable pub subscribe_shared : Router → Bytes → ClientId → TopicFilter → QoS → Router
unfolding join_group
subscribe_shared r group client filter qos = record r {
  shared =
      insert group (join_group (or_default no_members (get group r.shared)) client filter qos)
        r.shared;
}

abbrev pub is_nil {ℓ} : {A : Type ℓ} → List A → Bool
is_nil [] = true
is_nil (x ∷ xs) = false

-- `subs.retain(|s| s.filter.as_str() != filter)`.
abbrev pub without_filter : Bytes → List Sub → List Sub
without_filter filter = keep (λ s. not (bytes_beq s.filter.as_str filter))

drop_sub : Router → ClientId → Bytes → Option (List Sub) → Router × Bool
drop_sub r client filter none = (r, false)
drop_sub r client filter (some subs) =
    let kept = without_filter filter subs in
    let normal = insert client kept r.normal in
    (
      record r { normal = if is_nil kept then remove client normal else normal },
      not (length kept == length subs),
    )

unfoldable pub unsubscribe : Router → ClientId → Bytes → Router × Bool
unfolding drop_sub
unsubscribe r client filter = drop_sub r client filter (get client r.normal)

abbrev pub without_member : ClientId → Bytes → List (ClientId × Sub) → List (ClientId × Sub)
without_member client filter = keep (λ m. not (m.0 == client && bytes_beq m.1.filter.as_str filter))

drop_member : Router → Bytes → ClientId → Bytes → Option SharedGroup → Router × Bool
drop_member r group client filter none = (r, false)
drop_member r group client filter (some g) =
    let kept = without_member client filter g.members in
    let shared = insert group (record g { members = kept }) r.shared in
    (
      record r { shared = if is_nil kept then remove group shared else shared },
      not (length kept == length g.members),
    )

unfoldable pub unsubscribe_shared : Router → Bytes → ClientId → Bytes → Router × Bool
unfolding drop_member
unsubscribe_shared r group client filter = drop_member r group client filter (get group r.shared)

abbrev pub leave_group : ClientId → SharedGroup → SharedGroup
leave_group client g = record g { members = keep (λ m. not (m.0 == client)) g.members }

-- The loop over `values_mut()`, and the `retain` of the groups that still have members.
pub leave_groups : ClientId → Map Bytes SharedGroup → Map Bytes SharedGroup
leave_groups client [] = []
leave_groups client ((name, g) ∷ groups) =
    let rest = leave_groups client groups in
    let g' = leave_group client g in if is_nil g'.members then rest else (name, g') ∷ rest

unfoldable pub remove_client : Router → ClientId → Router
unfolding leave_groups
remove_client r client = record {
  normal = remove client r.normal;
  shared = leave_groups client r.shared;
}

sum_subs : Map ClientId (List Sub) → ℕ
sum_subs [] = 0
sum_subs ((c, subs) ∷ m) = length subs + sum_subs m

sum_members : Map Bytes SharedGroup → ℕ
sum_members [] = 0
sum_members ((name, g) ∷ m) = length g.members + sum_members m

unfoldable pub subscription_count : Router → ℕ
unfolding sum_subs sum_members
subscription_count r = sum_subs r.normal + sum_members r.shared

-- The greatest granted QoS of the subscriptions that match.
abbrev max_with : QoS → Option QoS → Option QoS
max_with q none = some q
max_with q (some p) = some (max q p)

pub max_granted : Bytes → List Sub → Option QoS
max_granted topic [] = none
max_granted topic (s ∷ subs) =
    let rest = max_granted topic subs in
    if matches s.filter topic then max_with s.qos rest else rest

abbrev cons_matched : ClientId → Option QoS → List (ClientId × QoS) → List (ClientId × QoS)
cons_matched c none rest = rest
cons_matched c (some q) rest = (c, q) ∷ rest

pub collect_matched : Bytes → Map ClientId (List Sub) → List (ClientId × QoS)
unfolding max_granted
collect_matched topic [] = []
collect_matched topic ((c, subs) ∷ m) =
    cons_matched c (max_granted topic subs) (collect_matched topic m)

-- The order of `sort_by_key(|(c, _)| *c)`.
abbrev pub by_client : ClientId × QoS → ClientId × QoS → Bool
by_client (c, p) (d, q) = leb c d

unfoldable pub matching_subscribers : Router → Bytes → List (ClientId × QoS)
unfolding collect_matched
matching_subscribers r topic = sort by_client (collect_matched topic r.normal)

pub matching_members : Bytes → List (ClientId × Sub) → List (ClientId × QoS)
matching_members topic [] = []
matching_members topic ((c, s) ∷ members) =
    let rest = matching_members topic members in
    if matches s.filter topic then (c, s.qos) ∷ rest else rest

-- One turn of the loop of `route`: the group afterwards, and the member that it picks. Without a
-- match the loop continues; an index out of range would be a panic, and is `none` here.
pub pick_member : Bytes → SharedGroup → SharedGroup × Option (ClientId × QoS)
unfolding matching_members
pick_member topic g =
    let matching = matching_members topic g.members in
    if is_nil matching then (g, none) else (
      record g { cursor = (g.cursor + 1) % usize_mod },
      get_elem? matching (g.cursor % length matching),
    )

abbrev cons_picked : Option (ClientId × QoS) → List (ClientId × QoS) → List (ClientId × QoS)
cons_picked none rest = rest
cons_picked (some m) rest = m ∷ rest

pub route_groups : Bytes → Map Bytes SharedGroup → Map Bytes SharedGroup × List (ClientId × QoS)
unfolding pick_member
route_groups topic [] = ([], [])
route_groups topic ((name, g) ∷ groups) =
    let (groups', picks) = route_groups topic groups in
    let (g', picked) = pick_member topic g in ((name, g') ∷ groups', cons_picked picked picks)

unfoldable pub route : Router → Bytes → Router × List (ClientId × QoS)
unfolding route_groups
route r topic =
    let (shared', picks) = route_groups topic r.shared in
    (record r { shared = shared' }, sort by_client (matching_subscribers r topic ++ picks))
