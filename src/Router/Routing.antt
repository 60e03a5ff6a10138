-- ===== src/Router/Routing.antt =====
-- `route`: every matching subscriber, and exactly one member of each share group that has a match.
use mathlib.Core.List.{Perm}
use ch_relay.Prelude.{
  ℕ, zero, suc, ◌%◌, ◌<◌, ◌≡◌, refl, true, false, List, [], ◌∷◌, ◌++◌, some, arith, Bool-cases, inl,
  inr, In, All, length, get_elem?,
}
use ch_relay.Prelude.Map.{Map}
use ch_relay.Prelude.Sort.{IsSorted, sort-perm}
use ch_relay.Bytes.{Bytes}
use ch_relay.Topic.{matches}
use ch_relay.Message.{QoS}
use ch_relay.Router.{
  ClientId, Router, Sub, SharedGroup, is_nil, by_client, matching_subscribers, matching_members,
  pick_member, cons_picked, route_groups, route,
}
use ch_relay.Router.Matching.{by_client-IsSorted}

-- A member of the group whose filter matches, with the QoS of that membership.
pub data IsCandidate (topic : Bytes) (g : SharedGroup) (p : ClientId × QoS) : Type 0 where
  candidate :
      (s : Sub)
      → In (p.0, s) g.members
      → matches s.filter topic ≡ true
      → s.qos ≡ p.1
      → IsCandidate topic g p

abbrev pub HasNoCandidate : Bytes → SharedGroup → Type 0
HasNoCandidate topic g = All (λ m. matches m.1.filter topic ≡ false) g.members

-- One candidate of each group that has any, in the order of the groups.
pub data OnePerGroup (topic : Bytes) : Map Bytes SharedGroup → List (ClientId × QoS) → Type 0 where
  no_group : OnePerGroup topic [] []
  skips :
      {name : Bytes} {g : SharedGroup} {m : Map Bytes SharedGroup} {ps : List (ClientId × QoS)}
      → HasNoCandidate topic g
      → OnePerGroup topic m ps
      → OnePerGroup topic ((name, g) ∷ m) ps
  picks :
      {name : Bytes} {g : SharedGroup} {m : Map Bytes SharedGroup} {p : ClientId × QoS}
      {ps : List (ClientId × QoS)}
      → IsCandidate topic g p
      → OnePerGroup topic m ps
      → OnePerGroup topic ((name, g) ∷ m) (p ∷ ps)

pub get_elem?-In :
    {A : Type 0} (xs : List A) (i : ℕ)
    → i < length xs
    → (a : A) × (get_elem? xs i ≡ some a) × In a xs
get_elem?-In [] i h = elim h [ ]
get_elem?-In (x ∷ xs) zero h = (x, refl, inl refl)
get_elem?-In (x ∷ xs) (suc i) h = let (a, e, j) = get_elem?-In xs i (omega arith) in (a, e, inr j)

members_without_match :
    (topic : Bytes) (members : List (ClientId × Sub))
    → is_nil (matching_members topic members) ≡ true
    → All (λ m. matches m.1.filter topic ≡ false) members
unfolding matching_members
members_without_match topic [] h = tt
members_without_match topic ((c, s) ∷ members) h = elim (Bool-cases (matches s.filter topic)) [
  | inl e ↦ absurd (ground arith)
  | inr e ↦ (e, members_without_match topic members (ground arith))
]

In-matching_members :
    (topic : Bytes) (members : List (ClientId × Sub)) (p : ClientId × QoS)
    → In p (matching_members topic members)
    → (s : Sub) × In (p.0, s) members × (matches s.filter topic ≡ true) × (s.qos ≡ p.1)
unfolding matching_members
In-matching_members topic [] p i = absurd i
In-matching_members topic ((c, s) ∷ members) p i = elim (Bool-cases (matches s.filter topic)) [
  | inl e ↦
      let j : In p ((c, s.qos) ∷ matching_members topic members) = rw e at i in
      elim j [
        | inl h ↦ (s, inl (ground arith), e, ground arith)
        | inr h ↦ let (t, k, m, q) = In-matching_members topic members p h in (t, inr k, m, q)
      ]
  | inr e ↦
      let j : In p (matching_members topic members) = rw e at i in
      let (t, k, m, q) = In-matching_members topic members p j in (t, inr k, m, q)
]

mod-lt_length : {A : Type 0} (xs : List A) (n : ℕ) → is_nil xs ≡ false → n % length xs < length xs
mod-lt_length [] n h = absurd (ground arith)
mod-lt_length (x ∷ xs) n h = omega arith

pick_member-OnePerGroup :
    (topic name : Bytes) (g : SharedGroup) (m : Map Bytes SharedGroup) (ps : List (ClientId × QoS))
    → OnePerGroup topic m ps
    → OnePerGroup topic ((name, g) ∷ m) (cons_picked (pick_member topic g).1 ps)
unfolding pick_member
pick_member-OnePerGroup topic name g m ps o =
    let matching = matching_members topic g.members in
    elim (Bool-cases (is_nil matching)) [
      | inl e ↦ rw e (skips (members_without_match topic g.members e) o)
      | inr e ↦
          let (p, k, i) =
            get_elem?-In matching (g.cursor % length matching)
              (mod-lt_length matching g.cursor e) in
          let (s, j, t, q) = In-matching_members topic g.members p i in
          rw (e, k) (picks (candidate s j t q) o)
    ]

route_groups-OnePerGroup :
    (topic : Bytes) (m : Map Bytes SharedGroup) → OnePerGroup topic m (route_groups topic m).1
unfolding route_groups
route_groups-OnePerGroup topic [] = no_group
route_groups-OnePerGroup topic ((name, g) ∷ m) =
    pick_member-OnePerGroup topic name g m _ (route_groups-OnePerGroup topic m)

-- The recipients of a message are the matching subscribers and, for each share group with a matching
-- member, exactly one of these; in the order of their ids.
pub route_lem :
    (r : Router) (topic : Bytes)
    → (ps : List (ClientId × QoS)) × OnePerGroup topic r.shared ps
      × Perm (route r topic).1 (matching_subscribers r topic ++ ps)
      × IsSorted by_client (route r topic).1
unfolding route
route_lem r topic = (
  (route_groups topic r.shared).1,
  route_groups-OnePerGroup topic r.shared,
  sort-perm by_client (matching_subscribers r topic ++ (route_groups topic r.shared).1),
  by_client-IsSorted (matching_subscribers r topic ++ (route_groups topic r.shared).1),
)
