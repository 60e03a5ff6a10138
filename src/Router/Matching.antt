-- ===== src/Router/Matching.antt =====
-- Whom `matching_subscribers` finds, and at which QoS.
use ch_relay.Prelude.{
  ◌≡◌, ◌↔◌, true, List, [], ◌∷◌, some, arith, nat_eq, Option-cases, inl, inr, In, ◌⊎◌, ◌∙◌, ap,
}
use ch_relay.Prelude.Map.{Map, get, HasUniqueKeys, Lacks, In-of-get, get_of-In, get-AllValues}
use ch_relay.Prelude.Sort.{sort, place, IsSorted, sort-IsSorted, In-sort}
use ch_relay.Bytes.{Bytes}
use ch_relay.Message.{QoS}
use ch_relay.Message.Orders.{as_u8-injective}
use ch_relay.Router.{
  ClientId, Router, Sub, max_granted, collect_matched, by_client, matching_subscribers,
}
use ch_relay.Router.GrantLists.{granted}
use ch_relay.Router.Validity.{IsValid, IsSubList}
use ch_relay.Router.BestGrants.{
  max_granted-attained, max_granted-bound, sub_qos_of-In, In-of-sub_qos, IsBestGrant,
  In-collect_matched, collect_matched-In,
}

module _ {r : Router} (v : IsValid r) (topic : Bytes) (c : ClientId) (q : QoS) where
  sound :
      (subs : List Sub)
      → get c r.normal ≡ some subs
      → max_granted topic subs ≡ some q
      → IsBestGrant r topic c q
  unfolding granted
  sound subs e h =
      let (s, i, m, k) = max_granted-attained topic subs q h in
      let d = (get-AllValues IsSubList c subs r.normal v.sub_lists e).1 in
      record {
        attained = (s.filter.as_str, ground (arith, sub_qos_of-In subs s d i), m);
        greatest = λ f p g t.
            let (u, j, a, b) = In-of-sub_qos subs f p (ground arith) in
            let (q', w, le) = max_granted-bound topic subs u j (rw a t) in ground arith;
      }

  complete :
      IsBestGrant r topic c q
      → (subs : List Sub) × (get c r.normal ≡ some subs) × (max_granted topic subs ≡ some q)
  unfolding granted
  complete b =
      let (f, g, t) = b.attained in
      elim (Option-cases (get c r.normal)) [
        | inl e ↦ absurd (ground arith)
        | inr (subs, e) ↦
            let (u, j, a, k) = In-of-sub_qos subs f q (ground arith) in
            let (q', w, le) = max_granted-bound topic subs u j (rw a t) in
            let (s, i, m, l) = max_granted-attained topic subs q' w in
            let d = (get-AllValues IsSubList c subs r.normal v.sub_lists e).1 in
            let other : granted r c s.filter.as_str ≡ some q' =
              ground (arith, sub_qos_of-In subs s d i) in
            let ge = b.greatest s.filter.as_str q' other m in
            (subs, e, w ∙ ap some (as_u8-injective q' q (ground arith)))
      ]

  -- A client is found at a QoS exactly when one of its filters matches the topic and this is the
  -- greatest QoS that it is granted for such a filter.
  pub matching_subscribers_iff : In (c, q) (matching_subscribers r topic) ↔ IsBestGrant r topic c q
  unfolding matching_subscribers
  matching_subscribers_iff = (
    λ i.
        let j = (In-sort by_client (c, q) (collect_matched topic r.normal)).0 i in
        let (subs, k, h) = In-collect_matched topic r.normal c q j in
        sound subs (get_of-In c subs r.normal v.clients k) h,
    λ b.
        let (subs, e, h) = complete b in
        (In-sort by_client (c, q) (collect_matched topic r.normal)).1
          (collect_matched-In topic r.normal c q subs (In-of-get c subs r.normal e) h),
  )

collect_matched-Lacks :
    (topic : Bytes) (c : ClientId) (m : Map ClientId (List Sub))
    → Lacks c m
    → Lacks c (collect_matched topic m)
unfolding collect_matched
collect_matched-Lacks topic c [] l = tt
collect_matched-Lacks topic c ((d, subs) ∷ m) l =
    ground (arith, collect_matched-Lacks topic c m l.1)

collect_matched-HasUniqueKeys :
    (topic : Bytes) (m : Map ClientId (List Sub))
    → HasUniqueKeys m
    → HasUniqueKeys (collect_matched topic m)
unfolding collect_matched
collect_matched-HasUniqueKeys topic [] u = tt
collect_matched-HasUniqueKeys topic ((d, subs) ∷ m) u =
    ground (arith, collect_matched-HasUniqueKeys topic m u.1, collect_matched-Lacks topic d m u.0)

place-Lacks :
    (c : ClientId) (x : ClientId × QoS) (ys : List (ClientId × QoS))
    → Lacks c (x ∷ ys)
    → Lacks c (place by_client x ys)
unfolding place
place-Lacks c x [] l = l
place-Lacks c x (y ∷ ys) l = ground (arith, place-Lacks c x ys (l.0, l.1.1))

place-HasUniqueKeys :
    (x : ClientId × QoS) (ys : List (ClientId × QoS))
    → HasUniqueKeys (x ∷ ys)
    → HasUniqueKeys (place by_client x ys)
unfolding place
place-HasUniqueKeys x [] u = u
place-HasUniqueKeys x (y ∷ ys) u =
    ground (arith, place-HasUniqueKeys x ys (u.0.1, u.1.1), place-Lacks y.0 x ys)

sort-Lacks : (c : ClientId) (xs : List (ClientId × QoS)) → Lacks c xs → Lacks c (sort by_client xs)
unfolding sort
sort-Lacks c [] l = tt
sort-Lacks c (x ∷ xs) l = place-Lacks c x (sort by_client xs) (l.0, sort-Lacks c xs l.1)

sort-HasUniqueKeys :
    (xs : List (ClientId × QoS)) → HasUniqueKeys xs → HasUniqueKeys (sort by_client xs)
unfolding sort
sort-HasUniqueKeys [] u = tt
sort-HasUniqueKeys (x ∷ xs) u =
    place-HasUniqueKeys x (sort by_client xs) (sort-Lacks x.0 xs u.0, sort-HasUniqueKeys xs u.1)

by_client_total : (x y : ClientId × QoS) → (by_client x y ≡ true) ⊎ (by_client y x ≡ true)
by_client_total (c, p) (d, q) = ground arith

by_client_trans :
    (x y z : ClientId × QoS) → by_client x y ≡ true → by_client y z ≡ true → by_client x z ≡ true
by_client_trans (c, p) (d, q) (b, s) h k = ground arith

pub by_client-IsSorted : (xs : List (ClientId × QoS)) → IsSorted by_client (sort by_client xs)
by_client-IsSorted = sort-IsSorted by_client by_client_total by_client_trans

-- The subscribers are in the order of their ids, and none is there twice.
pub matching_subscribers_distinct :
    (r : Router) (topic : Bytes)
    → IsValid r
    → IsSorted by_client (matching_subscribers r topic)
      × HasUniqueKeys (matching_subscribers r topic)
unfolding matching_subscribers
matching_subscribers_distinct r topic v = (
  by_client-IsSorted (collect_matched topic r.normal),
  sort-HasUniqueKeys _ (collect_matched-HasUniqueKeys topic r.normal v.clients),
)
