-- ===== src/Router/BestGrants.antt =====
-- What `matching_subscribers` of crates/relay-core/src/router.rs collects.
use ch_relay.Prelude.{
  ◌≤◌, ◌≡◌, refl, true, List, [], ◌∷◌, some, leb, arith, nat_eq, Option-cases, Bool-cases, inl, inr,
  In,
}
use ch_relay.Prelude.Map.{Map}
use ch_relay.Bytes.{Bytes, bytes_beq, bytes_beq_iff}
use ch_relay.Topic.{matches, topic_matches}
use ch_relay.Message.{QoS, as_u8, max}
use ch_relay.Router.{ClientId, Router, Sub, max_granted, collect_matched}
use ch_relay.Router.GrantLists.{sub_qos, granted}
use ch_relay.Router.Validity.{HasDistinctFilters}

pub max_granted-attained :
    (topic : Bytes) (subs : List Sub) (q : QoS)
    → max_granted topic subs ≡ some q
    → (s : Sub) × In s subs × (matches s.filter topic ≡ true) × (s.qos ≡ q)
unfolding max_granted
max_granted-attained topic [] q h = absurd (ground arith)
max_granted-attained topic (s ∷ subs) q h = elim (Bool-cases (matches s.filter topic)) [
  | inr e ↦ let (t, i, m, k) = max_granted-attained topic subs q (ground arith) in (t, inr i, m, k)
  | inl e ↦ elim (Option-cases (max_granted topic subs)) [
    | inl n ↦ (s, inl refl, e, ground arith)
    | inr (p, n) ↦
        let (t, i, m, k) = max_granted-attained topic subs p n in
        elim (Bool-cases (leb (as_u8 s.qos) (as_u8 p))) [
          | inl le ↦ (t, inr i, m, ground arith)
          | inr gt ↦ (s, inl refl, e, ground arith)
        ]
  ]
]

pub max_granted-bound :
    (topic : Bytes) (subs : List Sub) (s : Sub)
    → In s subs
    → matches s.filter topic ≡ true
    → (q : QoS) × (max_granted topic subs ≡ some q) × (as_u8 s.qos ≤ as_u8 q)
unfolding max_granted
max_granted-bound topic [] s i m = absurd i
max_granted-bound topic (t ∷ subs) s (inl e) m = elim (Option-cases (max_granted topic subs)) [
  | inl n ↦ (t.qos, ground arith, ground arith)
  | inr (p, n) ↦ (max t.qos p, ground arith, ground arith)
]
max_granted-bound topic (t ∷ subs) s (inr i) m =
    let (q, h, b) = max_granted-bound topic subs s i m in
    elim (Bool-cases (matches t.filter topic)) [
      | inl e ↦ (max t.qos q, ground arith, ground arith)
      | inr e ↦ (q, ground arith, b)
    ]

pub sub_qos_of-In :
    (subs : List Sub) (s : Sub)
    → HasDistinctFilters subs
    → In s subs
    → sub_qos s.filter.as_str subs ≡ some s.qos
sub_qos_of-In [] s d i = absurd i
sub_qos_of-In (t ∷ subs) s d (inl e) = ground (arith, bytes_beq_iff t.filter.as_str s.filter.as_str)
sub_qos_of-In (t ∷ subs) s d (inr i) =
    ground (arith, sub_qos_of-In subs s d.1 i, bytes_beq_iff t.filter.as_str s.filter.as_str)

pub In-of-sub_qos :
    (subs : List Sub) (f : Bytes) (q : QoS)
    → sub_qos f subs ≡ some q
    → (s : Sub) × In s subs × (s.filter.as_str ≡ f) × (s.qos ≡ q)
In-of-sub_qos [] f q h = absurd (ground arith)
In-of-sub_qos (t ∷ subs) f q h = elim (Bool-cases (bytes_beq t.filter.as_str f)) [
  | inl e ↦ (t, inl refl, (bytes_beq_iff t.filter.as_str f).0 e, ground arith)
  | inr e ↦ let (s, i, k, l) = In-of-sub_qos subs f q (ground arith) in (s, inr i, k, l)
]

-- The greatest QoS that the client is granted for a filter that matches.
pub record IsBestGrant (r : Router) (topic : Bytes) (c : ClientId) (q : QoS) : Type 0 where
  pub attained : (f : Bytes) × (granted r c f ≡ some q) × (topic_matches f topic ≡ true)
  pub greatest :
      (f : Bytes) (p : QoS)
      → granted r c f ≡ some p
      → topic_matches f topic ≡ true
      → as_u8 p ≤ as_u8 q

pub In-collect_matched :
    (topic : Bytes) (m : Map ClientId (List Sub)) (c : ClientId) (q : QoS)
    → In (c, q) (collect_matched topic m)
    → (subs : List Sub) × In (c, subs) m × (max_granted topic subs ≡ some q)
unfolding collect_matched
In-collect_matched topic [] c q i = absurd i
In-collect_matched topic ((d, subs) ∷ m) c q i = elim (Option-cases (max_granted topic subs)) [
  | inl e ↦
      let j : In (c, q) (collect_matched topic m) = rw e at i in
      let (s, k, h) = In-collect_matched topic m c q j in (s, inr k, h)
  | inr (p, e) ↦
      let j : In (c, q) ((d, p) ∷ collect_matched topic m) = rw e at i in
      elim j [
        | inl h ↦ (subs, inl (ground arith), ground arith)
        | inr h ↦ let (s, k, l) = In-collect_matched topic m c q h in (s, inr k, l)
      ]
]

pub collect_matched-In :
    (topic : Bytes) (m : Map ClientId (List Sub)) (c : ClientId) (q : QoS) (subs : List Sub)
    → In (c, subs) m
    → max_granted topic subs ≡ some q
    → In (c, q) (collect_matched topic m)
unfolding collect_matched
collect_matched-In topic [] c q subs i h = absurd i
collect_matched-In topic ((d, ss) ∷ m) c q subs (inl e) h =
    let p : max_granted topic ss ≡ some q = ground arith in rw p (inl (ground arith))
collect_matched-In topic ((d, ss) ∷ m) c q subs (inr i) h =
    elim (Option-cases (max_granted topic ss)) [
      | inl e ↦ rw e (collect_matched-In topic m c q subs i h)
      | inr (p, e) ↦ rw e (inr (collect_matched-In topic m c q subs i h))
    ]
