-- ===== src/Retained/Contents.antt =====
-- What the store of crates/relay-core/src/retained.rs holds after a sequence of retained messages, and
-- which messages match a filter.
use ch_relay.Prelude.{
  ◌≡◌, ◌≢◌, refl, ◌↔◌, All, true, false, List, [], ◌∷◌, Option, none, some, arith, if◌then◌else◌,
  Bool-cases, inl, inr, In, subst, sym,
}
use ch_relay.Prelude.Map.{
  Map, get, insert, remove, get-insert, get-remove, HasUniqueKeys, insert-HasUniqueKeys,
  remove-HasUniqueKeys, Lacks, In-of-get, get_of-In,
}
use ch_relay.Prelude.Sort.{IsSorted, place, sort, All-place, All-sort, In-sort, sort-IsSorted}
use ch_relay.Bytes.{Bytes, bytes_eq, bytes_beq, bytes_beq_iff, is_empty}
use ch_relay.Bytes.Laws.{bytes_le_total, bytes_le_trans}
use ch_relay.Topic.{TopicFilter, matches}
use ch_relay.Message.{Message}
use ch_relay.Retained.{RetainedStore, empty, apply, by_name, collect, matching}

abbrev pub retained_for : RetainedStore → Bytes → Option Message
retained_for s topic = get topic s.by_topic

-- Topics are distinct, and each message stands under its own topic and is not empty.
pub record IsValid (s : RetainedStore) : Type 0 where
  pub topics : HasUniqueKeys s.by_topic
  pub own_topic :
      (topic : Bytes) (m : Message)
      → retained_for s topic ≡ some m
      → (m.topic ≡ topic) × (is_empty m.payload ≡ false)

-- A retained message replaces the one of its topic, or clears it if the payload is empty, and
-- leaves every other topic as it was.
pub retained_for-apply :
    (s : RetainedStore) (m : Message) (topic : Bytes)
    → retained_for (apply s m) topic ≡ (
        if bytes_beq m.topic topic
        then (if is_empty m.payload then none else some m)
        else retained_for s topic)
unfolding apply
retained_for-apply s m topic =
    ground (arith, get-insert m.topic topic m s.by_topic, get-remove m.topic topic s.by_topic)

pub empty-IsValid : IsValid empty
empty-IsValid = record { topics = tt; own_topic = λ topic m e. absurd (ground arith) }

pub apply-IsValid : {s : RetainedStore} (m : Message) → IsValid s → IsValid (apply s m)
apply-IsValid {s} m v = record {
  topics = unfold apply in apply_topics;
  own_topic = λ topic k e.
      ground
        (arith, retained_for-apply s m topic, v.own_topic topic k, bytes_beq_iff m.topic topic);
}
  where
    apply_topics :
        HasUniqueKeys
          (if is_empty m.payload then remove m.topic s.by_topic else insert m.topic m s.by_topic)
    apply_topics = elim (Bool-cases (is_empty m.payload)) [
      | inl e ↦ rw e (remove-HasUniqueKeys m.topic s.by_topic v.topics)
      | inr e ↦ rw e (insert-HasUniqueKeys m.topic m s.by_topic v.topics)
    ]

In-collect :
    (f : TopicFilter) (m : Map Bytes Message) (msg : Message)
    → In msg (collect f m)
    → (topic : Bytes) × In (topic, msg) m × (matches f topic ≡ true)
unfolding collect
In-collect f [] msg i = absurd i
In-collect f ((t, n) ∷ m) msg i = elim (Bool-cases (matches f t)) [
  | inl e ↦
      let j : In msg (n ∷ collect f m) = rw e at i in
      elim j [
        | inl h ↦ (t, inl (ground arith), e)
        | inr h ↦ let (u, k, l) = In-collect f m msg h in (u, inr k, l)
      ]
  | inr e ↦
      let j : In msg (collect f m) = rw e at i in
      let (u, k, l) = In-collect f m msg j in (u, inr k, l)
]

collect-In :
    (f : TopicFilter) (m : Map Bytes Message) (topic : Bytes) (msg : Message)
    → In (topic, msg) m
    → matches f topic ≡ true
    → In msg (collect f m)
unfolding collect
collect-In f [] topic msg i h = absurd i
collect-In f ((t, n) ∷ m) topic msg (inl e) h =
    let at : matches f t ≡ true = ground arith in rw at (inl (ground arith))
collect-In f ((t, n) ∷ m) topic msg (inr i) h = elim (Bool-cases (matches f t)) [
  | inl e ↦ rw e (inr (collect-In f m topic msg i h))
  | inr e ↦ rw e (collect-In f m topic msg i h)
]

In-matching_iff :
    (s : RetainedStore) (f : TopicFilter) (msg : Message)
    → IsValid s
    → In msg (matching s f) ↔ ((retained_for s msg.topic ≡ some msg) × (matches f msg.topic ≡ true))
unfolding matching
In-matching_iff s f msg v = (
  λ i.
      let j = (In-sort by_name msg (collect f s.by_topic)).0 i in
      let (topic, k, h) = In-collect f s.by_topic msg j in
      let e = get_of-In topic msg s.by_topic v.topics k in
      let (own, _) = v.own_topic topic msg e in
      (
        subst (λ t. retained_for s t ≡ some msg) (sym own) e,
        subst (λ t. matches f t ≡ true) (sym own) h,
      ),
  λ (e, h).
      (In-sort by_name msg (collect f s.by_topic)).1
        (collect-In f s.by_topic msg.topic msg (In-of-get msg.topic msg s.by_topic e) h),
)

matching-IsSorted : (s : RetainedStore) (f : TopicFilter) → IsSorted by_name (matching s f)
unfolding matching
matching-IsSorted s f =
    sort-IsSorted by_name (λ a b. bytes_le_total a.topic b.topic)
      (λ a b c. bytes_le_trans a.topic b.topic c.topic) (collect f s.by_topic)

-- No two messages of the list have the same topic.
abbrev pub HaveDistinctTopics : List Message → Type 0
HaveDistinctTopics [] = Unit
HaveDistinctTopics (m ∷ ms) = All (λ n. n.topic ≢ m.topic) ms × HaveDistinctTopics ms

collect-apart :
    (f : TopicFilter) (t : Bytes) (m : Map Bytes Message)
    → Lacks t m
    → ((u : Bytes) (n : Message) → In (u, n) m → n.topic ≡ u)
    → All (λ n. n.topic ≢ t) (collect f m)
unfolding collect
collect-apart f t [] l own = tt
collect-apart f t ((u, n) ∷ m) l own =
    let later = collect-apart f t m l.1 (λ x y i. own x y (inr i)) in
    elim (Bool-cases (matches f u)) [
      | inl e ↦ rw e (λ q. ground (arith, q, own u n (inl refl), l.0, bytes_beq_iff u t), later)
      | inr e ↦ rw e later
    ]

collect-HaveDistinctTopics :
    (f : TopicFilter) (m : Map Bytes Message)
    → HasUniqueKeys m
    → ((u : Bytes) (n : Message) → In (u, n) m → n.topic ≡ u)
    → HaveDistinctTopics (collect f m)
unfolding collect
collect-HaveDistinctTopics f [] d own = tt
collect-HaveDistinctTopics f ((u, n) ∷ m) d own =
    let later = collect-HaveDistinctTopics f m d.1 (λ x y i. own x y (inr i)) in
    elim (Bool-cases (matches f u)) [
      | inl e ↦ rw e (
        subst (λ t. All (λ k. k.topic ≢ t) (collect f m)) (sym (own u n (inl refl)))
            (collect-apart f u m d.0 (λ x y i. own x y (inr i))),
        later,
      )
      | inr e ↦ rw e later
    ]

place-HaveDistinctTopics :
    (x : Message) (ys : List Message)
    → All (λ n. n.topic ≢ x.topic) ys
    → HaveDistinctTopics ys
    → HaveDistinctTopics (place by_name x ys)
unfolding place
place-HaveDistinctTopics x [] a d = (tt, tt)
place-HaveDistinctTopics x (y ∷ ys) a d = elim (Bool-cases (by_name x y)) [
  | inl e ↦ rw e (a, d)
  | inr e ↦ rw e (
    All-place by_name (λ n. n.topic ≢ y.topic) x ys (λ q. a.0 (sym q)) d.0,
    place-HaveDistinctTopics x ys a.1 d.1,
  )
]

sort-HaveDistinctTopics :
    (xs : List Message) → HaveDistinctTopics xs → HaveDistinctTopics (sort by_name xs)
unfolding sort
sort-HaveDistinctTopics [] d = tt
sort-HaveDistinctTopics (x ∷ xs) d =
    place-HaveDistinctTopics x (sort by_name xs) (All-sort by_name (λ n. n.topic ≢ x.topic) xs d.0)
      (sort-HaveDistinctTopics xs d.1)

-- Of a valid store, `matching` lists exactly the retained messages of the topics that the filter
-- matches, each once, in the order of their topics.
pub matching_iff :
    (s : RetainedStore) (f : TopicFilter)
    → IsValid s
    → ((msg : Message)
        → In msg (matching s f)
          ↔ ((retained_for s msg.topic ≡ some msg) × (matches f msg.topic ≡ true)))
      × HaveDistinctTopics (matching s f)
      × IsSorted by_name (matching s f)
matching_iff s f v = (
  λ msg. In-matching_iff s f msg v,
  unfold matching in
      sort-HaveDistinctTopics (collect f s.by_topic) (
        collect-HaveDistinctTopics f s.by_topic v.topics
          (λ u n i. (v.own_topic u n (get_of-In u n s.by_topic v.topics i)).0)),
  matching-IsSorted s f,
)

unfoldable pub apply_all : RetainedStore → List Message → RetainedStore
apply_all s [] = s
apply_all s (m ∷ ms) = apply_all (apply s m) ms

apply_all-IsValid_from :
    (s : RetainedStore) (ms : List Message) → IsValid s → IsValid (apply_all s ms)
unfolding apply_all
apply_all-IsValid_from s [] v = v
apply_all-IsValid_from s (m ∷ ms) v = apply_all-IsValid_from (apply s m) ms (apply-IsValid m v)

-- After any sequence of retained messages the store holds at most one message for a topic, each
-- under its own topic, and none with an empty payload.
pub apply_all-IsValid : (ms : List Message) → IsValid (apply_all empty ms)
apply_all-IsValid ms = apply_all-IsValid_from empty ms empty-IsValid
