-- ===== src/Topic/Filtering.antt =====
-- `topic_matches` of crates/relay-core/src/topic.rs against the rules of MQTT 5.0, section 4.7, on the
-- filters that `TopicFilter::parse` accepts.
use ch_relay.Prelude.{
  ℕ, ◌≡◌, ◌≢◌, refl, sym, ◌∙◌, true, false, List, [], ◌∷◌, ◌++◌, ◌↔◌, subst, arith, ◌==◌,
  Bool-cases, inl, inr,
}
use ch_relay.Bytes.{Bytes, codes, cons_head, contains, split}
use ch_relay.Topic.{slash, hash, plus, is_dollar, topic_matches}
use ch_relay.Topic.Matching.{
  LevelsMatch, multi, single, literal, done, StartsWithDollar, HasPlainHead, is_dollar_iff,
  topic_matches-Matches,
}
use ch_relay.Topic.Parsing.{AreWellFormed, last, end, any_level, plain, IsWellFormed}

-- `#` stands last and covers whatever levels are left, also none; `+` covers one level; any other
-- level covers its equal.
pub data Covers : List Bytes → List Bytes → Type 0 where
  all_left : {f : Bytes} {ts : List Bytes} → f ≡ hash → Covers (f ∷ []) ts
  one_level :
      {f t : Bytes} {fs ts : List Bytes} → f ≡ plus → Covers fs ts → Covers (f ∷ fs) (t ∷ ts)
  same_level :
      {f t : Bytes} {fs ts : List Bytes}
      → f ≢ plus
      → f ≢ hash
      → f ≡ t
      → Covers fs ts
      → Covers (f ∷ fs) (t ∷ ts)
  nothing_left : Covers [] []

-- A topic that starts with `$` is matched only by filters whose first level is no wildcard; and the
-- levels of the filter cover those of the topic.
pub record CoversTopic (filter topic : Bytes) : Type 0 where
  pub shielded : StartsWithDollar topic → HasPlainHead (split slash filter)
  pub levels : Covers (split slash filter) (split slash topic)

hash-contains : contains b'#' hash ≡ true
unfolding contains
hash-contains = refl

plus-contains : contains b'+' plus ≡ true
unfolding contains
plus-contains = refl

hash-plus : hash ≢ plus
hash-plus e = ground (arith, e)

Covers-LevelsMatch : {fs ts : List Bytes} → Covers fs ts → LevelsMatch fs ts
Covers-LevelsMatch (all_left e) = multi e
Covers-LevelsMatch (one_level e c) = single e (Covers-LevelsMatch c)
Covers-LevelsMatch (same_level p h e c) = literal e (Covers-LevelsMatch c)
Covers-LevelsMatch nothing_left = done

LevelsMatch-Covers : {fs ts : List Bytes} → AreWellFormed fs → LevelsMatch fs ts → Covers fs ts
LevelsMatch-Covers (last h) (multi e) = all_left h
LevelsMatch-Covers (last h) (single e m) = all_left h
LevelsMatch-Covers (last h) (literal e m) = all_left h
LevelsMatch-Covers end done = nothing_left
LevelsMatch-Covers (any_level p w) (multi e) = absurd (hash-plus (sym e ∙ p))
LevelsMatch-Covers (any_level p w) (single e m) = one_level e (LevelsMatch-Covers w m)
LevelsMatch-Covers (any_level p w) (literal e m) = one_level p (LevelsMatch-Covers w m)
LevelsMatch-Covers (plain h p w) (multi e) =
    absurd (ground (arith, subst (λ l. contains b'#' l ≡ false) e h, hash-contains))
LevelsMatch-Covers (plain h p w) (single e m) =
    absurd (ground (arith, subst (λ l. contains b'+' l ≡ false) e p, plus-contains))
LevelsMatch-Covers (plain {l} h p w) (literal e m) =
    same_level (λ q. ground (arith, subst (λ k. contains b'+' k ≡ false) q p, plus-contains))
      (λ q. ground (arith, subst (λ k. contains b'#' k ≡ false) q h, hash-contains)) e
      (LevelsMatch-Covers w m)

-- On a well-formed filter `topic_matches` decides the rules: the levels of the filter cover those of
-- the topic, `#` all that are left, `+` one, and any other level its equal; and a topic that starts
-- with `$` is not matched by a filter whose first level is a wildcard.
pub topic_matches_iff :
    (filter topic : Bytes)
    → IsWellFormed filter
    → (topic_matches filter topic ≡ true) ↔ CoversTopic filter topic
topic_matches_iff filter topic w = (
  λ h.
      let m = (topic_matches-Matches filter topic).0 h in
      record { shielded = m.shielded; levels = LevelsMatch-Covers w.1 m.levels },
  λ c.
      (topic_matches-Matches filter topic).1
        (record { shielded = c.shielded; levels = Covers-LevelsMatch c.levels }),
)

not_well_formed : (f : Bytes) (ls : List Bytes) → f ≡ hash → ls ≢ [] → AreWellFormed (f ∷ ls) → ⊥
not_well_formed f [] e n w = n refl
not_well_formed f (l ∷ ls) e n (any_level p w) = hash-plus (sym e ∙ p)
not_well_formed f (l ∷ ls) e n (plain h p w) =
    ground (arith, subst (λ k. contains b'#' k ≡ false) e h, hash-contains)

cons_head_nonempty : (c : ℕ) (ls : List Bytes) → cons_head c ls ≢ []
cons_head_nonempty c [] e = cc
cons_head_nonempty c (l ∷ ls) e = cc

split_nonempty : (sep : ℕ) (s : Bytes) → split sep s ≢ []
unfolding split
split_nonempty sep [] = λ e. cc
split_nonempty sep (c ∷ s) = elim (Bool-cases (c == sep)) [
  | inl h ↦ rw h (λ e. cc)
  | inr h ↦ rw h (cons_head_nonempty c (split sep s))
]

-- A text with levels after a leading `#` is no filter, and yet matches every topic that does not
-- start with `$`.
pub malformed_matches :
    (rest topic : Bytes)
    → is_dollar topic ≡ false
    → (IsWellFormed (codes "#/" ++ rest) → ⊥) × (topic_matches (codes "#/" ++ rest) topic ≡ true)
unfolding split
malformed_matches rest topic d = (
  λ w. not_well_formed hash (split slash rest) refl (split_nonempty slash rest) w.1,
  (topic_matches-Matches (codes "#/" ++ rest) topic).1 (record {
    shielded = λ s. absurd (ground (arith, (is_dollar_iff topic).1 s));
    levels = multi refl;
  }),
)
