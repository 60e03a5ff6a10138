-- ===== src/Acl/Subsumption.antt =====
-- `filter_subsumes`: what an allowed filter covers, and where the leading `$` is an exception.
use ch_relay.Prelude.{◌≡◌, ◌≢◌, refl, true, false, List, [], ◌∷◌, arith, All}
use ch_relay.Bytes.{Bytes, bytes_beq_iff, split}
use ch_relay.Topic.{slash, hash, plus, match_levels, topic_matches, is_dollar}
use ch_relay.Topic.Matching.{
  StartsWithDollar, HasPlainHead, is_dollar_iff, topic_matches-Matches, match_levels_sound,
  match_levels_complete,
}
use ch_relay.Acl.{subsumes_levels, filter_subsumes}

-- Whatever the request matches, the allowed levels match.
pub subsumes_levels_sound :
    (as' rs ts : List Bytes)
    → subsumes_levels as' rs ≡ true
    → match_levels rs ts ≡ true
    → match_levels as' ts ≡ true
unfolding subsumes_levels match_levels
subsumes_levels_sound [] [] ts h m = m
subsumes_levels_sound [] (r ∷ rs) ts h m = cc
subsumes_levels_sound (a ∷ as') [] [] h m = h
subsumes_levels_sound (a ∷ as') [] (t ∷ ts) h m = cc
subsumes_levels_sound (a ∷ as') (r ∷ rs) [] h m = ground arith
subsumes_levels_sound (a ∷ as') (r ∷ rs) (t ∷ ts) h m = ground (
  arith,
  subsumes_levels_sound as' rs ts,
  bytes_beq_iff a r,
  bytes_beq_iff r t,
  bytes_beq_iff a t,
  bytes_beq_iff r plus,
)

pub subsumes_levels_refl : (rs : List Bytes) → subsumes_levels rs rs ≡ true
unfolding subsumes_levels
subsumes_levels_refl [] = refl
subsumes_levels_refl (r ∷ rs) = ground (arith, subsumes_levels_refl rs, (bytes_beq_iff r r).1 refl)

pub subsumes_levels_trans :
    (xs ys zs : List Bytes)
    → subsumes_levels xs ys ≡ true
    → subsumes_levels ys zs ≡ true
    → subsumes_levels xs zs ≡ true
unfolding subsumes_levels
subsumes_levels_trans [] [] zs h k = k
subsumes_levels_trans [] (y ∷ ys) zs h k = cc
subsumes_levels_trans (x ∷ xs) [] [] h k = h
subsumes_levels_trans (x ∷ xs) [] (z ∷ zs) h k = cc
subsumes_levels_trans (x ∷ xs) (y ∷ ys) [] h k = ground arith
subsumes_levels_trans (x ∷ xs) (y ∷ ys) (z ∷ zs) h k = ground (
  arith,
  subsumes_levels_trans xs ys zs,
  bytes_beq_iff x y,
  bytes_beq_iff y z,
  bytes_beq_iff x z,
  bytes_beq_iff y plus,
)

-- A subscription that an allowed filter covers reaches no topic outside of that filter: every topic
-- that the request matches is matched by the allowed filter, provided that the topic does not start
-- with `$` or the allowed filter does not start with a wildcard.
pub filter_subsumes_sound :
    (allowed requested topic : Bytes)
    → (StartsWithDollar topic → HasPlainHead (split slash allowed))
    → filter_subsumes allowed requested ≡ true
    → topic_matches requested topic ≡ true
    → topic_matches allowed topic ≡ true
unfolding filter_subsumes
filter_subsumes_sound allowed requested topic ok h m =
    let asked = (topic_matches-Matches requested topic).0 m in
    let levels =
      subsumes_levels_sound (split slash allowed) (split slash requested) (split slash topic) h
        (match_levels_complete asked.levels) in
    (topic_matches-Matches allowed topic).1
      (record { shielded = ok; levels = match_levels_sound _ _ levels })

-- Covering is transitive and reflexive: a permission that is handed on in parts never grows.
pub filter_subsumes_preorder :
    (a b c : Bytes)
    → (filter_subsumes a a ≡ true)
      × (filter_subsumes a b ≡ true → filter_subsumes b c ≡ true → filter_subsumes a c ≡ true)
unfolding filter_subsumes
filter_subsumes_preorder a b c = (subsumes_levels_refl (split slash a), subsumes_levels_trans _ _ _)

-- A level of a topic, which holds no wildcard.
abbrev pub IsConcrete : List Bytes → Type 0
IsConcrete = All (λ l. (l ≢ hash) × (l ≢ plus))

subsumes_levels-concrete :
    (as' ts : List Bytes) → IsConcrete ts → subsumes_levels as' ts ≡ match_levels as' ts
unfolding subsumes_levels match_levels
subsumes_levels-concrete [] [] c = refl
subsumes_levels-concrete [] (t ∷ ts) c = refl
subsumes_levels-concrete (a ∷ as') [] c = refl
subsumes_levels-concrete (a ∷ as') (t ∷ ts) c = ground (
  arith,
  subsumes_levels-concrete as' ts c.1,
  bytes_beq_iff t hash,
  bytes_beq_iff t plus,
  c.0.0,
  c.0.1,
)

-- For a request without wildcards, a concrete topic that does not start with `$`, covering is
-- matching: the subscribe check then agrees with the publish check.
pub filter_subsumes-concrete :
    (allowed topic : Bytes)
    → IsConcrete (split slash topic)
    → is_dollar topic ≡ false
    → filter_subsumes allowed topic ≡ topic_matches allowed topic
unfolding filter_subsumes topic_matches
filter_subsumes-concrete allowed topic c d =
    rw d (subsumes_levels-concrete (split slash allowed) (split slash topic) c)

split-hash : split slash hash ≡ hash ∷ []
unfolding split
split-hash = refl

subsumes_levels-hash : (rs : List Bytes) → subsumes_levels (hash ∷ []) rs ≡ true
unfolding subsumes_levels
subsumes_levels-hash [] = (bytes_beq_iff hash hash).1 refl
subsumes_levels-hash (r ∷ rs) = rw ((bytes_beq_iff hash hash).1 refl)

hash_misses_dollar : (topic : Bytes) → StartsWithDollar topic → topic_matches hash topic ≡ false
unfolding topic_matches
hash_misses_dollar topic d =
    rw ((is_dollar_iff topic).1 d, split-hash, (bytes_beq_iff hash hash).1 refl) (ground arith)

-- The exception is real: a permission for `#` covers every request, and `#` itself matches no topic
-- that starts with `$`. So a principal with `#` may subscribe to any request that reaches a topic
-- starting with `$`, although its permission does not match that topic.
pub hash_widens :
    (requested topic : Bytes)
    → topic_matches requested topic ≡ true
    → StartsWithDollar topic
    → (filter_subsumes hash requested ≡ true) × (topic_matches hash topic ≡ false)
unfolding filter_subsumes
hash_widens requested topic m d =
    (rw split-hash (subsumes_levels-hash (split slash requested)), hash_misses_dollar topic d)
