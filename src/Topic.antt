-- ===== src/Topic.antt =====
-- crates/relay-core/src/topic.rs: topic filters, shared subscriptions and topic matching.
pub mod Matching
pub mod Parsing
pub mod Filtering
pub mod Sharing
mod Examples
use ch_relay.Prelude.{
  ℕ, ◌+◌, ◌-◌, Bool, true, false, not, ◌&&◌, ◌||◌, List, [], ◌∷◌, Option, none, some, ◌==◌,
  if◌then◌else◌, length,
}
use ch_relay.Bytes.{
  Bytes, codes, is_empty, bytes_beq, contains, split, strip_prefix, split_once, starts_with,
}

abbrev pub slash : ℕ
slash = b'/'

abbrev pub hash : Bytes
hash = b'#' ∷ []

abbrev pub plus : Bytes
plus = b'+' ∷ []

-- `TopicFilter(String)`, built by `parse` only.
pub record TopicFilter : Type 0 where
  pub as_str : Bytes

-- The loop of `TopicFilter::parse` over the levels from the `i`-th on, of `n` in all.
pub check_levels : ℕ → ℕ → List Bytes → Bool
check_levels i n [] = true
check_levels i n (level ∷ rest) =
    if contains b'#' level && (not (bytes_beq level hash) || not (i == n - 1))
    then false
    else if contains b'+' level && not (bytes_beq level plus)
    then false
    else check_levels (i + 1) n rest

unfoldable pub parse : Bytes → Option TopicFilter
parse filter =
    if is_empty filter
    then none
    else let levels = split slash filter in
      if check_levels 0 (length levels) levels then some (record { as_str = filter }) else none

-- The loop of `topic_matches`: both iterators of levels advance together.
unfoldable pub match_levels : List Bytes → List Bytes → Bool
match_levels [] [] = true
match_levels [] (t ∷ ts) = false
match_levels (f ∷ fs) [] = bytes_beq f hash
match_levels (f ∷ fs) (t ∷ ts) =
    let rest = match_levels fs ts in
    if bytes_beq f hash
    then true
    else if bytes_beq f plus
    then rest
    else if bytes_beq f t
    then rest
    else false

-- `topic.starts_with('$')`.
abbrev pub is_dollar : Bytes → Bool
is_dollar [] = false
is_dollar (c ∷ s) = c == b'$'

-- `filter.split('/').next()` is `+` or `#`.
abbrev pub wild_head : List Bytes → Bool
wild_head [] = false
wild_head (first ∷ ls) = bytes_beq first plus || bytes_beq first hash

unfoldable pub topic_matches : Bytes → Bytes → Bool
topic_matches filter topic =
    if is_dollar topic && wild_head (split slash filter)
    then false
    else match_levels (split slash filter) (split slash topic)

abbrev pub matches : TopicFilter → Bytes → Bool
matches f topic = topic_matches f.as_str topic

pub record SharedSubscription : Type 0 where
  pub group : Bytes
  pub filter : TopicFilter

abbrev pub share_prefix : Bytes
share_prefix = codes "$share/"

shared_of : Bytes → Option TopicFilter → Option SharedSubscription
shared_of group none = none
shared_of group (some filter) = some (record { group = group; filter = filter })

checked_group : Option (Bytes × Bytes) → Option SharedSubscription
unfolding shared_of
checked_group none = none
checked_group (some (group, filter)) =
    if is_empty group || (contains b'+' group || contains b'#' group)
    then none
    else shared_of group (parse filter)

after_prefix : Option Bytes → Option SharedSubscription
unfolding checked_group
after_prefix none = none
after_prefix (some rest) = checked_group (split_once slash rest)

unfoldable pub parse_shared : Bytes → Option SharedSubscription
unfolding after_prefix
parse_shared subscription = after_prefix (strip_prefix share_prefix subscription)
