-- ===== src/Topic/Examples.antt =====
-- Concrete topics and filters.
use ch_relay.Prelude.{◌≡◌, ◌↔◌, refl, true, false, some, none}
use ch_relay.Bytes.{codes, bytes_beq, contains, split, strip_prefix, split_once}
use ch_relay.Topic.{
  TopicFilter, SharedSubscription, topic_matches, match_levels, parse, check_levels, parse_shared,
}
use ch_relay.Topic.Filtering.{CoversTopic, topic_matches_iff}
use ch_relay.Topic.Parsing.{IsWellFormed, end, any_level, plain, parse_iff}
use ch_relay.Topic.Sharing.{IsShared, parse_shared_iff}

topic_matches_iff_example :
    (topic_matches (codes "a/+/c") (codes "a/b/c") ≡ true)
    ↔ CoversTopic (codes "a/+/c") (codes "a/b/c")
unfolding split contains
topic_matches_iff_example =
    topic_matches_iff (codes "a/+/c") (codes "a/b/c")
      (λ e. cc, plain refl refl (any_level refl (plain refl refl end)))

parent_level : topic_matches (codes "a/#") (codes "a") ≡ true
unfolding topic_matches match_levels split bytes_beq
parent_level = refl

dollar_shielded : topic_matches (codes "#") (codes "$SYS/broker/uptime") ≡ false
unfolding topic_matches match_levels split bytes_beq
dollar_shielded = refl

abbrev orders : TopicFilter
orders = record { as_str = codes "orders/+/created" }

parse_iff_example :
    (parse (codes "orders/+/created") ≡ some orders)
    ↔ (IsWellFormed (codes "orders/+/created") × (orders.as_str ≡ codes "orders/+/created"))
parse_iff_example = parse_iff (codes "orders/+/created") orders

hash_not_last : parse (codes "a/#/c") ≡ none
unfolding parse check_levels contains split bytes_beq
hash_not_last = refl

abbrev workers : SharedSubscription
workers = record { group = codes "workers"; filter = orders }

parse_shared_iff_example :
    (parse_shared (codes "$share/workers/orders/+/created") ≡ some workers)
    ↔ IsShared (codes "$share/workers/orders/+/created") workers
parse_shared_iff_example = parse_shared_iff (codes "$share/workers/orders/+/created") workers

share_parsed : parse_shared (codes "$share/workers/orders/+/created") ≡ some workers
unfolding parse_shared parse check_levels contains split split_once strip_prefix bytes_beq
share_parsed = refl

share_empty_group : parse_shared (codes "$share//orders") ≡ none
unfolding parse_shared parse check_levels contains split split_once strip_prefix bytes_beq
share_empty_group = refl
