-- ===== src/Acl/Examples.antt =====
-- Concrete permissions.
use ch_relay.Prelude.{◌≡◌, refl, true, false, [], ◌∷◌, In, arith}
use ch_relay.Bytes.{Bytes, codes, bytes_beq, split}
use ch_relay.Topic.{topic_matches, match_levels, hash}
use ch_relay.Topic.Matching.{Matches}
use ch_relay.Acl.{Acl, can_subscribe, filter_subsumes, subsumes_levels}
use ch_relay.Acl.Permissions.{can_subscribe-confined}
use ch_relay.Acl.Subsumption.{filter_subsumes_preorder, filter_subsumes-concrete, hash_widens}

abbrev drive_user : Acl
drive_user = record {
  publish = codes "drive/u1/#" ∷ [];
  subscribe = codes "drive/u1/#" ∷ codes "config/+" ∷ [];
}

can_subscribe-confined_example :
    (pat : Bytes) × In pat drive_user.subscribe × Matches pat (codes "drive/u1/f")
unfolding can_subscribe filter_subsumes subsumes_levels topic_matches match_levels split bytes_beq
can_subscribe-confined_example =
    can_subscribe-confined drive_user (codes "drive/u1/+") (codes "drive/u1/f")
      (λ pat i d. absurd (omega arith)) refl refl

no_widening : can_subscribe drive_user (codes "drive/#") ≡ false
unfolding can_subscribe filter_subsumes subsumes_levels split bytes_beq
no_widening = refl

filter_subsumes_preorder_example :
    (filter_subsumes (codes "a/#") (codes "a/#") ≡ true)
    × (filter_subsumes (codes "a/#") (codes "a/+") ≡ true
        → filter_subsumes (codes "a/+") (codes "a/b") ≡ true
        → filter_subsumes (codes "a/#") (codes "a/b") ≡ true)
filter_subsumes_preorder_example =
    filter_subsumes_preorder (codes "a/#") (codes "a/+") (codes "a/b")

filter_subsumes-concrete_example :
    filter_subsumes (codes "a/+") (codes "a/b") ≡ topic_matches (codes "a/+") (codes "a/b")
unfolding split
filter_subsumes-concrete_example =
    filter_subsumes-concrete (codes "a/+") (codes "a/b")
      (((λ e. ground arith), (λ e. ground arith)), (((λ e. ground arith), (λ e. ground arith)), tt))
      refl

hash_widens_example :
    (filter_subsumes hash (codes "$dlq/#") ≡ true) × (topic_matches hash (codes "$dlq/c/t") ≡ false)
unfolding topic_matches match_levels split bytes_beq
hash_widens_example = hash_widens (codes "$dlq/#") (codes "$dlq/c/t") refl refl
