-- ===== src/Retained/Examples.antt =====
-- Two retained messages, and the clearing of one.
use ch_relay.Prelude.{◌≡◌, ◌↔◌, refl, true, some, [], ◌∷◌, In}
use ch_relay.Bytes.{codes, bytes_beq}
use ch_relay.Topic.{TopicFilter, matches}
use ch_relay.Message.{Message, new, retained}
use ch_relay.Retained.{RetainedStore, empty, apply, by_name, matching}
use ch_relay.Prelude.Sort.{IsSorted}
use ch_relay.Retained.Contents.{
  IsValid, HaveDistinctTopics, retained_for, matching_iff, apply_all, apply_all-IsValid,
}

abbrev on : Message
on = retained (new (codes "home/light") (codes "on"))

abbrev warm : Message
warm = retained (new (codes "home/heat") (codes "21"))

abbrev cleared : Message
cleared = retained (new (codes "home/light") [])

abbrev home : RetainedStore
home = apply_all empty (on ∷ warm ∷ [])

home-IsValid : IsValid home
home-IsValid = apply_all-IsValid (on ∷ warm ∷ [])

abbrev lights : TopicFilter
lights = record { as_str = codes "+/light" }

matching_iff_example :
    ((msg : Message)
      → In msg (matching home lights)
        ↔ ((retained_for home msg.topic ≡ some msg) × (matches lights msg.topic ≡ true)))
    × HaveDistinctTopics (matching home lights)
    × IsSorted by_name (matching home lights)
matching_iff_example = matching_iff home lights home-IsValid

last_value : retained_for home (codes "home/light") ≡ some on
unfolding apply_all apply bytes_beq
last_value = refl
