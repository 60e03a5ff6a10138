-- ===== src/Retained.antt =====
-- crates/relay-core/src/retained.rs: the last retained message of each topic.
pub mod Contents
mod Examples
use ch_relay.Prelude.{ℕ, Bool, true, false, List, [], ◌∷◌, if◌then◌else◌, length}
use ch_relay.Prelude.Map.{Map, insert, remove}
use ch_relay.Prelude.Sort.{sort}
use ch_relay.Bytes.{Bytes, bytes_le, bytes_eq, is_empty}
use ch_relay.Topic.{TopicFilter, matches}
use ch_relay.Message.{Message}

pub record RetainedStore : Type 0 where
  pub by_topic : Map Bytes Message

abbrev pub empty : RetainedStore
empty = record { by_topic = [] }

unfoldable pub apply : RetainedStore → Message → RetainedStore
apply s message = record {
  by_topic =
      if is_empty message.payload
      then remove message.topic s.by_topic
      else insert message.topic message s.by_topic;
}

-- `RetainedStore::remove`.
unfoldable pub forget : RetainedStore → Bytes → RetainedStore
forget s topic = record { by_topic = remove topic s.by_topic }

abbrev pub by_name : Message → Message → Bool
by_name a b = bytes_le a.topic b.topic

pub collect : TopicFilter → Map Bytes Message → List Message
collect filter [] = []
collect filter ((topic, msg) ∷ m) =
    let rest = collect filter m in if matches filter topic then msg ∷ rest else rest

unfoldable pub matching : RetainedStore → TopicFilter → List Message
unfolding collect
matching s filter = sort by_name (collect filter s.by_topic)

unfoldable pub len : RetainedStore → ℕ
len s = length s.by_topic
