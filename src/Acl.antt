-- ===== src/Acl.antt =====
-- crates/relay-core/src/acl.rs: what a principal may publish and subscribe to.
pub mod Subsumption
pub mod Permissions
mod Examples
use ch_relay.Prelude.{Bool, true, false, List, [], ◌∷◌, any, if◌then◌else◌}
use ch_relay.Bytes.{Bytes, bytes_beq, split}
use ch_relay.Topic.{slash, hash, plus, topic_matches}

pub record Acl : Type 0 where
  pub publish : List Bytes
  pub subscribe : List Bytes

-- `Acl::default()`.
abbrev pub no_access : Acl
no_access = record { publish = []; subscribe = [] }

-- The loop of `filter_subsumes` from index `i` on: `a.get(i)` and `r.get(i)` are the heads.
unfoldable pub subsumes_levels : List Bytes → List Bytes → Bool
subsumes_levels [] [] = true
subsumes_levels [] (rl ∷ rs) = false
subsumes_levels (al ∷ as') [] = bytes_beq al hash
subsumes_levels (al ∷ as') (rl ∷ rs) =
    let rest = subsumes_levels as' rs in
    if bytes_beq al hash
    then true
    else if bytes_beq rl hash
    then false
    else if bytes_beq al plus
    then rest
    else if bytes_beq rl plus
    then false
    else if bytes_beq al rl
    then rest
    else false

unfoldable pub filter_subsumes : Bytes → Bytes → Bool
filter_subsumes allowed requested = subsumes_levels (split slash allowed) (split slash requested)

unfoldable pub can_publish : Acl → Bytes → Bool
can_publish acl topic = any (λ pat. topic_matches pat topic) acl.publish

unfoldable pub can_subscribe : Acl → Bytes → Bool
can_subscribe acl filter = any (λ pat. filter_subsumes pat filter) acl.subscribe
