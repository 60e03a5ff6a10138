-- ===== src/Router/Validity.antt =====
-- The well-formedness of the subscription table, kept by every operation.
use ch_relay.Prelude.{◌<◌, ◌≡◌, false, List, [], ◌∷◌, none, nat_eq}
use ch_relay.Prelude.Map.{HasUniqueKeys, AllValues}
use ch_relay.Bytes.{bytes_eq}
use ch_relay.Router.{ClientId, Router, Sub, SharedGroup, empty, usize_mod, is_nil}
use ch_relay.Router.GrantLists.{sub_qos, member_qos}

abbrev pub HasDistinctFilters : List Sub → Type 0
HasDistinctFilters [] = Unit
HasDistinctFilters (s ∷ subs) = (sub_qos s.filter.as_str subs ≡ none) × HasDistinctFilters subs

abbrev pub HasDistinctMembers : List (ClientId × Sub) → Type 0
HasDistinctMembers [] = Unit
HasDistinctMembers ((c, s) ∷ members) =
    (member_qos c s.filter.as_str members ≡ none) × HasDistinctMembers members

-- A client without subscriptions has no entry, and its filters are distinct.
abbrev pub IsSubList : List Sub → Type 0
IsSubList subs = (is_nil subs ≡ false) × HasDistinctFilters subs

-- A group has members, each filter of a client once, and a cursor that is a `usize`.
abbrev pub IsGroup : SharedGroup → Type 0
IsGroup g = (is_nil g.members ≡ false) × HasDistinctMembers g.members × (g.cursor < usize_mod)

pub record IsValid (r : Router) : Type 0 where
  pub clients : HasUniqueKeys r.normal
  pub groups : HasUniqueKeys r.shared
  pub sub_lists : AllValues IsSubList r.normal
  pub members : AllValues IsGroup r.shared

pub empty-IsValid : IsValid empty
empty-IsValid = record { clients = tt; groups = tt; sub_lists = tt; members = tt }
