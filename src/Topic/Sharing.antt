-- ===== src/Topic/Sharing.antt =====
-- `SharedSubscription::parse` accepts exactly `$share/{group}/{filter}`.
use ch_relay.Prelude.{
  ◌≡◌, ◌≢◌, refl, false, [], ◌∷◌, ◌++◌, ◌↔◌, sym, subst, arith, inl, inr, Option-cases, some,
}
use ch_relay.Bytes.{Bytes, contains, split_once, strip_prefix, is_empty}
use ch_relay.Bytes.Laws.{strip_prefix_iff, split_once_eq_some, split_once-append}
use ch_relay.Topic.{SharedSubscription, slash, share_prefix, parse, checked_group, parse_shared}
use ch_relay.Topic.Parsing.{IsWellFormed, parse_iff, is_empty_iff}

-- A share name is not empty and holds neither the separator nor a wildcard.
pub record IsShareName (group : Bytes) : Type 0 where
  pub nonempty : group ≢ []
  pub no_slash : contains slash group ≡ false
  pub no_plus : contains b'+' group ≡ false
  pub no_hash : contains b'#' group ≡ false

abbrev pub IsShared : Bytes → SharedSubscription → Type 0
IsShared s r =
    (s ≡ share_prefix ++ (r.group ++ (slash ∷ r.filter.as_str)))
    × IsShareName r.group
    × IsWellFormed r.filter.as_str

checked_group_sound :
    (group filter : Bytes) (r : SharedSubscription)
    → checked_group (some (group, filter)) ≡ some r
    → (is_empty group ≡ false)
      × (contains b'+' group ≡ false)
      × (contains b'#' group ≡ false)
      × (group ≡ r.group)
      × (parse filter ≡ some r.filter)
unfolding checked_group
checked_group_sound group filter r h = ground arith

parse_shared-split :
    (s : Bytes) (r : SharedSubscription)
    → parse_shared s ≡ some r
    → (rest group filter : Bytes) × (strip_prefix share_prefix s ≡ some rest)
      × (split_once slash rest ≡ some (group, filter))
      × (checked_group (some (group, filter)) ≡ some r)
unfolding parse_shared
parse_shared-split s r h = elim (Option-cases (strip_prefix share_prefix s)) [
  | inl e ↦ absurd (ground arith)
  | inr (rest, e) ↦ elim (Option-cases (split_once slash rest)) [
    | inl k ↦ absurd (ground arith)
    | inr ((group, filter), k) ↦ (rest, group, filter, e, k, ground arith)
  ]
]

parse_shared_sound : (s : Bytes) (r : SharedSubscription) → parse_shared s ≡ some r → IsShared s r
parse_shared_sound s r h =
    let (rest, group, filter, p, q, c) = parse_shared-split s r h in
    let (full, no_plus, no_hash, g, f) = checked_group_sound group filter r c in
    let (text, no_slash) = split_once_eq_some slash rest group filter q in
    let (w, e) = (parse_iff filter r.filter).0 f in
    (
      cc ((strip_prefix_iff share_prefix s rest).0 p),
      record {
        nonempty = (is_empty_iff r.group).0 (cc);
        no_slash = cc;
        no_plus = cc;
        no_hash = cc;
      },
      subst IsWellFormed (sym e) w,
    )

parse_shared_complete :
    (s : Bytes) (r : SharedSubscription) → IsShared s r → parse_shared s ≡ some r
unfolding parse_shared
parse_shared_complete s r (e, n, w) = ground (
  arith,
  (strip_prefix_iff share_prefix s (r.group ++ (slash ∷ r.filter.as_str))).1 e,
  split_once-append slash r.group r.filter.as_str n.no_slash,
  (is_empty_iff r.group).1 n.nonempty,
  n.no_plus,
  n.no_hash,
  (parse_iff r.filter.as_str r.filter).1 (w, refl),
)

-- `parse` accepts a text exactly when it is `$share/{group}/{filter}` with a share name and a
-- well-formed filter, and yields that group and that filter.
pub parse_shared_iff :
    (s : Bytes) (r : SharedSubscription) → (parse_shared s ≡ some r) ↔ IsShared s r
parse_shared_iff s r = (parse_shared_sound s r, parse_shared_complete s r)
