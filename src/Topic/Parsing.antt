-- ===== src/Topic/Parsing.antt =====
-- `TopicFilter::parse` accepts exactly the well-formed filters.
use ch_relay.Prelude.{
  ℕ, ◌+◌, ◌≡◌, ◌≢◌, refl, true, false, List, [], ◌∷◌, ◌↔◌, arith, inl, inr, Bool-cases, some,
  length,
}
use ch_relay.Bytes.{Bytes, bytes_beq_iff, contains, split, is_empty}
use ch_relay.Topic.{TopicFilter, slash, hash, plus, check_levels, parse}

-- `#` stands alone and last, `+` stands alone, and no other level holds either.
pub data AreWellFormed : List Bytes → Type 0 where
  last : {l : Bytes} → l ≡ hash → AreWellFormed (l ∷ [])
  end : AreWellFormed []
  any_level : {l : Bytes} {ls : List Bytes} → l ≡ plus → AreWellFormed ls → AreWellFormed (l ∷ ls)
  plain :
      {l : Bytes} {ls : List Bytes}
      → contains b'#' l ≡ false
      → contains b'+' l ≡ false
      → AreWellFormed ls
      → AreWellFormed (l ∷ ls)

abbrev pub IsWellFormed : Bytes → Type 0
IsWellFormed filter = (filter ≢ []) × AreWellFormed (split slash filter)

last_level : (l : Bytes) (ls : List Bytes) → l ≡ hash → length ls ≡ 0 → AreWellFormed (l ∷ ls)
last_level l [] h e = last h
last_level l (m ∷ ls) h e = absurd (omega arith)

check_levels_sound :
    (i n : ℕ) (ls : List Bytes) → i + length ls ≡ n → check_levels i n ls ≡ true → AreWellFormed ls
unfolding check_levels
check_levels_sound i n [] e h = end
check_levels_sound i n (l ∷ ls) e h = elim (Bool-cases (contains b'#' l)) [
  | inl c ↦ last_level l ls ((bytes_beq_iff l hash).0 (ground arith)) (ground arith)
  | inr c ↦ elim (Bool-cases (contains b'+' l)) [
    | inl p ↦
        any_level ((bytes_beq_iff l plus).0 (ground arith))
          (check_levels_sound (i + 1) n ls (omega arith) (ground arith))
    | inr p ↦ plain c p (check_levels_sound (i + 1) n ls (omega arith) (ground arith))
  ]
]

contains-hash : contains b'+' hash ≡ false
unfolding contains
contains-hash = refl

contains-plus : contains b'#' plus ≡ false
unfolding contains
contains-plus = refl

check_levels_complete :
    (i n : ℕ) {ls : List Bytes} → i + length ls ≡ n → AreWellFormed ls → check_levels i n ls ≡ true
unfolding check_levels
check_levels_complete i n e (last {l} h) = ground (arith, bytes_beq_iff l hash, contains-hash)
check_levels_complete i n e end = refl
check_levels_complete i n e (any_level {l} {ls} h w) = ground (
  arith,
  bytes_beq_iff l plus,
  contains-plus,
  check_levels_complete (i + 1) n {ls = ls} (omega arith) w,
)
check_levels_complete i n e (plain {l} {ls} h k w) =
    rw (h, k) (check_levels_complete (i + 1) n (omega arith) w)

abbrev wrap : Bytes → TopicFilter
wrap filter = record { as_str = filter }

pub is_empty_iff : (s : Bytes) → (is_empty s ≡ false) ↔ (s ≢ [])
is_empty_iff [] = (λ h. cc, λ h. absurd (h refl))
is_empty_iff (c ∷ s) = (λ h e. cc, λ h. refl)

parse_sound :
    (filter : Bytes) (f : TopicFilter)
    → parse filter ≡ some f
    → IsWellFormed filter × (f.as_str ≡ filter)
unfolding parse
parse_sound filter f h = (
  (
    (is_empty_iff filter).0 (ground arith),
    check_levels_sound 0 (length (split slash filter)) (split slash filter) (omega arith)
        (ground arith),
  ),
  ground arith,
)

parse_complete :
    (filter : Bytes) (f : TopicFilter)
    → IsWellFormed filter
    → f.as_str ≡ filter
    → parse filter ≡ some f
unfolding parse
parse_complete filter f w e = ground (
  arith,
  (is_empty_iff filter).1 w.0,
  check_levels_complete 0 (length (split slash filter)) {ls = split slash filter} (omega arith) w.1,
)

-- `parse` accepts a text exactly when it is a well-formed filter, and then keeps it as it is.
pub parse_iff :
    (filter : Bytes) (f : TopicFilter)
    → (parse filter ≡ some f) ↔ (IsWellFormed filter × (f.as_str ≡ filter))
parse_iff filter f = (parse_sound filter f, λ (w, e). parse_complete filter f w e)
