-- ===== src/Topic/Matching.antt =====
-- `topic_matches` of crates/relay-core/src/topic.rs as a relation on levels.
use ch_relay.Prelude.{◌≡◌, ◌≢◌, refl, true, false, List, [], ◌∷◌, ◌↔◌, arith, inl, inr, Bool-cases}
use ch_relay.Bytes.{Bytes, bytes_beq, bytes_beq_iff, split}
use ch_relay.Topic.{slash, hash, plus, match_levels, is_dollar, wild_head, topic_matches}

-- The loop on any levels: `#` covers whatever levels are left, also none, and what comes after it is
-- not looked at; `+` covers one level; any other level covers its equal.
pub data LevelsMatch : List Bytes → List Bytes → Type 0 where
  multi : {f : Bytes} {fs ts : List Bytes} → f ≡ hash → LevelsMatch (f ∷ fs) ts
  single :
      {f t : Bytes} {fs ts : List Bytes}
      → f ≡ plus
      → LevelsMatch fs ts
      → LevelsMatch (f ∷ fs) (t ∷ ts)
  literal :
      {f t : Bytes} {fs ts : List Bytes} → f ≡ t → LevelsMatch fs ts → LevelsMatch (f ∷ fs) (t ∷ ts)
  done : LevelsMatch [] []

abbrev pub StartsWithDollar : Bytes → Type 0
StartsWithDollar [] = ⊥
StartsWithDollar (c ∷ s) = c ≡ b'$'

abbrev pub HasPlainHead : List Bytes → Type 0
HasPlainHead [] = Unit
HasPlainHead (l ∷ ls) = (l ≢ plus) × (l ≢ hash)

-- A topic that starts with `$` is matched only by filters that name its first level; and the levels
-- match, as the loop reads them.
pub record Matches (filter topic : Bytes) : Type 0 where
  pub shielded : StartsWithDollar topic → HasPlainHead (split slash filter)
  pub levels : LevelsMatch (split slash filter) (split slash topic)

pub is_dollar_iff : (topic : Bytes) → (is_dollar topic ≡ true) ↔ StartsWithDollar topic
is_dollar_iff [] = ground arith
is_dollar_iff (c ∷ s) = ground arith

pub wild_head_iff : (ls : List Bytes) → (wild_head ls ≡ false) ↔ HasPlainHead ls
wild_head_iff [] = (λ _. tt, λ _. refl)
wild_head_iff (l ∷ ls) = (
  λ h. (λ e. ground (arith, bytes_beq_iff l plus), λ e. ground (arith, bytes_beq_iff l hash)),
  λ p. ground (arith, bytes_beq_iff l plus, bytes_beq_iff l hash, p.0, p.1),
)

pub match_levels_sound : (fs ts : List Bytes) → match_levels fs ts ≡ true → LevelsMatch fs ts
unfolding match_levels
match_levels_sound [] [] h = done
match_levels_sound [] (t ∷ ts) h = cc
match_levels_sound (f ∷ fs) [] h = multi ((bytes_beq_iff f hash).0 h)
match_levels_sound (f ∷ fs) (t ∷ ts) h = elim (Bool-cases (bytes_beq f hash)) [
  | inl e ↦ multi ((bytes_beq_iff f hash).0 e)
  | inr e ↦ elim (Bool-cases (bytes_beq f plus)) [
    | inl p ↦ single ((bytes_beq_iff f plus).0 p) (match_levels_sound fs ts (ground arith))
    | inr p ↦
        literal ((bytes_beq_iff f t).0 (ground arith)) (match_levels_sound fs ts (ground arith))
  ]
]

pub match_levels_complete : {fs ts : List Bytes} → LevelsMatch fs ts → match_levels fs ts ≡ true
unfolding match_levels
match_levels_complete (multi {f} {fs} {ts = []} e) = (bytes_beq_iff f hash).1 e
match_levels_complete (multi {f} {fs} {ts = t ∷ ts} e) = rw ((bytes_beq_iff f hash).1 e)
match_levels_complete (single {f} {t} {fs} {ts} e m) =
    ground (arith, bytes_beq_iff f plus, match_levels_complete m)
match_levels_complete (literal {f} {t} {fs} {ts} e m) =
    ground (arith, bytes_beq_iff f t, match_levels_complete m)
match_levels_complete done = refl

pub topic_matches-shielded :
    (filter topic : Bytes)
    → topic_matches filter topic ≡ true
    → is_dollar topic ≡ true
    → wild_head (split slash filter) ≡ false
unfolding topic_matches
topic_matches-shielded filter topic h d = ground arith

pub topic_matches-levels :
    (filter topic : Bytes)
    → topic_matches filter topic ≡ true
    → match_levels (split slash filter) (split slash topic) ≡ true
unfolding topic_matches
topic_matches-levels filter topic h = ground arith

-- `topic_matches` on every text, also on one that is no filter: levels after `#` are not looked at.
pub topic_matches-Matches :
    (filter topic : Bytes) → (topic_matches filter topic ≡ true) ↔ Matches filter topic
unfolding topic_matches
topic_matches-Matches filter topic = (
  λ h. record {
    shielded = λ d.
        (wild_head_iff _).0 (topic_matches-shielded filter topic h ((is_dollar_iff topic).1 d));
    levels = match_levels_sound _ _ (topic_matches-levels filter topic h);
  },
  λ m. ground (
    arith,
    is_dollar_iff topic,
    wild_head_iff (split slash filter),
    match_levels_complete m.levels,
    m.shielded,
  ),
)
