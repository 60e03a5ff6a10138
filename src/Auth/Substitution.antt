-- ===== src/Auth/Substitution.antt =====
-- What `substitute` of crates/relay-server/src/auth.rs makes of a pattern with placeholders.
use ch_relay.Prelude.{
  ℕ, zero, suc, ◌<◌, ◌≡◌, refl, sym, ◌∙◌, ap, subst, ◌↔◌, false, [], ◌∷◌, ◌++◌, Option, none, some,
  arith, length, length-append, Option-cases, inl, inr,
}
use ch_relay.Prelude.Map.{Map, get}
use ch_relay.Bytes.{Bytes, bytes_eq, contains, split_once}
use ch_relay.Bytes.Laws.{split_once_eq_some, split_once-append}
use ch_relay.Auth.{substitute, substitute_loop, prepend}

-- Each `{key}` is replaced by the value of the key; all else stays. A value is not looked into.
pub data Substitutes (vars : Map Bytes Bytes) : Bytes → Bytes → Type 0 where
  plain : (s : Bytes) → contains b'{' s ≡ false → Substitutes vars s s
  placed :
      (before key rest v out : Bytes)
      → contains b'{' before ≡ false
      → contains b'}' key ≡ false
      → get key vars ≡ some v
      → Substitutes vars rest out
      → Substitutes vars (before ++ b'{' ∷ (key ++ b'}' ∷ rest)) (before ++ (v ++ out))

split_once_eq_none : (sep : ℕ) (s : Bytes) → split_once sep s ≡ none → contains sep s ≡ false
unfolding split_once contains
split_once_eq_none sep [] h = refl
split_once_eq_none sep (c ∷ s) h = ground (arith, split_once_eq_none sep s)

split_once_without : (sep : ℕ) (s : Bytes) → contains sep s ≡ false → split_once sep s ≡ none
unfolding split_once contains
split_once_without sep [] h = refl
split_once_without sep (c ∷ s) h = ground (arith, split_once_without sep s)

prepend_eq_some :
    (before v : Bytes) (o : Option Bytes) (out : Bytes)
    → prepend before v o ≡ some out
    → (tail : Bytes) × (o ≡ some tail) × (out ≡ before ++ (v ++ tail))
prepend_eq_some before v none out h = absurd (ground arith)
prepend_eq_some before v (some tail) out h = (tail, refl, ground arith)

substitute_loop_sound :
    (fuel : ℕ) (s : Bytes) (vars : Map Bytes Bytes) (out : Bytes)
    → substitute_loop fuel s vars ≡ some out
    → Substitutes vars s out
unfolding substitute_loop
substitute_loop_sound zero s vars out h = absurd (ground arith)
substitute_loop_sound (suc fuel) s vars out h = elim (Option-cases (split_once b'{' s)) [
  | inl e ↦
      let k : some s ≡ some out = rw (e, substitute_loop) at h in
      subst (λ t. Substitutes vars s t) (ground (arith, k)) (plain s (split_once_eq_none b'{' s e))
  | inr ((before, after), e) ↦ elim (Option-cases (split_once b'}' after)) [
    | inl f ↦ absurd (ground (arith, e, f))
    | inr ((key, rest), f) ↦ elim (Option-cases (get key vars)) [
      | inl g ↦ absurd (ground (arith, e, f, g))
      | inr (v, g) ↦
          let k : prepend before v (substitute_loop fuel rest vars) ≡ some out =
            ground (arith, e, f, g, h) in
          let (tail, i, j) = prepend_eq_some before v (substitute_loop fuel rest vars) out k in
          let (p, free) = split_once_eq_some b'{' s before after e in
          let (q, free') = split_once_eq_some b'}' after key rest f in
          subst (λ t. Substitutes vars t out) (sym (p ∙ ap (λ a. before ++ b'{' ∷ a) q))
            (subst (λ t. Substitutes vars (before ++ b'{' ∷ (key ++ b'}' ∷ rest)) t) (sym j)
              (placed before key rest v tail free free' g
                (substitute_loop_sound fuel rest vars tail i)))
    ]
  ]
]

substitute_loop-placed :
    (fuel : ℕ) (s : Bytes) (vars : Map Bytes Bytes) (before after key rest v : Bytes)
    → split_once b'{' s ≡ some (before, after)
    → split_once b'}' after ≡ some (key, rest)
    → get key vars ≡ some v
    → substitute_loop (suc fuel) s vars ≡ prepend before v (substitute_loop fuel rest vars)
unfolding substitute_loop
substitute_loop-placed fuel s vars before after key rest v e f g = ground (arith, e, f, g)

substitute_loop_complete :
    (vars : Map Bytes Bytes) (s out : Bytes)
    → Substitutes vars s out
    → (fuel : ℕ) → length s < fuel
    → substitute_loop fuel s vars ≡ some out
unfolding substitute_loop
substitute_loop_complete vars s out d zero h = absurd (omega arith)
substitute_loop_complete vars _ _ (plain s free) (suc fuel) h =
    rw (split_once_without b'{' s free, substitute_loop) refl
substitute_loop_complete vars _ _ (placed before key rest v out free free' g d) (suc fuel) h =
    let shorter : length rest < fuel = omega (
      arith,
      length-append {0} before (b'{' ∷ (key ++ b'}' ∷ rest)),
      length-append {0} key (b'}' ∷ rest),
    ) in
    substitute_loop-placed fuel _ vars before _ key rest v
      (split_once-append b'{' before (key ++ b'}' ∷ rest) free)
      (split_once-append b'}' key rest free') g
    ∙ ap (prepend before v) (substitute_loop_complete vars rest out d fuel shorter)

-- `substitute` terminates, its fuel being enough for every pattern, and yields a text exactly when
-- every `{` of the pattern opens a placeholder that is closed and known: the pattern with each
-- placeholder replaced by its value, in which nothing is replaced again.
pub substitute_iff :
    (pattern : Bytes) (vars : Map Bytes Bytes) (out : Bytes)
    → (substitute pattern vars ≡ some out) ↔ Substitutes vars pattern out
unfolding substitute
substitute_iff pattern vars out = (
  λ h. substitute_loop_sound (suc (length pattern)) pattern vars out h,
  λ d. substitute_loop_complete vars pattern out d (suc (length pattern)) (omega arith),
)
