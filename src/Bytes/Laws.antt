-- ===== src/Bytes/Laws.antt =====
-- Laws of the text operations: `split` and `join` are inverse, and what a prefix or a split says of
-- the text.
use ch_relay.Prelude.{
  ℕ, ◌≡◌, refl, true, false, ◌⊎◌, List, [], ◌∷◌, ◌++◌, some, ◌==◌, ◌↔◌, arith, ap, All, Bool-cases,
  inl, inr, ◌∙◌, sym,
}
use ch_relay.Bytes.{Bytes, bytes_le, contains, split, cons_head, strip_prefix, split_once}

pub join : ℕ → List Bytes → Bytes
join sep [] = []
join sep (l ∷ []) = l
join sep (l ∷ m ∷ ls) = l ++ (sep ∷ join sep (m ∷ ls))

-- `split` yields at least one level.
pub split-cons : (sep : ℕ) (s : Bytes) → (l : Bytes) × (ls : List Bytes) × (split sep s ≡ l ∷ ls)
unfolding split
split-cons sep [] = ([], [], refl)
split-cons sep (c ∷ s) = elim (Bool-cases (c == sep)) [
  | inl e ↦ ([], split sep s, rw e)
  | inr e ↦ let (l, ls, p) = split-cons sep s in (c ∷ l, ls, rw (e, p))
]

join-cons_head :
    (sep c : ℕ) (l : Bytes) (ls : List Bytes)
    → join sep (cons_head c (l ∷ ls)) ≡ c ∷ join sep (l ∷ ls)
unfolding join
join-cons_head sep c l [] = refl
join-cons_head sep c l (m ∷ ls) = refl

join_nil :
    (sep : ℕ) (l : Bytes) (ls : List Bytes) → join sep ([] ∷ l ∷ ls) ≡ sep ∷ join sep (l ∷ ls)
unfolding join
join_nil sep l ls = refl

pub join-split : (sep : ℕ) (s : Bytes) → join sep (split sep s) ≡ s
unfolding split
join-split sep [] = unfold join in refl
join-split sep (c ∷ s) =
    let (l, ls, p) = split-cons sep s in
    elim (Bool-cases (c == sep)) [
      | inl e ↦ ground (arith, join_nil sep l ls, join-split sep s)
      | inr e ↦ ground (arith, join-cons_head sep c l ls, join-split sep s)
    ]

pub split-injective : (sep : ℕ) (s t : Bytes) → split sep s ≡ split sep t → s ≡ t
split-injective sep s t h = sym (join-split sep s) ∙ ap (join sep) h ∙ join-split sep t

cons_head-free :
    (sep c : ℕ) (ls : List Bytes)
    → (c == sep) ≡ false
    → All (λ l. contains sep l ≡ false) ls
    → All (λ l. contains sep l ≡ false) (cons_head c ls)
unfolding contains
cons_head-free sep c [] e h = (ground arith, tt)
cons_head-free sep c (l ∷ ls) e h = (ground arith, h.1)

-- No level holds the separator.
pub split-free : (sep : ℕ) (s : Bytes) → All (λ l. contains sep l ≡ false) (split sep s)
unfolding split contains
split-free sep [] = (refl, tt)
split-free sep (c ∷ s) = elim (Bool-cases (c == sep)) [
  | inl e ↦ rw e (refl, split-free sep s)
  | inr e ↦ rw e (cons_head-free sep c (split sep s) e (split-free sep s))
]

pub strip_prefix_iff : (p s r : Bytes) → (strip_prefix p s ≡ some r) ↔ (s ≡ p ++ r)
unfolding strip_prefix
strip_prefix_iff [] s r = ground arith
strip_prefix_iff (p ∷ ps) [] r = ground arith
strip_prefix_iff (p ∷ ps) (c ∷ s) r = ground (arith, strip_prefix_iff ps s r)

-- `split_once` finds the first separator.
pub split_once_eq_some :
    (sep : ℕ) (s a b : Bytes)
    → split_once sep s ≡ some (a, b)
    → (s ≡ a ++ sep ∷ b) × (contains sep a ≡ false)
unfolding split_once contains
split_once_eq_some sep [] a b h = ground arith
split_once_eq_some sep (c ∷ s) [] b h = ground arith
split_once_eq_some sep (c ∷ s) (x ∷ a) b h = ground (arith, split_once_eq_some sep s a b)

pub split_once-append :
    (sep : ℕ) (a b : Bytes) → contains sep a ≡ false → split_once sep (a ++ sep ∷ b) ≡ some (a, b)
unfolding split_once contains
split_once-append sep [] b h = ground arith
split_once-append sep (x ∷ a) b h = ground (arith, split_once-append sep a b)

-- The lexicographic order is a total preorder.
pub bytes_le_total : (s t : Bytes) → (bytes_le s t ≡ true) ⊎ (bytes_le t s ≡ true)
unfolding bytes_le
bytes_le_total [] t = inl refl
bytes_le_total (c ∷ s) [] = inr refl
bytes_le_total (c ∷ s) (d ∷ t) = ground (arith, bytes_le_total s t)

pub bytes_le_trans :
    (s t u : Bytes) → bytes_le s t ≡ true → bytes_le t u ≡ true → bytes_le s u ≡ true
unfolding bytes_le
bytes_le_trans [] t u h k = refl
bytes_le_trans (c ∷ s) [] u h k = absurd (ground arith)
bytes_le_trans (c ∷ s) (d ∷ t) [] h k = absurd (ground arith)
bytes_le_trans (c ∷ s) (d ∷ t) (e ∷ u) h k = ground (arith, bytes_le_trans s t u)
