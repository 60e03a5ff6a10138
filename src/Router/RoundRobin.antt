-- ===== src/Router/RoundRobin.antt =====
-- The members of a share group take turns.
use mathlib.Core.List.{Perm, perm_append_comm}
use native.Mathlib.Nat.{div-add-mod'}
use ch_relay.Prelude.{
  ◌/◌, sym, subst, ℕ, zero, suc, ◌+◌, ◌-◌, ◌*◌, ◌%◌, ◌≤◌, ◌<◌, ◌≡◌, refl, ap, false, List, [], ◌∷◌,
  ◌++◌, some, arith, length, take, drop, get_elem?,
}
use ch_relay.Bytes.{Bytes}
use ch_relay.Message.{QoS}
use ch_relay.Router.{
  ClientId, SharedGroup, usize_mod, is_nil, matching_members, pick_member, cons_picked,
}

-- The picks of `n` messages on one topic, one after the other, with no change of membership.
unfoldable pub turns : Bytes → ℕ → SharedGroup → List (ClientId × QoS)
turns topic zero g = []
turns topic (suc n) g =
    let (g', picked) = pick_member topic g in cons_picked picked (turns topic n g')

take-suc :
    {A : Type 0} (n k : ℕ) (xs : List A)
    → k < length xs
    → (a : A) × (get_elem? xs k ≡ some a)
      × (take (suc n) (drop k xs) ≡ a ∷ take n (drop (suc k) xs))
take-suc n k [] h = elim h [ ]
take-suc n zero (x ∷ xs) h = (x, refl, refl)
take-suc n (suc k) (x ∷ xs) h = take-suc n k xs (omega arith)

mod_add : (q n k : ℕ) → k < n → (q * n + k) % n ≡ k
mod_add q n k h = grind arith

not_nil : {A : Type 0} (xs : List A) (k : ℕ) → k < length xs → is_nil xs ≡ false
not_nil [] k h = elim h [ ]
not_nil (x ∷ xs) k h = refl

-- One turn from a cursor at position `k` of a round: the member at that position, and the cursor at
-- the next.
pick_member-step :
    (topic : Bytes) (g : SharedGroup) (q k : ℕ)
    → g.cursor ≡ q * length (matching_members topic g.members) + k
    → k < length (matching_members topic g.members)
    → suc g.cursor < usize_mod
    → pick_member topic g
      ≡ (record g { cursor = suc g.cursor }, get_elem? (matching_members topic g.members) k)
unfolding pick_member
pick_member-step topic g q k e h b =
    let matching = matching_members topic g.members in
    let at : g.cursor % length matching ≡ k = rw e (mod_add q (length matching) k h) in
    let next : (g.cursor + 1) % usize_mod ≡ suc g.cursor = omega arith in
    rw (not_nil matching k h, at, next)

take_all : {A : Type 0} (n : ℕ) (xs : List A) → n ≡ length xs → take n xs ≡ xs
take_all zero [] e = refl
take_all zero (x ∷ xs) e = absurd (omega arith)
take_all (suc n) [] e = refl
take_all (suc n) (x ∷ xs) e = ap (◌∷◌ x) (take_all n xs (omega arith))

length-drop : {A : Type 0} (n : ℕ) (xs : List A) → length (drop n xs) ≡ length xs - n
length-drop zero xs = omega arith
length-drop (suc n) [] = omega arith
length-drop (suc n) (x ∷ xs) = omega (arith, length-drop n xs)

take-append-drop : {A : Type 0} (n : ℕ) (xs : List A) → take n xs ++ drop n xs ≡ xs
take-append-drop zero xs = refl
take-append-drop (suc n) [] = refl
take-append-drop (suc n) (x ∷ xs) = ap (◌∷◌ x) (take-append-drop n xs)

mod-lt_pos : (n m : ℕ) → 0 < m → n % m < m
mod-lt_pos n m h = grind arith

module _ (topic : Bytes) where
  turns-take :
      (n : ℕ) (g : SharedGroup) (q k : ℕ)
      → g.cursor ≡ q * length (matching_members topic g.members) + k
      → k + n ≤ length (matching_members topic g.members)
      → g.cursor + n < usize_mod
      → turns topic n g ≡ take n (drop k (matching_members topic g.members))
  unfolding turns
  turns-take zero g q k e h b = refl
  turns-take (suc n) g q k e h b =
      let matching = matching_members topic g.members in
      let (a, p, t) = take-suc n k matching (omega arith) in
      rw (pick_member-step topic g q k e (omega arith) (omega arith), p, t)
        (ap (◌∷◌ a) (
          turns-take n (record g { cursor = suc g.cursor }) q (suc k) (omega arith) (omega arith)
            (omega arith)))

  -- A turn to the end of a round and the turns of the next.
  turns-round :
      (n : ℕ) (g : SharedGroup) (q k j : ℕ)
      → g.cursor ≡ q * length (matching_members topic g.members) + k
      → k + n ≡ length (matching_members topic g.members)
      → j ≤ length (matching_members topic g.members)
      → g.cursor + n + j < usize_mod
      → turns topic (n + j) g
        ≡ take n (drop k (matching_members topic g.members))
          ++ take j (matching_members topic g.members)
  unfolding turns
  turns-round zero g q k j e h l b =
      let start : zero + j ≡ j = omega arith in
      rw start (turns-take j g (suc q) 0 (omega arith) (omega arith) (omega arith))
  turns-round (suc n) g q k j e h l b =
      let matching = matching_members topic g.members in
      let (a, p, t) = take-suc n k matching (omega arith) in
      let more : suc n + j ≡ suc (n + j) = omega arith in
      rw (more, t, pick_member-step topic g q k e (omega arith) (omega arith), p)
        (ap (◌∷◌ a) (
          turns-round n (record g { cursor = suc g.cursor }) q (suc k) j (omega arith) (omega arith)
            l (omega arith)))

  full_turn :
      (g : SharedGroup)
      → 0 < length (matching_members topic g.members)
      → g.cursor + length (matching_members topic g.members) < usize_mod
      → (k : ℕ) × (turns topic (length (matching_members topic g.members)) g
          ≡ drop k (matching_members topic g.members) ++ take k (matching_members topic g.members))
  full_turn g h b =
      let matching = matching_members topic g.members in
      let k = g.cursor % length matching in
      let n = length matching - k in
      let small : k < length matching = mod-lt_pos g.cursor (length matching) h in
      let total : n + k ≡ length matching = omega arith in
      let run =
        turns-round n g (g.cursor / length matching) k k
          (sym (div-add-mod' g.cursor (length matching))) (omega arith) (omega arith)
          (omega arith) in
      (
        k,
        rw total at
            (rw (take_all n (drop k matching) (omega (arith, length-drop k matching))) at run),
      )

-- With no change of membership, as many messages on a topic as the group has matching members go to
-- each of these members exactly once, wherever the cursor stands, until it would wrap.
pub turns-perm :
    (topic : Bytes) (g : SharedGroup)
    → 0 < length (matching_members topic g.members)
    → g.cursor + length (matching_members topic g.members) < usize_mod
    → Perm
        (turns topic (length (matching_members topic g.members)) g)
        (matching_members topic g.members)
turns-perm topic g h b =
    let matching = matching_members topic g.members in
    let (k, e) = full_turn topic g h b in
    rw e (
      subst (λ xs. Perm (drop k matching ++ take k matching) xs) (take-append-drop k matching)
        (perm_append_comm (drop k matching) (take k matching)))
