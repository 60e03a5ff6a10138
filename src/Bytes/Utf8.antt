-- ===== src/Bytes/Utf8.antt =====
-- `String::from_utf8_lossy`: valid UTF-8 stays as it is, and each maximal part of an invalid sequence
-- becomes U+FFFD. The table is that of well-formed UTF-8 in the Unicode standard.
use ch_relay.Prelude.{
  ℕ, zero, suc, ◌-◌, ◌≤◌, ◌≡◌, refl, Bool, true, ◌&&◌, [], ◌∷◌, ◌++◌, leb, arith, if◌then◌else◌,
  length, take, drop, ap, ◌==◌,
}
use ch_relay.Bytes.{Bytes}

abbrev within : ℕ → ℕ → ℕ → Bool
within lo hi b = leb lo b && leb b hi

-- The length of the sequence that a first byte begins, 0 if it begins none.
sequence_length : ℕ → ℕ
sequence_length b =
    if leb b 0x7f
    then 1
    else if within 0xc2 0xdf b
    then 2
    else if within 0xe0 0xef b
    then 3
    else if within 0xf0 0xf4 b
    then 4
    else 0

-- The second byte has a narrower range after some first bytes.
second_ok : ℕ → ℕ → Bool
second_ok b c =
    if b == 0xe0
    then within 0xa0 0xbf c
    else if b == 0xed
    then within 0x80 0x9f c
    else if b == 0xf0
    then within 0x90 0xbf c
    else if b == 0xf4
    then within 0x80 0x8f c
    else within 0x80 0xbf c

-- How many of the next bytes, at most `n`, continue a sequence.
continuation : ℕ → Bytes → ℕ
continuation zero s = 0
continuation (suc n) [] = 0
continuation (suc n) (c ∷ s) =
    let more = suc (continuation n s) in if within 0x80 0xbf c then more else 0

after_second : ℕ → ℕ → Bytes → ℕ
unfolding second_ok continuation
after_second n b [] = 0
after_second n b (c ∷ s) = if second_ok b c then suc (continuation n s) else 0

-- The bytes after the first that belong to the sequence which `b` begins.
accepted : ℕ → Bytes → ℕ
unfolding after_second sequence_length
accepted b s = if leb (sequence_length b) 1 then 0 else after_second (sequence_length b - 2) b s

-- The whole sequence is there.
complete : ℕ → Bytes → Bool
unfolding accepted
complete b s = suc (accepted b s) == sequence_length b

abbrev replacement : Bytes
replacement = 0xef ∷ 0xbf ∷ 0xbd ∷ []

lossy_loop : ℕ → Bytes → Bytes
unfolding complete
lossy_loop zero s = []
lossy_loop (suc fuel) [] = []
lossy_loop (suc fuel) (b ∷ s) =
    let n = accepted b s in
    (if complete b s then b ∷ take n s else replacement) ++ lossy_loop fuel (drop n s)

-- Each round takes at least one byte.
unfoldable pub from_utf8_lossy : Bytes → Bytes
unfolding lossy_loop
from_utf8_lossy s = lossy_loop (length s) s

valid_loop : ℕ → Bytes → Bool
unfolding complete
valid_loop zero s = true
valid_loop (suc fuel) [] = true
valid_loop (suc fuel) (b ∷ s) = complete b s && valid_loop fuel (drop (accepted b s) s)

unfoldable pub is_utf8 : Bytes → Bool
unfolding valid_loop
is_utf8 s = valid_loop (length s) s

take-append-drop : (n : ℕ) (xs : Bytes) → take n xs ++ drop n xs ≡ xs
take-append-drop zero xs = refl
take-append-drop (suc n) [] = refl
take-append-drop (suc n) (x ∷ xs) = ap (◌∷◌ x) (take-append-drop n xs)

length-drop-le : (n : ℕ) (xs : Bytes) → length (drop n xs) ≤ length xs
length-drop-le zero xs = omega arith
length-drop-le (suc n) [] = omega arith
length-drop-le (suc n) (x ∷ xs) = omega (arith, length-drop-le n xs)

lossy_loop-valid :
    (fuel : ℕ) (s : Bytes) → length s ≤ fuel → valid_loop fuel s ≡ true → lossy_loop fuel s ≡ s
unfolding lossy_loop valid_loop
lossy_loop-valid zero [] h v = refl
lossy_loop-valid zero (b ∷ s) h v = absurd (omega arith)
lossy_loop-valid (suc fuel) [] h v = refl
lossy_loop-valid (suc fuel) (b ∷ s) h v =
    let left = drop (accepted b s) s in
    let short : length left ≤ fuel = omega (arith, length-drop-le (accepted b s) s) in
    ground
      (arith, take-append-drop (accepted b s) s, lossy_loop-valid fuel left short (ground arith))

-- On valid UTF-8 it is the identity.
pub from_utf8_lossy-valid : (s : Bytes) → is_utf8 s ≡ true → from_utf8_lossy s ≡ s
unfolding from_utf8_lossy is_utf8
from_utf8_lossy-valid s v = lossy_loop-valid (length s) s (omega arith) v
