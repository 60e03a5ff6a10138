-- ===== src/Codec/Reading.antt =====
-- The readers on what the writers wrote, with any bytes after it.
use ch_relay.Prelude.{
  ℕ, ◌^◌, ◌<◌, ◌≡◌, refl, ap, [], ◌∷◌, ◌++◌, some, arith, length, length-append, take, drop,
}
use ch_relay.Bytes.{Bytes}
use ch_relay.Codec.{read_bytes, read_u16, read_u32, u16_be, u32_be, be_value}

take-length : (xs ys : Bytes) → take (length xs) (xs ++ ys) ≡ xs
take-length [] ys = refl
take-length (x ∷ xs) ys = ap (◌∷◌ x) (take-length xs ys)

drop-length : (xs ys : Bytes) → drop (length xs) (xs ++ ys) ≡ ys
drop-length [] ys = refl
drop-length (x ∷ xs) ys = drop-length xs ys

pub read_bytes-append :
    (n : ℕ) (xs ys : Bytes) → n ≡ length xs → read_bytes n (xs ++ ys) ≡ some (xs, ys)
unfolding read_bytes
read_bytes-append n xs ys h =
    rw h (ground (arith, length-append xs ys, take-length xs ys, drop-length xs ys))

pub read_u16-append : (n : ℕ) (ys : Bytes) → n < 2 ^ 16 → read_u16 (u16_be n ++ ys) ≡ some (n, ys)
unfolding read_u16
read_u16-append n ys h =
    let value : be_value 0 (u16_be n) ≡ n = omega arith in
    rw (read_bytes-append 2 (u16_be n) ys refl) (ap (λ (k : ℕ). some (k, ys)) value)

pub read_u32-append : (n : ℕ) (ys : Bytes) → n < 2 ^ 32 → read_u32 (u32_be n ++ ys) ≡ some (n, ys)
unfolding read_u32
read_u32-append n ys h =
    let value : be_value 0 (u32_be n) ≡ n = omega arith in
    rw (read_bytes-append 4 (u32_be n) ys refl) (ap (λ (k : ℕ). some (k, ys)) value)
