-- ===== src/Storage/Tables.antt =====
-- The tables of the key-value store under crates/relay-server/src/storage.rs, as far as the program
-- relies on them: rows in the order of their keys, one for each key.
use ch_relay.Prelude.{
  ℕ, ◌≡◌, Bool, List, [], ◌∷◌, Option, none, some, keep, length, leb, nat_eq, Eq,
}
use ch_relay.Prelude.Map.{Map, HasUniqueKeys}
use ch_relay.Prelude.Map
use ch_relay.Prelude.Sort.{place}
use ch_relay.Bytes.{Bytes, bytes_le, bytes_eq}

abbrev pub first_row : {A : Type 0} → List A → Option A
first_row [] = none
first_row (x ∷ xs) = some x

unfoldable pub last_row : {A : Type 0} → List A → Option A
last_row [] = none
last_row (x ∷ []) = some x
last_row (x ∷ y ∷ xs) = last_row (y ∷ xs)

module _ {K V : Type 0} ⦃e : Eq K⦄ (le : K → K → Bool) where
  -- A row takes the place of the one with its key.
  abbrev pub with_row : K → V → Map K V → Map K V
  with_row k v rows = place (λ (a : K × V) (b : K × V). le a.0 b.0) (k, v) (Map.remove k rows)

-- `rows` is what `iter` yields, `from_key` what `range(from..)` does.
pub record TableOf (K V : Type 0) ⦃e : Eq K⦄ (le : K → K → Bool) : Type 1 where
  pub Table : Type 0
  pub insert : K → V → Table → Table
  pub remove : K → Table → Table
  pub rows : Table → Map K V
  pub from_key : K → Table → Map K V
  pub len : Table → ℕ
  pub first : Table → Option (K × V)
  pub last : Table → Option (K × V)
  pub rows-insert : (k : K) (v : V) (t : Table) → rows (insert k v t) ≡ with_row le k v (rows t)
  pub rows-remove : (k : K) (t : Table) → rows (remove k t) ≡ Map.remove k (rows t)
  pub from_key_lem :
      (k : K) (t : Table) → from_key k t ≡ keep (λ (row : K × V). le k row.0) (rows t)
  pub len_lem : (t : Table) → len t ≡ length (rows t)
  pub first_lem : (t : Table) → first t ≡ first_row (rows t)
  pub last_lem : (t : Table) → last t ≡ last_row (rows t)
  pub distinct : (t : Table) → HasUniqueKeys (rows t)

-- The kinds of table that the program opens.
pub record Database : Type 1 where
  pub texts : TableOf Bytes Bytes bytes_le
  pub numbers : TableOf Bytes ℕ bytes_le
  pub logs : TableOf ℕ Bytes leb
