-- ===== src/Storage/Rows.antt =====
-- What a row that is put into a table, or taken out of it, does to a lookup.
use ch_relay.Prelude.{
  ◌≡◌, refl, Bool, false, [], ◌∷◌, some, arith, if◌then◌else◌, Bool-cases, inl, inr, Eq,
}
use ch_relay.Prelude.Map.{Map, get, remove, get-remove, Lacks, HasUniqueKeys, remove-HasUniqueKeys}
use ch_relay.Prelude.Sort.{place}
use ch_relay.Storage.Tables.{with_row}

module _ {K V : Type 0} ⦃e : Eq K⦄ where
  pub remove-Lacks_same : (k : K) (m : Map K V) → Lacks k (remove k m)
  remove-Lacks_same k [] = tt
  remove-Lacks_same k ((i, w) ∷ m) = elim (Bool-cases (e.beq i k)) [
    | inl p ↦ rw p (remove-Lacks_same k m)
    | inr p ↦ rw p (p, remove-Lacks_same k m)
  ]

  place-Lacks :
      (le : K × V → K × V → Bool) (k j : K) (v : V) (m : Map K V)
      → e.beq k j ≡ false
      → Lacks j m
      → Lacks j (place le (k, v) m)
  unfolding place
  place-Lacks le k j v [] p l = (p, tt)
  place-Lacks le k j v ((i, w) ∷ m) p l = elim (Bool-cases (le (k, v) (i, w))) [
    | inl q ↦ rw q (p, l)
    | inr q ↦ rw q (l.0, place-Lacks le k j v m p l.1)
  ]

  place-HasUniqueKeys :
      (le : K × V → K × V → Bool) (k : K) (v : V) (m : Map K V)
      → Lacks k m
      → HasUniqueKeys m
      → HasUniqueKeys (place le (k, v) m)
  unfolding place
  place-HasUniqueKeys le k v [] l u = (tt, tt)
  place-HasUniqueKeys le k v ((i, w) ∷ m) l u = elim (Bool-cases (le (k, v) (i, w))) [
    | inl q ↦ rw q (l, u)
    | inr q ↦ rw q (
      place-Lacks le k i v m (ground (arith, l.0, e.beq_iff i k, e.beq_iff k i)) u.0,
      place-HasUniqueKeys le k v m l.1 u.1,
    )
  ]

  get-place :
      (le : K × V → K × V → Bool) (k j : K) (v : V) (m : Map K V)
      → Lacks k m
      → get j (place le (k, v) m) ≡ (if e.beq k j then some v else get j m)
  unfolding place
  get-place le k j v [] l = refl
  get-place le k j v ((i, w) ∷ m) l = elim (Bool-cases (le (k, v) (i, w))) [
    | inl q ↦ ground (arith, q, l.0, e.beq_iff i j, e.beq_iff k j, e.beq_iff i k)
    | inr q ↦
        ground
          (arith, q, get-place le k j v m l.1, l.0, e.beq_iff i j, e.beq_iff k j, e.beq_iff i k)
  ]

  pub get-with_row :
      (le : K → K → Bool) (k j : K) (v : V) (m : Map K V)
      → get j (with_row le k v m) ≡ (if e.beq k j then some v else get j m)
  get-with_row le k j v m = ground (
    arith,
    get-place (λ (a : K × V) (b : K × V). le a.0 b.0) k j v (remove k m) (remove-Lacks_same k m),
    get-remove k j m,
  )

  pub with_row-HasUniqueKeys :
      (le : K → K → Bool) (k : K) (v : V) (m : Map K V)
      → HasUniqueKeys m
      → HasUniqueKeys (with_row le k v m)
  with_row-HasUniqueKeys le k v m u =
      place-HasUniqueKeys (λ (a : K × V) (b : K × V). le a.0 b.0) k v (remove k m)
        (remove-Lacks_same k m) (remove-HasUniqueKeys k m u)
