-- ===== src/Prelude/Map.antt =====
-- `HashMap` as an association list: its order is the iteration order, about which nothing is
-- assumed. An insertion writes in place or adds at the end.
use mathlib.Core.Path.{◌≡◌, refl, subst}
use mathlib.Core.List.{List, [], ◌∷◌}
use mathlib.Core.Option.{Option, none, some}
use native.Mathlib.Omega.{arith}
use mathlib.Core.Bool.{false}
use mathlib.Core.Logic.{inl, inr}
use ch_relay.Prelude.Tests.{Eq, if◌then◌else◌, Bool-cases}
use ch_relay.Prelude.Lists.{In}

abbrev pub Map : Type 0 → Type 0 → Type 0
Map K V = List (K × V)

module _ {K V : Type 0} ⦃e : Eq K⦄ where
  abbrev pub get : K → Map K V → Option V
  get k [] = none
  get k ((j, v) ∷ m) = let rest = get k m in if e.beq j k then some v else rest

  abbrev pub insert : K → V → Map K V → Map K V
  insert k v [] = (k, v) ∷ []
  insert k v ((j, w) ∷ m) =
      let rest = insert k v m in if e.beq j k then (j, v) ∷ m else (j, w) ∷ rest

  abbrev pub remove : K → Map K V → Map K V
  remove k [] = []
  remove k ((j, v) ∷ m) = let rest = remove k m in if e.beq j k then rest else (j, v) ∷ rest

  -- The keys of a `HashMap` are distinct.
  abbrev pub Lacks : K → Map K V → Type 0
  Lacks k [] = Unit
  Lacks k ((j, v) ∷ m) = (e.beq j k ≡ false) × Lacks k m

  abbrev pub HasUniqueKeys : Map K V → Type 0
  HasUniqueKeys [] = Unit
  HasUniqueKeys ((k, v) ∷ m) = Lacks k m × HasUniqueKeys m

module _ {K V : Type 0} ⦃e : Eq K⦄ where
  pub get-insert :
      (k j : K) (v : V) (m : Map K V)
      → get j (insert k v m) ≡ (if e.beq k j then some v else get j m)
  get-insert k j v [] = refl
  get-insert k j v ((i, w) ∷ m) =
      ground (arith, e.beq_iff i k, e.beq_iff i j, e.beq_iff k j, get-insert k j v m)

  pub get-remove :
      (k j : K) (m : Map K V) → get j (remove k m) ≡ (if e.beq k j then none else get j m)
  get-remove k j [] = ground arith
  get-remove k j ((i, w) ∷ m) =
      ground (arith, e.beq_iff i k, e.beq_iff i j, e.beq_iff k j, get-remove k j m)

  pub insert-Lacks :
      (k j : K) (v : V) (m : Map K V) → e.beq k j ≡ false → Lacks j m → Lacks j (insert k v m)
  insert-Lacks k j v [] h l = (h, tt)
  insert-Lacks k j v ((i, w) ∷ m) h l = ground (arith, insert-Lacks k j v m h l.1)

  pub remove-Lacks : (k j : K) (m : Map K V) → Lacks j m → Lacks j (remove k m)
  remove-Lacks k j [] l = tt
  remove-Lacks k j ((i, w) ∷ m) l = ground (arith, remove-Lacks k j m l.1)

  pub insert-HasUniqueKeys :
      (k : K) (v : V) (m : Map K V) → HasUniqueKeys m → HasUniqueKeys (insert k v m)
  insert-HasUniqueKeys k v [] u = (tt, tt)
  insert-HasUniqueKeys k v ((i, w) ∷ m) u =
      ground
        (arith, insert-HasUniqueKeys k v m u.1, insert-Lacks k i v m, e.beq_iff i k, e.beq_iff k i)

  pub remove-HasUniqueKeys : (k : K) (m : Map K V) → HasUniqueKeys m → HasUniqueKeys (remove k m)
  remove-HasUniqueKeys k [] u = tt
  remove-HasUniqueKeys k ((i, w) ∷ m) u =
      ground (arith, remove-HasUniqueKeys k m u.1, remove-Lacks k i m u.0)

  pub get_of_Lacks : (k : K) (m : Map K V) → Lacks k m → get k m ≡ none
  get_of_Lacks k [] l = refl
  get_of_Lacks k ((i, w) ∷ m) l = ground (arith, get_of_Lacks k m l.1)

  pub In-of-get : (k : K) (v : V) (m : Map K V) → get k m ≡ some v → In (k, v) m
  In-of-get k v [] h = absurd (ground arith)
  In-of-get k v ((j, w) ∷ m) h = elim (Bool-cases (e.beq j k)) [
    | inl p ↦ inl (ground (arith, e.beq_iff j k))
    | inr p ↦ inr (In-of-get k v m (ground arith))
  ]

  Lacks-In : (j k : K) (v : V) (m : Map K V) → Lacks j m → In (k, v) m → e.beq k j ≡ false
  Lacks-In j k v [] l i = absurd i
  Lacks-In j k v ((i, w) ∷ m) l (inl p) = ground (arith, l.0)
  Lacks-In j k v ((i, w) ∷ m) l (inr q) = Lacks-In j k v m l.1 q

  pub get_of-In : (k : K) (v : V) (m : Map K V) → HasUniqueKeys m → In (k, v) m → get k m ≡ some v
  get_of-In k v [] u i = absurd i
  get_of-In k v ((j, w) ∷ m) u (inl p) = ground (arith, e.beq_iff j k)
  get_of-In k v ((j, w) ∷ m) u (inr i) =
      ground (arith, get_of-In k v m u.1 i, Lacks-In j k v m u.0 i, e.beq_iff j k, e.beq_iff k j)

-- A property of every value.
module _ {K V : Type 0} where
  abbrev pub AllValues : (V → Type 0) → Map K V → Type 0
  AllValues P [] = Unit
  AllValues P ((k, v) ∷ m) = P v × AllValues P m

module _ {K V : Type 0} ⦃e : Eq K⦄ (P : V → Type 0) where
  pub insert-AllValues :
      (k : K) (v : V) (m : Map K V) → P v → AllValues P m → AllValues P (insert k v m)
  insert-AllValues k v [] p h = (p, tt)
  insert-AllValues k v ((j, w) ∷ m) p h = elim (Bool-cases (e.beq j k)) [
    | inl q ↦ rw q (p, h.1)
    | inr q ↦ rw q (h.0, insert-AllValues k v m p h.1)
  ]

  pub remove-AllValues : (k : K) (m : Map K V) → AllValues P m → AllValues P (remove k m)
  remove-AllValues k [] h = tt
  remove-AllValues k ((j, w) ∷ m) h = elim (Bool-cases (e.beq j k)) [
    | inl q ↦ rw q (remove-AllValues k m h.1)
    | inr q ↦ rw q (h.0, remove-AllValues k m h.1)
  ]

  pub get-AllValues : (k : K) (v : V) (m : Map K V) → AllValues P m → get k m ≡ some v → P v
  get-AllValues k v [] h g = absurd (ground arith)
  get-AllValues k v ((j, w) ∷ m) h g = elim (Bool-cases (e.beq j k)) [
    | inl q ↦ subst P (ground arith) h.0
    | inr q ↦ get-AllValues k v m h.1 (ground arith)
  ]

  -- What is inserted and then removed leaves no trace.
  pub remove-insert-AllValues :
      (k : K) (v : V) (m : Map K V) → AllValues P m → AllValues P (remove k (insert k v m))
  remove-insert-AllValues k v [] h = rw ((e.beq_iff k k).1 refl) tt
  remove-insert-AllValues k v ((j, w) ∷ m) h = elim (Bool-cases (e.beq j k)) [
    | inl q ↦ rw (q, q) (remove-AllValues k m h.1)
    | inr q ↦ rw (q, q) (h.0, remove-insert-AllValues k v m h.1)
  ]

pub ruleset map_laws = (get-insert, get-remove)
