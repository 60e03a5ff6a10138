-- ===== src/Hub/Consistency.antt =====
-- The two indices of the session table of crates/relay-server/src/hub.rs agree.
use ch_relay.Prelude.{
  ℕ, ◌+◌, ◌<◌, ◌≡◌, refl, ap, ◌∙◌, Bool, not, [], ◌∷◌, none, some, ◌==◌, arith, if◌then◌else◌, keep,
  Bool-cases, inl, inr, nat_eq, ==_iff,
}
use ch_relay.Prelude.Map.{
  Map, get, insert, remove, get-insert, get-remove, HasUniqueKeys, insert-HasUniqueKeys, Lacks,
  get_of_Lacks,
}
use ch_relay.Bytes.{Bytes, bytes_eq, bytes_beq, bytes_beq_iff}
use ch_relay.Router.{ClientId}
use ch_relay.Session.{Session}

-- An id in the index has a session with that client id, a session in the table is in the index, and
-- the ids are below the next one.
pub record IsConsistent (next_raw : ℕ) (by_id : Map ClientId Session) (id_of : Map Bytes ClientId)
    : Type 0 where
  pub keys : HasUniqueKeys id_of
  pub forward :
      (c : Bytes) (i : ClientId)
      → get c id_of ≡ some i
      → (s : Session) × (get i by_id ≡ some s) × (s.client_id ≡ c)
  pub backward :
      (i : ClientId) (s : Session) → get i by_id ≡ some s → get s.client_id id_of ≡ some i
  pub below : (i : ClientId) (s : Session) → get i by_id ≡ some s → i < next_raw

pub empty-IsConsistent : IsConsistent 1 [] []
empty-IsConsistent = record {
  keys = tt;
  forward = λ c i h. absurd (ground arith);
  backward = λ i s h. absurd (ground arith);
  below = λ i s h. absurd (ground arith);
}

module _ {n : ℕ} {by_id : Map ClientId Session} {id_of : Map Bytes ClientId}
    (v : IsConsistent n by_id id_of) where
  -- A session that changes in place keeps its client id.
  pub update-IsConsistent :
      (i : ClientId) (s s' : Session)
      → get i by_id ≡ some s
      → s'.client_id ≡ s.client_id
      → IsConsistent n (insert i s' by_id) id_of
  update-IsConsistent i s s' g e = record {
    keys = v.keys;
    forward = λ c j h.
        let (t, k, l) = v.forward c j h in
        elim (Bool-cases (i == j)) [
          | inl p ↦ (s', ground (arith, get-insert i j s' by_id), ground arith)
          | inr p ↦ (t, ground (arith, get-insert i j s' by_id), l)
        ];
    backward = λ j t h. elim (Bool-cases (i == j)) [
      | inl p ↦ ground (arith, get-insert i j s' by_id, v.backward i s g)
      | inr p ↦ v.backward j t (ground (arith, get-insert i j s' by_id))
    ];
    below = λ j t h. elim (Bool-cases (i == j)) [
      | inl p ↦ ground (arith, v.below i s g)
      | inr p ↦ v.below j t (ground (arith, get-insert i j s' by_id))
    ];
  }

  -- Two clients never share an id.
  pub same_client :
      (c d : Bytes) (i : ClientId) → get c id_of ≡ some i → get d id_of ≡ some i → c ≡ d
  same_client c d i g h =
      let (s, k, e) = v.forward c i g in let (t, l, f) = v.forward d i h in ground arith

-- A new session under the next id, for a client without one.
module _ {n : ℕ} {by_id : Map ClientId Session} {id_of : Map Bytes ClientId}
    (v : IsConsistent n by_id id_of) (s : Session) where
  below_index : (c : Bytes) (i : ClientId) → get c id_of ≡ some i → i < n
  below_index c i h = let (t, k, l) = v.forward c i h in v.below i t k

  pub open-IsConsistent :
      get s.client_id id_of ≡ none
      → IsConsistent (n + 1) (insert n s by_id) (insert s.client_id n id_of)
  open-IsConsistent h = record {
    keys = insert-HasUniqueKeys s.client_id n id_of v.keys;
    forward = λ c i g. elim (Bool-cases (bytes_beq s.client_id c)) [
      | inl p ↦ (
        s,
        ground (arith, get-insert n i s by_id, get-insert s.client_id c n id_of),
        (bytes_beq_iff s.client_id c).0 p,
      )
      | inr p ↦
          let old : get c id_of ≡ some i = ground (arith, get-insert s.client_id c n id_of) in
          let (t, k, l) = v.forward c i old in
          (t, ground (arith, get-insert n i s by_id, below_index c i old), l)
    ];
    backward = λ i t g. elim (Bool-cases (n == i)) [
      | inl p ↦ ground (
        arith,
        get-insert n i s by_id,
        get-insert s.client_id t.client_id n id_of,
        bytes_beq_iff s.client_id t.client_id,
      )
      | inr p ↦
          let old = v.backward i t (ground (arith, get-insert n i s by_id)) in
          ground (
            arith,
            get-insert s.client_id t.client_id n id_of,
            bytes_beq_iff s.client_id t.client_id,
          )
    ];
    below = λ i t g. elim (Bool-cases (n == i)) [
      | inl p ↦ omega (arith, (==_iff n i).0 p)
      | inr p ↦ omega (arith, v.below i t (ground (arith, get-insert n i s by_id)))
    ];
  }

-- Without the entries of one id.
abbrev pub is_other : ClientId → Bytes × ClientId → Bool
is_other id entry = not (entry.1 == id)

Lacks-keep :
    (p : Bytes × ClientId → Bool) (c : Bytes) (m : Map Bytes ClientId)
    → Lacks c m
    → Lacks c (keep p m)
Lacks-keep p c [] l = tt
Lacks-keep p c (e ∷ m) l = elim (Bool-cases (p e)) [
  | inl q ↦ rw q (l.0, Lacks-keep p c m l.1)
  | inr q ↦ rw q (Lacks-keep p c m l.1)
]

keep-HasUniqueKeys :
    (p : Bytes × ClientId → Bool) (m : Map Bytes ClientId)
    → HasUniqueKeys m
    → HasUniqueKeys (keep p m)
keep-HasUniqueKeys p [] u = tt
keep-HasUniqueKeys p (e ∷ m) u = elim (Bool-cases (p e)) [
  | inl q ↦ rw q (Lacks-keep p e.0 m u.0, keep-HasUniqueKeys p m u.1)
  | inr q ↦ rw q (keep-HasUniqueKeys p m u.1)
]

pub get-keep :
    (id : ClientId) (c : Bytes) (m : Map Bytes ClientId)
    → HasUniqueKeys m
    → get c (keep (is_other id) m)
      ≡ elim (get c m) [ none ↦ none | some i ↦ if i == id then none else some i ]
get-keep id c [] u = refl
get-keep id c ((d, i) ∷ m) u = elim (Bool-cases (bytes_beq d c)) [
  | inl p ↦ ground (
    arith,
    get-keep id c m u.1,
    get_of_Lacks d (keep (is_other id) m) (Lacks-keep (is_other id) d m u.0),
    bytes_beq_iff d c,
  )
  | inr p ↦ ground (arith, get-keep id c m u.1)
]

-- The session of one id goes, with its entry in the index.
module _ {n : ℕ} {by_id : Map ClientId Session} {id_of : Map Bytes ClientId}
    (v : IsConsistent n by_id id_of) (id : ClientId) where
  pub discard-IsConsistent : IsConsistent n (remove id by_id) (keep (is_other id) id_of)
  discard-IsConsistent = record {
    keys = keep-HasUniqueKeys (is_other id) id_of v.keys;
    forward = λ c i g. elim (Bool-cases (i == id)) [
      | inl p ↦ absurd (ground (arith, get-keep id c id_of v.keys))
      | inr p ↦
          let (t, k, l) = v.forward c i (ground (arith, get-keep id c id_of v.keys)) in
          (t, ground (arith, get-remove id i by_id), l)
    ];
    backward = λ i t g. elim (Bool-cases (id == i)) [
      | inl p ↦ absurd (ground (arith, get-remove id i by_id))
      | inr p ↦
          let old = v.backward i t (ground (arith, get-remove id i by_id)) in
          ground (arith, get-keep id t.client_id id_of v.keys)
    ];
    below = λ i t g. v.below i t (ground (arith, get-remove id i by_id));
  }

  -- A clean start: the entry of the index is written over.
  pub restart-IsConsistent :
      (s : Session)
      → get s.client_id id_of ≡ some id
      → IsConsistent (n + 1) (insert n s (remove id by_id)) (insert s.client_id n id_of)
  restart-IsConsistent s h = record {
    keys = insert-HasUniqueKeys s.client_id n id_of v.keys;
    forward = λ c i g. elim (Bool-cases (bytes_beq s.client_id c)) [
      | inl p ↦ (
        s,
        ground (arith, get-insert n i s (remove id by_id), get-insert s.client_id c n id_of),
        (bytes_beq_iff s.client_id c).0 p,
      )
      | inr p ↦
          let old : get c id_of ≡ some i = ground (arith, get-insert s.client_id c n id_of) in
          let (t, k, l) = v.forward c i old in
          (
            t,
            ground (
              arith,
              get-insert n i s (remove id by_id),
              get-remove id i by_id,
              v.below i t k,
              λ (e : i ≡ id). same_client v s.client_id c id h (old ∙ ap some e),
              bytes_beq_iff s.client_id c,
            ),
            l,
          )
    ];
    backward = λ i t g. elim (Bool-cases (n == i)) [
      | inl p ↦ ground (
        arith,
        get-insert n i s (remove id by_id),
        get-insert s.client_id t.client_id n id_of,
        bytes_beq_iff s.client_id t.client_id,
      )
      | inr p ↦
          let old =
            v.backward i t
              (ground (arith, get-insert n i s (remove id by_id), get-remove id i by_id)) in
          ground (
            arith,
            get-insert n i s (remove id by_id),
            get-remove id i by_id,
            get-insert s.client_id t.client_id n id_of,
            bytes_beq_iff s.client_id t.client_id,
          )
    ];
    below = λ i t g. elim (Bool-cases (n == i)) [
      | inl p ↦ omega (arith, (==_iff n i).0 p)
      | inr p ↦ omega (
        arith,
        v.below i t (ground (arith, get-insert n i s (remove id by_id), get-remove id i by_id)),
      )
    ];
  }
