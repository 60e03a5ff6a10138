-- ===== src/Auth/Claims.antt =====
-- What crates/relay-server/src/auth.rs reads in the claims of a token.
use ch_relay.Prelude.{
  ◌≡◌, ◌≢◌, refl, sym, ◌∙◌, ap, subst, ◌↔◌, ◌⊎◌, true, false, [], ◌∷◌, Option, none, some, arith,
  In, inl, inr, any_iff, Bool-cases,
}
use ch_relay.Prelude.Map.{Map, get, get-insert, HasUniqueKeys, Lacks, get_of_Lacks}
use ch_relay.Bytes.{Bytes, codes, bytes_eq, bytes_beq, bytes_beq_iff}
use ch_relay.Auth.{
  Value, Values, text, array, other_value, no_values, value_then, as_str, as_strs, AuthConfig,
  audience_allowed, presented, str_claim, roles_of, roles_in, str_claims, vars_of,
}

-- The array holds the text.
abbrev pub Holds : Bytes → Values → Type 0
Holds s no_values = ⊥
Holds s (value_then v vs) = (v ≡ text s) ⊎ Holds s vs

-- The value is the text, or an array that holds it.
abbrev pub Names : Bytes → Value → Type 0
Names s (text t) = t ≡ s
Names s (array vs) = Holds s vs
Names s other_value = ⊥

as_str_iff : (v : Value) (s : Bytes) → (as_str v ≡ some s) ↔ (v ≡ text s)
as_str_iff (text t) s = (λ e. cc, λ e. cc)
as_str_iff (array vs) s = (λ e. absurd (cc), λ e. absurd (cc))
as_str_iff other_value s = (λ e. absurd (cc), λ e. absurd (cc))

In-as_strs_iff : (s : Bytes) (vs : Values) → In s (as_strs vs) ↔ Holds s vs
unfolding as_strs
In-as_strs_iff s no_values = (λ i. i, λ h. h)
In-as_strs_iff s (value_then (text t) vs) = (
  λ i. elim i [ inl e ↦ inl (ap text (sym e)) | inr j ↦ inr ((In-as_strs_iff s vs).0 j) ],
  λ h. elim h [ inl e ↦ inl (cc) | inr j ↦ inr ((In-as_strs_iff s vs).1 j) ],
)
In-as_strs_iff s (value_then (array ws) vs) = (
  λ i. inr ((In-as_strs_iff s vs).0 i),
  λ h. elim h [ inl e ↦ absurd (cc) | inr j ↦ (In-as_strs_iff s vs).1 j ],
)
In-as_strs_iff s (value_then other_value vs) = (
  λ i. inr ((In-as_strs_iff s vs).0 i),
  λ h. elim h [ inl e ↦ absurd (cc) | inr j ↦ (In-as_strs_iff s vs).1 j ],
)

-- The claim of this name is a value that names the text.
abbrev pub ClaimNames : Bytes → Map Bytes Value → Bytes → Type 0
ClaimNames name m s = (v : Value) × (get name m ≡ some v) × Names s v

In-presented_iff :
    (s : Bytes) (o : Option Value) → In s (presented o) ↔ ((v : Value) × (o ≡ some v) × Names s v)
In-presented_iff s none = (λ i. absurd i, λ (v, e, n). absurd (cc))
In-presented_iff s (some v) =
    (λ i. (v, refl, named v i), λ (w, e, n). lists v (subst (Names s) (unsome e) n))
  where
    unsome : {w : Value} → some v ≡ some w → w ≡ v
    unsome e = cc

    named : (w : Value) → In s (presented (some w)) → Names s w
    named (text t) i = elim i [ inl e ↦ sym e | inr j ↦ absurd j ]
    named (array vs) i = (In-as_strs_iff s vs).0 i
    named other_value i = i

    lists : (w : Value) → Names s w → In s (presented (some w))
    lists (text t) n = inl (sym n)
    lists (array vs) n = (In-as_strs_iff s vs).1 n
    lists other_value n = n

-- An audience is allowed exactly when it names one of those of the configuration.
pub audience_allowed_iff :
    (cfg : AuthConfig) (m : Map Bytes Value)
    → (audience_allowed cfg (get (codes "aud") m) ≡ true)
      ↔ ((a : Bytes) × In a cfg.allowed_audiences × ClaimNames (codes "aud") m a)
unfolding audience_allowed
audience_allowed_iff cfg m = (
  λ h.
      let (a, i, k) = (any_iff _ (presented (get (codes "aud") m))).0 h in
      let (b, j, l) = (any_iff (λ allowed. bytes_beq allowed a) cfg.allowed_audiences).0 k in
      (
        a,
        subst (λ t. In t cfg.allowed_audiences) ((bytes_beq_iff b a).0 l) j,
        (In-presented_iff a (get (codes "aud") m)).0 i,
      ),
  λ (a, j, c). (any_iff _ (presented (get (codes "aud") m))).1 (
    a,
    (In-presented_iff a (get (codes "aud") m)).1 c,
    (any_iff (λ allowed. bytes_beq allowed a) cfg.allowed_audiences).1
        (a, j, (bytes_beq_iff a a).1 refl),
  ),
)

abbrev text_of : Option Value → Option Bytes
text_of none = none
text_of (some v) = as_str v

text_of_iff : (o : Option Value) (s : Bytes) → (text_of o ≡ some s) ↔ (o ≡ some (text s))
text_of_iff none s = (λ h. absurd (cc), λ h. absurd (cc))
text_of_iff (some v) s = (λ h. ap some ((as_str_iff v s).0 h), λ h. (as_str_iff v s).1 (cc))

pub str_claim_iff :
    (name : Bytes) (m : Map Bytes Value) (s : Bytes)
    → (str_claim name m ≡ some s) ↔ (get name m ≡ some (text s))
str_claim_iff name m s = (
  λ h. (text_of_iff (get name m) s).0 (sym (same (get name m)) ∙ h),
  λ h. same (get name m) ∙ (text_of_iff (get name m) s).1 h,
)
  where
    same : (o : Option Value) → elim o [ none ↦ none | some v ↦ as_str v ] ≡ text_of o
    same none = refl
    same (some v) = refl

-- The roles are the texts in the array of the claim for roles; another value there gives none.
pub In-roles_of_iff :
    (cfg : AuthConfig) (m : Map Bytes Value) (r : Bytes)
    → In r (roles_of cfg m)
      ↔ ((vs : Values) × (get cfg.roles_claim m ≡ some (array vs)) × Holds r vs)
unfolding roles_of
In-roles_of_iff cfg m r = go (get cfg.roles_claim m)
  where
    go :
        (o : Option Value)
        → In r (roles_in o) ↔ ((vs : Values) × (o ≡ some (array vs)) × Holds r vs)
    go none = (λ i. absurd i, λ (vs, e, h). absurd (cc))
    go (some (text s)) = (λ i. absurd i, λ (vs, e, h). absurd (cc))
    go (some (array ws)) = (
      λ i. (ws, refl, (In-as_strs_iff r ws).0 i),
      λ (vs, e, h). (In-as_strs_iff r ws).1 (subst (Holds r) (cc) h),
    )
    go (some other_value) = (λ i. absurd i, λ (vs, e, h). absurd (cc))

Lacks-str_claims : (k : Bytes) (m : Map Bytes Value) → Lacks k m → Lacks k (str_claims m)
unfolding str_claims
Lacks-str_claims k [] l = tt
Lacks-str_claims k ((j, text s) ∷ m) l = (l.0, Lacks-str_claims k m l.1)
Lacks-str_claims k ((j, array vs) ∷ m) l = Lacks-str_claims k m l.1
Lacks-str_claims k ((j, other_value) ∷ m) l = Lacks-str_claims k m l.1

get-str_claims :
    (k : Bytes) (m : Map Bytes Value) → HasUniqueKeys m → get k (str_claims m) ≡ text_of (get k m)
unfolding str_claims
get-str_claims k [] u = refl
get-str_claims k ((j, v) ∷ m) u = elim (Bool-cases (bytes_beq j k)) [
  | inl e ↦
      let gone : get k (str_claims m) ≡ none =
        get_of_Lacks k (str_claims m)
          (Lacks-str_claims k m (subst (λ t. Lacks t m) ((bytes_beq_iff j k).0 e) u.0)) in
      here v e gone
  | inr e ↦ there v e (get-str_claims k m u.1)
]
  where
    here :
        (w : Value)
        → bytes_beq j k ≡ true
        → get k (str_claims m) ≡ none
        → get k (str_claims ((j, w) ∷ m)) ≡ text_of (get k ((j, w) ∷ m))
    here (text s) e gone = rw e refl
    here (array vs) e gone = rw e gone
    here other_value e gone = rw e gone

    there :
        (w : Value)
        → bytes_beq j k ≡ false
        → get k (str_claims m) ≡ text_of (get k m)
        → get k (str_claims ((j, w) ∷ m)) ≡ text_of (get k ((j, w) ∷ m))
    there (text s) e ih = rw e ih
    there (array vs) e ih = rw e ih
    there other_value e ih = rw e ih

-- The placeholders that have a value: `sub` has the identity, and every other one its claim, if that
-- is a text.
pub get-vars_of_iff :
    (m : Map Bytes Value) (identity k v : Bytes)
    → HasUniqueKeys m
    → (get k (vars_of m identity) ≡ some v)
      ↔ (((k ≡ codes "sub") × (v ≡ identity)) ⊎ ((k ≢ codes "sub") × (get k m ≡ some (text v))))
unfolding vars_of
get-vars_of_iff m identity k v u =
    let at = get-insert (codes "sub") k identity (str_claims m) in
    elim (Bool-cases (bytes_beq (codes "sub") k)) [
      | inl e ↦
          let s = (bytes_beq_iff (codes "sub") k).0 e in
          rw (at, e)
            (
              λ h. inl (sym s, cc),
              λ h. elim h [ inl (p, q) ↦ ap some (sym q) | inr (p, q) ↦ absurd (p (sym s)) ],
            )
      | inr e ↦
          let ne : k ≢ codes "sub" =
            λ q. ground (arith, (bytes_beq_iff (codes "sub") k).1 (sym q), e) in
          rw (at, e, get-str_claims k m u)
            (
              λ h. inr (ne, (text_of_iff (get k m) v).0 h),
              λ h. elim h [
                | inl (p, q) ↦ absurd (ne p)
                | inr (p, q) ↦ (text_of_iff (get k m) v).1 q
              ],
            )
    ]
