-- ===== src/Auth/Patterns.antt =====
-- What the loops over a rule's patterns in crates/relay-server/src/auth.rs collect.
use ch_relay.Prelude.{
  ◌≡◌, refl, sym, ◌∙◌, ap, subst, ◌↔◌, ◌⊎◌, true, List, [], ◌∷◌, ◌++◌, Option, none, some, arith,
  In, any, any_iff, inl, inr, Bool-cases,
}
use ch_relay.Prelude.Map.{Map}
use ch_relay.Bytes.{Bytes, codes, bytes_eq, bytes_beq, bytes_beq_iff}
use ch_relay.Auth.{AclRule, substitute, push_patterns, push_some, applies}
use ch_relay.Auth.Substitution.{Substitutes}

-- A rule that applies has a pattern that yields this permission.
pub record IsGrantedBy (patterns : AclRule → List Bytes) (vars : Map Bytes Bytes)
    (roles : List Bytes) (rules : List AclRule) (pat : Bytes) : Type 0 where
  pub rule : AclRule
  pub is_rule : In rule rules
  pub has_role : (rule.role ≡ codes "*") ⊎ In rule.role roles
  pub raw : Bytes
  pub is_raw : In raw (patterns rule)
  pub substitutes : Substitutes vars raw pat

pub applies_iff :
    (roles : List Bytes) (rule : AclRule)
    → (applies roles rule ≡ true) ↔ ((rule.role ≡ codes "*") ⊎ In rule.role roles)
applies_iff roles rule = (λ h. sound h, λ h. complete h)
  where
    sound : applies roles rule ≡ true → (rule.role ≡ codes "*") ⊎ In rule.role roles
    sound h =
        unfold applies in
        elim (Bool-cases (bytes_beq rule.role (codes "*"))) [
          | inl e ↦ inl ((bytes_beq_iff _ _).0 e)
          | inr e ↦
              let (r, i, k) = (any_iff (λ r. bytes_beq r rule.role) roles).0 (rw e at h) in
              inr (subst (λ t. In t roles) ((bytes_beq_iff r rule.role).0 k) i)
        ]

    complete : (rule.role ≡ codes "*") ⊎ In rule.role roles → applies roles rule ≡ true
    complete (inl e) = unfold applies in rw ((bytes_beq_iff rule.role (codes "*")).1 e) refl
    complete (inr i) =
        unfold applies in
        let k : any (λ r. bytes_beq r rule.role) roles ≡ true =
          (any_iff (λ r. bytes_beq r rule.role) roles).1
            (rule.role, i, (bytes_beq_iff rule.role rule.role).1 refl) in
        ground (arith, k)

In-append_iff : (a : Bytes) (xs ys : List Bytes) → In a (xs ++ ys) ↔ (In a xs ⊎ In a ys)
In-append_iff a [] ys = (λ i. inr i, λ h. elim h [ inl e ↦ absurd e | inr i ↦ i ])
In-append_iff a (x ∷ xs) ys = (
  λ h. elim h [
    | inl e ↦ inl (inl e)
    | inr i ↦ elim ((In-append_iff a xs ys).0 i) [ inl j ↦ inl (inr j) | inr j ↦ inr j ]
  ],
  λ h. elim h [
    | inl j ↦ elim j [ inl e ↦ inl e | inr k ↦ inr ((In-append_iff a xs ys).1 (inl k)) ]
    | inr j ↦ inr ((In-append_iff a xs ys).1 (inr j))
  ],
)

In-push_some :
    (pat : Bytes) (acc : List Bytes) (o : Option Bytes)
    → In pat (push_some acc o) ↔ (In pat acc ⊎ (o ≡ some pat))
In-push_some pat acc none = (λ i. inl i, λ h. elim h [ inl i ↦ i | inr e ↦ absurd (ground arith) ])
In-push_some pat acc (some p) = (
  λ i. elim ((In-append_iff pat acc (p ∷ [])).0 i) [
    | inl j ↦ inl j
    | inr j ↦ elim j [ inl e ↦ inr (ap some (sym e)) | inr k ↦ absurd k ]
  ],
  λ h. elim h [
    | inl i ↦ (In-append_iff pat acc (p ∷ [])).1 (inl i)
    | inr e ↦ (In-append_iff pat acc (p ∷ [])).1 (inr (inl (ground (arith, e))))
  ],
)

pub In-push_patterns :
    (vars : Map Bytes Bytes) (pat : Bytes) (pats acc : List Bytes)
    → In pat (push_patterns vars pats acc)
      ↔ (In pat acc ⊎ ((raw : Bytes) × In raw pats × (substitute raw vars ≡ some pat)))
unfolding push_patterns
In-push_patterns vars pat [] acc =
    (λ i. inl i, λ h. elim h [ inl i ↦ i | inr (raw, i, e) ↦ absurd i ])
In-push_patterns vars pat (raw ∷ pats) acc = (
  λ i. elim ((In-push_patterns vars pat pats (push_some acc (substitute raw vars))).0 i) [
    | inl j ↦ elim ((In-push_some pat acc (substitute raw vars)).0 j) [
      | inl k ↦ inl k
      | inr e ↦ inr (raw, inl refl, e)
    ]
    | inr (r, j, e) ↦ inr (r, inr j, e)
  ],
  λ h.
      let later = (In-push_patterns vars pat pats (push_some acc (substitute raw vars))).1 in
      let here = (In-push_some pat acc (substitute raw vars)).1 in
      elim h [
        | inl k ↦ later (inl (here (inl k)))
        | inr (r, inl p, e) ↦ later (inl (here (inr (ap (λ t. substitute t vars) (sym p) ∙ e))))
        | inr (r, inr j, e) ↦ later (inr (r, j, e))
      ],
)
