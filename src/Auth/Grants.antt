-- ===== src/Auth/Grants.antt =====
-- What `AuthConfig::authenticate` of crates/relay-server/src/auth.rs grants.
use ch_relay.Prelude.{
  ◌≡◌, refl, subst, ◌↔◌, ◌⊎◌, ◌≢◌, true, List, [], ◌∷◌, some, arith, In, inl, inr, Bool-cases,
  if◌then◌else◌,
}
use ch_relay.Prelude.Map.{Map, get, HasUniqueKeys}
use ch_relay.Bytes.{Bytes, codes, bytes_eq}
use ch_relay.Acl.{Acl, no_access}
use ch_relay.Auth.{
  Value, Values, text, array, AclRule, AuthConfig, roles_of, vars_of, substitute, push_patterns,
  applies, grant_rules, principal_of,
}
use ch_relay.Auth.Claims.{Holds, get-vars_of_iff, In-roles_of_iff}
use ch_relay.Auth.Substitution.{substitute_iff}
use ch_relay.Auth.Patterns.{IsGrantedBy, applies_iff, In-push_patterns}

-- One of the two lists of permissions, as the loop over the rules fills it.
granted_patterns :
    (AclRule → List Bytes) → Map Bytes Bytes → List Bytes → List AclRule → List Bytes → List Bytes
granted_patterns patterns vars roles [] acc = acc
granted_patterns patterns vars roles (rule ∷ rules) acc =
    granted_patterns patterns vars roles rules
      (if applies roles rule then push_patterns vars (patterns rule) acc else acc)

grant_rules_lem :
    (vars : Map Bytes Bytes) (roles : List Bytes) (rules : List AclRule) (acl : Acl)
    → ((grant_rules vars roles rules acl).publish
        ≡ granted_patterns (λ r. r.publish) vars roles rules acl.publish)
      × ((grant_rules vars roles rules acl).subscribe
          ≡ granted_patterns (λ r. r.subscribe) vars roles rules acl.subscribe)
unfolding grant_rules granted_patterns
grant_rules_lem vars roles [] acl = (refl, refl)
grant_rules_lem vars roles (rule ∷ rules) acl =
    let next : Acl =
      if applies roles rule
      then record {
        publish = push_patterns vars rule.publish acl.publish;
        subscribe = push_patterns vars rule.subscribe acl.subscribe;
      }
      else acl in
    let (p, s) = grant_rules_lem vars roles rules next in
    elim (Bool-cases (applies roles rule)) [
      | inl e ↦ (ground (arith, p, e), ground (arith, s, e))
      | inr e ↦ (ground (arith, p, e), ground (arith, s, e))
    ]

In-granted_patterns :
    (patterns : AclRule → List Bytes) (vars : Map Bytes Bytes) (roles : List Bytes)
    (rules : List AclRule) (acc : List Bytes) (pat : Bytes)
    → In pat (granted_patterns patterns vars roles rules acc)
      ↔ (In pat acc ⊎ IsGrantedBy patterns vars roles rules pat)
unfolding granted_patterns
In-granted_patterns patterns vars roles [] acc pat =
    (λ i. inl i, λ h. elim h [ inl i ↦ i | inr g ↦ absurd g.is_rule ])
In-granted_patterns patterns vars roles (rule ∷ rules) acc pat = (
  λ i. elim ((In-granted_patterns patterns vars roles rules next pat).0 i) [
    | inl j ↦ elim ((In-next).0 j) [
      | inl k ↦ inl k
      | inr (a, (raw, k, e)) ↦ inr (record {
        rule = rule;
        is_rule = inl refl;
        has_role = (applies_iff roles rule).0 a;
        raw = raw;
        is_raw = k;
        substitutes = (substitute_iff raw vars pat).0 e;
      })
    ]
    | inr g ↦ inr (weaken g)
  ],
  λ h.
      let later = (In-granted_patterns patterns vars roles rules next pat).1 in
      elim h [
        | inl k ↦ later (inl (In-next.1 (inl k)))
        | inr g ↦ elim g.is_rule [
          | inl p ↦ later (
              inl (
                In-next.1 (
                  inr (
                    subst (λ r. applies roles r ≡ true) p ((applies_iff roles g.rule).1 g.has_role),
                    (
                      g.raw,
                      subst (λ r. In g.raw (patterns r)) p g.is_raw,
                      (substitute_iff g.raw vars pat).1 g.substitutes,
                    ),
                  ))))
          | inr j ↦ later (
              inr (record {
                rule = g.rule;
                is_rule = j;
                has_role = g.has_role;
                raw = g.raw;
                is_raw = g.is_raw;
                substitutes = g.substitutes;
              }))
        ]
      ],
)
  where
    next : List Bytes
    next = if applies roles rule then push_patterns vars (patterns rule) acc else acc

    In-next : In pat next ↔ (
        In pat acc
        ⊎ ((applies roles rule ≡ true)
            × ((raw : Bytes) × In raw (patterns rule) × (substitute raw vars ≡ some pat))))
    In-next = elim (Bool-cases (applies roles rule)) [
      | inl e ↦ (
        λ i. elim ((In-push_patterns vars pat (patterns rule) acc).0 (rw e at i)) [
          | inl k ↦ inl k
          | inr r ↦ inr (e, r)
        ],
        λ h. rw e (
            (In-push_patterns vars pat (patterns rule) acc).1
              (elim h [ inl k ↦ inl k | inr (a, r) ↦ inr r ])),
      )
      | inr e ↦ (λ i. inl (rw e at i), λ h. rw e (elim h [ inl k ↦ k | inr (a, r) ↦ absurd (cc) ]))
    ]

    weaken :
        IsGrantedBy patterns vars roles rules pat
        → IsGrantedBy patterns vars roles (rule ∷ rules) pat
    weaken g = record {
      rule = g.rule;
      is_rule = inr g.is_rule;
      has_role = g.has_role;
      raw = g.raw;
      is_raw = g.is_raw;
      substitutes = g.substitutes;
    }

grants_iff :
    (cfg : AuthConfig) (m : Map Bytes Value) (identity pat : Bytes)
    → (In pat (principal_of cfg m identity).acl.publish
        ↔ IsGrantedBy (λ r. r.publish) (vars_of m identity) (roles_of cfg m) cfg.acl pat)
      × (In pat (principal_of cfg m identity).acl.subscribe
          ↔ IsGrantedBy (λ r. r.subscribe) (vars_of m identity) (roles_of cfg m) cfg.acl pat)
grants_iff cfg m identity pat =
    let vars = vars_of m identity in
    let roles = roles_of cfg m in
    let (p, s) = grant_rules_lem vars roles cfg.acl no_access in
    (
      rw p (drop_nil (In-granted_patterns (λ r. r.publish) vars roles cfg.acl [] pat)),
      rw s (drop_nil (In-granted_patterns (λ r. r.subscribe) vars roles cfg.acl [] pat)),
    )
  where
    drop_nil : {P Q : Type 0} → P ↔ (In pat [] ⊎ Q) → P ↔ Q
    drop_nil (f, g) = (λ p. elim (f p) [ inl e ↦ absurd e | inr q ↦ q ], λ q. g (inr q))

-- Where the claims have distinct names, the permissions of a principal are exactly what the rules for
-- everyone and for its roles say, with the placeholders replaced; a pattern with an unknown
-- placeholder grants nothing. A placeholder `sub` stands for the identity, and any other for the claim
-- of its name, if that is a text. The roles are the texts in the array that the claim for roles is;
-- another value there gives none.
pub principal_of_iff :
    (cfg : AuthConfig) (m : Map Bytes Value) (identity : Bytes)
    → HasUniqueKeys m
    → ((pat : Bytes)
        → (In pat (principal_of cfg m identity).acl.publish
            ↔ IsGrantedBy (λ r. r.publish) (vars_of m identity) (roles_of cfg m) cfg.acl pat)
          × (In pat (principal_of cfg m identity).acl.subscribe
              ↔ IsGrantedBy (λ r. r.subscribe) (vars_of m identity) (roles_of cfg m) cfg.acl pat))
      × ((k v : Bytes)
          → (get k (vars_of m identity) ≡ some v) ↔ (
              ((k ≡ codes "sub") × (v ≡ identity))
              ⊎ ((k ≢ codes "sub") × (get k m ≡ some (text v)))))
      × ((r : Bytes)
          → In r (roles_of cfg m)
            ↔ ((vs : Values) × (get cfg.roles_claim m ≡ some (array vs)) × Holds r vs))
principal_of_iff cfg m identity u = (
  λ pat. grants_iff cfg m identity pat,
  λ k v. get-vars_of_iff m identity k v u,
  λ r. In-roles_of_iff cfg m r,
)
