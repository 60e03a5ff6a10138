-- ===== src/Auth/Examples.antt =====
-- A client of the drive service, and a rule with a placeholder.
use ch_relay.Prelude.{
  ◌≡◌, ◌≢◌, refl, ◌↔◌, ◌⊎◌, Bool, true, false, ◌&&◌, Option, none, some, List, [], ◌∷◌, In, any,
  if◌then◌else◌,
}
use ch_relay.Prelude.Map.{Map, get, HasUniqueKeys}
use ch_relay.Prelude.Results.{ok}
use ch_relay.Bytes.{Bytes, codes, bytes_beq, bytes_eq}
use ch_relay.Auth.{
  Value, Values, text, array, other_value, value_then, no_values, AclRule, AuthConfig, Principal,
  Validation, expected_issuer, Decoded, claims, bad_token, substitute, roles_of, vars_of,
  principal_of, audience_allowed, authenticate,
}
use ch_relay.Auth.Substitution.{Substitutes, substitute_iff}
use ch_relay.Auth.Claims.{Holds}
use ch_relay.Auth.Grants.{principal_of_iff}
use ch_relay.Auth.Patterns.{IsGrantedBy}

abbrev vars : Map Bytes Bytes
vars = (codes "sub", codes "u1") ∷ []

substitute_iff_example :
    (substitute (codes "drive/{sub}/#") vars ≡ some (codes "drive/u1/#"))
    ↔ Substitutes vars (codes "drive/{sub}/#") (codes "drive/u1/#")
substitute_iff_example = substitute_iff (codes "drive/{sub}/#") vars (codes "drive/u1/#")

abbrev drive : AclRule
drive = record {
  role = codes "drive";
  publish = codes "drive/{sub}/#" ∷ [];
  subscribe = codes "drive/{sub}/#" ∷ [];
}

abbrev config : AuthConfig
config = record {
  jwt_secret = codes "secret";
  identity_claim = codes "sub";
  roles_claim = codes "roles";
  allowed_audiences = codes "ch-relay" ∷ [];
  acl = drive ∷ [];
}

abbrev user : Map Bytes Value
user =
    (codes "aud", text (codes "ch-relay"))
    ∷ (codes "roles", array (value_then (text (codes "drive")) no_values))
    ∷ (codes "sub", text (codes "u1"))
    ∷ (codes "exp", other_value)
    ∷ (codes "iss", text (codes "ch-api-authenticator"))
    ∷ []

user-HasUniqueKeys : HasUniqueKeys user
unfolding bytes_beq
user-HasUniqueKeys = (
  (refl, (refl, (refl, (refl, tt)))),
  ((refl, (refl, (refl, tt))), ((refl, (refl, tt)), ((refl, tt), (tt, tt)))),
)

principal_of_iff_example :
    ((pat : Bytes)
      → (In pat (principal_of config user (codes "u1")).acl.publish
          ↔ IsGrantedBy
              (λ r. r.publish)
              (vars_of user (codes "u1"))
              (roles_of config user)
              config.acl
              pat)
        × (In pat (principal_of config user (codes "u1")).acl.subscribe
            ↔ IsGrantedBy
                (λ r. r.subscribe)
                (vars_of user (codes "u1"))
                (roles_of config user)
                config.acl
                pat))
    × ((k v : Bytes)
        → (get k (vars_of user (codes "u1")) ≡ some v) ↔ (
            ((k ≡ codes "sub") × (v ≡ codes "u1"))
            ⊎ ((k ≢ codes "sub") × (get k user ≡ some (text v)))))
    × ((r : Bytes)
        → In r (roles_of config user)
          ↔ ((vs : Values) × (get config.roles_claim user ≡ some (array vs)) × Holds r vs))
principal_of_iff_example = principal_of_iff config user (codes "u1") user-HasUniqueKeys

-- A library that vouches for one token, if it has what is demanded.
abbrev is_there : Option Value → Bool
is_there none = false
is_there (some v) = true

has_all : List Bytes → Bool
has_all [] = true
has_all (name ∷ names) = is_there (get name user) && has_all names

vouch : Bytes → Bytes → Validation → Decoded
unfolding has_all
vouch token secret v =
    if bytes_beq token (codes "t1")
      && (has_all v.required_spec_claims && any (λ i. bytes_beq i expected_issuer) v.iss)
    then claims (some user)
    else bad_token

abbrev IsTheToken : Bytes → Bytes → Bytes → Type 0
IsTheToken algorithm secret token = token ≡ codes "t1"

abbrev u1 : Principal
u1 = principal_of config user (codes "u1")

-- The client is let in.
let_in : authenticate vouch config (some (codes "t1")) ≡ ok u1
unfolding authenticate vouch has_all audience_allowed ch_relay.Auth.as_strs bytes_beq
    ch_relay.Bytes.Utf8.is_utf8
let_in = refl
