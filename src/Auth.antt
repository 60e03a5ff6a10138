-- ===== src/Auth.antt =====
-- crates/relay-server/src/auth.rs: what a CONNECT's token allows its client to do. The library that
-- checks the token and yields its claims is a parameter.
pub mod Substitution
pub mod Patterns
pub mod Claims
pub mod Grants
pub mod Admission
mod Examples
use ch_relay.Prelude.{
  ℕ, zero, suc, Bool, true, false, not, ◌&&◌, ◌||◌, List, [], ◌∷◌, ◌++◌, Option, none, some,
  if◌then◌else◌, any, length,
}
use ch_relay.Prelude.Map.{Map, get, insert}
use ch_relay.Prelude.Results.{Result, ok, err, ok_or, ◌>>=◌}
use ch_relay.Bytes.{Bytes, codes, bytes_beq, bytes_eq, split_once}
use ch_relay.Bytes.Utf8.{is_utf8}
use ch_relay.Acl.{Acl, no_access}

-- A JSON value, as far as the program looks into it.
mutual
  pub data Value : Type 0 where
    text : Bytes → Value
    array : Values → Value
    other_value : Value

  pub data Values : Type 0 where
    no_values : Values
    value_then : Value → Values → Values

abbrev pub as_str : Value → Option Bytes
as_str (text s) = some s
as_str (array vs) = none
as_str other_value = none

-- `iter().filter_map(Value::as_str)`.
abbrev cons_some : Option Bytes → List Bytes → List Bytes
cons_some none xs = xs
cons_some (some x) xs = x ∷ xs

unfoldable pub as_strs : Values → List Bytes
as_strs no_values = []
as_strs (value_then v vs) = cons_some (as_str v) (as_strs vs)

pub record AclRule : Type 0 where
  pub role : Bytes
  pub publish : List Bytes
  pub subscribe : List Bytes

pub record AuthConfig : Type 0 where
  pub jwt_secret : Bytes
  pub identity_claim : Bytes
  pub roles_claim : Bytes
  pub allowed_audiences : List Bytes
  pub acl : List AclRule

pub record Principal : Type 0 where
  pub identity : Bytes
  pub acl : Acl

pub data AuthError : Type 0 where
  invalid_token no_identity invalid_issuer invalid_audience : AuthError

-- The `Validation` that the library is given: the algorithm by its name, whether it looks at the
-- audience itself, the claims that must be there and the issuers that are accepted.
pub record Validation : Type 0 where
  pub algorithm : Bytes
  pub validate_aud : Bool
  pub required_spec_claims : List Bytes
  pub iss : List Bytes

-- `EXPECTED_ISSUER`.
abbrev pub expected_issuer : Bytes
expected_issuer = codes "ch-api-authenticator"

abbrev pub validation : Validation
validation = record {
  algorithm = codes "HS256";
  validate_aud = false;
  required_spec_claims = codes "exp" ∷ codes "iss" ∷ [];
  iss = expected_issuer ∷ [];
}

-- What the library says of a token: its claims, if they are an object, or the kind of its error.
pub data Decoded : Type 0 where
  claims : Option (Map Bytes Value) → Decoded
  bad_issuer : Decoded
  bad_token : Decoded

-- `map_decode_error`, and `as_object`.
abbrev pub claims_of : Decoded → Result AuthError (Map Bytes Value)
claims_of (claims (some m)) = ok m
claims_of (claims none) = err invalid_token
claims_of bad_issuer = err invalid_issuer
claims_of bad_token = err invalid_token

abbrev presented : Option Value → List Bytes
presented none = []
presented (some (text s)) = s ∷ []
presented (some (array vs)) = as_strs vs
presented (some other_value) = []

-- Without an audience nothing is allowed: `any` of nothing is false.
unfoldable pub audience_allowed : AuthConfig → Option Value → Bool
unfolding as_strs
audience_allowed cfg aud =
    any (λ a. any (λ allowed. bytes_beq allowed a) cfg.allowed_audiences) (presented aud)

abbrev pub str_claim : Bytes → Map Bytes Value → Option Bytes
str_claim name m = elim (get name m) [ none ↦ none | some v ↦ as_str v ]

abbrev roles_in : Option Value → List Bytes
roles_in none = []
roles_in (some (text s)) = []
roles_in (some (array vs)) = as_strs vs
roles_in (some other_value) = []

abbrev pub roles_of : AuthConfig → Map Bytes Value → List Bytes
unfolding as_strs
roles_of cfg m = roles_in (get cfg.roles_claim m)

abbrev str_claims_cons : Bytes → Option Bytes → Map Bytes Bytes → Map Bytes Bytes
str_claims_cons k none m = m
str_claims_cons k (some s) m = (k, s) ∷ m

-- The claims that are texts. The keys of an object are distinct.
unfoldable pub str_claims : Map Bytes Value → Map Bytes Bytes
str_claims [] = []
str_claims ((k, v) ∷ m) = str_claims_cons k (as_str v) (str_claims m)

unfoldable pub vars_of : Map Bytes Value → Bytes → Map Bytes Bytes
vars_of m identity = insert (codes "sub") identity (str_claims m)

abbrev pub prepend : Bytes → Bytes → Option Bytes → Option Bytes
prepend before v none = none
prepend before v (some out) = some (before ++ (v ++ out))

-- The loop of `substitute`. Each round takes at least two characters off the rest.
unfoldable pub substitute_loop : ℕ → Bytes → Map Bytes Bytes → Option Bytes
substitute_loop zero rest vars = none
substitute_loop (suc fuel) rest vars = elim (split_once b'{' rest) [
  | none ↦ some rest
  | some (before, after) ↦ elim (split_once b'}' after) [
    | none ↦ none
    | some (key, rest') ↦ elim (get key vars) [
      | none ↦ none
      | some v ↦ prepend before v (substitute_loop fuel rest' vars)
    ]
  ]
]

unfoldable pub substitute : Bytes → Map Bytes Bytes → Option Bytes
unfolding substitute_loop
substitute pattern vars = substitute_loop (suc (length pattern)) pattern vars

abbrev push_some : List Bytes → Option Bytes → List Bytes
push_some acc none = acc
push_some acc (some p) = acc ++ p ∷ []

-- The loops over a rule's patterns: a pattern with an unknown placeholder is passed over.
unfoldable pub push_patterns : Map Bytes Bytes → List Bytes → List Bytes → List Bytes
push_patterns vars [] acc = acc
push_patterns vars (pat ∷ pats) acc = push_patterns vars pats (push_some acc (substitute pat vars))

unfoldable pub applies : List Bytes → AclRule → Bool
applies roles rule = bytes_beq rule.role (codes "*") || any (λ r. bytes_beq r rule.role) roles

unfoldable pub grant_rules : Map Bytes Bytes → List Bytes → List AclRule → Acl → Acl
grant_rules vars roles [] acl = acl
grant_rules vars roles (rule ∷ rules) acl = grant_rules vars roles rules (
    if applies roles rule
    then record {
      publish = push_patterns vars rule.publish acl.publish;
      subscribe = push_patterns vars rule.subscribe acl.subscribe;
    }
    else acl)

abbrev pub check : Bool → AuthError → Result AuthError Bool
check true e = ok true
check false e = err e

abbrev pub utf8_token : Bytes → Result AuthError Bytes
utf8_token raw = if is_utf8 raw then ok raw else err invalid_token

abbrev pub principal_of : AuthConfig → Map Bytes Value → Bytes → Principal
principal_of cfg m identity = record {
  identity = identity;
  acl = grant_rules (vars_of m identity) (roles_of cfg m) cfg.acl no_access;
}

-- The library's `decode` takes the token, the secret and the validation.
unfoldable pub authenticate :
    (Bytes → Bytes → Validation → Decoded) → AuthConfig → Option Bytes → Result AuthError Principal
authenticate decode cfg password = do
  raw ← ok_or invalid_token password
  token ← utf8_token raw
  m ← claims_of (decode token cfg.jwt_secret validation)
  _ ← check (audience_allowed cfg (get (codes "aud") m)) invalid_audience
  identity ← ok_or no_identity (str_claim cfg.identity_claim m)
  ok (principal_of cfg m identity)
