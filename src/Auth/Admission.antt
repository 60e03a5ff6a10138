-- ===== src/Auth/Admission.antt =====
-- Whom `AuthConfig::authenticate` of crates/relay-server/src/auth.rs lets in.
use ch_relay.Prelude.{◌≡◌, true, false, [], ◌∷◌, Option, some, In}
use ch_relay.Prelude.Map.{Map, get}
use ch_relay.Bytes.{Bytes, codes, bytes_eq}
use ch_relay.Bytes.Utf8.{is_utf8}
use ch_relay.Auth.{Value, text, AuthConfig, Principal, Validation, Decoded, claims, principal_of}
use ch_relay.Auth.Claims.{Names, ClaimNames}

-- What the library documents of the tokens that it accepts: they are signed with the key under the
-- algorithm, they have every required claim, and where they have an issuer it is an accepted one.
-- `IsSigned` takes the algorithm, the key and the token.
pub record IsChecking (IsSigned : Bytes → Bytes → Bytes → Type 0)
    (decode : Bytes → Bytes → Validation → Decoded) : Type 0 where
  pub signed :
      (token secret : Bytes) (v : Validation) (m : Map Bytes Value)
      → decode token secret v ≡ claims (some m)
      → IsSigned v.algorithm secret token
  pub required :
      (token secret : Bytes) (v : Validation) (m : Map Bytes Value) (name : Bytes)
      → decode token secret v ≡ claims (some m)
      → In name v.required_spec_claims
      → (x : Value) × (get name m ≡ some x)
  pub issuer :
      (token secret : Bytes) (v : Validation) (m : Map Bytes Value) (x : Value)
      → decode token secret v ≡ claims (some m)
      → get (codes "iss") m ≡ some x
      → (i : Bytes) × In i v.iss × Names i x

-- A token is presented that is signed, has an expiry and the one accepted issuer, names an allowed
-- audience, and has the identity.
pub record IsAuthenticated (IsSigned : Bytes → Bytes → Bytes → Type 0)
    (decode : Bytes → Bytes → Validation → Decoded) (cfg : AuthConfig) (password : Option Bytes)
    (p : Principal) : Type 0 where
  pub token : Bytes
  pub presented : password ≡ some token
  pub is_text : is_utf8 token ≡ true
  pub vouched_for : Map Bytes Value
  pub decoded :
      decode token cfg.jwt_secret (record {
        algorithm = codes "HS256";
        validate_aud = false;
        required_spec_claims = codes "exp" ∷ codes "iss" ∷ [];
        iss = codes "ch-api-authenticator" ∷ [];
      })
      ≡ claims (some vouched_for)
  pub signed : IsSigned (codes "HS256") cfg.jwt_secret token
  pub expires : (x : Value) × (get (codes "exp") vouched_for ≡ some x)
  pub issued : ClaimNames (codes "iss") vouched_for (codes "ch-api-authenticator")
  pub audience : (a : Bytes) × In a cfg.allowed_audiences × ClaimNames (codes "aud") vouched_for a
  pub identity : get cfg.identity_claim vouched_for ≡ some (text p.identity)
  pub principal : p ≡ principal_of cfg vouched_for p.identity
