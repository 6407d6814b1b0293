-- ===== src/Gateway/Auth.antt =====
-- gateway/auth.py: who a request acts as.
-- The token store, the session cookie, the JWKS and the JWT library are arguments.
pub mod Origins
use text.Mathlib.Text.{◌==◌ as str_eq}
use postgres_s3_warehouse_sy.Prelude.{
  ◌≡◌, String, Bool, true, false, not, ◌&&◌, ◌||◌, Option, none, some, List, [], ◌∷◌, any, find?,
  if◌then◌else◌, truthy,
}
use postgres_s3_warehouse_sy.Prelude.Int.{ℤ, eqb_ℤ}
use postgres_s3_warehouse_sy.Prelude.Result.{
  Result, ok, err, key_error, unauthorized, forbidden, ◌>>=◌, require,
}

pub record Principal : Type 0 where
  pub sub : String
  pub roles : List String
  pub email : String
  pub connection_id : Option ℤ

abbrev pub is_admin : Principal → Bool
is_admin p = any (λ r. str_eq r "admin") p.roles

-- A row of the token store, its id printed.
pub record ApiToken : Type 0 where
  pub name : String
  pub role : String
  pub email : String
  pub connection_id : Option ℤ

-- The claims of a token that the code reads.
pub record Claims : Type 0 where
  pub sub : Option String
  pub roles : List String

pub record AuthSettings : Type 0 where
  pub jwks_url : String
  pub jwt_issuer : String
  pub microsoft_login : Bool

-- python-jose, whose exceptions are `none`: the claims without verification, the `kid` of the
-- unverified header, the claims verified with a key, the settings' audience and issuer.
pub record Jose : Type 1 where
  pub Jwk : Type 0
  pub kid : Jwk → Option String
  pub unverified_claims : String → Option Claims
  pub unverified_kid : String → Option (Option String)
  pub decode : String → Jwk → Option Claims

abbrev same_kid : Option String → Option String → Bool
same_kid none none = true
same_kid (some a) (some b) = str_eq a b
same_kid _ _ = false

abbrev pub or_401 {ℓ} : {A : Type ℓ} → Option A → Result A
or_401 none = err unauthorized
or_401 (some a) = ok a

abbrev pub sub_or_dev : Option String → String
sub_or_dev none = "dev"
sub_or_dev (some s) = s

abbrev pub claims_principal : String → Claims → Principal
claims_principal sub c = record { sub = sub; roles = c.roles; email = ""; connection_id = none }

abbrev pub token_principal : ApiToken → Principal
token_principal t = record {
  sub = t.name;
  roles = t.role ∷ [];
  email = t.email;
  connection_id = t.connection_id;
}

token_or : Option ApiToken → Result Principal → Result Principal
token_or none next = next
token_or (some t) next = ok (token_principal t)

abbrev pub look_up : (String → Option ApiToken) → Option String → Option ApiToken
look_up verify_api_token none = none
look_up verify_api_token (some creds) = verify_api_token creds

module _ (jose : Jose) (jwks : Result (List jose.Jwk)) where
  pub verify_unverified : String → Result Principal
  verify_unverified token = do
    c ← or_401 (jose.unverified_claims token)
    ok (claims_principal (sub_or_dev c.sub) c)

  subject_step : Claims → Option String → Result Principal
  subject_step c none = err key_error
  subject_step c (some sub) = ok (claims_principal sub c)

  claims_step : Option Claims → Result Principal
  unfolding subject_step
  claims_step none = err unauthorized
  claims_step (some c) = subject_step c c.sub

  key_step : String → Option jose.Jwk → Result Principal
  unfolding claims_step
  key_step token none = err unauthorized
  key_step token (some key) = claims_step (jose.decode token key)

  header_step : String → List jose.Jwk → Option (Option String) → Result Principal
  unfolding key_step
  header_step token keys none = err unauthorized
  header_step token keys (some kid) = key_step token (find? (λ k. same_kid (jose.kid k) kid) keys)

  keys_step : String → Result (List jose.Jwk) → Result Principal
  unfolding header_step
  keys_step token (err e) = err e
  keys_step token (ok keys) = header_step token keys (jose.unverified_kid token)

  pub verify_with_jwks : String → Result Principal
  unfolding keys_step
  verify_with_jwks token = keys_step token jwks

  unfoldable pub verify_jwt : AuthSettings → String → Result Principal
  unfolding verify_unverified verify_with_jwks
  verify_jwt s token = if truthy s.jwks_url then verify_with_jwks token else verify_unverified token

  -- `bool(s.gateway_jwks_url or s.gateway_jwt_issuer)`
  abbrev pub jwt_on : AuthSettings → Bool
  jwt_on s = truthy s.jwks_url || truthy s.jwt_issuer

  abbrev anonymous : Principal
  anonymous = record { sub = "anonymous"; roles = "admin" ∷ []; email = ""; connection_id = none }

  pub open_mode : AuthSettings → Result Principal
  open_mode s = if jwt_on s || s.microsoft_login then err unauthorized else ok anonymous

  bearer_or_open : AuthSettings → Option String → Result Principal
  unfolding verify_jwt open_mode
  bearer_or_open s none = open_mode s
  bearer_or_open s (some creds) = if jwt_on s then verify_jwt s creds else open_mode s

  session_or_bearer : AuthSettings → Option Principal → Option String → Result Principal
  unfolding bearer_or_open
  session_or_bearer s (some p) creds = ok p
  session_or_bearer s none creds = bearer_or_open s creds

  unfoldable pub current_principal :
      (String → Option ApiToken)
      → AuthSettings
      → Option Principal
      → Option String
      → Result Principal
  unfolding session_or_bearer token_or
  current_principal verify_api_token s session creds =
      token_or (look_up verify_api_token creds) (session_or_bearer s session creds)

unfoldable pub require_admin : Principal → Result Principal
require_admin p = do _ ← require (is_admin p) forbidden; ok p

abbrev pub in_scope : Option ℤ → ℤ → Bool
in_scope none connection_id = true
in_scope (some c) connection_id = eqb_ℤ c connection_id

unfoldable pub enforce_connection_scope : Principal → ℤ → Result (Unit {0})
enforce_connection_scope p connection_id =
    require (in_scope p.connection_id connection_id) forbidden
