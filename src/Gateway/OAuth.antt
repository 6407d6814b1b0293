-- ===== src/Gateway/OAuth.antt =====
-- gateway/oauth.py: the login with Microsoft and the session cookie. The token exchange, the JWT
-- library and the string methods are arguments; times are seconds.
pub mod Sessions
use text.Mathlib.Text.{◌==◌ as str_eq}
use postgres_s3_warehouse_sy.Prelude.{
  ◌≡◌, String, Bool, true, false, ◌&&◌, Option, none, some, List, [], ◌∷◌, any, if◌then◌else◌,
  truthy,
}
use postgres_s3_warehouse_sy.Prelude.Int.{ℤ, pos, ◌+ℤ◌, eqb_ℤ, leb_ℤ}
use postgres_s3_warehouse_sy.Prelude.Result.{
  Result, ok, err, key_error, external, bad_request, unauthorized, server_error, ◌>>=◌, require,
}
use postgres_s3_warehouse_sy.Common.Users.{User, Users, get_user, upsert_user}
use postgres_s3_warehouse_sy.Gateway.Auth.{Principal}

pub record SessionClaims : Type 0 where
  pub email : Option String
  pub role : Option String
  pub exp : ℤ

-- python-jose for the session cookie: a token is read back with its secret until it expires, and
-- is not empty. A JWTError is `none`.
pub record SessionJwt : Type 1 where
  pub Token : Type 0
  pub is_empty : Token → Bool
  pub encode : SessionClaims → String → Token
  pub decode : ℤ → Token → String → Option SessionClaims
  pub decode-encode :
      (now : ℤ) (c : SessionClaims) (secret : String)
      → decode now (encode c secret) secret ≡ (if leb_ℤ now c.exp then some c else none)
  pub is_empty-encode : (c : SessionClaims) (secret : String) → is_empty (encode c secret) ≡ false

-- The environment variables, "" where one is not set; the bootstrap admins are split, stripped and
-- in lower case.
pub record OAuthEnv : Type 0 where
  pub azure_client_id : String
  pub azure_tenant_id : String
  pub session_secret : String
  pub bootstrap_admins : List String

-- What the id token claims, without verification.
pub record IdClaims : Type 0 where
  pub email : Option String
  pub preferred_username : Option String
  pub upn : Option String

-- The answer of the token endpoint.
pub record TokenResponse : Type 0 where
  pub status_code : ℤ
  pub id_token : Option String

-- What the callback meets: the query, the state cookie and Microsoft's answers.
pub record CallbackRequest : Type 0 where
  pub code : Option String
  pub state : Option String
  pub state_cookie : Option String
  pub token_response : Result TokenResponse
  pub unverified_claims : String → Result IdClaims

-- A session cookie, or the answer 403.
pub data Reply (Token : Type 0) : Type 0 where
  session : Token → Reply Token
  not_allowed : String → Reply Token

abbrev pub enabled : OAuthEnv → Bool
enabled env = truthy env.azure_client_id && truthy env.azure_tenant_id

unfoldable pub secret : OAuthEnv → Result String
secret env = if truthy env.session_secret then ok env.session_secret else err server_error

-- `a or b`, on strings or None.
abbrev or_else : Option String → String → String
or_else none b = b
or_else (some a) b = if truthy a then a else b

abbrev session_ttl : ℤ
session_ttl = pos 28800

-- The `state` cookie that the login sets.
pub login : OAuthEnv → String → Result String
login env random = do _ ← require (enabled env) bad_request; ok random

abbrev pub same_state : Option String → Option String → Option String → Bool
same_state (some code) (some state) (some cookie) =
    truthy code && truthy state && str_eq state cookie
same_state _ _ _ = false

id_token_of : Option String → Result String
id_token_of none = err unauthorized
id_token_of (some t) = if truthy t then ok t else err unauthorized

-- `str.lower`
module _ (lower : String → String) where
  email_of : IdClaims → Result String
  email_of c =
      let email = lower (or_else c.email (or_else c.preferred_username (or_else c.upn ""))) in
      if truthy email then ok email else err unauthorized

  -- Everything up to the e-mail; nothing of it changes the users.
  unfoldable pub identify : OAuthEnv → CallbackRequest → Result String
  unfolding id_token_of email_of
  identify env r = do
    _ ← require (enabled env) bad_request
    _ ← require (same_state r.code r.state r.state_cookie) bad_request
    response ← r.token_response
    _ ← require (eqb_ℤ response.status_code (pos 200)) unauthorized
    id_token ← id_token_of response.id_token
    claims ← r.unverified_claims id_token
    email_of claims

abbrev session_claims : ℤ → String → String → SessionClaims
session_claims now email role = record {
  email = some email;
  role = some role;
  exp = now +ℤ session_ttl;
}

abbrev member : String → List String → Bool
member x xs = any (λ y. str_eq y x) xs

module _ (jwt : SessionJwt) (normalized : String → String) where
  start_session : OAuthEnv → ℤ → String → String → Result (Reply jwt.Token)
  start_session env now email role = do
    s ← secret env
    ok (session (jwt.encode (session_claims now email role) s))

  admit : OAuthEnv → ℤ → String → Users → Option User → Users × Result (Reply jwt.Token)
  unfolding start_session
  admit env now email users (some user) = (users, start_session env now email user.role)
  admit env now email users none =
      if member email env.bootstrap_admins
      then (upsert_user normalized email "admin" true users, start_session env now email "admin")
      else (users, ok (not_allowed email))

  admit_email : OAuthEnv → ℤ → Users → Result String → Users × Result (Reply jwt.Token)
  unfolding admit
  admit_email env now users (err e) = (users, err e)
  admit_email env now users (ok email) = admit env now email users (get_user normalized email users)

  unfoldable pub callback :
      (String → String) → OAuthEnv → ℤ → CallbackRequest → Users → Users × Result (Reply jwt.Token)
  unfolding admit_email
  callback lower env now r users = admit_email env now users (identify lower env r)

  abbrev role_or_viewer : Option String → String
  role_or_viewer none = "viewer"
  role_or_viewer (some role) = role

  claims_principal : Option SessionClaims → Result (Option Principal)
  claims_principal none = ok none
  claims_principal (some c) = elim c.email [
    | none ↦ err key_error
    | some email ↦ ok (
        some (record {
          sub = email;
          roles = role_or_viewer c.role ∷ [];
          email = email;
          connection_id = none;
        }))
  ]

  cookie_principal : OAuthEnv → ℤ → Option jwt.Token → Result (Option Principal)
  unfolding claims_principal
  cookie_principal env now none = ok none
  cookie_principal env now (some raw) =
      if jwt.is_empty raw
      then ok none
      else (do s ← secret env; claims_principal (jwt.decode now raw s))

  unfoldable pub session_principal : OAuthEnv → ℤ → Option jwt.Token → Result (Option Principal)
  unfolding cookie_principal
  session_principal env now cookie =
      if enabled env then cookie_principal env now cookie else ok none
