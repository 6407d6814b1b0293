-- ===== src/Gateway/OAuth/Sessions.antt =====
-- Who gets a session from gateway/oauth.py, and what it is good for.
use postgres_s3_warehouse_sy.Prelude.{
  ◌≡◌, refl, ap, sym, ◌∙◌, inl, inr, String, Bool, true, false, Option, none, some, [], ◌∷◌,
  if◌then◌else◌, Bool-cases,
}
use postgres_s3_warehouse_sy.Prelude.Int.{ℤ, ◌+ℤ◌, leb_ℤ}
use postgres_s3_warehouse_sy.Prelude.Result.{
  Result, ok, err, bad_request, require_passed, >>=-eq-ok, ok-injective,
}
use postgres_s3_warehouse_sy.Prelude.Table.{string_key, find-put_self}
use postgres_s3_warehouse_sy.Common.Users.{User, Users, get_user, upsert_user}
use postgres_s3_warehouse_sy.Gateway.Auth.{Principal}
use postgres_s3_warehouse_sy.Gateway.OAuth.{
  SessionJwt, OAuthEnv, CallbackRequest, session, enabled, secret, session_ttl, same_state,
  identify, session_claims, member, start_session, admit, admit_email, callback, claims_principal,
  cookie_principal, session_principal,
}

-- An identified e-mail belongs to a request that answers this browser's login.
identify-same_state :
    (lower : String → String) (env : OAuthEnv) (r : CallbackRequest) (email : String)
    → identify lower env r ≡ ok email
    → (enabled env ≡ true) × (same_state r.code r.state r.state_cookie ≡ true)
unfolding identify
identify-same_state lower env r email h =
    let (on, h1) = require_passed (enabled env) bad_request _ h in
    let (same, h2) = require_passed (same_state r.code r.state r.state_cookie) bad_request _ h1 in
    (on, same)

abbrev pub session_user : String → String → Principal
session_user email role = record {
  sub = email;
  roles = role ∷ [];
  email = email;
  connection_id = none;
}

session-injective : {Token : Type 0} {a b : Token} → session a ≡ session b → a ≡ b
session-injective e = cc

module _ (jwt : SessionJwt) (normalized : String → String) (lower : String → String)
    (env : OAuthEnv) where
  -- What the cookie that is set says.
  record Cookie (now : ℤ) (email role : String) (cookie : jwt.Token) : Type 0 where
    key : String
    is_key : secret env ≡ ok key
    encoded : cookie ≡ jwt.encode (session_claims now email role) key

  start_session-Cookie :
      (now : ℤ) (email role : String) (cookie : jwt.Token)
      → start_session jwt normalized env now email role ≡ ok (session cookie)
      → Cookie now email role cookie
  unfolding start_session
  start_session-Cookie now email role cookie h =
      let (key, e, last) = >>=-eq-ok (secret env) _ h in
      record { key = key; is_key = e; encoded = session-injective (sym (ok-injective last)) }

  -- A session is granted to an enabled user of the table that the callback leaves.
  record IsGranted (now : ℤ) (email : String) (users' : Users) (cookie : jwt.Token) : Type 0 where
    user : User
    known : get_user normalized email users' ≡ some user
    minted : Cookie now email user.role cookie

  get_user-upsert_admin :
      (email : String) (users : Users)
      → get_user normalized email (upsert_user normalized email "admin" true users)
        ≡ some (record { email = normalized email; role = "admin" })
  unfolding get_user upsert_user
  get_user-upsert_admin email users = rw (find-put_self) refl

  admit-IsGranted :
      (now : ℤ) (email : String) (cookie : jwt.Token) (users users' : Users) (found : Option User)
      → get_user normalized email users ≡ found
      → admit jwt normalized env now email users found ≡ (users', ok (session cookie))
      → IsGranted now email users' cookie
  unfolding admit
  admit-IsGranted now email cookie users users' (some user) e h = record {
    user = user;
    known = ap (get_user normalized email) (sym (ap (λ x. x.0) h)) ∙ e;
    minted = start_session-Cookie now email user.role cookie (ap (λ x. x.1) h);
  }
  admit-IsGranted now email cookie users users' none e h =
      elim (Bool-cases (member email env.bootstrap_admins)) [
        | inl b ↦
            let h' = rw b at h in
            record {
              user = record { email = normalized email; role = "admin" };
              known =
                  ap (get_user normalized email) (sym (ap (λ x. x.0) h'))
                  ∙ get_user-upsert_admin email users;
              minted = start_session-Cookie now email "admin" cookie (ap (λ x. x.1) h');
            }
        | inr b ↦ let refused = ap (λ x. x.1) (rw b at h) in cc
      ]

  session_principal-Cookie :
      (now now' : ℤ) (email role : String) (cookie : jwt.Token)
      → enabled env ≡ true
      → Cookie now email role cookie
      → session_principal jwt normalized env now' (some cookie)
        ≡ ok (if leb_ℤ now' (now +ℤ session_ttl) then some (session_user email role) else none)
  unfolding session_principal cookie_principal claims_principal
  session_principal-Cookie now now' email role cookie on c =
      rw
        (
          on,
          c.encoded,
          jwt.is_empty-encode (session_claims now email role) c.key,
          c.is_key,
          jwt.decode-encode now' (session_claims now email role) c.key,
        )
        (at_time (leb_ℤ now' (now +ℤ session_ttl)))
    where
      at_time :
          (b : Bool)
          → claims_principal jwt normalized
              (if b then some (session_claims now email role) else none)
            ≡ ok (if b then some (session_user email role) else none)
      at_time true = refl
      at_time false = refl

  -- What follows from a session that the callback grants.
  pub record LogsIn (now now' : ℤ) (r : CallbackRequest) (users' : Users) (cookie : jwt.Token)
      : Type 0 where
    pub email : String
    pub identified : identify lower env r ≡ ok email
    pub state : same_state r.code r.state r.state_cookie ≡ true
    pub user : User
    pub known : get_user normalized email users' ≡ some user
    pub principal :
        session_principal jwt normalized env now' (some cookie)
        ≡ ok (if leb_ℤ now' (now +ℤ session_ttl) then some (session_user email user.role) else none)

  admit_email-LogsIn :
      (now now' : ℤ) (r : CallbackRequest) (users users' : Users) (cookie : jwt.Token)
      (i : Result String)
      → identify lower env r ≡ i
      → admit_email jwt normalized env now users i ≡ (users', ok (session cookie))
      → LogsIn now now' r users' cookie
  unfolding admit_email
  admit_email-LogsIn now now' r users users' cookie (err x) e h = let raised = ap (λ x. x.1) h in cc
  admit_email-LogsIn now now' r users users' cookie (ok email) e h =
      let g = admit-IsGranted now email cookie users users' _ refl h in
      let (on, same) = identify-same_state lower env r email e in
      record {
        email = email;
        identified = e;
        state = same;
        user = g.user;
        known = g.known;
        principal = session_principal-Cookie now now' email g.user.role cookie on g.minted;
      }

  -- The callback sets a session cookie only on a request with a code and with the state of this
  -- browser's login, for an e-mail that it identified and that belongs to an enabled user of the
  -- table which it leaves; for eight hours the cookie makes its bearer that e-mail with the role
  -- that the table has, whatever becomes of the user, and afterwards it makes nobody.
  pub callback-session_principal :
      (now now' : ℤ) (r : CallbackRequest) (users users' : Users) (cookie : jwt.Token)
      → callback jwt normalized lower env now r users ≡ (users', ok (session cookie))
      → LogsIn now now' r users' cookie
  unfolding callback
  callback-session_principal now now' r users users' cookie h =
      admit_email-LogsIn now now' r users users' cookie _ refl h
