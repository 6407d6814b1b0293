-- ===== src/Gateway/Auth/Origins.antt =====
-- Where a principal can come from.
use mathlib.Core.List.{Memᴰ}
use postgres_s3_warehouse_sy.Prelude.{
  Bool, Bool-cases, find?, subst, eq_iff, [], ◌∷◌, ◌≡◌, ◌∙◌, refl, sym, ap, ◌⊎◌, inl, inr, String,
  true, Option, none, some, List, truthy,
}
use postgres_s3_warehouse_sy.Prelude.Result.{Result, ok, err, unauthorized, ok-injective}
use postgres_s3_warehouse_sy.Gateway.Auth.{
  Principal, ApiToken, Claims, same_kid, AuthSettings, Jose, subject_step, claims_step, key_step,
  header_step, keys_step, verify_with_jwks, verify_jwt, open_mode, bearer_or_open,
  session_or_bearer, token_principal, token_or, look_up, current_principal,
}

some_injective : {A : Type 0} {x y : A} → some x ≡ some y → x ≡ y
some_injective same = cc

-- What a search finds is in the list and passes the test.
find?-some :
    {A : Type 0} (p : A → Bool) (x : A) (xs : List A)
    → find? p xs ≡ some x
    → Memᴰ x xs × (p x ≡ true)
find?-some p x [] h = cc
find?-some p x (y ∷ ys) h = elim (Bool-cases (p y)) [
  | inl e ↦
      let is : y ≡ x = some_injective (rw e at h) in
      (Memᴰ.head (sym is), subst (λ z. p z ≡ true) is e)
  | inr e ↦ let (later, named) = find?-some p x ys (rw e at h) in (Memᴰ.tail later, named)
]

same_kid→eq : (a b : Option String) → same_kid a b ≡ true → a ≡ b
same_kid→eq none none h = refl
same_kid→eq (some a) (some b) h = ap (λ x. some x) ((eq_iff a b).0 h)
same_kid→eq none (some b) h = cc
same_kid→eq (some a) none h = cc

module _ (jose : Jose) (jwks : Result (List jose.Jwk)) where
  -- Claims that the library has verified with a key of the JWKS that has the token's key id.
  pub record Verified (token : String) (p : Principal) : Type 0 where
    pub key : jose.Jwk
    pub keys : List jose.Jwk
    pub answered : jwks ≡ ok keys
    pub listed : Memᴰ key keys
    pub kid : Option String
    pub header : jose.unverified_kid token ≡ some kid
    pub is_named : jose.kid key ≡ kid
    pub claims : Claims
    pub decoded : jose.decode token key ≡ some claims
    pub same_roles : p.roles ≡ claims.roles
    pub subject : claims.sub ≡ some p.sub
    pub unscoped : p.connection_id ≡ none

  -- A key of the JWKS for the token's header.
  record Chosen (token : String) (key : jose.Jwk) : Type 0 where
    keys : List jose.Jwk
    answered : jwks ≡ ok keys
    listed : Memᴰ key keys
    kid : Option String
    header : jose.unverified_kid token ≡ some kid
    is_named : jose.kid key ≡ kid

  subject-Verified :
      (token : String) (key : jose.Jwk) (c : Claims) (sub : Option String) (p : Principal)
      → Chosen token key
      → jose.decode token key ≡ some c
      → c.sub ≡ sub
      → subject_step jose jwks c sub ≡ ok p
      → Verified token p
  unfolding subject_step
  subject-Verified token key c none p chosen hd hs h = cc
  subject-Verified token key c (some sub) p chosen hd hs h =
      let e = ok-injective h in
      record {
        key = key;
        keys = chosen.keys;
        answered = chosen.answered;
        listed = chosen.listed;
        kid = chosen.kid;
        header = chosen.header;
        is_named = chosen.is_named;
        claims = c;
        decoded = hd;
        same_roles = ap (λ q. q.roles) (sym e);
        subject = hs ∙ ap (λ q. some q.sub) e;
        unscoped = ap (λ q. q.connection_id) (sym e);
      }

  claims-Verified :
      (token : String) (key : jose.Jwk) (c : Option Claims) (p : Principal)
      → Chosen token key
      → jose.decode token key ≡ c
      → claims_step jose jwks c ≡ ok p
      → Verified token p
  unfolding claims_step
  claims-Verified token key none p chosen hd h = cc
  claims-Verified token key (some c) p chosen hd h =
      subject-Verified token key c c.sub p chosen hd refl h

  key-Verified :
      (token : String) (key : Option jose.Jwk) (p : Principal)
      → ((k : jose.Jwk) → key ≡ some k → Chosen token k)
      → key_step jose jwks token key ≡ ok p
      → Verified token p
  unfolding key_step
  key-Verified token none p chosen h = cc
  key-Verified token (some key) p chosen h = claims-Verified token key _ p (chosen key refl) refl h

  header-Verified :
      (token : String) (keys : List jose.Jwk) (kid : Option (Option String)) (p : Principal)
      → jwks ≡ ok keys
      → jose.unverified_kid token ≡ kid
      → header_step jose jwks token keys kid ≡ ok p
      → Verified token p
  unfolding header_step
  header-Verified token keys none p a hk h = cc
  header-Verified token keys (some kid) p a hk h =
      key-Verified token _ p
        (λ k e.
          let (listed, named) = find?-some (λ j. same_kid (jose.kid j) kid) k keys e in
          record {
            keys = keys;
            answered = a;
            listed = listed;
            kid = kid;
            header = hk;
            is_named = same_kid→eq (jose.kid k) kid named;
          })
        h

  keys-Verified :
      (token : String) (answer : Result (List jose.Jwk)) (p : Principal)
      → jwks ≡ answer
      → keys_step jose jwks token answer ≡ ok p
      → Verified token p
  unfolding keys_step
  keys-Verified token (err e) p a h = cc
  keys-Verified token (ok keys) p a h = header-Verified token keys _ p a refl h

  verify_with_jwks-Verified :
      (token : String) (p : Principal) → verify_with_jwks jose jwks token ≡ ok p → Verified token p
  unfolding verify_with_jwks
  verify_with_jwks-Verified token p h = keys-Verified token jwks p refl h

  -- A principal's origin where a JWKS is configured.
  abbrev pub Comes :
      (String → Option ApiToken) → Option Principal → Option String → Principal → Type 0
  Comes verify_api_token session creds p =
      ((t : ApiToken) × (look_up verify_api_token creds ≡ some t) × (p ≡ token_principal t))
      ⊎ (session ≡ some p)
      ⊎ ((token : String) × (creds ≡ some token) × Verified token p)

  bearer-Verified :
      (s : AuthSettings) (creds : Option String) (p : Principal)
      → truthy s.jwks_url ≡ true
      → bearer_or_open jose jwks s creds ≡ ok p
      → (token : String) × (creds ≡ some token) × Verified token p
  unfolding bearer_or_open verify_jwt open_mode
  bearer-Verified s none p on h = absurd (closed (rw on at h))
    where
      closed : err unauthorized ≡ ok p → ⊥
      closed e = cc
  bearer-Verified s (some token) p on h =
      (token, refl, verify_with_jwks-Verified token p (rw on at h))

  session-Comes :
      (v : String → Option ApiToken) (s : AuthSettings) (session : Option Principal)
      (creds : Option String) (p : Principal)
      → truthy s.jwks_url ≡ true
      → session_or_bearer jose jwks s session creds ≡ ok p
      → Comes v session creds p
  unfolding session_or_bearer
  session-Comes v s (some q) creds p on h = inr (inl (ap (λ x. some x) (ok-injective h)))
  session-Comes v s none creds p on h = inr (inr (bearer-Verified s creds p on h))

  token-Comes :
      (v : String → Option ApiToken) (s : AuthSettings) (session : Option Principal)
      (creds : Option String) (p : Principal) (t : Option ApiToken)
      → truthy s.jwks_url ≡ true
      → look_up v creds ≡ t
      → token_or t (session_or_bearer jose jwks s session creds) ≡ ok p
      → Comes v session creds p
  unfolding token_or
  token-Comes v s session creds p (some t) on e h = inl (t, e, sym (ok-injective h))
  token-Comes v s session creds p none on e h = session-Comes v s session creds p on h

  -- Where a JWKS URL is configured, every principal comes from a row of the token store for the
  -- bearer token, from the session, or from a bearer token that was verified with a key of the JWKS
  -- that has the key id of the token's header, whose roles and subject it has: nobody is anonymous
  -- and no claim is taken unverified.
  pub current_principal-Comes :
      (v : String → Option ApiToken) (s : AuthSettings) (session : Option Principal)
      (creds : Option String) (p : Principal)
      → truthy s.jwks_url ≡ true
      → current_principal jose jwks v s session creds ≡ ok p
      → Comes v session creds p
  unfolding current_principal
  current_principal-Comes v s session creds p on h = token-Comes v s session creds p _ on refl h
