-- ===== src/Gateway/App/Updates.antt =====
-- What saving a connection through gateway/app.py keeps.
use postgres_s3_warehouse_sy.Prelude.{
  ◌≡◌, refl, ap, sym, ◌∙◌, subst, inl, inr, String, Bool, true, false, not, Option, none, some,
  List, [], ◌∷◌, map, find?, if◌then◌else◌, Bool-cases, truthy,
}
use postgres_s3_warehouse_sy.Prelude.Int.{ℤ, eqb_ℤ}
use postgres_s3_warehouse_sy.Prelude.Result.{
  Result, ok, err, constraint_violation, bad_request, require_passed, ok-injective,
}
use postgres_s3_warehouse_sy.Prelude.Action.{Action, lift, ◌>>=◌, continue, lift_passed}
use postgres_s3_warehouse_sy.Common.Crypto.{Fernet}
use postgres_s3_warehouse_sy.Common.Dsn.{DbParts, Libpq, parse_dsn, IsRead, parse_dsn-build_dsn}
use postgres_s3_warehouse_sy.Common.Connections.{
  Options, Secrets, Connection, Store, get_connection, upsert_connection,
}
use postgres_s3_warehouse_sy.Common.Connections.Spec.{
  Plain, or_old, or_old_secrets, by_id, updated, taken, upserted,
}
use postgres_s3_warehouse_sy.Common.Connections.Cached.{Shows, Reads, get_connection-Reads}
use postgres_s3_warehouse_sy.Common.Connections.Writes.{Agrees, upsert-Agrees}
use postgres_s3_warehouse_sy.Gateway.Auth.{Principal, require_admin, enforce_connection_scope}
use postgres_s3_warehouse_sy.Gateway.App.{
  ConnectionIn, Outside, World, is_set, or_value, or_string, options_of, parts_of, stored_password,
  resolve_secrets, validate_or_400, on_store, update_found, update_connection,
}

-- A connection with other options, and with the secrets that are given.
abbrev pub saved_as : Options → Secrets → Connection → Connection
saved_as options secrets c = record c {
  options = options;
  secrets = or_old_secrets secrets c.secrets;
}

find?-map-updated :
    (c : ℤ) (options : Options) (secrets : Secrets) (conns : List Connection)
    (existing : Connection)
    → find? (λ x. eqb_ℤ x.id c) conns ≡ some existing
    → find? (λ x. eqb_ℤ x.id c) (map (updated c options secrets) conns)
      ≡ some (saved_as options secrets existing)
find?-map-updated c options secrets [] existing h = cc
find?-map-updated c options secrets (x ∷ conns) existing h = elim (Bool-cases (eqb_ℤ x.id c)) [
  | inl e ↦
      let h' = rw e at h in
      let is : x ≡ existing = cc in rw (e, e) (ap (λ y. some (saved_as options secrets y)) is)
  | inr e ↦ rw (e, e) (find?-map-updated c options secrets conns existing (rw e at h))
]

upserted-conns :
    (new_id c : ℤ) (options : Options) (secrets : Secrets) (p p' : Plain) (a : ℤ)
    → upserted new_id (some c) options secrets p ≡ ok (p', a)
    → p'.conns ≡ map (updated c options secrets) p.conns
upserted-conns new_id c options secrets p p' a h =
    let (free, last) =
      require_passed (not (taken (some c) options p.conns)) constraint_violation _ h in
    ap (λ x. x.0.conns) (sym (ok-injective last))

passed :
    (b : Bool) (s secrets : Secrets)
    → (if b then ok s else err bad_request) ≡ ok secrets
    → secrets ≡ s
passed true s secrets h = sym (ok-injective h)
passed false s secrets h = cc

module _ (f : Fernet) (libpq : Libpq) (out : Outside) (now : ℤ) where
  -- The store after the update shows a list in which the connection is as it was saved.
  pub record Saves (c : ℤ) (after : Connection) (w : World) : Type 0 where
    pub plain : Plain
    pub shows : Shows f w.store plain
    pub found : by_id c plain ≡ some after

  upsert-Saves :
      (c : ℤ) (options : Options) (secrets : Secrets) (existing : Connection) (w w' : World)
      (p : Plain) (a : ℤ) (x : Result (Plain × ℤ)) (y : Result (Store × ℤ))
      → by_id c p ≡ some existing
      → upserted c (some c) options secrets p ≡ x
      → Agrees f x y
      → on_store (λ s. y) w ≡ (w', ok a)
      → Saves c (saved_as options secrets existing) w'
  upsert-Saves c options secrets existing w w' p a (ok (p', b)) (ok (s', b')) known e agrees h =
      record {
        plain = p';
        shows = subst (λ s. Shows f s p') (ap (λ x. x.0.store) h) agrees.1;
        found =
            ap (find? (λ x. eqb_ℤ x.id c)) (upserted-conns c c options secrets p p' b e)
            ∙ find?-map-updated c options secrets p.conns existing known;
      }
  upsert-Saves c options secrets existing w w' p a (err z) (err z') known e agrees h =
      let raised = ap (λ x. x.1) h in cc
  upsert-Saves c options secrets existing w w' p a (ok x) (err z') known e agrees h = absurd agrees
  upsert-Saves c options secrets existing w w' p a (err z) (ok y) known e agrees h = absurd agrees

  validate-secrets :
      (body : ConnectionIn) (existing : Option Connection) (secrets : Secrets)
      → validate_or_400 libpq out body existing ≡ ok secrets
      → secrets ≡ resolve_secrets libpq body existing
  unfolding validate_or_400
  validate-secrets body existing secrets h = passed _ _ secrets h

  validated-Saves :
      (c : ℤ) (body : ConnectionIn) (existing : Connection) (w w' : World) (p : Plain) (a : ℤ)
      (r : Result Secrets)
      → Shows f w.store p
      → by_id c p ≡ some existing
      → validate_or_400 libpq out body (some existing) ≡ r
      → continue
          (λ secrets. on_store (upsert_connection (ok f) c (some c) (options_of body) secrets))
          (w, r)
        ≡ (w', ok a)
      → Saves c
          (saved_as (options_of body) (resolve_secrets libpq body (some existing)) existing)
          w'
  validated-Saves c body existing w w' p a (err e) shows known is h =
      let raised = ap (λ x. x.1) h in cc
  validated-Saves c body existing w w' p a (ok secrets) shows known is h =
      subst (λ s. Saves c (saved_as (options_of body) s existing) w')
        (validate-secrets body (some existing) secrets is)
        (upsert-Saves c (options_of body) secrets existing w w' p a _ _ known refl
          (upsert-Agrees f c (some c) (options_of body) secrets w.store p shows) h)

  update_found-Saves :
      (c : ℤ) (body : ConnectionIn) (existing : Connection) (w w' : World) (p : Plain) (a : ℤ)
      → Shows f w.store p
      → by_id c p ≡ some existing
      → update_found (ok f) libpq out now c body (some existing) w ≡ (w', ok a)
      → Saves c
          (saved_as (options_of body) (resolve_secrets libpq body (some existing)) existing)
          w'
  unfolding update_found
  update_found-Saves c body existing w w' p a shows known h =
      validated-Saves c body existing w w' p a _ shows known refl h

  looked_up-Saves :
      (c : ℤ) (body : ConnectionIn) (existing : Connection) (w w' : World) (p : Plain) (a : ℤ)
      (y : Result (Store × Option Connection))
      → Reads f p (some existing) y
      → by_id c p ≡ some existing
      → continue (update_found (ok f) libpq out now c body) (on_store (λ s. y) w) ≡ (w', ok a)
      → Saves c
          (saved_as (options_of body) (resolve_secrets libpq body (some existing)) existing)
          w'
  looked_up-Saves c body existing w w' p a y (s', e, shows) known h =
      update_found-Saves c body existing (record w { store = s' }) w' p a shows known (rw e at h)

  -- What an accepted update comes to.
  update-Saves :
      (principal : Principal) (c : ℤ) (body : ConnectionIn) (existing : Connection) (w w' : World)
      (p : Plain) (a : ℤ)
      → Shows f w.store p
      → by_id c p ≡ some existing
      → update_connection (ok f) libpq out now principal c body w ≡ (w', ok a)
      → Saves c
          (saved_as (options_of body) (resolve_secrets libpq body (some existing)) existing)
          w'
  unfolding update_connection
  update-Saves principal c body existing w w' p a shows known h =
      let (u, admin, h1) = lift_passed (require_admin principal) scoped w h in
      let (u', scope, h2) = lift_passed (enforce_connection_scope principal c) found w h1 in
      looked_up-Saves c body existing w w' p a _
        (subst (λ o. Reads f p o (get_connection (ok f) now c w.store)) known
          (get_connection-Reads f now c w.store p shows))
        known h2
    where
      found : Unit {0} → Action World ℤ
      found u = on_store (get_connection (ok f) now c) >>= update_found (ok f) libpq out now c body

      scoped : Principal → Action World ℤ
      scoped u = lift (enforce_connection_scope principal c) >>= found

  -- The password in a connection's DSN.
  abbrev password : Connection → String
  password c = (parse_dsn libpq c.secrets.source_dsn).db_password

  -- What an update with blank secrets keeps: the password in the DSN and the keys, under the new
  -- parts of the database and the new options.
  pub record KeepsSecrets (c : ℤ) (body : ConnectionIn) (existing : Connection) (w' : World)
      : Type 0 where
    pub after : Connection
    pub saves : Saves c after w'
    pub options : after.options ≡ options_of body
    pub dsn : parse_dsn libpq after.secrets.source_dsn ≡ parts_of libpq body (some existing)
    pub same_password : password after ≡ password existing
    pub same_access_key : after.secrets.aws_access_key ≡ existing.secrets.aws_access_key
    pub same_secret_key : after.secrets.aws_secret_key ≡ existing.secrets.aws_secret_key

  blank_value : (a b : Option String) → is_set a ≡ false → or_value a b ≡ b
  blank_value a b e = rw e refl

  or_old_same : (a : Option String) → or_old a a ≡ a
  or_old_same none = refl
  or_old_same (some s) = refl

  blank_string : (a : Option String) (b : String) → is_set a ≡ false → or_string a b ≡ b
  blank_string none b e = refl
  blank_string (some s) b e = rw e refl

  -- An update that succeeds and that leaves the password and both AWS keys blank keeps them: what
  -- the store then shows of the connection has the options and the database of the request, and the
  -- password and the keys of before, where libpq reads the DSN that is built.
  pub update_connection-KeepsSecrets :
      (principal : Principal) (c : ℤ) (body : ConnectionIn) (existing : Connection) (w w' : World)
      (p : Plain) (a : ℤ)
      → Shows f w.store p
      → by_id c p ≡ some existing
      → is_set body.db_password ≡ false
      → is_set body.aws_access_key ≡ false
      → is_set body.aws_secret_key ≡ false
      → IsRead libpq (parts_of libpq body (some existing))
      → truthy body.db_sslmode ≡ true
      → truthy (libpq.int_text body.db_port) ≡ true
      → update_connection (ok f) libpq out now principal c body w ≡ (w', ok a)
      → KeepsSecrets c body existing w'
  unfolding resolve_secrets parts_of stored_password
  update_connection-KeepsSecrets principal c body existing w w' p a shows known pw ak sk read mode
        port h =
      let parsed = parse_dsn-build_dsn libpq (parts_of libpq body (some existing)) read mode port in
      record {
        after = saved_as (options_of body) (resolve_secrets libpq body (some existing)) existing;
        saves = update-Saves principal c body existing w w' p a shows known h;
        options = refl;
        dsn = parsed;
        same_password =
            ap (λ (x : DbParts). x.db_password) parsed ∙ blank_string body.db_password _ pw;
        same_access_key =
            ap (λ x. or_old x existing.secrets.aws_access_key)
              (blank_value body.aws_access_key _ ak)
            ∙ or_old_same _;
        same_secret_key =
            ap (λ x. or_old x existing.secrets.aws_secret_key)
              (blank_value body.aws_secret_key _ sk)
            ∙ or_old_same _;
      }
