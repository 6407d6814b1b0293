-- ===== src/Gateway/App/Access.antt =====
-- Who can change anything through gateway/app.py.
use postgres_s3_warehouse_sy.Prelude.{
  ◌≡◌, refl, inl, inr, ◌⊎◌, String, Bool, true, false, ◌&&◌, Option, none, some,
}
use postgres_s3_warehouse_sy.Prelude.Int.{ℤ}
use postgres_s3_warehouse_sy.Prelude.Result.{Result, ok, err, forbidden}
use postgres_s3_warehouse_sy.Common.Crypto.{Fernet}
use postgres_s3_warehouse_sy.Common.Dsn.{Libpq}
use postgres_s3_warehouse_sy.Gateway.Auth.{
  Principal, is_admin, in_scope, require_admin, enforce_connection_scope,
}
use postgres_s3_warehouse_sy.Gateway.App.{
  Outside, RunLaunch, World, create_connection, update_connection, delete_connection_endpoint,
  set_selection_endpoint,
}
use postgres_s3_warehouse_sy.Gateway.App.Requests.{
  Request, TokenIn, post_connection, put_connection, delete_connection, post_selection,
  post_settings, post_token, delete_token, post_user, delete_user_request, post_run, launch_run,
  handle, write_settings, revoke_token, create_token, upsert_user_endpoint, delete_user_endpoint,
}

-- The connection that a request names in its path, or in the body of a launch.
abbrev pub path_connection : Request → Option ℤ
path_connection (put_connection c body) = some c
path_connection (delete_connection c) = some c
path_connection (post_selection c items) = some c
path_connection (post_run body) = some body.connection_id
path_connection _ = none

abbrev covers : Principal → Option ℤ → Bool
covers p none = true
covers p (some c) = in_scope p.connection_id c

-- An admin, who is not scoped to another connection than the one that the request names so.
abbrev pub may : Principal → Request → Bool
may p r = is_admin p && covers p (path_connection r)

pub admin_refused : (p : Principal) → is_admin p ≡ false → require_admin p ≡ err forbidden
unfolding require_admin
admin_refused p e = rw e refl

pub admin_passed : (p : Principal) → is_admin p ≡ true → require_admin p ≡ ok p
unfolding require_admin
admin_passed p e = rw e refl

pub scope_refused :
    (p : Principal) (c : ℤ)
    → in_scope p.connection_id c ≡ false
    → enforce_connection_scope p c ≡ err forbidden
unfolding enforce_connection_scope
scope_refused p c e = rw e refl

pub and-false : (a b : Bool) → (a && b) ≡ false → (a ≡ false) ⊎ ((a ≡ true) × (b ≡ false))
and-false true b e = inr (refl, e)
and-false false b e = inl refl

module _ (fernet : Result Fernet) (libpq : Libpq) (out : Outside)
    (hash normalized : String → String) (launches : RunLaunch → Result String) (now : ℤ) where
  not_admin :
      (p : Principal) (r : Request) (w : World)
      → require_admin p ≡ err forbidden
      → handle fernet libpq out hash normalized launches now p r w ≡ (w, err forbidden)
  unfolding handle create_connection update_connection delete_connection_endpoint
      set_selection_endpoint write_settings create_token revoke_token upsert_user_endpoint
      delete_user_endpoint launch_run
  not_admin p (post_connection new_id body) w e = rw e refl
  not_admin p (put_connection c body) w e = rw e refl
  not_admin p (delete_connection c) w e = rw e refl
  not_admin p (post_selection c items) w e = rw e refl
  not_admin p (post_settings values) w e = rw e refl
  not_admin p (post_token new_id random body) w e = rw e refl
  not_admin p (delete_token id) w e = rw e refl
  not_admin p (post_user body) w e = rw e refl
  not_admin p (delete_user_request email) w e = rw e refl
  not_admin p (post_run body) w e = rw e refl

  out_of_scope :
      (p : Principal) (r : Request) (w : World)
      → require_admin p ≡ ok p
      → covers p (path_connection r) ≡ false
      → handle fernet libpq out hash normalized launches now p r w ≡ (w, err forbidden)
  unfolding handle update_connection delete_connection_endpoint set_selection_endpoint launch_run
  out_of_scope p (put_connection c body) w a e = rw (a, scope_refused p c e) refl
  out_of_scope p (delete_connection c) w a e = rw (a, scope_refused p c e) refl
  out_of_scope p (post_selection c items) w a e = rw (a, scope_refused p c e) refl
  out_of_scope p (post_connection new_id body) w a e = cc
  out_of_scope p (post_settings values) w a e = cc
  out_of_scope p (post_token new_id random body) w a e = cc
  out_of_scope p (delete_token id) w a e = cc
  out_of_scope p (post_user body) w a e = cc
  out_of_scope p (delete_user_request email) w a e = cc
  out_of_scope p (post_run body) w a e = rw (a, scope_refused p body.connection_id e) refl

  -- A request that saves or deletes a connection, replaces a selection, edits settings, creates or
  -- revokes a token, saves or deletes a user, or launches a run, is answered 403 and changes
  -- nothing, not even a cache, unless it comes from an admin, who is not scoped to another
  -- connection than the one that the path, or the body of a launch, names.
  pub handle-may :
      (p : Principal) (r : Request) (w : World)
      → may p r ≡ false
      → handle fernet libpq out hash normalized launches now p r w ≡ (w, err forbidden)
  handle-may p r w e = elim (and-false (is_admin p) (covers p (path_connection r)) e) [
    | inl not ↦ not_admin p r w (admin_refused p not)
    | inr both ↦ out_of_scope p r w (admin_passed p both.0) both.1
  ]

  -- Two admins get the same answer to a request for a token, and leave the same world, whatever
  -- connection each of them is scoped to: an admin who is scoped to one connection creates tokens
  -- for any other.
  pub create_token_unscoped :
      (p q : Principal) (new_id : ℤ) (random : String) (body : TokenIn) (w : World)
      → is_admin p ≡ true
      → is_admin q ≡ true
      → create_token fernet hash now p new_id random body w
        ≡ create_token fernet hash now q new_id random body w
  unfolding create_token
  create_token_unscoped p q new_id random body w a b = rw (admin_passed p a, admin_passed q b) refl
