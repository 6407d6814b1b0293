-- ===== src/Gateway/App/Requests.antt =====
-- gateway/app.py: the endpoints that edit settings, tokens and users or launch a run, and, together
-- with those of connections and selections, the dispatch to them.
use text.Mathlib.Text.{◌==◌ as str_eq}
use postgres_s3_warehouse_sy.Prelude.{
  String, Bool, Option, none, some, List, [], ◌∷◌, any, if◌then◌else◌,
}
use postgres_s3_warehouse_sy.Prelude.Int.{ℤ}
use postgres_s3_warehouse_sy.Prelude.Result.{Result, ok, err, not_found, bad_gateway}
use postgres_s3_warehouse_sy.Prelude.Action.{Action, raise, lift, ◌>>=◌}
use postgres_s3_warehouse_sy.Prelude.Table.{put, string_key}
use postgres_s3_warehouse_sy.Common.Crypto.{Fernet}
use postgres_s3_warehouse_sy.Common.Dsn.{Libpq}
use postgres_s3_warehouse_sy.Common.Connections.{Connection, SelectionItem, get_connection}
use postgres_s3_warehouse_sy.Common.Tokens.{create_api_token, revoke_api_token}
use postgres_s3_warehouse_sy.Common.Users.{upsert_user, delete_user}
use postgres_s3_warehouse_sy.Gateway.Auth.{Principal, require_admin, enforce_connection_scope}
use postgres_s3_warehouse_sy.Gateway.App.{
  ConnectionIn, Outside, RunLaunch, World, on_store, create_connection, update_connection,
  delete_connection_endpoint, set_selection_endpoint,
}

pub record TokenIn : Type 0 where
  pub name : String
  pub email : String
  pub connection_id : ℤ
  pub role : String

pub record UserIn : Type 0 where
  pub email : String
  pub role : String
  pub enabled : Bool

-- EDITABLE_SETTING_KEYS of common/settings.py.
abbrev pub editable_setting_keys : List String
editable_setting_keys =
    "extract_rows_per_chunk" ∷ "extract_row_group_rows" ∷ "parquet_compression"
    ∷ "parquet_compression_level" ∷ "incremental_overlap_seconds" ∷ "incremental_safety_gap_seconds"
    ∷ "iceberg_catalog_name" ∷ "aws_region" ∷ "gateway_jwt_audience" ∷ "gateway_jwt_issuer"
    ∷ "gateway_jwks_url" ∷ "gateway_max_bytes_scanned" ∷ "gateway_query_timeout_seconds"
    ∷ "gateway_allowed_schemas" ∷ "gateway_view_refresh_seconds" ∷ "gateway_default_row_limit"
    ∷ "gateway_max_row_limit" ∷ "gateway_admin_sql_unrestricted" ∷ "sync_drop_removed_columns"
    ∷ "log_level" ∷ []

abbrev pub editable : String → Bool
editable key = any (λ k. str_eq k key) editable_setting_keys

-- `set_setting` on each key that may be edited.
pub save_settings : List (String × String) → List (String × String) → List (String × String)
save_settings [] settings = settings
save_settings ((key, value) ∷ values) settings =
    save_settings values (if editable key then put key value settings else settings)

abbrev stored_settings : List (String × String) → Action World (Unit {0})
stored_settings values w = (record w { settings = save_settings values w.settings }, ok tt)

unfoldable pub write_settings : Principal → List (String × String) → Action World (Unit {0})
write_settings principal values = do _ ← lift (require_admin principal); stored_settings values

abbrev revoked : ℤ → Action World (Unit {0})
revoked token_id w = (record w { tokens = revoke_api_token token_id w.tokens }, ok tt)

unfoldable pub revoke_token : Principal → ℤ → Action World (Unit {0})
revoke_token principal token_id = do _ ← lift (require_admin principal); revoked token_id

module _ (fernet : Result Fernet) (hash : String → String) (now : ℤ) where
  stored_token : ℤ → String → TokenIn → Action World String
  stored_token new_id random body w =
      elim (create_api_token hash new_id random body.name body.email body.connection_id body.role
        w.tokens) [ err e ↦ (w, err e) | ok saved ↦ (record w { tokens = saved.0 }, ok saved.1) ]

  token_for : ℤ → String → TokenIn → Option Connection → Action World String
  unfolding stored_token
  token_for new_id random body none = raise not_found
  token_for new_id random body (some c) = stored_token new_id random body

  -- Returns the plain token.
  unfoldable pub create_token : Principal → ℤ → String → TokenIn → Action World String
  unfolding token_for
  create_token principal new_id random body = do
    _ ← lift (require_admin principal)
    found ← on_store (get_connection fernet now body.connection_id)
    token_for new_id random body found

module _ (normalized : String → String) where
  abbrev user_stored : UserIn → Action World (Unit {0})
  user_stored body w =
      (record w { users = upsert_user normalized body.email body.role body.enabled w.users }, ok tt)

  unfoldable pub upsert_user_endpoint : Principal → UserIn → Action World (Unit {0})
  upsert_user_endpoint principal body = do _ ← lift (require_admin principal); user_stored body

  abbrev user_deleted : String → Action World (Unit {0})
  user_deleted email w = (record w { users = delete_user normalized email w.users }, ok tt)

  unfoldable pub delete_user_endpoint : Principal → String → Action World (Unit {0})
  delete_user_endpoint principal email = do _ ← lift (require_admin principal); user_deleted email

-- The launch with the client's answer: the id of the run, or what it raises.
launch : RunLaunch → Result String → Action World String
launch body (err e) w = (w, err bad_gateway)
launch body (ok run_id) w = (record w { launched = body ∷ w.launched }, ok run_id)

-- `launches` is the Dagster client's launch of a run in the body's mode.
unfoldable pub launch_run :
    (RunLaunch → Result String) → Principal → RunLaunch → Action World String
unfolding launch
launch_run launches principal body = do
  _ ← lift (require_admin principal)
  _ ← lift (enforce_connection_scope principal body.connection_id)
  launch body (launches body)

-- The requests that change the world, with the ids and the random text that they get.
pub data Request : Type 0 where
  post_connection : ℤ → ConnectionIn → Request
  put_connection : ℤ → ConnectionIn → Request
  delete_connection : ℤ → Request
  post_selection : ℤ → List SelectionItem → Request
  post_settings : List (String × String) → Request
  post_token : ℤ → String → TokenIn → Request
  delete_token : ℤ → Request
  post_user : UserIn → Request
  delete_user_request : String → Request
  post_run : RunLaunch → Request

-- What the answer says, apart from echoes of the request.
pub data Reply : Type 0 where
  id : ℤ → Reply
  token : String → Reply
  run : String → Reply
  accepted : Reply

abbrev pub answer {ℓ} : {A : Type ℓ} → (A → Reply) → World × Result A → World × Result Reply
answer reply (w, ok a) = (w, ok (reply a))
answer reply (w, err e) = (w, err e)

module _ (fernet : Result Fernet) (libpq : Libpq) (out : Outside)
    (hash normalized : String → String) (launches : RunLaunch → Result String) (now : ℤ) where
  unfoldable pub handle : Principal → Request → Action World Reply
  handle principal (post_connection new_id body) w =
      answer id (create_connection fernet libpq out now principal new_id body w)
  handle principal (put_connection connection_id body) w =
      answer id (update_connection fernet libpq out now principal connection_id body w)
  handle principal (delete_connection connection_id) w =
      answer id (delete_connection_endpoint principal connection_id w)
  handle principal (post_selection connection_id items) w =
      answer id (set_selection_endpoint principal connection_id items w)
  handle principal (post_settings values) w =
      answer (λ u. accepted) (write_settings principal values w)
  handle principal (post_token new_id random body) w =
      answer token (create_token fernet hash now principal new_id random body w)
  handle principal (delete_token token_id) w =
      answer (λ u. accepted) (revoke_token principal token_id w)
  handle principal (post_user body) w =
      answer (λ u. accepted) (upsert_user_endpoint normalized principal body w)
  handle principal (delete_user_request email) w =
      answer (λ u. accepted) (delete_user_endpoint normalized principal email w)
  handle principal (post_run body) w = answer run (launch_run launches principal body w)
