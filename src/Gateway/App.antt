-- ===== src/Gateway/App.antt =====
-- gateway/app.py: the endpoints for connections, over the configuration store. The tests of the
-- database and of the bucket are arguments.
pub mod Requests
pub mod Access
pub mod Updates
pub mod Sql
use text.Mathlib.Text.{◌==◌ as str_eq}
use postgres_s3_warehouse_sy.Prelude.{
  String, Bool, true, false, not, ◌&&◌, ◌||◌, Option, none, some, List, if◌then◌else◌, truthy, map,
  length,
}
use postgres_s3_warehouse_sy.Prelude.Int.{ℤ, pos, eqb_ℤ}
use postgres_s3_warehouse_sy.Prelude.Result.{Result, ok, err, bad_request, not_found, require}
use postgres_s3_warehouse_sy.Prelude.Action.{Action, return, raise, lift, ◌>>=◌}
use postgres_s3_warehouse_sy.Common.Crypto.{Fernet}
use postgres_s3_warehouse_sy.Common.Dsn.{DbParts, Libpq, build_dsn, parse_dsn}
use postgres_s3_warehouse_sy.Common.Connections.{
  Options, Secrets, Connection, SelectionItem, Store, get_connection, upsert_connection,
  delete_connection,
}
use postgres_s3_warehouse_sy.Common.Connections.Selection.{set_selection}
use postgres_s3_warehouse_sy.Common.Tokens.{TokenRow}
use postgres_s3_warehouse_sy.Common.Users.{Users}
use postgres_s3_warehouse_sy.Gateway.Auth.{Principal, require_admin, enforce_connection_scope}

-- The body of the requests that save a connection.
pub record ConnectionIn : Type 0 where
  pub name : String
  pub enabled : Bool
  pub db_host : Option String
  pub db_port : ℤ
  pub db_name : Option String
  pub db_user : Option String
  pub db_password : Option String
  pub db_sslmode : String
  pub aws_access_key : Option String
  pub aws_secret_key : Option String
  pub aws_region : String
  pub lake_bucket : String
  pub iceberg_namespace : String

-- botocore's ClientError: its code and the HTTP status, where the response has them.
pub record ClientError : Type 0 where
  pub code : String
  pub status : Option ℤ

-- What calls of S3 end with: success, a ClientError, any other exception, with its text.
pub data S3Answer : Type 0 where
  done : S3Answer
  client_error : ClientError → S3Answer
  exception : String → S3Answer

-- The database and the buckets. `head_bucket` has the keys, the region and the bucket, and
-- `create_bucket` its location constraint too; `none` is a database test that passes.
pub record Outside : Type 0 where
  pub test_db : String → Option String
  pub head_bucket : Option String → Option String → String → String → S3Answer
  pub create_bucket : Option String → Option String → String → String → Option String → S3Answer
  -- AWS_ENDPOINT_URL is set.
  pub custom_endpoint : Bool

-- The body of a request that launches a run.
pub record RunLaunch : Type 0 where
  pub connection_id : ℤ
  pub table_fqn : String
  pub mode : String

-- The state of the gateway that the endpoints change: the configuration store, the tokens, the
-- users, the settings, and the runs that Dagster was told to launch.
pub record World : Type 0 where
  pub store : Store
  pub tokens : List TokenRow
  pub users : Users
  pub settings : List (String × String)
  pub launched : List RunLaunch

abbrev pub is_set : Option String → Bool
is_set none = false
is_set (some s) = truthy s

-- `a or b`
abbrev pub or_value : Option String → Option String → Option String
or_value a b = if is_set a then a else b

abbrev pub or_string : Option String → String → String
or_string none b = b
or_string (some a) b = if truthy a then a else b

abbrev bucket_missing : ClientError → Bool
bucket_missing e = str_eq e.code "404" || str_eq e.code "NoSuchBucket" || is_404 e.status
  where
    is_404 : Option ℤ → Bool
    is_404 none = false
    is_404 (some status) = eqb_ℤ status (pos 404)

-- us-east-1 and a custom endpoint take no constraint.
abbrev location : Bool → String → Option String
location custom_endpoint region =
    if truthy region && not (str_eq region "us-east-1") && not custom_endpoint
    then some region
    else none

created : S3Answer → Bool
created done = true
created (client_error e) = str_eq e.code "BucketAlreadyOwnedByYou"
created (exception text) = not (truthy text)

-- Whether `_ensure_bucket` returns no error, or an empty one.
unfoldable pub ensure_bucket : Outside → Option String → Option String → String → String → Bool
unfolding created
ensure_bucket out ak sk region bucket = elim (out.head_bucket ak sk region bucket) [
  | done ↦ true
  | exception text ↦ not (truthy text)
  | client_error e ↦
      bucket_missing e
      && created (out.create_bucket ak sk region bucket (location out.custom_endpoint region))
]

abbrev no_error : Option String → Bool
no_error none = true
no_error (some e) = not (truthy e)

abbrev pub options_of : ConnectionIn → Options
options_of body = record {
  name = body.name;
  enabled = body.enabled;
  aws_region = body.aws_region;
  lake_bucket = body.lake_bucket;
  iceberg_namespace = body.iceberg_namespace;
  sync_include = "";
  sync_exclude = "";
  sync_object_types = "TABLE,VIEW,MATERIALIZED_VIEW";
  sync_schema_blacklist = "pg_catalog,information_schema,pg_toast";
}

module _ (libpq : Libpq) where
  stored_password : Option Connection → String
  stored_password none = ""
  stored_password (some c) = (parse_dsn libpq c.secrets.source_dsn).db_password

  abbrev old_access_key : Option Connection → Option String
  old_access_key none = none
  old_access_key (some c) = c.secrets.aws_access_key

  abbrev old_secret_key : Option Connection → Option String
  old_secret_key none = none
  old_secret_key (some c) = c.secrets.aws_secret_key

  unfoldable pub parts_of : ConnectionIn → Option Connection → DbParts
  unfolding stored_password
  parts_of body existing = record {
    db_host = or_string body.db_host "";
    db_port = body.db_port;
    db_name = or_string body.db_name "";
    db_user = or_string body.db_user "";
    db_password = or_string body.db_password (stored_password existing);
    db_sslmode = body.db_sslmode;
  }

  unfoldable pub resolve_secrets : ConnectionIn → Option Connection → Secrets
  unfolding parts_of
  resolve_secrets body existing = record {
    source_dsn = some (build_dsn libpq (parts_of body existing));
    aws_access_key = or_value body.aws_access_key (old_access_key existing);
    aws_secret_key = or_value body.aws_secret_key (old_secret_key existing);
  }

  unfoldable pub validate_or_400 : Outside → ConnectionIn → Option Connection → Result Secrets
  unfolding resolve_secrets
  validate_or_400 out body existing = checked (resolve_secrets body existing)
    where
      tested : Secrets → Bool
      tested s =
          no_error (out.test_db (build_dsn libpq (parts_of body existing)))
          && truthy body.lake_bucket
          && ensure_bucket out s.aws_access_key s.aws_secret_key body.aws_region body.lake_bucket

      checked : Secrets → Result Secrets
      checked s = if tested s then ok s else err bad_request

-- A call on the store, in a handler.
abbrev pub on_store : {A : Type 0} → (Store → Result (Store × A)) → Action World A
on_store call w = elim (call w.store) [
  | err e ↦ (w, err e)
  | ok saved ↦ (record w { store = saved.0 }, ok saved.1)
]

module _ (fernet : Result Fernet) (libpq : Libpq) (out : Outside) (now : ℤ) where
  pub create_connection : Principal → ℤ → ConnectionIn → Action World ℤ
  unfolding validate_or_400
  create_connection principal new_id body = do
    _ ← lift (require_admin principal)
    _ ← lift (
        require
          (is_set body.db_host
            && is_set body.db_name
            && is_set body.db_user
            && is_set body.db_password)
          bad_request)
    _ ← lift (require (is_set body.aws_access_key && is_set body.aws_secret_key) bad_request)
    secrets ← lift (validate_or_400 libpq out body none)
    on_store (upsert_connection fernet new_id none (options_of body) secrets)

  update_found : ℤ → ConnectionIn → Option Connection → Action World ℤ
  unfolding validate_or_400
  update_found connection_id body none = raise not_found
  update_found connection_id body (some existing) = do
    secrets ← lift (validate_or_400 libpq out body (some existing))
    on_store (upsert_connection fernet connection_id (some connection_id) (options_of body) secrets)

  unfoldable pub update_connection : Principal → ℤ → ConnectionIn → Action World ℤ
  unfolding update_found
  update_connection principal connection_id body = do
    _ ← lift (require_admin principal)
    _ ← lift (enforce_connection_scope principal connection_id)
    existing ← on_store (get_connection fernet now connection_id)
    update_found connection_id body existing

abbrev delete_stored : ℤ → Action World ℤ
delete_stored connection_id w =
    (record w { store = delete_connection connection_id w.store }, ok connection_id)

pub delete_connection_endpoint : Principal → ℤ → Action World ℤ
delete_connection_endpoint principal connection_id = do
  _ ← lift (require_admin principal)
  _ ← lift (enforce_connection_scope principal connection_id)
  delete_stored connection_id

abbrev select_stored : ℤ → List SelectionItem → Store → Result (Store × ℤ)
select_stored connection_id items s = elim (set_selection connection_id items s) [
  | err e ↦ err e
  | ok s' ↦ ok (s', pos (length items))
]

pub set_selection_endpoint : Principal → ℤ → List SelectionItem → Action World ℤ
set_selection_endpoint principal connection_id items = do
  _ ← lift (require_admin principal)
  _ ← lift (enforce_connection_scope principal connection_id)
  on_store (select_stored connection_id items)
