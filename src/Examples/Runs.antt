-- ===== src/Examples/Runs.antt =====
-- Logins, requests, views, columns and deletions of runs at concrete inputs.
use postgres_s3_warehouse_sy.Prelude.{
  ◌≡◌, refl, Bool, String, true, false, none, some, List, [], ◌∷◌, length, arith, ◌*◌,
  if◌then◌else◌,
}
use postgres_s3_warehouse_sy.Prelude.Int.{pos, leb_ℤ, ◌-ℤ◌, ◌+ℤ◌}
use postgres_s3_warehouse_sy.Prelude.Result.{Result, ok, err, forbidden, external}
use postgres_s3_warehouse_sy.Prelude.Table.{find, string_key, pair_key}
use postgres_s3_warehouse_sy.Common.Crypto.{encrypt}
use postgres_s3_warehouse_sy.Common.Dsn.{Libpq, Conninfo, IsRead, build_dsn, parse_dsn}
use postgres_s3_warehouse_sy.Common.Connections.{
  list_connections, get_connection, upsert_connection,
}
use postgres_s3_warehouse_sy.Common.Users.{Users, get_user}
use postgres_s3_warehouse_sy.Gateway.Auth.{Principal, require_admin, enforce_connection_scope}
use postgres_s3_warehouse_sy.Gateway.OAuth.{
  SessionClaims, SessionJwt, OAuthEnv, CallbackRequest, identify, callback, secret,
}
use postgres_s3_warehouse_sy.Gateway.OAuth.Sessions.{LogsIn, callback-session_principal}
use postgres_s3_warehouse_sy.Gateway.App.{
  ConnectionIn, Outside, RunLaunch, done, World, options_of, parts_of, ensure_bucket,
  validate_or_400, resolve_secrets, update_connection,
}
use postgres_s3_warehouse_sy.Gateway.App.Requests.{delete_connection, handle}
use postgres_s3_warehouse_sy.Gateway.App.Access.{handle-may}
use postgres_s3_warehouse_sy.Gateway.App.Updates.{KeepsSecrets, update_connection-KeepsSecrets}
use postgres_s3_warehouse_sy.Gateway.Dagster.{
  DeleteAnswer, deleted, graphql_error, take, delete_runs,
}
use postgres_s3_warehouse_sy.Gateway.Dagster.Deletions.{delete_runs-all, delete_runs-refused}
use postgres_s3_warehouse_sy.Gateway.Views.{Views, LakeCatalog}
use postgres_s3_warehouse_sy.Load.Columns.{Evolution, member, evolve_table_schema}
use postgres_s3_warehouse_sy.Load.Columns.Kept.{evolve_table_schema-left}
use postgres_s3_warehouse_sy.Examples.Config.{fernet, conn, store, plain, store-Shows}

abbrev two_runs : List String
two_runs = "r1" ∷ "r2" ∷ []

abbrev deletes : String → DeleteAnswer
deletes id = deleted

delete_runs-all_example : delete_runs deletes two_runs ≡ ([], 2)
delete_runs-all_example =
    delete_runs-all deletes (λ id. refl) two_runs (refl, (refl, tt)) (omega arith)

abbrev refuses : String → DeleteAnswer
refuses id = graphql_error

delete_runs-refused_example :
    delete_runs refuses two_runs ≡ (two_runs, 200 * length (take 100 two_runs))
delete_runs-refused_example = delete_runs-refused refuses (λ id. refl) "r1" ("r2" ∷ [])

-- Cookies that are not encoded at all.
abbrev jwt : SessionJwt
jwt = record {
  Token = SessionClaims × String;
  is_empty = λ t. false;
  encode = λ c secret. (c, secret);
  decode = λ now t secret. if leb_ℤ now t.0.exp then some t.0 else none;
  decode-encode = λ now c secret. refl;
  is_empty-encode = λ c secret. refl;
}

abbrev same : String → String
same s = s

abbrev env : OAuthEnv
env = record {
  azure_client_id = "client";
  azure_tenant_id = "tenant";
  session_secret = "s";
  bootstrap_admins = "root@x" ∷ [];
}

abbrev request : CallbackRequest
request = record {
  code = some "c";
  state = some "st";
  state_cookie = some "st";
  token_response = ok (record { status_code = pos 200; id_token = some "id" });
  unverified_claims =
      λ t. ok (record { email = some "ann@x"; preferred_username = none; upn = none });
}

abbrev users : Users
users = ("ann@x", record { role = "viewer"; enabled = true }) ∷ []

abbrev cookie : SessionClaims × String
cookie = (record { email = some "ann@x"; role = some "viewer"; exp = pos 28805 }, "s")

callback-session_principal_example : LogsIn jwt same same env (pos 5) (pos 6) request users cookie
unfolding callback identify get_user ◌+ℤ◌ find secret
callback-session_principal_example =
    callback-session_principal jwt same same env (pos 5) (pos 6) request users users cookie refl

abbrev conninfo : Conninfo
conninfo = record {
  host = some "db";
  port = some "5432";
  dbname = some "sales";
  user = some "u";
  password = some "p";
  sslmode = some "require";
}

abbrev libpq : Libpq
libpq = record {
  quote = same;
  int_text = λ n. "5432";
  read_int = λ s. some (pos 5432);
  conninfo_to_dict = λ s. some conninfo;
}

abbrev out : Outside
out = record {
  test_db = λ dsn. none;
  head_bucket = λ ak sk region bucket. done;
  create_bucket = λ ak sk region bucket location. done;
  custom_endpoint = false;
}

abbrev admin : Principal
admin = record { sub = "ann"; roles = "admin" ∷ []; email = "ann@x"; connection_id = none }

abbrev scoped : Principal
scoped = record { sub = "ci"; roles = "admin" ∷ []; email = ""; connection_id = some (pos 2) }

abbrev world : World
world = record { store = store; tokens = []; users = users; settings = []; launched = [] }

abbrev no_launch : RunLaunch → Result String
no_launch body = err external

handle-may_example :
    handle
      (ok fernet)
      libpq
      out
      same
      same
      no_launch
      (pos 3)
      scoped
      (delete_connection (pos 1))
      world
    ≡ (world, err forbidden)
handle-may_example =
    handle-may (ok fernet) libpq out same same no_launch (pos 3) scoped (delete_connection (pos 1))
      world refl

-- The database is moved, the secrets are left blank.
abbrev body : ConnectionIn
body = record {
  name = "sales";
  enabled = true;
  db_host = some "db";
  db_port = pos 5432;
  db_name = some "sales";
  db_user = some "u";
  db_password = some "";
  db_sslmode = "require";
  aws_access_key = none;
  aws_secret_key = none;
  aws_region = "us-east-1";
  lake_bucket = "lake";
  iceberg_namespace = "sales_lake";
}

libpq-IsRead : IsRead libpq (parts_of libpq body (some conn))
unfolding parts_of parse_dsn
libpq-IsRead = record {
  conninfo = conninfo;
  read = refl;
  host = refl;
  dbname = refl;
  user = refl;
  password = refl;
  sslmode = refl;
  port = refl;
  read_port = refl;
}

-- The secrets are encrypted again.
abbrev world_after : World
world_after = record world {
  store = record {
    rows =
        record {
          id = pos 1;
          options = options_of body;
          stored = record {
            source_dsn = some "enc:v1:postgresql://u:p@db:5432/sales?sslmode=require";
            aws_access_key = some "enc:v1:AK";
            aws_secret_key = some "enc:v1:SK";
          };
        }
        ∷ [];
    selection = [];
    cache = none;
  };
}

update_connection-KeepsSecrets_example :
    KeepsSecrets fernet libpq out (pos 3) (pos 1) body conn world_after
unfolding update_connection list_connections get_connection upsert_connection encrypt require_admin
    enforce_connection_scope ensure_bucket validate_or_400 resolve_secrets parts_of build_dsn
    parse_dsn ◌-ℤ◌
update_connection-KeepsSecrets_example =
    update_connection-KeepsSecrets fernet libpq out (pos 3) admin (pos 1) body conn world
      world_after plain (pos 1) store-Shows refl refl refl refl libpq-IsRead refl refl refl

-- A connection whose catalog has one table, and the views of before: of a table that is gone, and of
-- another schema.
abbrev lake : LakeCatalog
lake = record {
  list_tables = λ c. ok ("orders" ∷ []);
  load_table = λ c name. ok "s3://lake/2.json";
}

abbrev views : Views
views =
    (("sales_lake", "orders"), "s3://lake/1.json")
    ∷ (("sales_lake", "old"), "s3://lake/0.json")
    ∷ (("other", "x"), "s3://x/0.json")
    ∷ []

abbrev always : String → String → String → Bool
always ns name location = true

-- A table loses the column that the source lacks and keeps the one that its partitions come from.
abbrev evolution : Evolution
evolution = record {
  load_first = ok tt;
  load_second = ok tt;
  load_last = ok tt;
  union_by_name = λ columns source. ok columns;
  partition_columns = ok (some "day") ∷ [];
  deletes = true;
}

evolve_table_schema-left_example :
    member "day"
      (evolve_table_schema evolution true ("id" ∷ []) ("id" ∷ []) ("id" ∷ "gone" ∷ "day" ∷ [])).0
    ≡ true
evolve_table_schema-left_example =
    evolve_table_schema-left evolution ("id" ∷ []) ("id" ∷ []) "day" true
      ("id" ∷ "gone" ∷ "day" ∷ []) refl refl
