-- ===== src/Examples/Config.antt =====
-- The configuration store, tokens and updates of connections at concrete inputs.
use postgres_s3_warehouse_sy.Prelude.{
  ◌≡◌, refl, String, Bool, true, false, none, some, List, [], ◌∷◌,
}
use postgres_s3_warehouse_sy.Prelude.Int.{ℤ, pos}
use postgres_s3_warehouse_sy.Common.Crypto.{Fernet, decrypt}
use postgres_s3_warehouse_sy.Common.Connections.{
  Options, Secrets, Connection, Row, SelectionItem, SelectionRow, Store,
}
use postgres_s3_warehouse_sy.Common.Connections.Selection.{
  selection_row, replace_selection, enabled_fqns,
}
use postgres_s3_warehouse_sy.Common.Connections.Selection.Enabled.{
  enabled_items, replace_selection-enabled_fqns,
}
use postgres_s3_warehouse_sy.Common.Connections.Spec.{Plain}
use postgres_s3_warehouse_sy.Common.Connections.Cached.{Shows}
use postgres_s3_warehouse_sy.Common.Connections.Runs.{
  Op, upsert, delete, list, get, set_objects, get_objects, run, spec_run, run-spec_run,
}
use postgres_s3_warehouse_sy.Common.Tokens.{
  TokenInfo, TokenRow, create_api_token, verify_api_token, revoke_api_token,
}
use postgres_s3_warehouse_sy.Common.Tokens.Changes as Tokens
use postgres_s3_warehouse_sy.Common.Tokens.Lifecycle.{
  verify_api_token-revoke_api_token, verify_api_token-create_api_token,
}
use postgres_s3_warehouse_sy.Common.Users.{clamped}

-- A cipher that leaves texts as they are.
abbrev pub fernet : Fernet
fernet = record {
  encrypt_text = λ s. s;
  decrypt_text = λ s. some s;
  decrypt_text-encrypt_text = λ s. refl;
}

abbrev pub options : Options
options = record {
  name = "sales";
  enabled = true;
  aws_region = "us-east-1";
  lake_bucket = "lake";
  iceberg_namespace = "sales_lake";
  sync_include = "";
  sync_exclude = "";
  sync_object_types = "TABLE";
  sync_schema_blacklist = "";
}

abbrev pub secrets : Secrets
secrets = record {
  source_dsn = some "postgresql://u:p@db:5432/sales?sslmode=require";
  aws_access_key = some "AK";
  aws_secret_key = some "SK";
}

abbrev no_secrets : Secrets
no_secrets = record { source_dsn = none; aws_access_key = none; aws_secret_key = none }

abbrev empty : Store
empty = record { rows = []; selection = []; cache = none }

abbrev empty_plain : Plain
empty_plain = record { conns = []; selection = [] }

empty-Shows : Shows fernet empty empty_plain
empty-Shows = record { views = tt; selection = refl; coherent = tt }

abbrev items : List SelectionItem
items =
    record { schema = "public"; name = "orders"; kind = none; enabled = none }
    ∷ record { schema = "public"; name = "logs"; kind = none; enabled = some false }
    ∷ []

-- A connection is created, read twice with an update without secrets between, and deleted.
abbrev ops : List (ℤ × Op)
ops =
    (pos 0, upsert (pos 1) none options secrets)
    ∷ (pos 1, get (pos 1))
    ∷ (pos 2, upsert (pos 2) (some (pos 1)) options no_secrets)
    ∷ (pos 3, get (pos 1))
    ∷ (pos 4, set_objects (pos 1) items)
    ∷ (pos 5, get_objects (pos 1))
    ∷ (pos 50, delete (pos 1))
    ∷ (pos 51, list false false)
    ∷ []

-- The order does not matter.
abbrev any_order : String → String → Bool
any_order a b = true

run-spec_run_example : run fernet any_order ops empty ≡ spec_run ops empty_plain
run-spec_run_example = run-spec_run fernet any_order ops empty empty_plain empty-Shows

abbrev row : Row
row = record { id = pos 1; options = options; stored = secrets }

abbrev pub conn : Connection
conn = record { id = pos 1; options = options; secrets = secrets }

-- A store with one connection, in the cache since time 0.
abbrev pub store : Store
store = record { rows = row ∷ []; selection = []; cache = some (pos 0, conn ∷ []) }

abbrev pub plain : Plain
plain = record { conns = conn ∷ []; selection = [] }

pub store-Shows : Shows fernet store plain
unfolding decrypt
store-Shows = record {
  views = (
    record { id = refl; options = refl; secrets = record { dsn = refl; ak = refl; sk = refl } },
    tt,
  );
  selection = refl;
  coherent = refl;
}

abbrev other_row : SelectionRow
other_row = record {
  connection_id = pos 2;
  schema = "public";
  name = "users";
  kind = "TABLE";
  enabled = true;
}

abbrev selected : List SelectionRow
selected =
    other_row
    ∷ selection_row (pos 1)
        (record { schema = "public"; name = "orders"; kind = none; enabled = none })
    ∷ selection_row (pos 1)
        (record { schema = "public"; name = "logs"; kind = none; enabled = some false })
    ∷ []

replace_selection-enabled_fqns_example :
    (enabled_fqns any_order (pos 1) selected ≡ enabled_items items)
    × (enabled_fqns any_order (pos 2) selected ≡ enabled_fqns any_order (pos 2) (other_row ∷ []))
unfolding replace_selection
replace_selection-enabled_fqns_example =
    replace_selection-enabled_fqns any_order true (pos 1) (pos 2) items (other_row ∷ []) selected
      refl refl

abbrev hash : String → String
hash token = token

abbrev before : List Tokens.Op
before = Tokens.create (pos 7) "abc" "ci" "ci@x" (pos 1) "owner" ∷ []

abbrev viewer : TokenInfo
viewer = record { id = pos 7; email = "ci@x"; connection_id = pos 1; role = "viewer" }

abbrev later : List Tokens.Op
later =
    Tokens.create (pos 8) "abc" "ci" "ci@x" (pos 1) "admin" ∷ Tokens.verify (pos 3) "vmt_abc" ∷ []

verify_api_token-revoke_api_token_example :
    (verify_api_token hash
      (pos 9)
      "vmt_abc"
      (Tokens.run hash later (revoke_api_token (pos 7) (Tokens.run hash before [])))).1
    ≡ none
unfolding verify_api_token create_api_token Tokens.run Tokens.step
verify_api_token-revoke_api_token_example =
    verify_api_token-revoke_api_token hash before later (pos 2) (pos 9) "vmt_abc" viewer refl

abbrev token_row : TokenRow
token_row = record {
  id = pos 7;
  name = "ci";
  email = "ci@x";
  connection_id = pos 1;
  role = "viewer";
  token_hash = "vmt_abc";
  token_prefix = "vmt_abc";
  last_used_at = none;
  revoked = false;
}

verify_api_token-create_api_token_example :
    (verify_api_token hash (pos 2) "vmt_abc" (token_row ∷ [])).1
    ≡ some (record { id = pos 7; email = "ci@x"; connection_id = pos 1; role = clamped "owner" })
unfolding create_api_token
verify_api_token-create_api_token_example =
    verify_api_token-create_api_token hash [] (token_row ∷ []) (pos 7) (pos 2) "abc" "ci" "ci@x"
      "owner" "vmt_abc" (pos 1) refl
