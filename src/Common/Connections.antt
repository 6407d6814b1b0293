-- ===== src/Common/Connections.antt =====
-- common/config_store.py: the source databases, their secrets encrypted, behind a cache of 30
-- seconds, and the selection of their objects, with the tables' constraints from
-- common/migrations.py. The clock columns (`created_at`, `updated_at`) are not modelled.
pub mod Spec
pub mod Cached
pub mod Writes
pub mod Selection
pub mod Runs
use Prim.Native.String.{◌++◌ as append}
use text.Mathlib.Text.{◌==◌ as str_eq}
use postgres_s3_warehouse_sy.Prelude.{
  String, Bool, true, false, not, ◌&&◌, ◌||◌, Option, none, some, List, [], ◌∷◌, ◌++◌, map, any,
  filter, find?, if◌then◌else◌, given,
}
use postgres_s3_warehouse_sy.Prelude.Int.{ℤ, pos, ◌-ℤ◌, leb_ℤ, eqb_ℤ}
use postgres_s3_warehouse_sy.Prelude.Result.{Result, ok, err, constraint_violation, ◌>>=◌, require}
use postgres_s3_warehouse_sy.Prelude.Table.{string_key, int_key, pair_key}
use postgres_s3_warehouse_sy.Common.Crypto.{Fernet, encrypt, decrypt}

-- The columns of a connection that are no secrets.
pub record Options : Type 0 where
  pub name : String
  pub enabled : Bool
  pub aws_region : String
  pub lake_bucket : String
  pub iceberg_namespace : String
  pub sync_include : String
  pub sync_exclude : String
  pub sync_object_types : String
  pub sync_schema_blacklist : String

pub record Secrets : Type 0 where
  pub source_dsn : Option String
  pub aws_access_key : Option String
  pub aws_secret_key : Option String

-- The secrets of a `Connection` are decrypted.
pub record Connection : Type 0 where
  pub id : ℤ
  pub options : Options
  pub secrets : Secrets

-- A row of pipeline_connections; its secrets are as they are stored.
pub record Row : Type 0 where
  pub id : ℤ
  pub options : Options
  pub stored : Secrets

pub record SelectionItem : Type 0 where
  pub schema : String
  pub name : String
  pub kind : Option String
  pub enabled : Option Bool

pub record SelectionRow : Type 0 where
  pub connection_id : ℤ
  pub schema : String
  pub name : String
  pub kind : String
  pub enabled : Bool

-- The two tables, the rows of the first in the order of their ids, and the process's cache, with
-- the time of its filling.
pub record Store : Type 0 where
  pub rows : List Row
  pub selection : List SelectionRow
  pub cache : Option (ℤ × List Connection)

abbrev pub same_name : Options → Options → Bool
same_name a b = str_eq a.name b.name || str_eq a.iceberg_namespace b.iceberg_namespace

-- SQL's COALESCE.
abbrev pub coalesce : Option String → Option String → Option String
coalesce none old = old
coalesce (some new) old = some new

abbrev pub coalesce_secrets : Secrets → Secrets → Secrets
coalesce_secrets new old = record {
  source_dsn = coalesce new.source_dsn old.source_dsn;
  aws_access_key = coalesce new.aws_access_key old.aws_access_key;
  aws_secret_key = coalesce new.aws_secret_key old.aws_secret_key;
}

-- UPDATE … WHERE id = …, on one row.
abbrev pub update_row : ℤ → Options → Secrets → Row → Row
update_row connection_id options stored r =
    if eqb_ℤ r.id connection_id
    then record r { options = options; stored = coalesce_secrets stored r.stored }
    else r

-- Another row that has the name or the namespace, which are UNIQUE.
abbrev pub clashes : ℤ → Options → Row → Bool
clashes connection_id options r = not (eqb_ℤ r.id connection_id) && same_name r.options options

abbrev pub exists : ℤ → List Row → Bool
exists connection_id rows = any (λ r. eqb_ℤ r.id connection_id) rows

-- The selection's foreign key is ON DELETE CASCADE.
pub delete_connection : ℤ → Store → Store
delete_connection connection_id s = record s {
  rows = filter (λ r. not (eqb_ℤ r.id connection_id)) s.rows;
  selection = filter (λ r. not (eqb_ℤ r.connection_id connection_id)) s.selection;
  cache = none;
}

module _ (fernet : Result Fernet) where
  pub encrypt_all : Secrets → Result Secrets
  encrypt_all s = do
    dsn ← encrypt fernet s.source_dsn
    ak ← encrypt fernet s.aws_access_key
    sk ← encrypt fernet s.aws_secret_key
    ok (record { source_dsn = dsn; aws_access_key = ak; aws_secret_key = sk })

  pub row_to_connection : Row → Result Connection
  row_to_connection r = do
    dsn ← decrypt fernet r.stored.source_dsn
    ak ← decrypt fernet r.stored.aws_access_key
    sk ← decrypt fernet r.stored.aws_secret_key
    ok (record {
      id = r.id;
      options = r.options;
      secrets = record { source_dsn = dsn; aws_access_key = ak; aws_secret_key = sk };
    })

  pub load_all : List Row → Result (List Connection)
  unfolding row_to_connection
  load_all [] = ok []
  load_all (r ∷ rows) = do c ← row_to_connection r; conns ← load_all rows; ok (c ∷ conns)

  loaded : ℤ → Store → Result (Store × List Connection)
  unfolding load_all
  loaded now s = do conns ← load_all s.rows; ok (record s { cache = some (now, conns) }, conns)

  cached : ℤ → Bool → Store → Option (ℤ × List Connection) → Result (Store × List Connection)
  unfolding loaded
  cached now force s none = loaded now s
  cached now force s (some (filled, conns)) =
      if force || leb_ℤ (pos 30) (now -ℤ filled) then loaded now s else ok (s, conns)

  unfoldable pub list_connections : ℤ → Bool → Bool → Store → Result (Store × List Connection)
  unfolding cached
  list_connections now enabled_only force s = do
    (s', conns) ← cached now force s s.cache
    ok (s', if enabled_only then filter (λ c. c.options.enabled) conns else conns)

  abbrev has_id : ℤ → Connection → Bool
  has_id connection_id c = eqb_ℤ c.id connection_id

  forced : ℤ → ℤ → Store → Option Connection → Result (Store × Option Connection)
  unfolding list_connections
  forced now connection_id s (some c) = ok (s, some c)
  forced now connection_id s none = do
    (s', conns) ← list_connections now false true s
    ok (s', find? (has_id connection_id) conns)

  unfoldable pub get_connection : ℤ → ℤ → Store → Result (Store × Option Connection)
  unfolding list_connections forced
  get_connection now connection_id s = do
    (s', conns) ← list_connections now false false s
    forced now connection_id s' (find? (has_id connection_id) conns)

  pub get_connection_by_name : ℤ → String → Store → Result (Store × Option Connection)
  unfolding list_connections
  get_connection_by_name now name s = do
    (s', conns) ← list_connections now false false s
    ok (s', find? (λ c. str_eq c.options.name name) conns)

  -- `new_id` is the next value of the identity column, which only rises.
  unfoldable pub upsert_connection : ℤ → Option ℤ → Options → Secrets → Store → Result (Store × ℤ)
  unfolding encrypt_all
  upsert_connection new_id none options secrets s = do
    stored ← encrypt_all secrets
    _ ← require (given stored.source_dsn) constraint_violation
    _ ← require (not (any (λ r. same_name r.options options) s.rows)) constraint_violation
    ok (
      record s {
        rows = s.rows ++ (record { id = new_id; options = options; stored = stored } ∷ []);
        cache = none;
      },
      new_id,
    )
  upsert_connection new_id (some connection_id) options secrets s = do
    stored ← encrypt_all secrets
    _ ←
        require (not (exists connection_id s.rows && any (clashes connection_id options) s.rows))
          constraint_violation
    ok (
      record s { rows = map (update_row connection_id options stored) s.rows; cache = none },
      connection_id,
    )
