-- ===== src/Extract/Discovery.antt =====
-- extract/discovery.py: the objects of a source that are synced.
-- `glob` is fnmatch on "schema.name", which is kept as a pair; column types are in lower case. The
-- rows are the answer of the catalog query, which has applied the schema blacklist.
pub mod Filters
use text.Mathlib.Text.{◌==◌ as str_eq}
use postgres_s3_warehouse_sy.Prelude.{
  ◌≡◌, String, Bool, true, false, not, ◌&&◌, ◌||◌, Option, none, some, List, [], ◌∷◌, any, filter,
  find?, map, if◌then◌else◌,
}

pub data ObjectKind : Type 0 where
  table view materialized_view : ObjectKind

pub record Column : Type 0 where
  pub name : String
  pub pg_type : String

pub record RawObject : Type 0 where
  pub schema : String
  pub name : String
  pub kind : ObjectKind

pub record DiscoveredObject : Type 0 where
  pub schema : String
  pub name : String
  pub kind : ObjectKind
  pub columns : List Column

abbrev pub has_column : String → List Column → Bool
has_column name columns = any (λ c. str_eq c.name name) columns

abbrev pub is_integral : String → Bool
is_integral t = str_eq t "smallint" || (str_eq t "integer" || str_eq t "bigint")

abbrev integral_column : Option Column → Bool
integral_column none = false
integral_column (some c) = is_integral c.pg_type

pub supports_parallel_chunking : DiscoveredObject → Bool
supports_parallel_chunking o = integral_column (find? (λ c. str_eq c.name "id") o.columns)

pub supports_incremental : DiscoveredObject → Bool
supports_incremental o = has_column "id" o.columns && has_column "updated_at" o.columns

-- `_RELKIND_TO_KIND`
kind_of : String → Option ObjectKind
kind_of relkind =
    if str_eq relkind "r" || str_eq relkind "p"
    then some table
    else (if str_eq relkind "v"
        then some view
        else (if str_eq relkind "m" then some materialized_view else none))

-- A row of the catalog: schema, name, relkind.
add_object : String → String → Option ObjectKind → List RawObject → List RawObject
add_object schema name none rest = rest
add_object schema name (some kind) rest =
    record { schema = schema; name = name; kind = kind } ∷ rest

pub list_objects_raw : List (String × (String × String)) → List RawObject
unfolding kind_of add_object
list_objects_raw [] = []
list_objects_raw ((schema, (name, relkind)) ∷ rows) =
    add_object schema name (kind_of relkind) (list_objects_raw rows)

pub record SyncFilter : Type 0 where
  pub sync_include : List String
  pub sync_exclude : List String
  pub kinds : ObjectKind → Bool

abbrev pub is_empty {ℓ} : {A : Type ℓ} → List A → Bool
is_empty [] = true
is_empty (x ∷ xs) = false

module _ (glob : String × String → String → Bool) where
  abbrev pub glob_match_any : String × String → List String → Bool
  glob_match_any fqn globs = any (glob fqn) globs

  -- Whether the loop reaches the introspection of an object.
  pub keeps : SyncFilter → Option (String × String → Bool) → RawObject → Bool
  keeps cfg (some only_fqns) o = only_fqns (o.schema, o.name)
  keeps cfg none o =
      cfg.kinds o.kind
      && ((is_empty cfg.sync_include || glob_match_any (o.schema, o.name) cfg.sync_include)
          && (is_empty cfg.sync_exclude
              || not (glob_match_any (o.schema, o.name) cfg.sync_exclude)))

  -- `introspect_columns` is the answer of a query.
  pub discovered : (String → String → List Column) → List RawObject → List DiscoveredObject
  discovered introspect_columns [] = []
  discovered introspect_columns (o ∷ os) =
      record {
        schema = o.schema;
        name = o.name;
        kind = o.kind;
        columns = introspect_columns o.schema o.name;
      }
      ∷ discovered introspect_columns os

  pub discover :
      (String → String → List Column)
      → List (String × (String × String))
      → SyncFilter
      → Option (String × String → Bool)
      → List DiscoveredObject
  unfolding keeps discovered list_objects_raw
  discover introspect_columns rows cfg only_fqns =
      discovered introspect_columns (filter (keeps cfg only_fqns) (list_objects_raw rows))
