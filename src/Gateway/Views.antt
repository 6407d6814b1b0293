-- ===== src/Gateway/Views.antt =====
-- gateway/view_refresher.py: the views of a DuckDB connection, one for each Iceberg table of the
-- enabled connections.
pub mod Refreshed
use text.Mathlib.Text.{◌==◌ as str_eq}
use postgres_s3_warehouse_sy.Prelude.{
  String, Bool, true, false, not, ◌&&◌, ◌||◌, Option, none, some, List, [], ◌∷◌, map, any, filter,
  if◌then◌else◌,
}
use postgres_s3_warehouse_sy.Prelude.Result.{Result, ok, err}
use postgres_s3_warehouse_sy.Prelude.Table.{put, string_key, pair_key}
use postgres_s3_warehouse_sy.Common.Connections.{Connection}

-- A table's name and the location of its metadata.
abbrev pub Resolved : Type 0
Resolved = List (String × String)

-- The views by schema and name, with the metadata that they scan.
abbrev pub Views : Type 0
Views = List ((String × String) × String)

-- `list_tables` of a connection's catalog, and `load_table` with its metadata's location.
pub record LakeCatalog : Type 0 where
  pub list_tables : Connection → Result (List String)
  pub load_table : Connection → String → Result String

loaded : String → Result String → Resolved → Resolved
loaded name (err e) rest = rest
loaded name (ok location) rest = (name, location) ∷ rest

-- A table that cannot be loaded is left out.
load_all : (String → Result String) → List String → Resolved
unfolding loaded
load_all load [] = []
load_all load (name ∷ names) = loaded name (load name) (load_all load names)

listed : (String → Result String) → Result (List String) → Resolved
unfolding load_all
listed load (err e) = []
listed load (ok names) = load_all load names

unfoldable pub resolve_tables : LakeCatalog → Connection → Resolved
unfolding listed
resolve_tables lake c = listed (lake.load_table c) (lake.list_tables c)

abbrev pub is_desired : String → Resolved → Bool
is_desired name tables = any (λ t. str_eq t.0 name) tables

-- A view that is in the schema and not desired.
abbrev pub stale : String → Resolved → String × String → Bool
stale ns tables (schema, name) = str_eq schema ns && not (is_desired name tables)

-- `creates` says whether CREATE OR REPLACE VIEW succeeds; one that fails is passed over.
module _ (creates : String → String → String → Bool) where
  pub create_views : String → Resolved → Views → Views
  create_views ns [] views = views
  create_views ns ((name, location) ∷ tables) views =
      create_views ns tables
        (if creates ns name location then put (ns, name) location views else views)

  pub apply_connection : String → Resolved → Views → Views
  unfolding create_views
  apply_connection ns tables views =
      filter (λ v. not (stale ns tables v.0)) (create_views ns tables views)

  pub apply_all : List (Connection × Resolved) → Views → Views
  unfolding apply_connection
  apply_all [] views = views
  apply_all ((c, tables) ∷ rest) views =
      apply_all rest (apply_connection c.options.iceberg_namespace tables views)

  -- On one connection of the pool, with the enabled connections.
  pub refresh_once : LakeCatalog → List Connection → Views → Views
  unfolding apply_all
  refresh_once lake conns views = apply_all (map (λ c. (c, resolve_tables lake c)) conns) views
