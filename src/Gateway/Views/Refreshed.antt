-- ===== src/Gateway/Views/Refreshed.antt =====
-- The views after a refresh of gateway/view_refresher.py.
use text.Mathlib.Text.{◌==◌ as str_eq}
use postgres_s3_warehouse_sy.Prelude.{
  ◌≡◌, String, Bool, false, ◌&&◌, Option, none, some, List, [], ◌∷◌, any, if◌then◌else◌,
}
use postgres_s3_warehouse_sy.Prelude.Table.{string_key, pair_key}
use postgres_s3_warehouse_sy.Prelude.Result.{Result, ok, err}
use postgres_s3_warehouse_sy.Common.Connections.{Connection}
use postgres_s3_warehouse_sy.Gateway.Views.{Resolved, Views, LakeCatalog, is_desired}

module _ (creates : String → String → String → Bool) where
  -- What a view comes to scan: the last metadata for which it could be created, or what it scanned
  -- before.
  unfoldable pub scanned : String → String → Resolved → Option String → Option String
  scanned ns name [] old = old
  scanned ns name ((n, location) ∷ tables) old =
      scanned ns name tables (if str_eq n name && creates ns n location then some location else old)

  -- The view of a table that the catalog has scans it; a view of no such table is gone.
  abbrev pub view_after : String → String → Resolved → Option String → Option String
  view_after ns name tables old =
      if is_desired name tables then scanned ns name tables old else none

abbrev has_namespace : String → Connection → Bool
has_namespace ns c = str_eq c.options.iceberg_namespace ns

-- No two connections have one namespace, which is UNIQUE.
abbrev pub HasNamespaces : List Connection → Type 0
HasNamespaces [] = Unit
HasNamespaces (c ∷ conns) =
    (any (has_namespace c.options.iceberg_namespace) conns ≡ false) × HasNamespaces conns

module _ (creates : String → String → String → Bool) (lake : LakeCatalog) where
  -- What a view comes to, from the answers of the catalog to `list_tables` and to `load_table` of its
  -- table: gone if either raises or the table is not listed; else it scans the table's metadata, if
  -- it could be created, or what it scanned before.
  abbrev pub expected :
      String → String → Result (List String) → Result String → Option String → Option String
  expected ns name (err e) loads old = none
  expected ns name (ok names) (err e) old = none
  expected ns name (ok names) (ok location) old =
      if any (λ n. str_eq n name) names
      then (if creates ns name location then some location else old)
      else none

  -- The view as the connection of its schema has it; as it was, where no connection has the schema.
  abbrev pub settled : String → String → Option Connection → Option String → Option String
  settled ns name none old = old
  settled ns name (some c) old = expected ns name (lake.list_tables c) (lake.load_table c name) old
