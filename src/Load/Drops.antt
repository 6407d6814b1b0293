-- ===== src/Load/Drops.antt =====
-- load/iceberg_writer.py: the tables of a connection's namespace dropped from the catalog. The
-- listing and the two ways to drop an entry are arguments, which say only whether they raise.
pub mod Dropped
use text.Mathlib.Text.{◌==◌ as str_eq}
use postgres_s3_warehouse_sy.Prelude.{
  ℕ, ◌+◌, String, Bool, not, ◌||◌, List, [], ◌∷◌, filter, if◌then◌else◌,
}
use postgres_s3_warehouse_sy.Prelude.Result.{Result, ok, err}
use postgres_s3_warehouse_sy.Prelude.Table.{remove, string_key, pair_key}

-- The catalog's tables by namespace and name, with their metadata's location, and its namespaces
-- that have properties.
pub record Entries : Type 0 where
  pub tables : List ((String × String) × String)
  pub namespaces : List String

-- The names that `list_tables` gives; whether `drop_table`, the DELETE of the entry and the DELETE
-- of the namespace's properties succeed.
pub record Drops : Type 0 where
  pub list_tables : Result (List String)
  pub drop_table : String → Bool
  pub delete_entry : String → Bool
  pub delete_properties : Bool

-- An entry that neither way drops stays.
abbrev pub is_dropped : Drops → String → Bool
is_dropped d name = d.drop_table name || d.delete_entry name

unfoldable pub drop_catalog_entry :
    Drops → String → String → List ((String × String) × String) → List ((String × String) × String)
drop_catalog_entry d ns name tables = if is_dropped d name then remove (ns, name) tables else tables

-- The loop, with the number of entries that it went over.
unfoldable pub drop_each :
    Drops
    → String
    → List String
    → List ((String × String) × String) × ℕ
    → List ((String × String) × String) × ℕ
unfolding drop_catalog_entry
drop_each d ns [] state = state
drop_each d ns (name ∷ names) (tables, n) =
    drop_each d ns names (drop_catalog_entry d ns name tables, n + 1)

abbrev pub listed_names : Result (List String) → List String
listed_names (err e) = []
listed_names (ok names) = names

unfoldable pub drop_all_tables : Drops → String → Entries → Entries × ℕ
unfolding drop_each
drop_all_tables d ns entries =
    let (tables, n) = drop_each d ns (listed_names d.list_tables) (entries.tables, 0) in
    (
      record {
        tables = tables;
        namespaces =
            if d.delete_properties
            then filter (λ s. not (str_eq s ns)) entries.namespaces
            else entries.namespaces;
      },
      n,
    )
