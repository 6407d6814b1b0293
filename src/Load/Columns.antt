-- ===== src/Load/Columns.antt =====
-- load/iceberg_writer.py: the columns of an Iceberg table when the source's columns have changed.
-- A column is its name; `union_by_name` is an argument.
pub mod Kept
use text.Mathlib.Text.{◌==◌ as str_eq}
use postgres_s3_warehouse_sy.Prelude.{
  String, Bool, true, false, not, ◌&&◌, ◌||◌, Option, none, some, List, [], ◌∷◌, ◌++◌, any, filter,
  if◌then◌else◌, truthy,
}
use postgres_s3_warehouse_sy.Prelude.Result.{Result, ok, err}

abbrev pub member : String → List String → Bool
member x xs = any (λ y. str_eq y x) xs

-- What the calls of the catalog meet: the three times the table is loaded, `union_by_name` on the
-- columns and the source's columns, the lookups of the partition fields' columns, and whether the
-- deletion of columns is committed.
pub record Evolution : Type 0 where
  pub load_first : Result (Unit {0})
  pub load_second : Result (Unit {0})
  pub load_last : Result (Unit {0})
  pub union_by_name : List String → List String → Result (List String)
  pub partition_columns : List (Result (Option String))
  pub deletes : Bool

-- The first lookup that raises ends the loop; what was found before it stays.
pub part_sources : List (Result (Option String)) → List String
part_sources [] = []
part_sources (err e ∷ fields) = []
part_sources (ok none ∷ fields) = part_sources fields
part_sources (ok (some name) ∷ fields) =
    let rest = part_sources fields in if truthy name then name ∷ rest else rest

abbrev pub keep : Evolution → List String → List String
keep w protected = filter truthy protected ++ part_sources w.partition_columns

abbrev pub removed : Evolution → List String → List String → String → Bool
removed w source protected name = not (member name source) && not (member name (keep w protected))

-- A table's columns as they are left, and whether the last load raises.
abbrev loaded : Result (Unit {0}) → List String → List String × Result (List String)
loaded (ok u) columns = (columns, ok columns)
loaded (err e) columns = (columns, err e)

drop_columns :
    Evolution
    → List String
    → List String
    → List String
    → List String
    → List String × Result (List String)
drop_columns w source protected columns [] = (columns, ok columns)
drop_columns w source protected columns (x ∷ xs) =
    loaded w.load_last
      (if w.deletes then filter (λ c. not (member c (x ∷ xs))) columns else columns)

-- `protected` are the columns that the caller protects.
pub drop_removed_columns :
    Evolution → List String → List String → List String → List String × Result (List String)
unfolding drop_columns
drop_removed_columns w source protected columns =
    drop_columns w source protected columns (filter (removed w source protected) columns)

-- A union that fails is skipped.
abbrev pub united : Result (List String) → List String → List String
united (ok columns') columns = columns'
united (err e) columns = columns

evolved :
    Evolution
    → Bool
    → List String
    → List String
    → List String
    → Result (Unit {0})
    → List String × Result (List String)
unfolding drop_removed_columns
evolved w drops source protected columns (err e) = (columns, err e)
evolved w drops source protected columns (ok u) =
    if drops then drop_removed_columns w source protected columns else (columns, ok columns)

started :
    Evolution
    → Bool
    → List String
    → List String
    → List String
    → Result (Unit {0})
    → List String × Result (List String)
unfolding evolved
started w drops source protected columns (err e) = (columns, err e)
started w drops source protected columns (ok u) =
    evolved w drops source protected (united (w.union_by_name columns source) columns) w.load_second

-- `drops` is the setting sync_drop_removed_columns.
unfoldable pub evolve_table_schema :
    Evolution → Bool → List String → List String → List String → List String × Result (List String)
unfolding started
evolve_table_schema w drops source protected columns =
    started w drops source protected columns w.load_first
