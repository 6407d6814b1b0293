-- ===== src/Load/Drops/Dropped.antt =====
-- Which tables `drop_all_tables` of load/iceberg_writer.py takes out of the catalog.
use text.Mathlib.Text.{◌==◌ as str_eq}
use postgres_s3_warehouse_sy.Prelude.{
  ℕ, ◌+◌, ◌≡◌, refl, ap, ◌∙◌, inl, inr, String, Bool, ◌&&◌, none, List, [], ◌∷◌, any, length,
  if◌then◌else◌, Bool-cases, arith,
}
use postgres_s3_warehouse_sy.Prelude.Table.{find, find-remove, string_key, pair_key}
use postgres_s3_warehouse_sy.Load.Drops.{Drops, is_dropped, drop_catalog_entry, drop_each}

-- A table of the namespace that the listing names and that can be dropped.
abbrev pub goes : Drops → String → List String → String × String → Bool
goes d ns names (schema, table) =
    str_eq ns schema && any (λ name. is_dropped d name && str_eq name table) names

find-drop_catalog_entry :
    (d : Drops) (ns name : String) (key : String × String)
    (tables : List ((String × String) × String))
    → find key (drop_catalog_entry d ns name tables) ≡ (
        if is_dropped d name && (str_eq ns key.0 && str_eq name key.1)
        then none
        else find key tables)
unfolding drop_catalog_entry
find-drop_catalog_entry d ns name key tables = elim (Bool-cases (is_dropped d name)) [
  | inl e ↦ rw e (find-remove (ns, name) key tables)
  | inr e ↦ rw e refl
]

pub find-drop_each :
    (d : Drops) (ns : String) (names : List String) (n : ℕ) (key : String × String)
    (tables : List ((String × String) × String))
    → find key (drop_each d ns names (tables, n)).0
      ≡ (if goes d ns names key then none else find key tables)
unfolding drop_each
find-drop_each d ns [] n key tables = ground arith
find-drop_each d ns (name ∷ names) n key tables =
    find-drop_each d ns names (n + 1) key (drop_catalog_entry d ns name tables)
    ∙ ap (λ o. if goes d ns names key then none else o)
        (find-drop_catalog_entry d ns name key tables)
    ∙ ground arith

pub drop_each-count :
    (d : Drops) (ns : String) (names : List String) (n : ℕ)
    (tables : List ((String × String) × String))
    → (drop_each d ns names (tables, n)).1 ≡ n + length names
unfolding drop_each
drop_each-count d ns [] n tables = omega arith
drop_each-count d ns (name ∷ names) n tables =
    omega (arith, drop_each-count d ns names (n + 1) (drop_catalog_entry d ns name tables))
