-- ===== src/Load/Columns/Kept.antt =====
-- Which columns `evolve_table_schema` of load/iceberg_writer.py keeps.
use text.Mathlib.Text.{◌==◌ as str_eq}
use postgres_s3_warehouse_sy.Prelude.{
  ◌≡◌, refl, ap, sym, ◌∙◌, inl, inr, String, Bool, true, false, not, ◌&&◌, ◌||◌, Option, none, some,
  truthy, ◌++◌, List, [], ◌∷◌, filter, if◌then◌else◌, Bool-cases, arith, eq_iff,
}
use postgres_s3_warehouse_sy.Prelude.Table.{beq_refl, string_key}
use postgres_s3_warehouse_sy.Prelude.Result.{Result, ok, err}
use postgres_s3_warehouse_sy.Load.Columns.{
  Evolution, member, part_sources, removed, loaded, drop_columns, drop_removed_columns, united,
  evolved, started, evolve_table_schema,
}

and_false : (a : Bool) → (a && false) ≡ false
and_false a = ground arith

and_true : (a : Bool) → a ≡ (a && true)
and_true a = ground arith

absorbed : (a b : Bool) → (a && not (a && b)) ≡ (a && not b)
absorbed a b = ground arith

-- The names that a filter leaves.
member-filter :
    (p : String → Bool) (x : String) (xs : List String)
    → member x (filter p xs) ≡ (member x xs && p x)
member-filter p x [] = refl
member-filter p x (y ∷ ys) = elim (Bool-cases (str_eq y x)) [
  | inl e ↦
      let is = (eq_iff y x).0 e in
      rw (is, beq_refl x)
        (elim (Bool-cases (p x)) [
          | inl q ↦ rw (q, beq_refl x) refl
          | inr q ↦ rw q (member-filter p x ys ∙ rw q (and_false (member x ys)))
        ])
  | inr e ↦ rw e (elim (Bool-cases (p y)) [
    | inl q ↦ rw (q, e) (member-filter p x ys)
    | inr q ↦ rw q (member-filter p x ys)
  ])
]

-- Without the names that a filter takes out.
member-without :
    (p : String → Bool) (x : String) (xs : List String)
    → member x (filter (λ c. not (member c (filter p xs))) xs) ≡ (member x xs && not (p x))
member-without p x xs =
    member-filter (λ c. not (member c (filter p xs))) x xs
    ∙ ap (λ b. member x xs && not b) (member-filter p x xs)
    ∙ absorbed (member x xs) (p x)

-- A column that a partition field comes from, as far as the lookups have come when one raises.
abbrev pub is_partition_source : String → List (Result (Option String)) → Bool
is_partition_source x [] = false
is_partition_source x (err e ∷ fields) = false
is_partition_source x (ok none ∷ fields) = is_partition_source x fields
is_partition_source x (ok (some name) ∷ fields) =
    (truthy name && str_eq name x) || is_partition_source x fields

-- The columns after the union, which is skipped where it raises.
abbrev pub with_union : Result (List String) → List String → List String
with_union (err e) columns = columns
with_union (ok more) columns = more

united-with_union :
    (r : Result (List String)) (columns : List String) → united r columns ≡ with_union r columns
united-with_union (err e) columns = refl
united-with_union (ok more) columns = refl

part_sources-member :
    (x : String) (fields : List (Result (Option String)))
    → member x (part_sources fields) ≡ is_partition_source x fields
unfolding part_sources
part_sources-member x [] = refl
part_sources-member x (err e ∷ fields) = refl
part_sources-member x (ok none ∷ fields) = part_sources-member x fields
part_sources-member x (ok (some name) ∷ fields) = elim (Bool-cases (truthy name)) [
  | inl t ↦ rw (t, part_sources-member x fields) refl
  | inr t ↦ rw (t, part_sources-member x fields) refl
]

member-append :
    (x : String) (xs ys : List String) → member x (xs ++ ys) ≡ (member x xs || member x ys)
member-append x [] ys = refl
member-append x (y ∷ xs) ys = elim (Bool-cases (str_eq y x)) [
  | inl e ↦ rw e refl
  | inr e ↦ rw e (member-append x xs ys)
]

kept_test :
    (deletes s p t : Bool)
    → (not deletes || not (not s && not (p || t))) ≡ (not deletes || (s || (p || t)))
kept_test deletes s p t = ground arith

module _ (w : Evolution) (source protected : List String) (x : String) where
  -- Whether a column is left, where the deletion is made or not: it has to be one of the columns, and
  -- if columns are deleted, one of the source's, a protected one or a partition field's.
  abbrev pub left : Bool → List String → Bool
  left deletes columns =
      member x columns
      && (not deletes
          || (member x source
              || ((member x protected && truthy x) || is_partition_source x w.partition_columns)))

  kept_column :
      (deletes : Bool) (columns : List String)
      → (member x columns && (not deletes || not (removed w source protected x)))
        ≡ left deletes columns
  kept_column deletes columns =
      ap (λ k. member x columns && (not deletes || not (not (member x source) && not k)))
        (member-append x (filter truthy protected) (part_sources w.partition_columns)
          ∙ rw (member-filter truthy x protected, part_sources-member x w.partition_columns) refl)
      ∙ ap (λ b. member x columns && b)
          (kept_test deletes (member x source) (member x protected && truthy x)
            (is_partition_source x w.partition_columns))

  filtered :
      (columns : List String) (deletes : Bool)
      → member x (
          if deletes
          then filter (λ c. not (member c (filter (removed w source protected) columns))) columns
          else columns)
        ≡ left deletes columns
  filtered columns true =
      member-without (removed w source protected) x columns ∙ kept_column true columns
  filtered columns false = and_true (member x columns)

  loaded-fst : (r : Result (Unit {0})) (columns : List String) → (loaded r columns).0 ≡ columns
  loaded-fst (ok u) columns = refl
  loaded-fst (err e) columns = refl

  dropped :
      (columns names : List String) (deletes : Bool)
      → member x (if deletes then filter (λ c. not (member c names)) columns else columns)
        ≡ left deletes columns
      → w.deletes ≡ deletes
      → member x (drop_columns w source protected columns names).0 ≡ left deletes columns
  unfolding drop_columns
  dropped columns [] true h e =
      sym (member-filter (λ c. true) x columns ∙ sym (and_true (member x columns))) ∙ h
  dropped columns [] false h e = h
  dropped columns (n ∷ names) deletes h e = rw (loaded-fst w.load_last _, e) h

  -- Where the table can be loaded, its columns after the evolution are those of the union, less, only
  -- if the setting is on and the deletion is committed, the ones that the source does not have, that
  -- the caller does not protect and that no partition field is known to come from. No other column
  -- is lost, whatever fails, the last load included.
  pub evolve_table_schema-left :
      (drops : Bool) (columns : List String)
      → w.load_first ≡ ok tt
      → w.load_second ≡ ok tt
      → member x (evolve_table_schema w drops source protected columns).0
        ≡ left (drops && w.deletes) (with_union (w.union_by_name columns source) columns)
  unfolding evolve_table_schema started evolved drop_removed_columns
  evolve_table_schema-left true columns first second =
      let more = united (w.union_by_name columns source) columns in
      rw (first, second) (dropped more _ w.deletes (filtered more w.deletes) refl)
      ∙ ap (left w.deletes) (united-with_union (w.union_by_name columns source) columns)
  evolve_table_schema-left false columns first second =
      rw (first, second) (and_true (member x (united (w.union_by_name columns source) columns)))
      ∙ ap (left false) (united-with_union (w.union_by_name columns source) columns)
