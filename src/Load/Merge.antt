-- ===== src/Load/Merge.antt =====
-- load/merge.py: staged rows upserted into an Iceberg table by primary key.
-- `LakeTable` is what the code relies on of PyIceberg's tables; `sort` is Arrow's sort by
-- (updated_at, id), descending and with NULL last; `align` casts a row to the table's schema.
pub mod Latest
pub mod Upserts
use postgres_s3_warehouse_sy.Prelude.{
  ℕ, zero, suc, ◌+◌, ◌≡◌, refl, Bool, true, false, not, ◌&&◌, ◌||◌, Option, none, some, List, [],
  ◌∷◌, map, length, count, any, All, if◌then◌else◌,
}
use postgres_s3_warehouse_sy.Prelude.Int.{ℤ, eqb_ℤ, leb_ℤ}

-- `key in keys`, which is not true of a NULL key.
abbrev pub in_keys : Option ℤ → List ℤ → Bool
in_keys none keys = false
in_keys (some k) keys = any (λ j. eqb_ℤ j k) keys

-- Equality of Python values that may be None.
abbrev pub same_key : Option ℤ → Option ℤ → Bool
same_key none none = true
same_key (some a) (some b) = eqb_ℤ a b
same_key _ _ = false

-- The order of a descending sort with NULL last: `a` may stand before `b`.
abbrev pub newer : Option ℤ → Option ℤ → Bool
newer a none = true
newer none (some b) = false
newer (some a) (some b) = leb_ℤ b a

-- An Iceberg table with rows of type `A`: atomic overwrite, append and delete.
pub record LakeTable (A : Type 0) (pk : A → Option ℤ) : Type 1 where
  pub T : Type 0
  pub rows : T → List A
  pub overwrite : T → List A → List ℤ → T
  pub append : T → List A → T
  pub delete : T → List ℤ → T
  pub count-overwrite :
      (p : A → Bool) (t : T) (df : List A) (keys : List ℤ)
      → count p (rows (overwrite t df keys))
        ≡ count (λ r. p r && not (in_keys (pk r) keys)) (rows t) + count p df
  pub count-append :
      (p : A → Bool) (t : T) (df : List A)
      → count p (rows (append t df)) ≡ count p (rows t) + count p df
  pub count-delete :
      (p : A → Bool) (t : T) (keys : List ℤ)
      → count p (rows (delete t keys)) ≡ count (λ r. p r && not (in_keys (pk r) keys)) (rows t)

module _ {A : Type 0} (ts : A → Option ℤ) where
  abbrev pub IsSorted : List A → Type 0
  IsSorted [] = Unit
  IsSorted (r ∷ rs) = All (λ s. newer (ts r) (ts s) ≡ true) rs × IsSorted rs

  pub record Sorter : Type 0 where
    pub sort : List A → List A
    pub count-sort : (p : A → Bool) (rs : List A) → count p (sort rs) ≡ count p rs
    pub sort-IsSorted : (rs : List A) → IsSorted (sort rs)

abbrev pub seen_key : Option ℤ → List (Option ℤ) → Bool
seen_key k seen = any (λ j. same_key j k) seen

add_key : Option ℤ → List ℤ → List ℤ
add_key none ks = ks
add_key (some k) ks = k ∷ ks

module _ {A : Type 0} (key : A → Option ℤ) where
  -- The loop that keeps the first row of each key, and the filter by its marks.
  pub keep_first : List (Option ℤ) → List A → List A
  keep_first seen [] = []
  keep_first seen (r ∷ rs) =
      let skipped = keep_first seen rs in
      let kept = keep_first (key r ∷ seen) rs in if seen_key (key r) seen then skipped else r ∷ kept

  -- `_dedupe_latest`
  pub dedupe_latest : (List A → List A) → List A → List A
  unfolding keep_first
  dedupe_latest sort rs = keep_first [] (sort rs)

  -- [k for k in column if k is not None]
  pub keys_of : List A → List ℤ
  unfolding add_key
  keys_of [] = []
  keys_of (r ∷ rs) = add_key (key r) (keys_of rs)

-- What `merge_arrow_table` returns.
pub record Summary : Type 0 where
  pub rows_written : ℕ
  pub counted : ℕ

module _ {A : Type 0} (id pk : A → Option ℤ) (lake : LakeTable A pk) (sort : List A → List A)
    (align : A → A) (has_columns : Bool) where
  -- The rows that are written: `has_columns` tells whether the staged schema has updated_at and id.
  pub prepared : List A → List A
  unfolding dedupe_latest
  prepared staged = map align (if has_columns then dedupe_latest id sort staged else staged)

  write : lake.T → List A → List ℤ → lake.T
  write t [] [] = t
  write t (r ∷ df) [] = lake.append t (r ∷ df)
  write t df (k ∷ keys) = lake.overwrite t df (k ∷ keys)

  pub merge_arrow_table : lake.T → List A → lake.T × Summary
  unfolding prepared keys_of write
  merge_arrow_table t staged =
      let df = prepared staged in
      (
        write t df (keys_of pk df),
        record { rows_written = length df; counted = length (keys_of pk df) },
      )

  batch_step : lake.T × Summary → List A → lake.T × Summary
  unfolding merge_arrow_table
  batch_step (t, total) [] = (t, total)
  batch_step (t, total) (r ∷ rs) =
      let (t', written) = merge_arrow_table t (r ∷ rs) in
      (
        t',
        record {
          rows_written = total.rows_written + written.rows_written;
          counted = suc total.counted;
        },
      )

  -- One write for each batch of the staged file, in its order; the second count is of batches.
  pub merge_batches : lake.T × Summary → List (List A) → lake.T × Summary
  unfolding batch_step
  merge_batches s [] = s
  merge_batches s (batch ∷ batches) = merge_batches (batch_step s batch) batches

  pub merge_parquet_batched : lake.T → List (List A) → lake.T × Summary
  unfolding merge_batches
  merge_parquet_batched t batches =
      merge_batches (t, record { rows_written = 0; counted = 0 }) batches
