-- ===== src/Load/Reconcile.antt =====
-- load/reconcile.py: the keys of the lake made those of the source.
-- A reconciled key is not NULL (it is a numeric primary key); the lake's rows are given by their
-- keys in `lake.rows`. The rows that the source returns for a list of keys are an argument.
pub mod Keys
use postgres_s3_warehouse_sy.Prelude.{
  ℕ, zero, suc, ◌+◌, ◌≡◌, Bool, true, false, not, Option, none, some, List, [], ◌∷◌, ◌++◌, length,
  filter, any, if◌then◌else◌,
}
use postgres_s3_warehouse_sy.Prelude.Int.{ℤ, eqb_ℤ}
use postgres_s3_warehouse_sy.Load.Merge.{in_keys, LakeTable, Summary, keys_of, merge_arrow_table}

-- The first `n` elements, and the rest.
unfoldable pub split_at {ℓ} : {A : Type ℓ} → ℕ → List A → List A × List A
split_at zero xs = ([], xs)
split_at (suc n) [] = ([], [])
split_at (suc n) (x ∷ xs) = let (a, b) = split_at n xs in (x ∷ a, b)

-- `for i in range(0, len(xs), size)`: the slices `xs[i:i + size]`, one after another. The fuel is the
-- length of the list; `size` is at least 1.
unfoldable pub batches_of {ℓ} : {A : Type ℓ} → ℕ → ℕ → List A → List (List A)
unfolding split_at
batches_of fuel size [] = []
batches_of zero size (x ∷ xs) = []
batches_of (suc fuel) size (x ∷ xs) =
    let (batch, rest) = split_at size (x ∷ xs) in batch ∷ batches_of fuel size rest

-- pc.filter(keys, pc.invert(pc.is_in(keys, value_set=others)))
pub missing_from : List ℤ → List ℤ → List ℤ
missing_from others keys = filter (λ k. not (in_keys (some k) others)) keys

pub record Reconciled : Type 0 where
  pub lake_rows : ℕ
  pub source_rows : ℕ
  pub deleted : ℕ
  pub added : ℕ

module _ {A : Type 0} (id pk : A → Option ℤ) (lake : LakeTable A pk) (sort : List A → List A)
    (align : A → A) (has_columns : Bool) (fetch : List ℤ → List (List A)) where
  -- The deletes, a commit for each batch.
  pub delete_batches : lake.T → List (List ℤ) → lake.T
  delete_batches t [] = t
  delete_batches t (batch ∷ batches) = delete_batches (lake.delete t batch) batches

  -- The parquet parts of one extracted chunk, merged in turn.
  pub merge_parts : lake.T → List (List A) → lake.T
  merge_parts t [] = t
  merge_parts t (part ∷ parts) =
      merge_parts (merge_arrow_table id pk lake sort align has_columns t part).0 parts

  pub count_parts : List (List A) → ℕ
  count_parts [] = 0
  count_parts (part ∷ parts) = length part + count_parts parts

  pub add_batches : lake.T → List (List ℤ) → lake.T × ℕ
  unfolding merge_parts count_parts
  add_batches t [] = (t, 0)
  add_batches t (batch ∷ batches) =
      let (t', n) = add_batches (merge_parts t (fetch batch)) batches in
      (t', count_parts (fetch batch) + n)

  -- `_add_missing_rows`
  pub add_missing_rows : lake.T → List ℤ → lake.T × ℕ
  unfolding add_batches
  add_missing_rows t missing_ids =
      add_batches t (batches_of (length missing_ids) 10_000 missing_ids)

  pub reconcile_table : lake.T → List ℤ → lake.T × Reconciled
  unfolding delete_batches add_missing_rows missing_from
  reconcile_table t source_ids =
      let lake_ids = keys_of pk (lake.rows t) in
      let deleted_ids = missing_from source_ids lake_ids in
      let t1 = delete_batches t (batches_of (length deleted_ids) 5000 deleted_ids) in
      let (t2, added) = add_missing_rows t1 (missing_from lake_ids source_ids) in
      (
        t2,
        record {
          lake_rows = length lake_ids;
          source_rows = length source_ids;
          deleted = length deleted_ids;
          added = added;
        },
      )
