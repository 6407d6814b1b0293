-- ===== src/Load/Reconcile/Keys.antt =====
-- After a reconciliation the lake has the keys of the source.
use postgres_s3_warehouse_sy.Prelude.{
  ℕ, zero, suc, ◌≤◌, ◌≡◌, ◌∙◌, refl, sym, ap, Bool, true, false, ◌&&◌, ◌||◌, Option, some, List, [],
  ◌∷◌, length, count, any, leb, arith,
}
use postgres_s3_warehouse_sy.Prelude.Int.{ℤ, eqb_ℤ}
use postgres_s3_warehouse_sy.Load.Merge.{in_keys, LakeTable, Sorter}
use postgres_s3_warehouse_sy.Load.Merge.Latest.{has}
use postgres_s3_warehouse_sy.Load.Merge.Upserts.{staged_count}
use postgres_s3_warehouse_sy.Load.Reconcile.{split_at, batches_of, reconcile_table}

or_assoc : (a b c : Bool) → (a || (b || c)) ≡ ((a || b) || c)
or_assoc true b c = refl
or_assoc false b c = refl

split_at-keys :
    (k : ℤ) (n : ℕ) (xs : List ℤ)
    → in_keys (some k) xs
      ≡ (in_keys (some k) (split_at n xs).0 || in_keys (some k) (split_at n xs).1)
unfolding split_at
split_at-keys k zero xs = refl
split_at-keys k (suc n) [] = refl
split_at-keys k (suc n) (x ∷ xs) =
    ap (λ b. eqb_ℤ x k || b) (split_at-keys k n xs) ∙ or_assoc (eqb_ℤ x k) _ _

split_at-length : (n : ℕ) (xs : List ℤ) → length (split_at n xs).1 ≤ length xs
unfolding split_at
split_at-length zero xs = omega arith
split_at-length (suc n) [] = omega arith
split_at-length (suc n) (x ∷ xs) = omega (arith, split_at-length n xs)

abbrev pub in_batches : ℤ → List (List ℤ) → Bool
in_batches k batches = any (λ b. in_keys (some k) b) batches

-- The batches hold the keys of the list, no fewer and no others.
pub batches_of-keys :
    (k : ℤ) (fuel size : ℕ) (xs : List ℤ)
    → length xs ≤ fuel
    → in_batches k (batches_of fuel (suc size) xs) ≡ in_keys (some k) xs
unfolding batches_of split_at
batches_of-keys k fuel size [] h = refl
batches_of-keys k zero size (x ∷ xs) h = ground arith
batches_of-keys k (suc fuel) size (x ∷ xs) h =
    let s = split_at-length size xs in
    ap (λ b. (eqb_ℤ x k || in_keys (some k) (split_at size xs).0) || b)
      (batches_of-keys k fuel size (split_at size xs).1 (omega (arith, s, h)))
    ∙ sym (or_assoc (eqb_ℤ x k) _ _)
    ∙ ap (λ b. eqb_ℤ x k || b) (sym (split_at-keys k size xs))

module _ {A : Type 0} (key : A → Option ℤ) (ts : A → Option ℤ) (lake : LakeTable A key)
    (sorter : Sorter ts) (align : A → A) (align_key : (r : A) → key (align r) ≡ key r)
    (fetch : List ℤ → List (List A)) where
  abbrev of_key : (A → Bool) → ℤ → A → Bool
  of_key p k r = p r && has key (some k) r

  -- The source, whose keys are `source_ids`, returns rows of exactly those of its keys that are asked
  -- for, at least one of each.
  abbrev pub Fetches : List ℤ → Type 0
  Fetches source_ids =
      (k : ℤ) (batch : List ℤ)
      → leb 1 (staged_count key ts lake sorter align align_key k (fetch batch))
        ≡ (in_keys (some k) batch && in_keys (some k) source_ids)

  -- A key's rows after a reconciliation, by whether the source and the lake had it.
  abbrev pub IsReconciled : Bool → Bool → ℤ → List A → List A → Type 0
  IsReconciled false in_lake k rows rows' = count (has key (some k)) rows' ≡ 0
  IsReconciled true false k rows rows' = count (has key (some k)) rows' ≡ 1
  IsReconciled true true k rows rows' =
      (p : A → Bool)
      → count (λ r. p r && has key (some k) r) rows' ≡ count (λ r. p r && has key (some k) r) rows

  module _ (k : ℤ) (t : lake.T) (source_ids : List ℤ) (f : Fetches source_ids) where
    abbrev after : List A
    after = lake.rows (reconcile_table key key lake sorter.sort align true fetch t source_ids).0
