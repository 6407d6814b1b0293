-- ===== src/Load/Merge/Upserts.antt =====
-- An upsert replaces the versions of the staged keys, and can be repeated.
use postgres_s3_warehouse_sy.Prelude.{
  ℕ, suc, ◌+◌, ◌≡◌, ◌∙◌, refl, ap, Bool, true, false, not, ◌&&◌, inl, inr, Bool-cases, Option, none,
  some, List, [], ◌∷◌, map, count, All, leb, arith, if◌then◌else◌,
}
use postgres_s3_warehouse_sy.Prelude.Int.{ℤ}
use postgres_s3_warehouse_sy.Load.Merge.{
  in_keys, same_key, LakeTable, Sorter, dedupe_latest, add_key, keys_of, Summary, prepared, write,
  merge_arrow_table, batch_step, merge_batches, merge_parquet_batched,
}
use postgres_s3_warehouse_sy.Load.Merge.Latest.{has, same_key→eq, dedupe_latest-IsLatest}

pub count_ext :
    {A : Type 0} (p q : A → Bool) (xs : List A) → ((x : A) → p x ≡ q x) → count p xs ≡ count q xs
count_ext p q [] h = refl
count_ext p q (x ∷ xs) h = ground (arith, h x, count_ext p q xs h)

pub count-map :
    {A B : Type 0} (p : B → Bool) (f : A → B) (xs : List A)
    → count p (map f xs) ≡ count (λ x. p (f x)) xs
count-map p f [] = refl
count-map p f (x ∷ xs) = ground (arith, count-map p f xs)

count_sub :
    {A : Type 0} (p q : A → Bool) (xs : List A) → count q xs ≡ 0 → count (λ x. p x && q x) xs ≡ 0
count_sub p q [] h = refl
count_sub p q (x ∷ xs) h = ground (arith, h, count_sub p q xs)

no_keys : (a : Option ℤ) → in_keys a [] ≡ false
no_keys none = refl
no_keys (some k) = refl

and_true : (a b : Bool) → b ≡ false → a ≡ (a && not b)
and_true true b h = rw h refl
and_true false b h = refl

add_key-count :
    (k : ℤ) (a : Option ℤ) (ks : List ℤ) (n : ℕ)
    → in_keys (some k) ks ≡ leb 1 n
    → in_keys (some k) (add_key a ks) ≡ leb 1 (if same_key a (some k) then suc n else n)
unfolding add_key
add_key-count k none ks n h = h
add_key-count k (some j) ks n h = ground arith

same_key_self : (k : ℤ) → same_key (some k) (some k) ≡ true
same_key_self k = ground arith

module _ {A : Type 0} (key : A → Option ℤ) where
  pub keys_of-count :
      (k : ℤ) (df : List A)
      → in_keys (some k) (keys_of key df) ≡ leb 1 (count (has key (some k)) df)
  unfolding keys_of
  keys_of-count k [] = refl
  keys_of-count k (r ∷ df) = add_key-count k (key r) (keys_of key df) _ (keys_of-count k df)

  abbrev pub is_keyed : Option ℤ → Bool
  is_keyed none = false
  is_keyed (some k) = true

  written_keys :
      (p : A → Bool) (ks : List ℤ) (df : List A)
      → ((k : ℤ) → in_keys (some k) (keys_of key df) ≡ true → in_keys (some k) ks ≡ true)
      → All (λ r. is_keyed (key r) ≡ true) df
      → count (λ r. p r && not (in_keys (key r) ks)) df ≡ 0
  unfolding keys_of
  written_keys p ks [] sub h = refl
  written_keys p ks (r ∷ df) sub h =
      let here = first (key r) h.0 (λ k. sub k) in
      let rest = written_keys p ks df (λ k e. sub k (later k (key r) e)) h.1 in
      rw here (ground (arith, rest))
    where
      first :
          (a : Option ℤ)
          → is_keyed a ≡ true
          → ((k : ℤ)
              → in_keys (some k) (add_key a (keys_of key df)) ≡ true
              → in_keys (some k) ks ≡ true)
          → in_keys a ks ≡ true
      first none e s = cc
      first (some k) e s = s k (rw (same_key_self k) refl)

      later :
          (k : ℤ) (a : Option ℤ)
          → in_keys (some k) (keys_of key df) ≡ true
          → in_keys (some k) (add_key a (keys_of key df)) ≡ true
      later k none e = e
      later k (some j) e = ground arith

  module _ (ts : A → Option ℤ) (lake : LakeTable A key) (sorter : Sorter ts) (align : A → A)
      (align_key : (r : A) → key (align r) ≡ key r) where
    write-contents :
        (t : lake.T) (df : List A) (keys : List ℤ) (p : A → Bool)
        → count p (lake.rows (write key key lake sorter.sort align true t df keys))
          ≡ count (λ r. p r && not (in_keys (key r) keys)) (lake.rows t) + count p df
    unfolding write
    write-contents t [] [] p =
        count_ext p _ (lake.rows t) (λ r. and_true (p r) _ (no_keys (key r))) ∙ omega arith
    write-contents t (r ∷ df) [] p =
        lake.count-append p t (r ∷ df)
        ∙ ap (λ n. n + count p (r ∷ df))
            (count_ext p _ (lake.rows t) (λ r. and_true (p r) _ (no_keys (key r))))
    write-contents t [] (k ∷ keys) p = lake.count-overwrite p t [] (k ∷ keys)
    write-contents t (r ∷ df) (k ∷ keys) p = lake.count-overwrite p t (r ∷ df) (k ∷ keys)

    abbrev pub merge : lake.T → List A → lake.T × Summary
    merge = merge_arrow_table key key lake sorter.sort align true

    pub kept : List A → List A
    kept staged = dedupe_latest key sorter.sort staged

    merge-contents :
        (t : lake.T) (staged : List A) (p : A → Bool)
        → count p (lake.rows (merge t staged).0)
          ≡ count
              (λ r. p r && not (in_keys (key r) (keys_of key (map align (kept staged)))))
              (lake.rows t)
            + count p (map align (kept staged))
    unfolding merge_arrow_table prepared kept
    merge-contents t staged p =
        write-contents t (map align (kept staged)) (keys_of key (map align (kept staged))) p

    aligned-has :
        (k : Option ℤ) (staged : List A)
        → count (has key k) (map align (kept staged))
          ≡ (if leb 1 (count (has key k) staged) then 1 else 0)
    unfolding kept
    aligned-has k staged =
        count-map (has key k) align (kept staged)
        ∙ count_ext _ (has key k) (kept staged) (λ r. ap (λ a. same_key a k) (align_key r))
        ∙ (dedupe_latest-IsLatest key ts sorter staged).one_each k

    pub other_rows :
        (p : A → Bool) (k : ℤ) (ks : List ℤ) (rows : List A)
        → count (λ r. (p r && has key (some k) r) && not (in_keys (key r) ks)) rows
          ≡ (if in_keys (some k) ks then 0 else count (λ r. p r && has key (some k) r) rows)
    other_rows p k ks [] = ground arith
    other_rows p k ks (r ∷ rows) = elim (Bool-cases (has key (some k) r)) [
      | inl e ↦ rw (e, other_rows p k ks rows, same_key→eq (key r) (some k) e) (ground arith)
      | inr e ↦ rw (e, other_rows p k ks rows) (ground arith)
    ]

    -- The rows of a key that satisfy a test, after a merge.
    pub merge-count :
        (p : A → Bool) (k : ℤ) (t : lake.T) (staged : List A)
        → count (λ r. p r && has key (some k) r) (lake.rows (merge t staged).0) ≡ (
            if leb 1 (count (has key (some k)) staged)
            then count (λ r. p r && has key (some k) r) (map align (kept staged))
            else count (λ r. p r && has key (some k) r) (lake.rows t))
    merge-count p k t staged =
        let df = map align (kept staged) in
        let n = aligned-has (some k) staged in
        let b = keys_of-count k df in
        let o = other_rows p k (keys_of key df) (lake.rows t) in
        let few = count_sub p (has key (some k)) df in
        merge-contents t staged (λ r. p r && has key (some k) r) ∙ ground (arith, n, b, o, few)

    pub merge-has :
        (t : lake.T) (staged : List A) (k : ℤ)
        → count (has key (some k)) (lake.rows (merge t staged).0) ≡ (
            if leb 1 (count (has key (some k)) staged)
            then 1
            else count (has key (some k)) (lake.rows t))
    merge-has t staged k =
        let n = aligned-has (some k) staged in
        merge-count (λ r. true) k t staged ∙ ground (arith, n)

    -- A key's rows after a merge, by whether it is staged: one, which is the aligned one that
    -- `_dedupe_latest` keeps of it, or the very rows that it had.
    abbrev pub IsMerged : Bool → ℤ → List A → List A → List A → Type 0
    IsMerged true k staged rows rows' =
        (count (has key (some k)) rows' ≡ 1)
        × ((p : A → Bool)
            → count (λ r. p r && has key (some k) r) rows'
              ≡ count (λ r. p r && has key (some k) r)
                  (map align (dedupe_latest key sorter.sort staged)))
    IsMerged false k staged rows rows' =
        (p : A → Bool)
        → count (λ r. p r && has key (some k) r) rows' ≡ count (λ r. p r && has key (some k) r) rows

    -- After `merge_arrow_table` of rows that have `updated_at` and `id`, the table holds exactly one
    -- row of each key that was staged, the aligned one that `_dedupe_latest` keeps, and of every
    -- other key the rows that it held, each as often.
    pub merge_arrow_table-one_version :
        (t : lake.T) (staged : List A) (k : ℤ)
        → IsMerged
            (leb 1 (count (has key (some k)) staged))
            k
            staged
            (lake.rows t)
            (lake.rows (merge t staged).0)
    unfolding kept
    merge_arrow_table-one_version t staged k =
        by_staged (leb 1 (count (has key (some k)) staged)) refl
      where
        by_staged :
            (is : Bool)
            → leb 1 (count (has key (some k)) staged) ≡ is
            → IsMerged is k staged (lake.rows t) (lake.rows (merge t staged).0)
        by_staged true e =
            (merge-has t staged k ∙ rw e refl, λ p. merge-count p k t staged ∙ rw e refl)
        by_staged false e = λ p. merge-count p k t staged ∙ rw e refl

    All-keyed :
        (rows : List A)
        → count (λ r. not (is_keyed (key r))) rows ≡ 0
        → All (λ r. is_keyed (key r) ≡ true) (map align rows)
    All-keyed [] h = tt
    All-keyed (r ∷ rows) h = elim (Bool-cases (is_keyed (key r))) [
      | inl e ↦ (ap is_keyed (align_key r) ∙ e, All-keyed rows (ground arith))
      | inr e ↦ ground arith
    ]

    kept_keyed :
        (staged : List A)
        → count (λ r. not (is_keyed (key r))) staged ≡ 0
        → All (λ r. is_keyed (key r) ≡ true) (map align (kept staged))
    unfolding kept
    kept_keyed staged h = All-keyed (kept staged) (
        omega (
          arith,
          h,
          (dedupe_latest-IsLatest key ts sorter staged).no_new (λ r. not (is_keyed (key r))),
        ))

    count_and_twice :
        (p q : A → Bool) (rows : List A)
        → count (λ r. (p r && q r) && q r) rows ≡ count (λ r. p r && q r) rows
    count_and_twice p q rows = count_ext _ _ rows (λ r. twice (p r) (q r))
      where
        twice : (a b : Bool) → ((a && b) && b) ≡ (a && b)
        twice a b = ground arith

    -- Merging can be repeated: where no staged key is NULL, merging the same rows again leaves the
    -- table with the same rows, each as often.
    pub merge_arrow_table-merge_arrow_table :
        (t : lake.T) (staged : List A) (p : A → Bool)
        → count (λ r. not (is_keyed (key r))) staged ≡ 0
        → count p (lake.rows (merge (merge t staged).0 staged).0)
          ≡ count p (lake.rows (merge t staged).0)
    merge_arrow_table-merge_arrow_table t staged p h =
        let df = map align (kept staged) in
        let ks = keys_of key df in
        let w = written_keys p ks df (λ k e. e) (kept_keyed staged h) in
        let again = merge-contents (merge t staged).0 staged p in
        let once = merge-contents t staged (λ r. p r && not (in_keys (key r) ks)) in
        let twice = count_and_twice p (λ r. not (in_keys (key r) ks)) (lake.rows t) in
        let first = merge-contents t staged p in omega (arith, w, again, once, twice, first)

    abbrev pub staged_count : ℤ → List (List A) → ℕ
    staged_count k [] = 0
    staged_count k (batch ∷ batches) = count (has key (some k)) batch + staged_count k batches

    batch_step-one_version :
        (t : lake.T) (total : Summary) (batch : List A) (k : ℤ)
        → count
            (has key (some k))
            (lake.rows (batch_step key key lake sorter.sort align true (t, total) batch).0)
          ≡ (if leb 1 (count (has key (some k)) batch)
              then 1
              else count (has key (some k)) (lake.rows t))
    unfolding batch_step
    batch_step-one_version t total [] k = ground arith
    batch_step-one_version t total (r ∷ rs) k = merge-has t (r ∷ rs) k

    merge_batches-one_version :
        (t : lake.T) (total : Summary) (batches : List (List A)) (k : ℤ)
        → count
            (has key (some k))
            (lake.rows (merge_batches key key lake sorter.sort align true (t, total) batches).0)
          ≡ (if leb 1 (staged_count k batches) then 1 else count (has key (some k)) (lake.rows t))
    unfolding merge_batches
    merge_batches-one_version t total [] k = ground arith
    merge_batches-one_version t total (batch ∷ batches) k =
        let s = batch_step key key lake sorter.sort align true (t, total) batch in
        merge_batches-one_version s.0 s.1 batches k
        ∙ ground (arith, batch_step-one_version t total batch k)

    -- The batched merge, whatever the batches: the table ends with exactly one row of each key that
    -- some batch staged, and as many of every other key as before.
    pub merge_parquet_batched-one_version :
        (t : lake.T) (batches : List (List A)) (k : ℤ)
        → count
            (has key (some k))
            (lake.rows (merge_parquet_batched key key lake sorter.sort align true t batches).0)
          ≡ (if leb 1 (staged_count k batches) then 1 else count (has key (some k)) (lake.rows t))
    unfolding merge_parquet_batched
    merge_parquet_batched-one_version t batches k = merge_batches-one_version t _ batches k
