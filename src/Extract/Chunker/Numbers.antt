-- ===== src/Extract/Chunker/Numbers.antt =====
-- How the chunks of a plan are numbered, and when a plan exists.
use postgres_s3_warehouse_sy.Prelude.{
  ℕ, zero, suc, ◌+◌, ◌≡◌, refl, String, Bool, false, not, ◌||◌, Option, none, some, List, [], ◌∷◌,
  ◌++◌, arith, Bool-cases, inl, inr, length,
}
use postgres_s3_warehouse_sy.Prelude.Int.{
  ℤ, pos, pos_part, ◌+ℤ◌, ◌-ℤ◌, leb_ℤ, eqb_ℤ, max_ℤ, floor_div,
}
use postgres_s3_warehouse_sy.Prelude.Result.{ok, err, out_of_fuel, >>=-eq-ok, ok-injective}
use postgres_s3_warehouse_sy.Extract.Chunker.Loop.{split_ids_total}
use postgres_s3_warehouse_sy.Extract.Chunker.{
  Chunk, DayGroup, range_loop, split_ids, checked_div, day_between, group_chunks, group_loop,
  plan_partitioned_chunks, plan_range_chunks, range_between, range_chunk, Bounds, int_or, is_none,
  or_zero,
}

-- The chunk ids are n, n + 1, n + 2 and so on.
abbrev pub NumberedFrom : ℕ → List Chunk → Type 0
NumberedFrom n [] = Unit
NumberedFrom n (c ∷ cs) = (c.chunk_id ≡ n) × NumberedFrom (n + 1) cs

NumberedFrom-append :
    (n m : ℕ) (xs ys : List Chunk)
    → n + length xs ≡ m
    → NumberedFrom n xs
    → NumberedFrom m ys
    → NumberedFrom n (xs ++ ys)
NumberedFrom-append n m [] ys e hx hy = let e' : n ≡ m = omega arith in rw e' hy
NumberedFrom-append n m (x ∷ xs) ys e hx hy =
    (hx.0, NumberedFrom-append (n + 1) m xs ys (omega arith) hx.1 hy)

module _ (make : ℕ → ℤ → ℤ → Chunk)
    (numbers : (cid : ℕ) (a b : ℤ) → (make cid a b).chunk_id ≡ cid) where
  range_loop-NumberedFrom :
      (fuel : ℕ) (cur_lo hi step : ℤ) (cid : ℕ) {chunks : List Chunk}
      → range_loop fuel make cur_lo hi step cid ≡ ok chunks
      → NumberedFrom cid chunks
  unfolding range_loop
  range_loop-NumberedFrom zero cur_lo hi step cid {chunks} h = elim (Bool-cases (leb_ℤ cur_lo hi)) [
    | inl more ↦ absurd (runs (rw more at h))
    | inr done ↦ rw (← ok-injective (rw done at h)) tt
  ]
    where
      runs : err out_of_fuel ≡ ok chunks → ⊥
      runs same = cc
  range_loop-NumberedFrom (suc fuel) cur_lo hi step cid h = elim (Bool-cases (leb_ℤ cur_lo hi)) [
    | inl more ↦
        let (cs, e, e') =
          >>=-eq-ok (range_loop fuel make (cur_lo +ℤ step) hi step (cid + 1)) _ (rw more at h) in
        rw (← ok-injective e')
          (numbers cid cur_lo _, range_loop-NumberedFrom fuel (cur_lo +ℤ step) hi step (cid + 1) e)
    | inr done ↦ rw (← ok-injective (rw done at h)) tt
  ]

  split_ids-NumberedFrom :
      (rows target lo hi : ℤ) (cid : ℕ) {chunks : List Chunk}
      → split_ids make rows target lo hi cid ≡ ok chunks
      → NumberedFrom cid chunks
  unfolding split_ids
  split_ids-NumberedFrom rows target lo hi cid h =
      let (wanted, _, e) = >>=-eq-ok (checked_div rows target) _ h in
      range_loop-NumberedFrom (pos_part (hi -ℤ lo +ℤ pos 1)) lo hi
        (max_ℤ (pos 1) (floor_div (hi -ℤ lo +ℤ pos 1) (max_ℤ (pos 1) wanted))) cid e

module _ (schema table part_col : String) (part_tz numeric : Bool) (target : ℤ) where
  day_between-NumberedFrom :
      (day : Option ℤ) (n : ℤ) (lo hi : Option ℤ) (cid : ℕ) {chunks : List Chunk}
      → day_between schema table part_col part_tz numeric target day n lo hi cid ≡ ok chunks
      → NumberedFrom cid chunks
  unfolding day_between
  day_between-NumberedFrom day n none hi cid h = rw (← ok-injective h) tt
  day_between-NumberedFrom day n (some lo) none cid h = rw (← ok-injective h) tt
  day_between-NumberedFrom day n (some lo) (some hi) cid h =
      split_ids-NumberedFrom _ (λ c a b. refl) n target lo hi cid h

  group_chunks-NumberedFrom :
      (g : DayGroup) (cid : ℕ) {chunks : List Chunk}
      → group_chunks schema table part_col part_tz numeric target g cid ≡ ok chunks
      → NumberedFrom cid chunks
  unfolding group_chunks
  group_chunks-NumberedFrom g cid h = elim (Bool-cases (not numeric || is_none g.d)) [
    | inl whole ↦ let e = rw whole at h in rw (← ok-injective e) (refl, tt)
    | inr split ↦
        let e = rw split at h in day_between-NumberedFrom g.d (or_zero g.n) g.lo g.hi cid e
  ]

  group_loop-NumberedFrom :
      (groups : List DayGroup) (cid : ℕ) {chunks : List Chunk}
      → group_loop schema table part_col part_tz numeric target groups cid ≡ ok chunks
      → NumberedFrom cid chunks
  unfolding group_loop
  group_loop-NumberedFrom [] cid h = rw (← ok-injective h) tt
  group_loop-NumberedFrom (g ∷ groups) cid h =
      let (first, e, h') =
        >>=-eq-ok (group_chunks schema table part_col part_tz numeric target g cid) _ h in
      let (rest, e', h'') =
        >>=-eq-ok
          (group_loop schema table part_col part_tz numeric target groups (cid + length first)) _
          h' in
      rw (← ok-injective h'') (
        NumberedFrom-append cid (cid + length first) first rest refl
          (group_chunks-NumberedFrom g cid e)
          (group_loop-NumberedFrom groups (cid + length first) e'))

  group_chunks_total :
      (g : DayGroup) (cid : ℕ)
      → eqb_ℤ target (pos 0) ≡ false
      → (chunks : List Chunk) × (group_chunks schema table part_col part_tz numeric target g cid
          ≡ ok chunks)
  unfolding group_chunks day_between
  group_chunks_total g cid e = elim (Bool-cases (not numeric || is_none g.d)) [
    | inl whole ↦ rw whole (_, refl)
    | inr split ↦ rw split (by_bounds g.lo g.hi)
  ]
    where
      by_bounds :
          (lo hi : Option ℤ)
          → (chunks : List Chunk) × (day_between schema table part_col part_tz numeric target g.d
                (or_zero g.n)
                lo
                hi
                cid
              ≡ ok chunks)
      by_bounds none hi = ([], refl)
      by_bounds (some lo) none = ([], refl)
      by_bounds (some lo) (some hi) = split_ids_total _ (or_zero g.n) target lo hi cid e

  group_loop_total :
      (groups : List DayGroup) (cid : ℕ)
      → eqb_ℤ target (pos 0) ≡ false
      → (chunks : List Chunk) × (group_loop schema table part_col part_tz numeric target groups cid
          ≡ ok chunks)
  unfolding group_loop
  group_loop_total [] cid e = ([], refl)
  group_loop_total (g ∷ groups) cid e =
      let (first, h) = group_chunks_total g cid e in
      let (rest, k) = group_loop_total groups (cid + length first) e in (first ++ rest, rw (h, k))

-- With a target of rows other than 0, `plan_partitioned_chunks` returns a plan, whatever the groups
-- are, and its chunks are numbered 0, 1, 2 and so on without a gap.
pub plan_partitioned_chunks_total :
    (schema table part_col : String) (part_tz has_numeric_id : Bool) (rows_per_chunk : Option ℤ)
    (default_rows : ℤ) (groups : List DayGroup)
    → eqb_ℤ (int_or rows_per_chunk default_rows) (pos 0) ≡ false
    → (chunks : List Chunk) × (plan_partitioned_chunks schema table part_col part_tz has_numeric_id
          rows_per_chunk default_rows groups
        ≡ ok chunks)
      × NumberedFrom 0 chunks
unfolding plan_partitioned_chunks
plan_partitioned_chunks_total schema table part_col part_tz numeric rpc default groups e =
    let target = int_or rpc default in
    let (chunks, h) = group_loop_total schema table part_col part_tz numeric target groups 0 e in
    (chunks, h, group_loop-NumberedFrom schema table part_col part_tz numeric target groups 0 h)

-- With a target of rows other than 0, `plan_range_chunks` returns a plan, whatever the database
-- answers, and its chunks are numbered 0, 1, 2 and so on without a gap.
pub plan_range_chunks_total :
    (schema table : String) (rows_per_chunk : Option ℤ) (default_rows : ℤ) (answer : Bounds)
    → eqb_ℤ (int_or rows_per_chunk default_rows) (pos 0) ≡ false
    → (chunks : List Chunk) × (plan_range_chunks schema table rows_per_chunk default_rows answer
        ≡ ok chunks)
      × NumberedFrom 0 chunks
unfolding plan_range_chunks
plan_range_chunks_total schema table rpc default answer e =
    by_bounds answer.min_id answer.max_id (or_zero answer.reltuples)
  where
    by_bounds :
        (lo hi : Option ℤ) (rows : ℤ)
        → (chunks : List Chunk) × (range_between schema table (int_or rpc default) lo hi rows
            ≡ ok chunks)
          × NumberedFrom 0 chunks
    by_bounds none hi rows = ([], refl, tt)
    by_bounds (some lo) none rows = ([], refl, tt)
    by_bounds (some lo) (some hi) rows =
        let (chunks, h) =
          split_ids_total (range_chunk schema table) rows (int_or rpc default) lo hi 0 e in
        (chunks, h, split_ids-NumberedFrom _ (λ c a b. refl) rows (int_or rpc default) lo hi 0 h)
