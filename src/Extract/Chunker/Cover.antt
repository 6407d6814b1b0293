-- ===== src/Extract/Chunker/Cover.antt =====
-- Which rows the chunks of a plan select: every row of the source exactly once.
use mathlib.Core.Bool.{◌&&◌}
use text.Mathlib.Text.{◌==◌ as str_eq}
use postgres_s3_warehouse_sy.Prelude.{
  ℕ, ◌+◌, ◌*◌, ◌≡◌, ◌∙◌, refl, String, Bool, true, false, Option, none, some, List, [], ◌∷◌, arith,
  Bool-cases, inl, inr, count, count-append, All, length, if◌then◌else◌,
}
use postgres_s3_warehouse_sy.Prelude.Int.{
  ℤ, pos, pos_part, neg_part, ◌+ℤ◌, ◌≤ℤ◌, leb_ℤ, ltb_ℤ, eqb_ℤ, floor_div, floor_div_bounds,
  +ℤ_parts,
}
use postgres_s3_warehouse_sy.Prelude.Int.Order.{le→leb_ℤ, between-eq-eqb_ℤ}
use postgres_s3_warehouse_sy.Prelude.Result.{ok, >>=-eq-ok, ok-injective}
use postgres_s3_warehouse_sy.Extract.CopyWorker.{SourceRow, selects, midnight, day_us}
use postgres_s3_warehouse_sy.Extract.Chunker.{
  Chunk, DayGroup, plan_range_chunks, plan_partitioned_chunks, group_chunks, group_loop,
  range_chunk, day_between, int_or, whole_day_chunk, day_range_chunk,
}
use postgres_s3_warehouse_sy.Extract.Chunker.Loop.{count-split_ids}

midnight_parts :
    (d : ℤ)
    → pos_part (midnight d) + neg_part d * day_us ≡ neg_part (midnight d) + pos_part d * day_us
midnight_parts d = ground arith

-- The calendar day of a time: what `col::date` gives, by UTC for a time with a zone.
unfoldable pub day_of : ℤ → ℤ
day_of v = floor_div v (pos day_us)

-- The two midnights of the COPY predicate bound exactly the rows of the day.
pub in_day-eq-day_of :
    (d v : ℤ) → (leb_ℤ (midnight d) v && ltb_ℤ v (midnight (d +ℤ pos 1))) ≡ eqb_ℤ (day_of v) d
unfolding day_of
in_day-eq-day_of d v =
    between-eq-eqb_ℤ (midnight d) v (midnight (d +ℤ pos 1)) (day_of v) d
      (λ h k. omega (
        arith,
        midnight_parts d,
        midnight_parts (d +ℤ pos 1),
        +ℤ_parts d (pos 1),
        floor_div_bounds v day_us (omega arith),
      ))
      (λ h. omega (
        arith,
        midnight_parts d,
        midnight_parts (d +ℤ pos 1),
        +ℤ_parts d (pos 1),
        floor_div_bounds v day_us (omega arith),
      ))
      (λ h. omega (
        arith,
        midnight_parts d,
        midnight_parts (d +ℤ pos 1),
        +ℤ_parts d (pos 1),
        floor_div_bounds v day_us (omega arith),
      ))

-- The row belongs to the group: both have no day, or the same one.
abbrev pub same_day : Option ℤ → Option ℤ → Bool
same_day none none = true
same_day none (some d) = false
same_day (some v) none = false
same_day (some v) (some d) = eqb_ℤ (day_of v) d

abbrev row_of : Option ℤ → Option ℤ → SourceRow
row_of id part = record { id = id; part = part }

selects-range_chunk :
    (schema table : String) (x : ℤ) (part : Option ℤ) (cid : ℕ) (a b : ℤ)
    → selects (row_of (some x) part) none (range_chunk schema table cid a b)
      ≡ (true && (leb_ℤ a x && ltb_ℤ x b))
unfolding selects
selects-range_chunk schema table x part cid a b = ground arith

module _ (schema table part_col : String) (part_tz has_numeric_id : Bool) (target : ℤ)
    (named : str_eq part_col "" ≡ false) where
  abbrev whole : Option ℤ → ℕ → Chunk
  whole = whole_day_chunk schema table part_col part_tz has_numeric_id target

  abbrev ranged : Option ℤ → ℕ → ℤ → ℤ → Chunk
  ranged = day_range_chunk schema table part_col part_tz has_numeric_id target

  selects-whole :
      (id part d : Option ℤ) (cid : ℕ)
      → selects (row_of id part) none (whole d cid) ≡ same_day part d
  unfolding selects
  selects-whole id none none cid = ground arith
  selects-whole id none (some d) cid = ground arith
  selects-whole id (some v) none cid = ground arith
  selects-whole id (some v) (some d) cid = ground (arith, in_day-eq-day_of d v)

  selects-ranged :
      (x d : ℤ) (part : Option ℤ) (cid : ℕ) (a b : ℤ)
      → selects (row_of (some x) part) none (ranged (some d) cid a b)
        ≡ (same_day part (some d) && (leb_ℤ a x && ltb_ℤ x b))
  unfolding selects
  selects-ranged x d none cid a b = ground arith
  selects-ranged x d (some v) cid a b = ground (arith, in_day-eq-day_of d v)

  selects-other_day :
      (id : Option ℤ) (d : ℤ) (part : Option ℤ)
      → same_day part (some d) ≡ false
      → (cid : ℕ) (a b : ℤ)
      → selects (row_of id part) none (ranged (some d) cid a b)
        ≡ (false && (leb_ℤ a (pos 0) && ltb_ℤ (pos 0) b))
  unfolding selects
  selects-other_day id d none e cid a b = ground arith
  selects-other_day id d (some v) e cid a b = ground (arith, in_day-eq-day_of d v)

-- `lo` and `hi` are the least and greatest id of a group that has the id.
abbrev pub InRange : Option ℤ → Option ℤ → Option ℤ → Type 0
InRange (some x) (some lo) (some hi) = (lo ≤ℤ x) × (x ≤ℤ hi)
InRange _ _ _ = ⊥

abbrev pub FitsGroup : Bool → Option ℤ → Option ℤ → DayGroup → Type 0
FitsGroup has_numeric_id id part g =
    same_day part g.d ≡ true → has_numeric_id ≡ true → InRange id g.lo g.hi

-- The answer of the GROUP BY query, as far as one row of the table is concerned.
pub record IsGrouped (has_numeric_id : Bool) (row : SourceRow) (groups : List DayGroup)
    : Type 0 where
  pub one_group : count (λ g. same_day row.part g.d) groups ≡ 1
  pub in_range : All (FitsGroup has_numeric_id row.id row.part) groups

module _ (schema table part_col : String) (part_tz : Bool) (target : ℤ)
    (named : str_eq part_col "" ≡ false) where
  count-own_day :
      (x : ℤ) (part : Option ℤ) (d n lo hi : ℤ) (cid : ℕ) {chunks : List Chunk}
      → same_day part (some d) ≡ true
      → lo ≤ℤ x
      → x ≤ℤ hi
      → day_between schema table part_col part_tz true target (some d) n (some lo) (some hi) cid
        ≡ ok chunks
      → count (selects (row_of (some x) part) none) chunks ≡ 1
  unfolding day_between
  count-own_day x part d n lo hi cid own from upto h =
      count-split_ids _ x (same_day part (some d)) _
        (selects-ranged schema table part_col part_tz true target named x d part) n target lo hi cid
        h
      ∙ rw (own, le→leb_ℤ lo x from, le→leb_ℤ x hi upto)

  count-other_day :
      (id part : Option ℤ) (d n : ℤ) (lo hi : Option ℤ) (cid : ℕ) {chunks : List Chunk}
      → same_day part (some d) ≡ false
      → day_between schema table part_col part_tz true target (some d) n lo hi cid ≡ ok chunks
      → count (selects (row_of id part) none) chunks ≡ 0
  unfolding day_between
  count-other_day id part d n none hi cid other h = rw (← ok-injective h)
  count-other_day id part d n (some lo) none cid other h = rw (← ok-injective h)
  count-other_day id part d n (some lo) (some hi) cid other h =
      count-split_ids _ (pos 0) false _
        (selects-other_day schema table part_col part_tz true target named id d part other) n target
        lo hi cid h

  count-InRange :
      (id part : Option ℤ) (d n : ℤ) (lo hi : Option ℤ) (cid : ℕ) {chunks : List Chunk}
      → same_day part (some d) ≡ true
      → InRange id lo hi
      → day_between schema table part_col part_tz true target (some d) n lo hi cid ≡ ok chunks
      → count (selects (row_of id part) none) chunks ≡ 1
  count-InRange (some x) part d n (some lo) (some hi) cid own (from, upto) h =
      count-own_day x part d n lo hi cid own from upto h
  count-InRange _ part d n _ _ cid own f h = absurd f

  count-day_between :
      (id part : Option ℤ) (d n : ℤ) (lo hi : Option ℤ) (cid : ℕ) {chunks : List Chunk}
      → (same_day part (some d) ≡ true → InRange id lo hi)
      → day_between schema table part_col part_tz true target (some d) n lo hi cid ≡ ok chunks
      → count (selects (row_of id part) none) chunks ≡ (if same_day part (some d) then 1 else 0)
  count-day_between id part d n lo hi cid fits h = elim (Bool-cases (same_day part (some d))) [
    | inl own ↦ rw own (count-InRange id part d n lo hi cid own (fits own) h)
    | inr other ↦ rw other (count-other_day id part d n lo hi cid other h)
  ]

  -- The chunks of one group select a row of the group once, and no other row.
  count-group_chunks :
      (numeric : Bool) (id part d n lo hi : Option ℤ) (cid : ℕ) {chunks : List Chunk}
      → (same_day part d ≡ true → numeric ≡ true → InRange id lo hi)
      → group_chunks schema table part_col part_tz numeric target
          (record { d = d; n = n; lo = lo; hi = hi })
          cid
        ≡ ok chunks
      → count (selects (row_of id part) none) chunks ≡ (if same_day part d then 1 else 0)
  unfolding group_chunks
  count-group_chunks false id part d n lo hi cid fits h =
      rw (← ok-injective h, selects-whole schema table part_col part_tz false target named)
  count-group_chunks true id part none n lo hi cid fits h =
      rw (← ok-injective h, selects-whole schema table part_col part_tz true target named)
  count-group_chunks true id part (some d) n lo hi cid fits h =
      count-day_between id part d _ lo hi cid (λ own. fits own refl) h

  count-group_loop :
      (has_numeric_id : Bool) (id part : Option ℤ) (groups : List DayGroup) (cid : ℕ)
      {chunks : List Chunk}
      → All (FitsGroup has_numeric_id id part) groups
      → group_loop schema table part_col part_tz has_numeric_id target groups cid ≡ ok chunks
      → count (selects (row_of id part) none) chunks ≡ count (λ g. same_day part g.d) groups
  unfolding group_loop
  count-group_loop numeric id part [] cid fits h = rw (← ok-injective h)
  count-group_loop numeric id part (g ∷ groups) cid fits h =
      let (first, e, h') =
        >>=-eq-ok (group_chunks schema table part_col part_tz numeric target g cid) _ h in
      let (rest, e', h'') =
        >>=-eq-ok
          (group_loop schema table part_col part_tz numeric target groups (cid + length first)) _
          h' in
      rw (← ok-injective h'', count-append)
        (ground (
          arith,
          count-group_chunks numeric id part g.d g.n g.lo g.hi cid fits.0 e,
          count-group_loop numeric id part groups (cid + length first) fits.1 e',
        ))

-- If `plan_partitioned_chunks` returns a plan, exactly one of its chunks selects a given row of the
-- table, where the partition column has a name, the GROUP BY answer has one group of the row's day (or
-- of NULL), and that group's id bounds hold the row's id if the table has a numeric id.
pub plan_partitioned_chunks-selects_once :
    (schema table part_col : String) (part_tz has_numeric_id : Bool) (rows_per_chunk : Option ℤ)
    (default_rows : ℤ) (groups : List DayGroup) (row : SourceRow) {chunks : List Chunk}
    → str_eq part_col "" ≡ false
    → IsGrouped has_numeric_id row groups
    → plan_partitioned_chunks schema table part_col part_tz has_numeric_id rows_per_chunk
        default_rows groups
      ≡ ok chunks
    → count (selects row none) chunks ≡ 1
unfolding plan_partitioned_chunks
plan_partitioned_chunks-selects_once schema table part_col part_tz numeric rpc default groups row
      named g h =
    count-group_loop schema table part_col part_tz (int_or rpc default) named numeric row.id
      row.part groups 0 g.in_range h
    ∙ g.one_group

-- If `plan_range_chunks` returns a plan for a least and a greatest id, exactly one of its chunks
-- selects a row whose id lies between them, and none selects a row whose id lies outside.
pub plan_range_chunks-selects_once :
    (schema table : String) (rows_per_chunk : Option ℤ) (default_rows lo hi : ℤ)
    (reltuples : Option ℤ) (x : ℤ) (part : Option ℤ) {chunks : List Chunk}
    → plan_range_chunks schema table rows_per_chunk default_rows
        (record { min_id = some lo; max_id = some hi; reltuples = reltuples })
      ≡ ok chunks
    → count (selects (record { id = some x; part = part }) none) chunks
      ≡ (if leb_ℤ lo x && leb_ℤ x hi then 1 else 0)
unfolding plan_range_chunks
plan_range_chunks-selects_once schema table rpc default lo hi reltuples x part h =
    count-split_ids _ x true _ (selects-range_chunk schema table x part) _ (int_or rpc default) lo
      hi 0 h
