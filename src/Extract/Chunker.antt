-- ===== src/Extract/Chunker.antt =====
-- extract/chunker.py: the slices of a source object that parallel COPY workers read.
-- A day is the number of days since 1970-01-01 in place of its ISO text. The answers of the source
-- database (`SELECT min(id), max(id)`, `reltuples`, the GROUP BY) are arguments.
mod Loop
pub mod Cover
pub mod Numbers
use postgres_s3_warehouse_sy.Prelude.{
  ℕ, zero, suc, ◌+◌, String, Bool, true, false, not, ◌||◌, Option, none, some, List, [], ◌∷◌, ◌++◌,
  length, if◌then◌else◌,
}
use postgres_s3_warehouse_sy.Prelude.Int.{
  ℤ, pos, pos_part, ◌+ℤ◌, ◌-ℤ◌, leb_ℤ, eqb_ℤ, max_ℤ, floor_div,
}
use postgres_s3_warehouse_sy.Prelude.Result.{Result, ok, err, zero_division, out_of_fuel, ◌>>=◌}

pub record Chunk : Type 0 where
  pub schema : String
  pub table : String
  pub chunk_id : ℕ
  pub lo : Option ℤ
  pub hi : Option ℤ
  pub part_col : Option String
  pub day : Option ℤ
  pub part_tz : Bool
  pub day_is_null : Bool

abbrev pub is_none {ℓ} : {A : Type ℓ} → Option A → Bool
is_none none = true
is_none (some a) = false

-- Truth of an optional integer: `None` and 0 are false.
abbrev pub int_or : Option ℤ → ℤ → ℤ
int_or none d = d
int_or (some a) d = if eqb_ℤ a (pos 0) then d else a

-- a // b
abbrev pub checked_div : ℤ → ℤ → Result ℤ
checked_div a b = if eqb_ℤ b (pos 0) then err zero_division else ok (floor_div a b)

-- `while cur_lo <= hi`, shared by the two planners: `make` builds the chunk of one round.
-- The fuel is the span of ids; a loop that still runs when it is used up is an error.
pub range_loop : ℕ → (ℕ → ℤ → ℤ → Chunk) → ℤ → ℤ → ℤ → ℕ → Result (List Chunk)
range_loop zero make cur_lo hi step cid = if leb_ℤ cur_lo hi then err out_of_fuel else ok []
range_loop (suc fuel) make cur_lo hi step cid =
    let nxt = cur_lo +ℤ step in
    let rest = range_loop fuel make nxt hi step (cid + 1) in
    if leb_ℤ cur_lo hi
    then (rest >>= λ cs. ok (make cid cur_lo (if leb_ℤ nxt hi then nxt else hi +ℤ pos 1) ∷ cs))
    else ok []

-- From the number of rows to the chunks of the ids `lo` to `hi`.
pub split_ids : (ℕ → ℤ → ℤ → Chunk) → ℤ → ℤ → ℤ → ℤ → ℕ → Result (List Chunk)
split_ids make rows target lo hi cid = do
  wanted ← checked_div rows target
  let n_chunks = max_ℤ (pos 1) wanted
  let span = hi -ℤ lo +ℤ pos 1
  let step = max_ℤ (pos 1) (floor_div span n_chunks)
  range_loop (pos_part span) make lo hi step cid

abbrev pub range_chunk : String → String → ℕ → ℤ → ℤ → Chunk
range_chunk schema table cid lo hi = record {
  schema = schema;
  table = table;
  chunk_id = cid;
  lo = some lo;
  hi = some hi;
  part_col = none;
  day = none;
  part_tz = false;
  day_is_null = false;
}

-- What the two queries of `plan_range_chunks` return.
pub record Bounds : Type 0 where
  pub min_id : Option ℤ
  pub max_id : Option ℤ
  pub reltuples : Option ℤ

abbrev or_zero : Option ℤ → ℤ
or_zero none = pos 0
or_zero (some r) = r

range_between : String → String → ℤ → Option ℤ → Option ℤ → ℤ → Result (List Chunk)
range_between schema table target none hi approx = ok []
range_between schema table target (some lo) none approx = ok []
range_between schema table target (some lo) (some hi) approx =
    split_ids (range_chunk schema table) approx target lo hi 0

pub plan_range_chunks : String → String → Option ℤ → ℤ → Bounds → Result (List Chunk)
unfolding range_between
plan_range_chunks schema table rows_per_chunk default_rows answer =
    range_between schema table (int_or rows_per_chunk default_rows) answer.min_id answer.max_id
      (or_zero answer.reltuples)

-- One row of the GROUP BY query: the day (NULL for rows with no value), the count, the id bounds.
pub record DayGroup : Type 0 where
  pub d : Option ℤ
  pub n : Option ℤ
  pub lo : Option ℤ
  pub hi : Option ℤ

module _ (schema table part_col : String) (part_tz has_numeric_id : Bool) (target : ℤ) where
  abbrev pub whole_day_chunk : Option ℤ → ℕ → Chunk
  whole_day_chunk day cid = record {
    schema = schema;
    table = table;
    chunk_id = cid;
    lo = none;
    hi = none;
    part_col = some part_col;
    day = day;
    part_tz = part_tz;
    day_is_null = is_none day;
  }

  abbrev pub day_range_chunk : Option ℤ → ℕ → ℤ → ℤ → Chunk
  day_range_chunk day cid lo hi = record {
    schema = schema;
    table = table;
    chunk_id = cid;
    lo = some lo;
    hi = some hi;
    part_col = some part_col;
    day = day;
    part_tz = part_tz;
    day_is_null = false;
  }

  day_between : Option ℤ → ℤ → Option ℤ → Option ℤ → ℕ → Result (List Chunk)
  day_between day n none hi cid = ok []
  day_between day n (some lo) none cid = ok []
  day_between day n (some lo) (some hi) cid = split_ids (day_range_chunk day) n target lo hi cid

  -- The body of `for r in rows`: the chunks that it appends.
  pub group_chunks : DayGroup → ℕ → Result (List Chunk)
  unfolding day_between
  group_chunks r cid =
      if not has_numeric_id || is_none r.d
      then ok (whole_day_chunk r.d cid ∷ [])
      else day_between r.d (or_zero r.n) r.lo r.hi cid

  -- `cid` has been raised by 1 for each chunk appended.
  pub group_loop : List DayGroup → ℕ → Result (List Chunk)
  group_loop [] cid = ok []
  group_loop (r ∷ rows) cid = do
    chunks ← group_chunks r cid
    rest ← group_loop rows (cid + length chunks)
    ok (chunks ++ rest)

pub plan_partitioned_chunks :
    String → String → String → Bool → Bool → Option ℤ → ℤ → List DayGroup → Result (List Chunk)
plan_partitioned_chunks schema table part_col part_tz has_numeric_id rows_per_chunk default_rows
      rows =
    group_loop schema table part_col part_tz has_numeric_id (int_or rows_per_chunk default_rows)
      rows 0

pub plan_full_chunk : String → String → List Chunk
plan_full_chunk schema table =
    record {
      schema = schema;
      table = table;
      chunk_id = 0;
      lo = none;
      hi = none;
      part_col = none;
      day = none;
      part_tz = false;
      day_is_null = false;
    }
    ∷ []
