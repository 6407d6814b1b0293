-- ===== src/Extract/CopyWorker.antt =====
-- extract/copy_worker.py: the WHERE clause of a chunk's COPY, and the loop that rolls its rows
-- into parquet parts.
use mathlib.Core.Bool.{◌&&◌}
use text.Mathlib.Text.{◌==◌ as str_eq}
use postgres_s3_warehouse_sy.Prelude.{
  ℕ, ◌*◌, String, Bool, true, false, not, Option, none, some, List, [], ◌∷◌, ◌++◌, any,
  if◌then◌else◌,
}
use postgres_s3_warehouse_sy.Prelude.Int.{
  ℤ, pos, pos_part, neg_part, sub_ℕ, ◌+ℤ◌, leb_ℤ, ltb_ℤ, eqb_ℤ,
}
use postgres_s3_warehouse_sy.Extract.Chunker.{Chunk}

-- One predicate of the WHERE clause. `in_day` is `col >= midnight AND col < next midnight`.
pub data Predicate : Type 0 where
  is_null : String → Predicate
  in_day : String → Bool → ℤ → Predicate
  id_from : ℤ → Predicate
  id_below : ℤ → Predicate
  -- `"id" IN (...)`, the only `where_extra` that a caller passes.
  id_in : List ℤ → Predicate

abbrev truthy : Option String → Bool
truthy none = false
truthy (some s) = not (str_eq s "")

abbrev col_name : Option String → String
col_name none = ""
col_name (some s) = s

day_predicate : Bool → Option String → Option ℤ → Bool → List Predicate
day_predicate true col day tz = if truthy col then is_null (col_name col) ∷ [] else []
day_predicate false col none tz = []
day_predicate false col (some d) tz = if truthy col then in_day (col_name col) tz d ∷ [] else []

abbrev bound_predicate : (ℤ → Predicate) → Option ℤ → List Predicate
bound_predicate make none = []
bound_predicate make (some b) = make b ∷ []

abbrev extra_predicate : Option (List ℤ) → List Predicate
extra_predicate none = []
extra_predicate (some ids) = id_in ids ∷ []

-- `preds`. With no column to test, the `if` and the `elif` on the day both fail.
unfoldable pub where_clause : Chunk → Option (List ℤ) → List Predicate
unfolding day_predicate
where_clause chunk where_extra =
    day_predicate chunk.day_is_null chunk.part_col chunk.day chunk.part_tz
    ++ (bound_predicate id_from chunk.lo
        ++ (bound_predicate id_below chunk.hi ++ extra_predicate where_extra))

-- The columns of a source row that the clause reads: the primary key `id`, and the partition
-- column in microseconds since 1970-01-01 (UTC if it has a zone, wall clock if not).
pub record SourceRow : Type 0 where
  pub id : Option ℤ
  pub part : Option ℤ

abbrev pub day_us : ℕ
day_us = 86_400_000_000

abbrev pub midnight : ℤ → ℤ
midnight d = sub_ℕ (pos_part d * day_us) (neg_part d * day_us)

-- A comparison with NULL is not true.
abbrev pub test_int : (ℤ → Bool) → Option ℤ → Bool
test_int p none = false
test_int p (some v) = p v

abbrev is_null_value : Option ℤ → Bool
is_null_value none = true
is_null_value (some v) = false

unfoldable pub holds : SourceRow → Predicate → Bool
holds r (is_null col) = is_null_value r.part
holds r (in_day col tz d) =
    test_int (λ v. leb_ℤ (midnight d) v && ltb_ℤ v (midnight (d +ℤ pos 1))) r.part
holds r (id_from lo) = test_int (λ v. leb_ℤ lo v) r.id
holds r (id_below hi) = test_int (λ v. ltb_ℤ v hi) r.id
holds r (id_in ids) = test_int (λ v. any (eqb_ℤ v) ids) r.id

abbrev pub all_hold : SourceRow → List Predicate → Bool
all_hold r [] = true
all_hold r (p ∷ ps) = holds r p && all_hold r ps

-- The rows that the COPY statement of a chunk returns; no WHERE if there is no predicate.
unfoldable pub selects : SourceRow → Option (List ℤ) → Chunk → Bool
unfolding where_clause holds
selects r where_extra chunk = all_hold r (where_clause chunk where_extra)
