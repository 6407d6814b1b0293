-- ===== src/Examples/Extract.antt =====
-- Plans, windows and parts at concrete inputs.
use postgres_s3_warehouse_sy.Prelude.{
  ℕ, ◌≡◌, refl, true, ◌&&◌, none, some, List, [], ◌∷◌, count, arith, if◌then◌else◌,
}
use postgres_s3_warehouse_sy.Prelude.Int.{pos, leb_ℤ, floor_div}
use postgres_s3_warehouse_sy.Prelude.Result.{ok}
use postgres_s3_warehouse_sy.Extract.Chunker.{
  Chunk, DayGroup, Bounds, plan_partitioned_chunks, plan_range_chunks,
}
use postgres_s3_warehouse_sy.Extract.Chunker.Cover.{
  IsGrouped, day_of, plan_partitioned_chunks-selects_once, plan_range_chunks-selects_once,
}
use postgres_s3_warehouse_sy.Extract.Chunker.Numbers.{
  NumberedFrom, plan_partitioned_chunks_total, plan_range_chunks_total,
}
use postgres_s3_warehouse_sy.Extract.CopyWorker.{SourceRow, selects}
use postgres_s3_warehouse_sy.Extract.Parts.{write_parts, row_group_rows, part_rows_limit}
use postgres_s3_warehouse_sy.Extract.Parts.Laws.{IsFinished, write_parts-IsFinished}

-- Two days of ids 1 to 7 and 8 to 9, and the rows without a day.
abbrev groups : List DayGroup
groups =
    record { d = some (pos 0); n = some (pos 7); lo = some (pos 1); hi = some (pos 7) }
    ∷ record { d = some (pos 1); n = some (pos 2); lo = some (pos 8); hi = some (pos 9) }
    ∷ record { d = none; n = some (pos 1); lo = some (pos 3); hi = some (pos 3) }
    ∷ []

-- A row of the first day with the id 5.
abbrev row : SourceRow
row = record { id = some (pos 5); part = some (pos 3_600_000_000) }

groups-IsGrouped : IsGrouped true row groups
unfolding day_of floor_div
groups-IsGrouped = record {
  one_group = refl;
  in_range = (λ h n. (omega arith, omega arith), (λ h n. cc, (λ h n. cc, tt)));
}

plan_partitioned_chunks_total_example :
    (chunks : List Chunk) × (plan_partitioned_chunks "public" "events" "at" true true
        (some (pos 3))
        (pos 100)
        groups
      ≡ ok chunks)
    × NumberedFrom 0 chunks
plan_partitioned_chunks_total_example =
    plan_partitioned_chunks_total "public" "events" "at" true true (some (pos 3)) (pos 100) groups
      refl

abbrev by_day :
    (chunks : List Chunk) × (plan_partitioned_chunks "public" "events" "at" true true
        (some (pos 3))
        (pos 100)
        groups
      ≡ ok chunks)
    × NumberedFrom 0 chunks
by_day =
    plan_partitioned_chunks_total "public" "events" "at" true true (some (pos 3)) (pos 100) groups
      refl

plan_partitioned_chunks-selects_once_example : count (selects row none) by_day.0 ≡ 1
plan_partitioned_chunks-selects_once_example =
    plan_partitioned_chunks-selects_once "public" "events" "at" true true (some (pos 3)) (pos 100)
      groups row refl groups-IsGrouped by_day.1

abbrev bounds : Bounds
bounds = record { min_id = some (pos 1); max_id = some (pos 9); reltuples = some (pos 9) }

abbrev by_id :
    (chunks : List Chunk) × (plan_range_chunks "public" "events" (some (pos 3)) (pos 100) bounds
      ≡ ok chunks)
    × NumberedFrom 0 chunks
by_id = plan_range_chunks_total "public" "events" (some (pos 3)) (pos 100) bounds refl

plan_range_chunks-selects_once_example :
    count (selects (record { id = some (pos 5); part = none }) none) by_id.0
    ≡ (if leb_ℤ (pos 1) (pos 5) && leb_ℤ (pos 5) (pos 9) then 1 else 0)
plan_range_chunks-selects_once_example =
    plan_range_chunks-selects_once "public" "events" (some (pos 3)) (pos 100) (pos 1) (pos 9)
      (some (pos 9)) (pos 5) none by_id.1

abbrev five : List ℕ
five = 1 ∷ 2 ∷ 3 ∷ 4 ∷ 5 ∷ []

write_parts-IsFinished_example :
    IsFinished
      (row_group_rows (pos 2))
      (part_rows_limit (row_group_rows (pos 2)) (pos 3))
      (write_parts (pos 2) (pos 3) five)
      five
write_parts-IsFinished_example = write_parts-IsFinished (pos 2) (pos 3) five
