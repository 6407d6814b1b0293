-- ===== src/Examples/Tables.antt =====
-- Discoveries, lookups and a failing sync at concrete inputs.
use postgres_s3_warehouse_sy.Prelude.{ℕ, ◌≡◌, refl, Option, some, List, [], ◌∷◌}
use postgres_s3_warehouse_sy.Prelude.Int.{ℤ, pos}
use postgres_s3_warehouse_sy.Prelude.Result.{Result, err, external}
use postgres_s3_warehouse_sy.Prelude.Table.{find}
use postgres_s3_warehouse_sy.State.Time.{Datetime, integer, Value, number, tuple_le}
use postgres_s3_warehouse_sy.State.Watermarks.{utc, get_watermark}
use postgres_s3_warehouse_sy.Extract.Incremental.{
  WindowSettings, window, run_window, run_incremental,
}
use postgres_s3_warehouse_sy.Orchestration.Incremental.{Synced, incremental_one_table}
use postgres_s3_warehouse_sy.Orchestration.Incremental.Order.{incremental_one_table-kept}
use postgres_s3_warehouse_sy.Examples.State.{texts}

abbrev settings : WindowSettings
settings = record { overlap_seconds = pos 2; safety_gap_seconds = pos 1 }

abbrev now : Datetime
now = record { clock = pos 20_000_000; offset = utc }

abbrev rows : List (Option Value × ℤ)
rows = (some (number (pos 5)), pos 1) ∷ []

abbrev before : Synced texts ℕ
before = record { watermarks = []; lake = 3 }

-- A merge that raises.
abbrev no_merge : ℕ → List (Option Value × ℤ) → Result (ℕ × ℕ)
no_merge lake staged = err external

incremental_one_table-kept_example :
    (incremental_one_table texts
      (λ r. r.0)
      (λ r. r.1)
      no_merge
      (pos 1)
      "public.events"
      settings
      now
      (some integer)
      rows
      before).0.watermarks
    ≡ before.watermarks
unfolding incremental_one_table run_incremental get_watermark find window run_window tuple_le
incremental_one_table-kept_example =
    incremental_one_table-kept texts (λ r. r.0) (λ r. r.1) no_merge (pos 1) "public.events" settings
      now (some integer) rows before external refl
