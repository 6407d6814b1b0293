-- ===== src/Orchestration/Incremental.antt =====
-- orchestration/incremental_job.py: one incremental sync of a table, after its configuration and its
-- Iceberg table are known.
-- The merge of the uploaded object is an argument: the lake after it, or its error.
pub mod Order
use postgres_s3_warehouse_sy.Prelude.{ℕ, ◌≡◌, String, Bool, true, false, Option, none, some, List}
use postgres_s3_warehouse_sy.Prelude.Int.{ℤ}
use postgres_s3_warehouse_sy.Prelude.Result.{Error, Result, ok, err, type_error}
use postgres_s3_warehouse_sy.State.Time.{Datetime, Kind, Value}
use postgres_s3_warehouse_sy.State.Watermarks.{Texts, Watermark, Watermarks, set_watermark}
use postgres_s3_warehouse_sy.Extract.Incremental.{WindowSettings, Outcome, run_incremental}

-- The watermarks and the lake's table, which outlive a run.
pub record Synced (texts : Texts) (Lake : Type 0) : Type 1 where
  pub watermarks : Watermarks texts
  pub lake : Lake

pub data Report : Type 0 where
  skipped : Report
  rows_merged : ℕ → Report

module _ (texts : Texts) {A Lake : Type 0} (value : A → Option Value) (id : A → ℤ)
    (merge : Lake → List A → Result (Lake × ℕ)) (connection_id : ℤ) (fqn : String) where
  -- `advance_watermark_after_merge`
  advanced :
      Synced texts Lake → Report → Result (Watermarks texts) → Synced texts Lake × Result Report
  advanced s report (ok table) = (record s { watermarks = table }, ok report)
  advanced s report (err e) = (s, err e)

  merged :
      Synced texts Lake → Watermark → Kind → Result (Lake × ℕ) → Synced texts Lake × Result Report
  unfolding advanced
  merged s wm kind (err e) = (s, err e)
  merged s wm kind (ok (lake, rows)) =
      advanced (record s { lake = lake }) (rows_merged rows)
        (set_watermark texts s.watermarks connection_id fqn wm kind)

  -- The uploaded object, the new watermark and the kind of `run_incremental`.
  act :
      Synced texts Lake
      → Option (List A)
      → Option Watermark
      → Option Kind
      → Synced texts Lake × Result Report
  unfolding merged
  act s uploaded wm none = (s, ok skipped)
  act s none (some wm) (some kind) =
      advanced s (rows_merged 0) (set_watermark texts s.watermarks connection_id fqn wm kind)
  act s (some rows) (some wm) (some kind) = merged s wm kind (merge s.lake rows)
  act s uploaded none (some kind) = (s, err type_error)

  after_window : Synced texts Lake → Result (Outcome value id) → Synced texts Lake × Result Report
  unfolding act
  after_window s (err e) = (s, err e)
  after_window s (ok o) = act s o.uploaded o.watermark o.kind

  unfoldable pub incremental_one_table :
      WindowSettings
      → Datetime
      → Option Kind
      → List A
      → Synced texts Lake
      → Synced texts Lake × Result Report
  unfolding after_window
  incremental_one_table settings now column_kind rows s =
      after_window s (
        run_incremental value id texts s.watermarks connection_id fqn settings now column_kind rows)
