-- ===== src/Orchestration/Incremental/Order.antt =====
-- The merge comes before the watermark.
use postgres_s3_warehouse_sy.Prelude.{ℕ, ◌≡◌, refl, String, Option, none, some, List}
use postgres_s3_warehouse_sy.Prelude.Int.{ℤ}
use postgres_s3_warehouse_sy.Prelude.Result.{Error, Result, ok, err}
use postgres_s3_warehouse_sy.State.Time.{Datetime, Kind, Value}
use postgres_s3_warehouse_sy.State.Watermarks.{Texts, Watermark, Watermarks}
use postgres_s3_warehouse_sy.Extract.Incremental.{WindowSettings, Outcome}
use postgres_s3_warehouse_sy.Orchestration.Incremental.{
  Synced, Report, advanced, merged, act, after_window, incremental_one_table,
}

module _ (texts : Texts) {A Lake : Type 0} (value : A → Option Value) (id : A → ℤ)
    (merge : Lake → List A → Result (Lake × ℕ)) (connection_id : ℤ) (fqn : String) where
  advanced-kept :
      (s : Synced texts Lake) (report : Report) (r : Result (Watermarks texts)) (e : Error)
      → (advanced texts value id merge connection_id fqn s report r).1 ≡ err e
      → (advanced texts value id merge connection_id fqn s report r).0.watermarks ≡ s.watermarks
  unfolding advanced
  advanced-kept s report (ok table) e h = cc
  advanced-kept s report (err x) e h = refl

  merged-kept :
      (s : Synced texts Lake) (wm : Watermark) (k : Kind) (r : Result (Lake × ℕ)) (e : Error)
      → (merged texts value id merge connection_id fqn s wm k r).1 ≡ err e
      → (merged texts value id merge connection_id fqn s wm k r).0.watermarks ≡ s.watermarks
  unfolding merged
  merged-kept s wm k (err x) e h = refl
  merged-kept s wm k (ok (lake, rows)) e h = advanced-kept (record s { lake = lake }) _ _ e h

  act-kept :
      (s : Synced texts Lake) (uploaded : Option (List A)) (wm : Option Watermark) (k : Option Kind)
      (e : Error)
      → (act texts value id merge connection_id fqn s uploaded wm k).1 ≡ err e
      → (act texts value id merge connection_id fqn s uploaded wm k).0.watermarks ≡ s.watermarks
  unfolding act
  act-kept s none none none e h = refl
  act-kept s none (some wm) none e h = refl
  act-kept s (some rows) none none e h = refl
  act-kept s (some rows) (some wm) none e h = refl
  act-kept s none (some wm) (some k) e h = advanced-kept s _ _ e h
  act-kept s (some rows) (some wm) (some k) e h = merged-kept s wm k (merge s.lake rows) e h
  act-kept s none none (some k) e h = refl
  act-kept s (some rows) none (some k) e h = refl

  after_window-kept :
      (s : Synced texts Lake) (r : Result (Outcome value id)) (e : Error)
      → (after_window texts value id merge connection_id fqn s r).1 ≡ err e
      → (after_window texts value id merge connection_id fqn s r).0.watermarks ≡ s.watermarks
  unfolding after_window
  after_window-kept s (err x) e h = refl
  after_window-kept s (ok o) e h = act-kept s o.uploaded o.watermark o.kind e h

  -- If a run of the incremental job raises, in its extraction, its merge or its write of the
  -- watermark, all watermarks are as before the run: its window is read again by the next.
  pub incremental_one_table-kept :
      (settings : WindowSettings) (now : Datetime) (column_kind : Option Kind) (rows : List A)
      (s : Synced texts Lake) (e : Error)
      → (incremental_one_table texts value id merge connection_id fqn settings now column_kind rows
          s).1
        ≡ err e
      → (incremental_one_table texts value id merge connection_id fqn settings now column_kind rows
          s).0.watermarks
        ≡ s.watermarks
  unfolding incremental_one_table
  incremental_one_table-kept settings now column_kind rows s e h = after_window-kept s _ e h
