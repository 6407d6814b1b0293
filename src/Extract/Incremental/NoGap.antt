-- ===== src/Extract/Incremental/NoGap.antt =====
-- Windows leave no gap: a row that one window does not upload is before its start, or the next
-- window starts before the row.
use postgres_s3_warehouse_sy.Prelude.{◌≡◌, refl, String, Option, none, some, List, All, arith}
use postgres_s3_warehouse_sy.Prelude.Int.{ℤ, pos, ◌-ℤ◌, ◌≤ℤ◌, -ℤ_parts, eq_of_parts}
use postgres_s3_warehouse_sy.Prelude.Result.{◌>>=◌}
use postgres_s3_warehouse_sy.State.Time.{
  Datetime, Kind, timestamp_tz, timestamp_naive, date, integer, Value, moment, day, number, HasKind,
  value_le-HasKind, instant,
}
use postgres_s3_warehouse_sy.State.Watermarks.{Texts, Watermark, Watermarks}
use postgres_s3_warehouse_sy.State.Watermarks.Laws.{Stores, get-Stores}
use postgres_s3_warehouse_sy.Extract.Incremental.{
  WindowSettings, us_of, minus_seconds, overlap_days, date_of, window, run_window, run_incremental,
}
use postgres_s3_warehouse_sy.Extract.Incremental.Scan.{RowHas}
use postgres_s3_warehouse_sy.Extract.Incremental.Covers.{Covers}
use postgres_s3_warehouse_sy.Extract.Incremental.Windows.{unbounded-Covers, bounded-Covers}

module _ {A : Type 0} (value : A → Option Value) (id : A → ℤ) where
  start_at :
      (c n : ℤ) (o : Option ℤ)
      → instant (record { clock = c -ℤ us_of n; offset = o })
        ≡ instant (record { clock = c; offset = o }) -ℤ us_of n
  start_at c n none = refl
  start_at c n (some o) = eq_of_parts _ _ (
      omega (
        arith,
        -ℤ_parts (c -ℤ us_of n) o,
        -ℤ_parts c (us_of n),
        -ℤ_parts (c -ℤ o) (us_of n),
        -ℤ_parts c o,
      ))

  start-moment : (d : Datetime) (n : ℤ) → instant (minus_seconds d n) ≡ instant d -ℤ us_of n
  start-moment d n = start_at d.clock n d.offset

  minus_zero : (a : ℤ) → a ≡ a -ℤ pos 0
  minus_zero a = eq_of_parts _ _ (omega (arith, -ℤ_parts a (pos 0)))

  us_of-positive : (n : ℤ) → pos 1 ≤ℤ n → pos 1 ≤ℤ us_of n
  us_of-positive n h = ground arith

  overlap_days-positive : (n : ℤ) → pos 1 ≤ℤ overlap_days n
  overlap_days-positive n = ground arith

  window-Covers :
      (k : Kind) (s : WindowSettings) (now : Datetime) (o : ℤ) (v : Value) (i : ℤ) (rows : List A)
      → now.offset ≡ some o
      → pos 1 ≤ℤ s.overlap_seconds
      → HasKind k v
      → All (RowHas value id k) rows
      → Covers value id k s
          (record { value = v; last_id = i })
          rows
          (window k s v now >>= run_window value id k (record { value = v; last_id = i }) rows)
  unfolding window
  window-Covers timestamp_tz s now o (moment d) i rows hn ov (p, hv) hr =
      bounded-Covers value id timestamp_tz s _ rows (moment (minus_seconds d s.overlap_seconds))
        (moment (minus_seconds now s.safety_gap_seconds)) (p, hv) (o, hn)
        (value_le-HasKind timestamp_tz _ _ (o, hn) (p, hv)) hr (start-moment d s.overlap_seconds)
        (us_of-positive s.overlap_seconds ov)
  window-Covers timestamp_naive s now o (moment d) i rows hn ov hv hr =
      unbounded-Covers value id timestamp_naive s _ rows
        (moment (minus_seconds d s.overlap_seconds)) hv hr (start-moment d s.overlap_seconds)
  window-Covers date s now o (day d) i rows hn ov hv hr =
      bounded-Covers value id date s _ rows (day (d -ℤ overlap_days s.overlap_seconds))
        (day (date_of (minus_seconds now s.safety_gap_seconds))) tt tt
        (value_le-HasKind date _ _ tt tt) hr refl (overlap_days-positive s.overlap_seconds)
  window-Covers integer s now o (number n) i rows hn ov hv hr =
      unbounded-Covers value id integer s _ rows (number n) tt hr (minus_zero n)
  window-Covers _ s now o _ i rows hn ov hv hr = ground arith

  -- One run of `run_incremental` leaves no gap. Where the state table holds a watermark of the
  -- column's kind, the clock is aware, the overlap is at least one second and every row's watermark
  -- column is NULL or of its kind, the run succeeds with a watermark of that kind; it uploads the
  -- rows of one predicate, each as often as the table has it; and each row of the table was not
  -- after the start of this run's window, is uploaded, or is after the start of the window that
  -- opens at the returned watermark.
  pub run_incremental-no_gap :
      (texts : Texts) (table : Watermarks texts) (c : ℤ) (fqn : String) (s : WindowSettings)
      (now : Datetime) (o : ℤ) (k : Kind) (wm : Watermark) (rows : List A)
      → Stores texts table c fqn k wm
      → now.offset ≡ some o
      → pos 1 ≤ℤ s.overlap_seconds
      → All (RowHas value id k) rows
      → Covers value id k s wm rows (run_incremental value id texts table c fqn s now (some k) rows)
  unfolding run_incremental
  run_incremental-no_gap texts table c fqn s now o k wm rows st hn ov hr =
      rw (get-Stores texts table c fqn k wm st)
        (window-Covers k s now o wm.value wm.last_id rows hn ov st.kind hr)
