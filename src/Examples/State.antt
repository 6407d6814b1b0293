-- ===== src/Examples/State.antt =====
-- Watermarks and windows at concrete inputs.
use postgres_s3_warehouse_sy.Prelude.{ℕ, ◌≡◌, refl, Option, none, some, List, [], ◌∷◌, arith}
use postgres_s3_warehouse_sy.Prelude.Int.{ℤ, pos, ◌-ℤ◌}
use postgres_s3_warehouse_sy.Prelude.Result.{ok}
use postgres_s3_warehouse_sy.Prelude.Table.{put, string_key, int_key, pair_key, find-put_self}
use postgres_s3_warehouse_sy.State.Time.{Datetime, timestamp_tz, Value, moment, day, number}
use postgres_s3_warehouse_sy.State.Watermarks.{
  Texts, Watermark, WatermarkRow, Watermarks, serialize, get_watermark, set_watermark, utc,
}
use postgres_s3_warehouse_sy.State.Watermarks.Laws.{
  later, Stores, Advances, IsLegacy, set_watermark_forward, set_watermark_legacy,
}
use postgres_s3_warehouse_sy.State.Watermarks.Writers.{EndsWith, set_all, set_all-EndsWith}
use postgres_s3_warehouse_sy.Extract.Incremental.{WindowSettings, run_incremental}
use postgres_s3_warehouse_sy.Extract.Incremental.NoGap.{run_incremental-no_gap}
use postgres_s3_warehouse_sy.Extract.Incremental.Covers.{Covers}

abbrev as_datetime : Value → Option Datetime
as_datetime (moment d) = some d
as_datetime v = none

abbrev as_date : Value → Option ℤ
as_date (day d) = some d
as_date v = none

abbrev as_int : Value → Option ℤ
as_int (number n) = some n
as_int v = none

-- Texts that keep the value they print.
abbrev pub texts : Texts
texts = record {
  Text = Value;
  datetime_text = moment;
  date_text = day;
  int_text = number;
  read_datetime = as_datetime;
  read_date = as_date;
  read_int = as_int;
  read_datetime-datetime_text = datetime_law;
  read_date-date_text = date_law;
  read_int-int_text = int_law;
}
  where
    datetime_law : (d : Datetime) → as_datetime (moment d) ≡ some d
    datetime_law d = refl

    date_law : (d : ℤ) → as_date (day d) ≡ some d
    date_law d = refl

    int_law : (n : ℤ) → as_int (number n) ≡ some n
    int_law n = refl

abbrev at : ℕ → Datetime
at t = record { clock = pos t; offset = utc }

abbrev mark : ℕ → Watermark
mark t = record { value = moment (at t); last_id = pos 7 }

abbrev pub row_of : ℕ → WatermarkRow texts
row_of t = record {
  last_value = some (serialize texts (moment (at t)));
  last_ts = some (at t);
  last_id = pos 7;
}

abbrev table : Watermarks texts
table = put (pos 1, "public.events") (row_of 5_000_000) []

table-Stores : Stores texts table (pos 1) "public.events" timestamp_tz (mark 5_000_000)
table-Stores = record {
  row = row_of 5_000_000;
  found = find-put_self (pos 1, "public.events") (row_of 5_000_000) [];
  text = refl;
  id = refl;
  kind = (pos 0, refl);
}

set_watermark_forward_example :
    Advances texts table
      (pos 1)
      "public.events"
      timestamp_tz
      (later (mark 5_000_000) (mark 9))
      (set_watermark texts table (pos 1) "public.events" (mark 9) timestamp_tz)
set_watermark_forward_example =
    set_watermark_forward texts table (pos 1) "public.events" timestamp_tz (mark 5_000_000) (mark 9)
      table-Stores (pos 0, refl)

set_all-EndsWith_example :
    EndsWith texts
      (pos 1)
      "public.events"
      timestamp_tz
      (mark 5_000_000)
      (mark 9 ∷ mark 8_000_000 ∷ [])
      (set_all texts (pos 1) "public.events" timestamp_tz table (mark 9 ∷ mark 8_000_000 ∷ []))
set_all-EndsWith_example =
    set_all-EndsWith texts (pos 1) "public.events" timestamp_tz table (mark 5_000_000)
      (mark 9 ∷ mark 8_000_000 ∷ []) table-Stores ((pos 0, refl), ((pos 0, refl), tt))

abbrev legacy_row : WatermarkRow texts
legacy_row = record { last_value = none; last_ts = some (at 5_000_000); last_id = pos 7 }

abbrev legacy_table : Watermarks texts
legacy_table = put (pos 1, "public.events") legacy_row []

legacy_table-IsLegacy : IsLegacy texts legacy_table (pos 1) "public.events" (at 5_000_000) (pos 7)
legacy_table-IsLegacy = record {
  row = legacy_row;
  found = find-put_self (pos 1, "public.events") legacy_row [];
  no_text = refl;
  stamp = refl;
  id_is = refl;
}

set_watermark_legacy_example :
    (get_watermark texts legacy_table (pos 1) "public.events" timestamp_tz
      ≡ ok (record { value = moment (at 5_000_000); last_id = pos 7 }))
    × Advances texts legacy_table
        (pos 1)
        "public.events"
        timestamp_tz
        (mark 9)
        (set_watermark texts legacy_table (pos 1) "public.events" (mark 9) timestamp_tz)
unfolding ◌-ℤ◌
set_watermark_legacy_example =
    set_watermark_legacy texts legacy_table (pos 1) "public.events" (at 5_000_000) (pos 7) (mark 9)
      legacy_table-IsLegacy (pos 0, refl) refl

abbrev settings : WindowSettings
settings = record { overlap_seconds = pos 2; safety_gap_seconds = pos 1 }

-- Rows as their time and id: before the window, in it, NULL, at the bound.
abbrev rows : List (Option Value × ℤ)
rows =
    (some (moment (at 1_000_000)), pos 1)
    ∷ (some (moment (at 6_000_000)), pos 2)
    ∷ (none, pos 3)
    ∷ (some (moment (at 19_000_000)), pos 4)
    ∷ []

run_incremental-no_gap_example :
    Covers {A = Option Value × ℤ}
      (λ r. r.0)
      (λ r. r.1)
      timestamp_tz
      settings
      (mark 5_000_000)
      rows
      (run_incremental
        (λ r. r.0)
        (λ r. r.1)
        texts
        table
        (pos 1)
        "public.events"
        settings
        (at 20_000_000)
        (some timestamp_tz)
        rows)
run_incremental-no_gap_example =
    run_incremental-no_gap (λ r. r.0) (λ r. r.1) texts table (pos 1) "public.events" settings
      (at 20_000_000) (pos 0) timestamp_tz (mark 5_000_000) rows table-Stores refl (omega arith)
      ((pos 0, refl), ((pos 0, refl), (tt, ((pos 0, refl), tt))))
