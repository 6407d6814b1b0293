-- ===== src/State/Watermarks.antt =====
-- state/watermarks.py: one (value, id) watermark for each (connection, table), in the table
-- pipeline_watermarks. The clock columns (`updated_at`) are not modelled.
pub mod Laws
pub mod Writers
use postgres_s3_warehouse_sy.Prelude.{
  ℕ, String, ◌≡◌, Bool, true, false, Option, none, some, List, if◌then◌else◌,
}
use postgres_s3_warehouse_sy.Prelude.Int.{ℤ, pos, eqb_ℤ}
use postgres_s3_warehouse_sy.Prelude.Result.{Result, ok, err, value_error, ◌>>=◌}
use postgres_s3_warehouse_sy.Prelude.Table.{find, put, string_key, int_key, pair_key}
use postgres_s3_warehouse_sy.State.Time.{
  Datetime, Kind, timestamp_tz, timestamp_naive, date, integer, Value, moment, day, number,
  tuple_le,
}

-- Python's `isoformat`/`fromisoformat` and `str`/`int`: each reader inverts its printer.
pub record Texts : Type 1 where
  pub Text : Type 0
  pub datetime_text : Datetime → Text
  pub date_text : ℤ → Text
  pub int_text : ℤ → Text
  pub read_datetime : Text → Option Datetime
  pub read_date : Text → Option ℤ
  pub read_int : Text → Option ℤ
  pub read_datetime-datetime_text : (d : Datetime) → read_datetime (datetime_text d) ≡ some d
  pub read_date-date_text : (d : ℤ) → read_date (date_text d) ≡ some d
  pub read_int-int_text : (n : ℤ) → read_int (int_text n) ≡ some n

pub record Watermark : Type 0 where
  pub value : Value
  pub last_id : ℤ

abbrev pub utc : Option ℤ
utc = some (pos 0)

pub default_value : Kind → Value
default_value integer = number (pos 0)
default_value date = day (pos 0)
default_value timestamp_naive = moment (record { clock = pos 0; offset = none })
default_value timestamp_tz = moment (record { clock = pos 0; offset = utc })

abbrev pub naive : Datetime → Datetime
naive d = record d { offset = none }

abbrev pub aware : Datetime → Datetime
aware d = elim d.offset [ none ↦ record d { offset = utc } | some o ↦ d ]

abbrev pub or_raise {ℓ} : {A : Type ℓ} → Option A → Result A
or_raise none = err value_error
or_raise (some a) = ok a

module _ (texts : Texts) where
  open texts use {Text, datetime_text, date_text, int_text, read_datetime, read_date, read_int}

  -- A row of pipeline_watermarks, without its key. `last_id` is NOT NULL.
  pub record WatermarkRow : Type 0 where
    pub last_value : Option Text
    pub last_ts : Option Datetime
    pub last_id : ℤ

  abbrev pub Watermarks : Type 0
  Watermarks = List ((ℤ × String) × WatermarkRow)

  pub serialize : Value → Text
  serialize (moment d) = datetime_text d
  serialize (day d) = date_text d
  serialize (number n) = int_text n

  pub parse : Option Text → Kind → Result Value
  parse none kind = ok (default_value kind)
  parse (some text) integer = do n ← or_raise (read_int text); ok (number n)
  parse (some text) date = do d ← or_raise (read_date text); ok (day d)
  parse (some text) timestamp_naive = do d ← or_raise (read_datetime text); ok (moment (naive d))
  parse (some text) timestamp_tz = do d ← or_raise (read_datetime text); ok (moment (aware d))

  legacy_value : Kind → Option Datetime → Value
  unfolding default_value
  legacy_value timestamp_tz (some ts) = moment ts
  legacy_value timestamp_naive (some ts) = moment (naive ts)
  legacy_value kind _ = default_value kind

  stored_watermark : Kind → Option Text → WatermarkRow → Result Watermark
  unfolding legacy_value parse
  stored_watermark kind (some text) row = do
    v ← parse (some text) kind
    ok (record { value = v; last_id = row.last_id })
  stored_watermark kind none row =
      ok (record { value = legacy_value kind row.last_ts; last_id = row.last_id })

  row_watermark : Kind → Option WatermarkRow → Result Watermark
  unfolding default_value stored_watermark
  row_watermark kind none = ok (record { value = default_value kind; last_id = pos 0 })
  row_watermark kind (some row) = stored_watermark kind row.last_value row

  unfoldable pub get_watermark : Watermarks → ℤ → String → Kind → Result Watermark
  unfolding row_watermark
  get_watermark table connection_id fqn kind = row_watermark kind (find (connection_id, fqn) table)

  -- `last_ts` is filled for `timestamp_tz` only.
  stamp : Kind → Value → Option Datetime
  stamp timestamp_tz (moment d) = some d
  stamp _ _ = none

  new_row : Watermark → Kind → WatermarkRow
  unfolding stamp serialize
  new_row wm kind = record {
    last_value = some (serialize wm.value);
    last_ts = stamp kind wm.value;
    last_id = wm.last_id;
  }

  -- The row that the transaction finds under its lock, and the row that it leaves. Where the new
  -- watermark is not later the row stays as it is.
  pub advance_row : Option WatermarkRow → Watermark → Kind → Result WatermarkRow
  unfolding new_row parse
  advance_row none wm kind = ok (new_row wm kind)
  advance_row (some row) wm kind = do
    cur ← parse row.last_value kind
    older ← tuple_le wm.value wm.last_id cur row.last_id
    ok (if older then row else new_row wm kind)

  pub set_watermark : Watermarks → ℤ → String → Watermark → Kind → Result Watermarks
  unfolding advance_row
  set_watermark table connection_id fqn wm kind = do
    row ← advance_row (find (connection_id, fqn) table) wm kind
    ok (put (connection_id, fqn) row table)
