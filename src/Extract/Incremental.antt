-- ===== src/Extract/Incremental.antt =====
-- extract/incremental.py: one window of an incremental sync.
-- `A` is the type of source rows, of which the watermark column and the primary key are read. The
-- rows are those of the transaction's snapshot. The object that is uploaded is its list of rows.
mod Scan
pub mod Covers
mod Windows
pub mod NoGap
use postgres_s3_warehouse_sy.Prelude.{
  ℕ, zero, suc, ◌+◌, ◌*◌, String, Bool, true, false, not, ◌&&◌, Option, none, some, List, [], ◌∷◌,
  filter, if◌then◌else◌,
}
use postgres_s3_warehouse_sy.Prelude.Int.{
  ℤ, pos, pos_part, neg_part, sub_ℕ, ◌+ℤ◌, ◌-ℤ◌, ltb_ℤ, max_ℤ, floor_div,
}
use postgres_s3_warehouse_sy.Prelude.Result.{Result, ok, err, type_error, ◌>>=◌}
use postgres_s3_warehouse_sy.State.Time.{
  Datetime, Kind, timestamp_tz, timestamp_naive, date, integer, Value, moment, day, number,
  tuple_le, value_le, rank, lex_le,
}
use postgres_s3_warehouse_sy.State.Watermarks.{Texts, Watermark, Watermarks, get_watermark, utc}

pub record WindowSettings : Type 0 where
  pub overlap_seconds : ℤ
  pub safety_gap_seconds : ℤ

-- Seconds as microseconds.
abbrev pub us_of : ℤ → ℤ
us_of s = sub_ℕ (pos_part s * 1_000_000) (neg_part s * 1_000_000)

-- dt - timedelta(seconds=s)
abbrev pub minus_seconds : Datetime → ℤ → Datetime
minus_seconds d s = record d { clock = d.clock -ℤ us_of s }

-- max(1, (overlap + 86399) // 86400)
abbrev pub overlap_days : ℤ → ℤ
overlap_days s = max_ℤ (pos 1) (floor_div (s +ℤ pos 86399) (pos 86400))

-- dt.date()
abbrev pub date_of : Datetime → ℤ
date_of d = floor_div d.clock (pos 86_400_000_000)

-- `_as_utc`: the same instant with offset 0; a naive datetime is taken for UTC.
abbrev pub as_utc : Datetime → Datetime
as_utc d = elim d.offset [
  | none ↦ record d { offset = utc }
  | some o ↦ record { clock = d.clock -ℤ o; offset = utc }
]

-- `_norm`
pub norm : Kind → Value → Value
norm timestamp_tz (moment d) = moment (as_utc d)
norm _ v = v

pub data Window : Type 0 where
  -- `hi <= lo`: nothing to do
  shut : Window
  -- values after `lo`, and below `hi` if there is one
  between : Value → Option Value → Window

pub bounded : Value → Value → Result Window
bounded lo hi = do over ← value_le hi lo; ok (if over then shut else between lo (some hi))

unfoldable pub window : Kind → WindowSettings → Value → Datetime → Result Window
unfolding bounded
window timestamp_tz s (moment v) now =
    bounded (moment (minus_seconds v s.overlap_seconds))
      (moment (minus_seconds now s.safety_gap_seconds))
window timestamp_naive s (moment v) now =
    ok (between (moment (minus_seconds v s.overlap_seconds)) none)
window date s (day d) now =
    bounded (day (d -ℤ overlap_days s.overlap_seconds))
      (day (date_of (minus_seconds now s.safety_gap_seconds)))
window integer s v now = ok (between v none)
window _ s v now = err type_error

-- `(col, pk) > (lo, last_id)`, which is not true of a NULL.
abbrev pub value_after : Value → ℤ → ℤ → Option Value → Bool
value_after lo last_id id none = false
value_after lo last_id id (some v) = not (lex_le (rank v) id (rank lo) last_id)

abbrev pub value_below : Value → Option Value → Bool
value_below hi none = false
value_below hi (some v) = ltb_ℤ (rank v) (rank hi)

-- The body of the loop over the rows: the running maximum.
pub advance_to : Kind → Watermark → ℤ → Option Value → Result Watermark
unfolding norm
advance_to kind m id none = ok m
advance_to kind m id (some v) = do
  le ← tuple_le (norm kind v) id m.value m.last_id
  ok (if le then m else record { value = norm kind v; last_id = id })

module _ {A : Type 0} (value : A → Option Value) (id : A → ℤ) where
  pub after : Value → ℤ → A → Bool
  after lo last_id r = value_after lo last_id (id r) (value r)

  -- `col < hi`, if there is a bound.
  pub below : Option Value → A → Bool
  below none r = true
  below (some hi) r = value_below hi (value r)

  pub picks : Value → Option Value → ℤ → A → Bool
  unfolding after below
  picks lo hi last_id r = after lo last_id r && below hi r

  -- ORDER BY col, pk: `a` stands before `b`.
  abbrev pub in_order : A → A → Bool
  in_order a b = elim (value a) [
    | none ↦ false
    | some v ↦ elim (value b) [ none ↦ true | some w ↦ lex_le (rank v) (id a) (rank w) (id b) ]
  ]

  abbrev pub place : A → List A → List A
  place a [] = a ∷ []
  place a (b ∷ bs) = let rest = place a bs in if in_order a b then a ∷ b ∷ bs else b ∷ rest

  abbrev pub order_by : List A → List A
  order_by [] = []
  order_by (a ∷ as') = place a (order_by as')

  -- The statement's rows.
  pub copy_rows : Value → Option Value → ℤ → List A → List A
  unfolding picks
  copy_rows lo hi last_id rows = order_by (filter (picks lo hi last_id) rows)

  pub scan_max : Kind → Watermark → List A → Result Watermark
  unfolding advance_to
  scan_max kind m [] = ok m
  scan_max kind m (r ∷ rows) = do m' ← advance_to kind m (id r) (value r); scan_max kind m' rows

  -- What `run_incremental` returns: the uploaded object, the new watermark, the kind.
  pub record Outcome : Type 0 where
    pub uploaded : Option (List A)
    pub watermark : Option Watermark
    pub kind : Option Kind

  abbrev empty_watermark : Option Value → Watermark → Watermark
  empty_watermark none wm = wm
  empty_watermark (some hi) wm = record { value = hi; last_id = wm.last_id }

  pub finish : Kind → Watermark → Option Value → List A → Watermark → Outcome
  finish kind wm hi [] m = record {
    uploaded = none;
    watermark = some (empty_watermark hi wm);
    kind = some kind;
  }
  finish kind wm hi (r ∷ rows) m = record {
    uploaded = some (r ∷ rows);
    watermark = some m;
    kind = some kind;
  }

  unfoldable pub run_window : Kind → Watermark → List A → Window → Result Outcome
  unfolding finish scan_max copy_rows norm
  run_window kind wm rows shut =
      ok (record { uploaded = none; watermark = some wm; kind = some kind })
  run_window kind wm rows (between lo hi) = do
    let found = copy_rows lo hi wm.last_id rows
    m ← scan_max kind (record { value = norm kind wm.value; last_id = wm.last_id }) found
    ok (finish kind wm hi found m)

  -- `column_kind` is `_watermark_kind` of the watermark column, `none` also if there is no column.
  unfoldable pub run_incremental :
      (texts : Texts)
      → Watermarks texts
      → ℤ
      → String
      → WindowSettings
      → Datetime
      → Option Kind
      → List A
      → Result Outcome
  run_incremental texts table connection_id fqn settings now none rows =
      ok (record { uploaded = none; watermark = none; kind = none })
  run_incremental texts table connection_id fqn settings now (some kind) rows = do
    wm ← get_watermark texts table connection_id fqn kind
    w ← window kind settings wm.value now
    run_window kind wm rows w
