-- ===== src/State/Watermarks/Laws.antt =====
-- The watermark only moves forward.
use postgres_s3_warehouse_sy.Prelude.{
  String, ◌≡◌, refl, ap, false, none, some, Bool-cases, inl, inr, arith, if◌then◌else◌,
}
use postgres_s3_warehouse_sy.Prelude.Int.{ℤ, pos, ◌-ℤ◌}
use postgres_s3_warehouse_sy.Prelude.Result.{Result, ok}
use postgres_s3_warehouse_sy.Prelude.Table.{
  find, put, string_key, int_key, pair_key, find-put, find-put_self,
}
use postgres_s3_warehouse_sy.State.Time.{
  Datetime, Kind, timestamp_tz, timestamp_naive, date, integer, Value, moment, day, number, HasKind,
  rank, lex_le, tuple_le-HasKind,
}
use postgres_s3_warehouse_sy.State.Watermarks.{
  Texts, Watermark, Watermarks, WatermarkRow, serialize, parse, naive, aware, get_watermark,
  set_watermark,
}

naive-eq : (d : Datetime) → d.offset ≡ none → naive d ≡ d
naive-eq d e = ground arith

aware-eq : (d : Datetime) (o : ℤ) → d.offset ≡ some o → aware d ≡ d
aware-eq d o e = ground arith

-- The later of two watermarks; the stored one wins a tie.
unfoldable pub later : Watermark → Watermark → Watermark
later cur new =
    if lex_le (rank new.value) new.last_id (rank cur.value) cur.last_id then cur else new

module _ (texts : Texts) where
  open texts use {read_datetime-datetime_text, read_date-date_text, read_int-int_text}

  -- A watermark value of a kind is read back from its text, where the texts of datetimes, dates and
  -- integers are.
  pub parse-serialize :
      (k : Kind) (v : Value) → HasKind k v → parse texts (some (serialize texts v)) k ≡ ok v
  unfolding parse serialize
  parse-serialize timestamp_tz (moment d) (o, h) =
      rw read_datetime-datetime_text (ap (λ x. ok (moment x)) (aware-eq d o h))
  parse-serialize timestamp_naive (moment d) h =
      rw read_datetime-datetime_text (ap (λ x. ok (moment x)) (naive-eq d h))
  parse-serialize date (day d) h = rw read_date-date_text
  parse-serialize integer (number n) h = rw read_int-int_text
  parse-serialize _ _ h = ground arith

  -- The table has a watermark of the kind for the key, stored the way `set_watermark` does.
  pub record Stores (table : Watermarks texts) (connection_id : ℤ) (fqn : String) (k : Kind)
      (wm : Watermark) : Type 0 where
    pub row : WatermarkRow texts
    pub found : find (connection_id, fqn) table ≡ some row
    pub text : row.last_value ≡ some (serialize texts wm.value)
    pub id : row.last_id ≡ wm.last_id
    pub kind : HasKind k wm.value

  pub get-Stores :
      (table : Watermarks texts) (c : ℤ) (fqn : String) (k : Kind) (wm : Watermark)
      → Stores table c fqn k wm
      → get_watermark texts table c fqn k ≡ ok wm
  unfolding get_watermark
  get-Stores table c fqn k wm s = rw (s.found, s.text, parse-serialize k wm.value s.kind, s.id)

  module _ (table : Watermarks texts) (c : ℤ) (fqn : String) (k : Kind) where
    -- What `set_watermark` leaves: success, the later watermark under the key, all other rows.
    pub record Advances (wm : Watermark) (r : Result (Watermarks texts)) : Type 0 where
      pub table' : Watermarks texts
      pub succeeds : r ≡ ok table'
      pub stores : Stores table' c fqn k wm
      pub reads_back : get_watermark texts table' c fqn k ≡ ok wm
      pub others :
          (d : ℤ) (g : String)
          → find (d, g) table'
            ≡ (if pair_key.beq (c, fqn) (d, g) then some stores.row else find (d, g) table)

    put-Advances :
        (wm : Watermark) (row : WatermarkRow texts)
        → row.last_value ≡ some (serialize texts wm.value)
        → row.last_id ≡ wm.last_id
        → HasKind k wm.value
        → Advances wm (ok (put (c, fqn) row table))
    put-Advances wm row text id kind = record {
      table' = put (c, fqn) row table;
      succeeds = refl;
      stores = kept;
      reads_back = get-Stores (put (c, fqn) row table) c fqn k wm kept;
      others = λ d g. find-put (c, fqn) (d, g) row table;
    }
      where
        kept : Stores (put (c, fqn) row table) c fqn k wm
        kept = record {
          row = row;
          found = find-put_self (c, fqn) row table;
          text = text;
          id = id;
          kind = kind;
        }

    -- Where no row is stored for the key, `set_watermark` stores a watermark of the column's kind;
    -- `get_watermark` reads it back, and every other (connection, table) keeps its row.
    pub set_watermark_first :
        (new : Watermark)
        → find (c, fqn) table ≡ none
        → HasKind k new.value
        → Advances new (set_watermark texts table c fqn new k)
    unfolding set_watermark
    set_watermark_first new absent kind = rw absent (put-Advances new _ refl refl kind)

    -- Forward only: where a watermark of the column's kind is stored, `set_watermark` succeeds and
    -- stores the later of the two by (value, id), the stored one on a tie; `get_watermark` reads it
    -- back, and every other (connection, table) keeps its row.
    pub set_watermark_forward :
        (cur new : Watermark)
        → Stores table c fqn k cur
        → HasKind k new.value
        → Advances (later cur new) (set_watermark texts table c fqn new k)
    unfolding set_watermark later
    set_watermark_forward cur new s kind =
        rw
          (
            s.found,
            s.text,
            parse-serialize k cur.value s.kind,
            s.id,
            tuple_le-HasKind k new.value new.last_id cur.value cur.last_id kind s.kind,
          )
          (elim (Bool-cases (lex_le (rank new.value) new.last_id (rank cur.value) cur.last_id)) [
            | inl older ↦ rw older (put-Advances cur _ refl refl s.kind)
            | inr newer ↦ rw newer (put-Advances new _ refl refl kind)
          ])

  -- A row from before the column `last_value` holds its watermark in `last_ts` alone.
  pub record IsLegacy (table : Watermarks texts) (c : ℤ) (fqn : String) (ts : Datetime) (id : ℤ)
      : Type 0 where
    pub row : WatermarkRow texts
    pub found : find (c, fqn) table ≡ some row
    pub no_text : row.last_value ≡ none
    pub stamp : row.last_ts ≡ some ts
    pub id_is : row.last_id ≡ id

  -- On a row with no `last_value` but with `last_ts`, `get_watermark` returns `last_ts`, and
  -- `set_watermark` stores any aware watermark that is after 1970 and the row's id, however far
  -- behind `last_ts` it is.
  pub set_watermark_legacy :
      (table : Watermarks texts) (c : ℤ) (fqn : String) (ts : Datetime) (id : ℤ) (new : Watermark)
      → IsLegacy table c fqn ts id
      → HasKind timestamp_tz new.value
      → lex_le (rank new.value) new.last_id (pos 0) id ≡ false
      → (get_watermark texts table c fqn timestamp_tz
          ≡ ok (record { value = moment ts; last_id = id }))
        × Advances table c fqn timestamp_tz new (set_watermark texts table c fqn new timestamp_tz)
  unfolding set_watermark get_watermark ◌-ℤ◌
  set_watermark_legacy table c fqn ts id new l kind after = (
    rw (l.found, l.no_text, l.stamp, l.id_is),
    rw
        (
          l.found,
          l.no_text,
          l.id_is,
          tuple_le-HasKind timestamp_tz new.value new.last_id
              (moment (record { clock = pos 0; offset = some (pos 0) })) id kind (pos 0, refl),
        )
        (rw after (put-Advances table c fqn timestamp_tz new _ refl refl kind)),
  )
