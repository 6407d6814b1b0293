-- ===== src/Extract/Parts.antt =====
-- extract/copy_worker.py, the streaming loop of `extract_chunk_to_s3`: rows are flushed in row
-- groups, and a parquet part is uploaded and a new one opened when it holds enough rows.
-- A part is its number and its rows; compression and byte sizes are not modelled.
pub mod Laws
use postgres_s3_warehouse_sy.Prelude.{
  ℕ, zero, suc, ◌+◌, List, [], ◌∷◌, ◌++◌, leb, ltb, length, if◌then◌else◌,
}
use postgres_s3_warehouse_sy.Prelude.Int.{ℤ, pos, pos_part, max_ℤ}

pub record Part {ℓ} (A : Type ℓ) : Type ℓ where
  pub index : ℕ
  pub rows : List A

-- The local variables of the loop; `open_rows` is what the open parquet writer has been given.
pub record Writer {ℓ} (A : Type ℓ) : Type ℓ where
  pub uploaded : List (Part A)
  pub open_rows : List A
  pub part_idx : ℕ
  pub part_rows : ℕ
  pub rows_written : ℕ
  pub batch : List A

-- row_group_rows = max(1, s.extract_row_group_rows)
pub row_group_rows : ℤ → ℕ
row_group_rows setting = pos_part (max_ℤ (pos 1) setting)

-- part_rows_limit = max(row_group_rows, s.extract_rows_per_chunk)
pub part_rows_limit : ℕ → ℤ → ℕ
part_rows_limit group setting = pos_part (max_ℤ (pos group) setting)

module _ {ℓ} {A : Type ℓ} where
  pub opened : Writer A
  opened = record {
    uploaded = [];
    open_rows = [];
    part_idx = 0;
    part_rows = 0;
    rows_written = 0;
    batch = [];
  }

  -- `_flush_batch` and the counters after it.
  pub flush : Writer A → Writer A
  flush w = record w {
    open_rows = w.open_rows ++ w.batch;
    part_rows = w.part_rows + length w.batch;
    rows_written = w.rows_written + length w.batch;
    batch = [];
  }

  -- `_finish_part`: close, upload under the part's own key, remember its address.
  pub finish_part : Writer A → Writer A
  finish_part w = record w {
    uploaded = w.uploaded ++ record { index = w.part_idx; rows = w.open_rows } ∷ [];
  }

  -- `part_idx += 1; part_rows = 0` and `_open_part`.
  pub next_part : Writer A → Writer A
  next_part w = record w { part_idx = w.part_idx + 1; part_rows = 0; open_rows = [] }

  roll : ℕ → Writer A → Writer A
  unfolding finish_part next_part
  roll limit w = if leb limit w.part_rows then next_part (finish_part w) else w

  pub take_row : ℕ → ℕ → Writer A → A → Writer A
  unfolding roll flush
  take_row group limit w row =
      let w' = record w { batch = w.batch ++ row ∷ [] } in
      if leb group (length w'.batch) then roll limit (flush w') else w'

  pub stream : ℕ → ℕ → Writer A → List A → Writer A
  stream group limit w [] = w
  stream group limit w (row ∷ rows) = stream group limit (take_row group limit w row) rows

  flush_rest : Writer A → Writer A
  unfolding flush
  flush_rest w = if ltb 0 (length w.batch) then flush w else w

  finish_rest : Writer A → Writer A
  unfolding finish_part
  finish_rest w = if ltb 0 w.part_rows then finish_part w else w

  -- The whole `with cur.copy(...)` block over the rows of the COPY.
  pub write_parts : ℤ → ℤ → List A → Writer A
  write_parts extract_row_group_rows extract_rows_per_chunk rows =
      let group = row_group_rows extract_row_group_rows in
      let limit = part_rows_limit group extract_rows_per_chunk in
      finish_rest (flush_rest (stream group limit opened rows))
