-- ===== src/State/Chunks.antt =====
-- state/chunks.py: the state of each chunk of a run, in the table pipeline_chunk_state.
-- A chunk key is the pair that its text `fqn#chunk_id` is printed from; an error text is the list of
-- its code points. `updated_at` is not modelled.
use postgres_s3_warehouse_sy.Prelude.{
  ◌⊎◌, inl, inr, ℕ, zero, suc, String, ◌≡◌, refl, Bool, true, false, Option, none, some, List, [],
  ◌∷◌,
}
use postgres_s3_warehouse_sy.Prelude.Int.{ℤ, pos}
use postgres_s3_warehouse_sy.Prelude.Table.{find, put, string_key, int_key, pair_key, find-put_self}

pub data Status : Type 0 where
  pending running finished failed : Status

abbrev pub ChunkKey : Type 0
ChunkKey = String × ℤ

pub record ChunkRecord : Type 0 where
  pub run_id : String
  pub chunk_key : ChunkKey
  pub status : Status
  pub connection_id : ℤ
  pub s3_uri : Option String
  pub rows : Option ℤ
  pub error : Option (List ℕ)

-- A row of pipeline_chunk_state, without its key.
pub record ChunkRow : Type 0 where
  pub connection_id : ℤ
  pub status : Status
  pub s3_uri : Option String
  pub rows : Option ℤ
  pub error : Option (List ℕ)

abbrev pub Chunks : Type 0
Chunks = List ((String × ChunkKey) × ChunkRow)

abbrev pub coalesce {ℓ} : {A : Type ℓ} → Option A → Option A → Option A
coalesce none b = b
coalesce (some a) b = some a

-- s[:n]
abbrev pub slice : ℕ → List ℕ → List ℕ
slice zero cs = []
slice (suc n) [] = []
slice (suc n) (c ∷ cs) = c ∷ slice n cs

abbrev pub or_none : List ℕ → Option (List ℕ)
or_none [] = none
or_none (c ∷ cs) = some (c ∷ cs)

-- (record.error or "")[:2000] or None
abbrev pub error_text : Option (List ℕ) → Option (List ℕ)
error_text none = or_none (slice 2000 [])
error_text (some cs) = or_none (slice 2000 cs)

-- The row that the INSERT ... ON CONFLICT DO UPDATE leaves.
pub upserted : Option ChunkRow → ChunkRecord → ChunkRow
upserted none r = record {
  connection_id = r.connection_id;
  status = r.status;
  s3_uri = r.s3_uri;
  rows = r.rows;
  error = error_text r.error;
}
upserted (some old) r = record {
  connection_id = old.connection_id;
  status = r.status;
  s3_uri = coalesce r.s3_uri old.s3_uri;
  rows = coalesce r.rows old.rows;
  error = error_text r.error;
}

unfoldable pub put_chunk : Chunks → ChunkRecord → Chunks
unfolding upserted
put_chunk table r =
    put (r.run_id, r.chunk_key) (upserted (find (r.run_id, r.chunk_key) table) r) table

pub row_record : String → ChunkKey → Option ChunkRow → Option ChunkRecord
row_record run_id key none = none
row_record run_id key (some row) = some (record {
  run_id = run_id;
  chunk_key = key;
  status = row.status;
  connection_id = pos 1;
  s3_uri = row.s3_uri;
  rows = row.rows;
  error = row.error;
})

-- The query does not select `connection_id`, which keeps the class's default 1.
unfoldable pub get_chunk : Chunks → String → ChunkKey → Option ChunkRecord
unfolding row_record
get_chunk table run_id key = row_record run_id key (find (run_id, key) table)

unfoldable pub row_done : Option ChunkRow → Bool
row_done none = false
row_done (some row) = is_finished row.status
  where
    is_finished : Status → Bool
    is_finished finished = true
    is_finished s = false

-- The set of keys, as its membership test.
unfoldable pub list_done : Chunks → String → ChunkKey → Bool
list_done table run_id key = row_done (find (run_id, key) table)

upserted-row_done :
    (old : Option ChunkRow) (r : ChunkRecord)
    → r.status ≡ finished
    → row_done (some (upserted old r)) ≡ true
unfolding upserted row_done
upserted-row_done none r e = rw e refl
upserted-row_done (some old) r e = rw e refl

-- A chunk that is put as DONE is in the set.
pub list_done-put_chunk :
    (table : Chunks) (r : ChunkRecord)
    → r.status ≡ finished
    → list_done (put_chunk table r) r.run_id r.chunk_key ≡ true
unfolding list_done put_chunk
list_done-put_chunk table r e =
    rw find-put_self (upserted-row_done (find (r.run_id, r.chunk_key) table) r e)

upserted-not_done :
    (old : Option ChunkRow) (r : ChunkRecord)
    → (r.status ≡ running) ⊎ (r.status ≡ failed)
    → row_done (some (upserted old r)) ≡ false
unfolding upserted row_done
upserted-not_done none r (inl e) = rw e refl
upserted-not_done none r (inr e) = rw e refl
upserted-not_done (some old) r (inl e) = rw e refl
upserted-not_done (some old) r (inr e) = rw e refl

pub list_done-put_other :
    (table : Chunks) (r : ChunkRecord)
    → (r.status ≡ running) ⊎ (r.status ≡ failed)
    → list_done (put_chunk table r) r.run_id r.chunk_key ≡ false
unfolding list_done put_chunk
list_done-put_other table r e =
    rw find-put_self (upserted-not_done (find (r.run_id, r.chunk_key) table) r e)
