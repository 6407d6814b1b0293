-- ===== src/Orchestration/Bootstrap.antt =====
-- orchestration/bootstrap_job.py: the plan of a table's bootstrap, the extraction of its chunks with
-- retries, and the totals.
-- The Iceberg table is the list of its data files. What the source database, the bucket and the
-- metadata database do during one attempt is an argument.
pub mod Retries
use postgres_s3_warehouse_sy.Prelude.{
  ℕ, zero, suc, ◌+◌, String, Bool, true, false, not, Option, none, some, List, [], ◌∷◌, ◌++◌, map,
  length, filter, find?, if◌then◌else◌,
}
use text.Mathlib.Text.{◌==◌ as str_is}
use postgres_s3_warehouse_sy.Prelude.Int.{ℤ, pos, ◌+ℤ◌}
use postgres_s3_warehouse_sy.Prelude.Result.{Error, Result, ok, err, runtime_error, external, ◌>>=◌}
use postgres_s3_warehouse_sy.Extract.Chunker.{Chunk}
use postgres_s3_warehouse_sy.State.Chunks.{
  ChunkKey, Chunks, ChunkRecord, Status, running, finished, failed, put_chunk, list_done,
}
use postgres_s3_warehouse_sy.Load.Commit.{Attempt, commit_files_with_retry}

-- Which planner cuts the object: `part_tz` and `has_numeric_id` are passed on to the first.
pub data Planner : Type 0 where
  partitioned : String → Bool → Bool → Planner
  by_range full : Planner

-- A column of the source: its name, and whether its type says "with time zone".
abbrev pub SourceColumn : Type 0
SourceColumn = String × Bool

abbrev pub has_zone : Option SourceColumn → Bool
has_zone none = false
has_zone (some c) = c.1

planner_for : Option (String × String) → Bool → List SourceColumn → Planner
planner_for (some (col, transform)) numeric_id cols =
    partitioned col (has_zone (find? (λ c. str_is c.0 col) cols)) numeric_id
planner_for none true cols = by_range
planner_for none false cols = full

-- `partition_by` as pairs of column and transform.
pub choose_planner : List (String × String) → Bool → List SourceColumn → Planner
unfolding planner_for
choose_planner partition_by numeric_id cols =
    planner_for (find? (λ p. str_is p.1 "day") partition_by) numeric_id cols

-- chunk_key(fqn, chunk_id)
abbrev pub key_of : String → Chunk → ChunkKey
key_of fqn c = (fqn, pos c.chunk_id)

-- The chunks that `plan_bootstrap` hands to workers.
pub pending_chunks : Chunks → String → String → List Chunk → List Chunk
pending_chunks table run_id fqn chunks =
    filter (λ c. not (list_done table run_id (key_of fqn c))) chunks

pub record World : Type 0 where
  pub chunks : Chunks
  pub files : List String

pub record Extracted : Type 0 where
  pub s3_uris : List String
  pub rows : ℤ

-- What the outside does during one attempt of the op. `saved` answers the three writes of the chunk's
-- state: RUNNING, DONE, FAILED.
pub record Weather : Type 0 where
  pub connection_found : Bool
  pub running_saved : Bool
  pub extraction : Result Extracted
  pub commits : ℕ → Attempt
  pub done_saved : Bool
  pub failed_saved : Bool
  pub error_message : List ℕ

pub record Key : Type 0 where
  pub run_id : String
  pub chunk_key : ChunkKey
  pub connection_id : ℤ

abbrev head_uri : List String → Option String
head_uri [] = none
head_uri (uri ∷ uris) = some uri

abbrev pub running_record : Key → ChunkRecord
running_record k = record {
  run_id = k.run_id;
  chunk_key = k.chunk_key;
  status = running;
  connection_id = k.connection_id;
  s3_uri = none;
  rows = none;
  error = none;
}

abbrev pub done_record : Key → Extracted → ChunkRecord
done_record k res = record {
  run_id = k.run_id;
  chunk_key = k.chunk_key;
  status = finished;
  connection_id = k.connection_id;
  s3_uri = head_uri res.s3_uris;
  rows = some res.rows;
  error = none;
}

abbrev pub failed_record : Key → List ℕ → ChunkRecord
failed_record k message = record {
  run_id = k.run_id;
  chunk_key = k.chunk_key;
  status = failed;
  connection_id = k.connection_id;
  s3_uri = none;
  rows = none;
  error = some message;
}

-- The `except` branch: the state is FAILED, if that is saved, and the op raises.
fail_chunk : Key → Weather → World → Error → World × Result Extracted
fail_chunk k w s e =
    if w.failed_saved
    then (record s { chunks = put_chunk s.chunks (failed_record k w.error_message) }, err e)
    else (s, err external)

save_done : Key → Weather → Extracted → World → World × Result Extracted
unfolding fail_chunk
save_done k w res s =
    if w.done_saved
    then (record s { chunks = put_chunk s.chunks (done_record k res) }, ok res)
    else fail_chunk k w s external

commit_step : Key → Weather → Extracted → World → Result (List String) → World × Result Extracted
unfolding save_done fail_chunk
commit_step k w res s (ok files) = save_done k w res (record s { files = files })
commit_step k w res s (err e) = fail_chunk k w s e

extract_step : Key → Weather → World → Result Extracted → World × Result Extracted
unfolding commit_step fail_chunk
extract_step k w s (ok res) =
    commit_step k w res s (commit_files_with_retry 10 w.commits s.files res.s3_uris)
extract_step k w s (err e) = fail_chunk k w s e

-- One attempt of `extract_chunk_op`.
unfoldable pub extract_chunk_op : Key → Weather → World → World × Result Extracted
unfolding extract_step
extract_chunk_op k w s =
    if w.connection_found
    then (if list_done s.chunks k.run_id k.chunk_key
        then (s, ok (record { s3_uris = []; rows = pos 0 }))
        else (if w.running_saved
            then extract_step k w (record s { chunks = put_chunk s.chunks (running_record k) })
                w.extraction
            else (s, err external)))
    else (s, err runtime_error)

-- RetryPolicy: after an error the op is started again, `retries` times at most.
retry_after :
    World × Result Extracted → (World → World × Result Extracted) → World × Result Extracted
retry_after (s, ok res) next = (s, ok res)
retry_after (s, err e) next = next s

unfoldable pub run_with_retries : ℕ → ℕ → (ℕ → Weather) → Key → World → World × Result Extracted
unfolding retry_after
run_with_retries zero attempt weather k s = extract_chunk_op k (weather attempt) s
run_with_retries (suc retries) attempt weather k s =
    retry_after (extract_chunk_op k (weather attempt) s)
      (run_with_retries retries (suc attempt) weather k)

-- The chunks of a job one after another, each with up to 3 retries; the job stops at a failure.
abbrev pub Task : Type 0
Task = Key × (ℕ → Weather)

collected : Extracted → World × Result (List Extracted) → World × Result (List Extracted)
collected res (s, ok rest) = (s, ok (res ∷ rest))
collected res (s, err e) = (s, err e)

collect :
    World × Result Extracted
    → (World → World × Result (List Extracted))
    → World × Result (List Extracted)
unfolding collected
collect (s, ok res) next = collected res (next s)
collect (s, err e) next = (s, err e)

unfoldable pub run_chunks : List Task → World → World × Result (List Extracted)
unfolding collect
run_chunks [] s = (s, ok [])
run_chunks ((k, weather) ∷ tasks) s = collect (run_with_retries 3 0 weather k s) (run_chunks tasks)

pub record Totals : Type 0 where
  pub rows : ℤ
  pub files : ℕ

pub sum_rows : List Extracted → ℤ
sum_rows [] = pos 0
sum_rows (r ∷ rs) = r.rows +ℤ sum_rows rs

pub sum_files : List Extracted → ℕ
sum_files [] = 0
sum_files (r ∷ rs) = length r.s3_uris + sum_files rs

-- The totals that the finalizer returns; no results are the totals 0.
pub commit_chunks : List Extracted → Totals
unfolding sum_rows sum_files
commit_chunks results = record { rows = sum_rows results; files = sum_files results }
