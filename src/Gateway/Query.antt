-- ===== src/Gateway/Query.antt =====
-- gateway/query.py: a query job, from submission to its end.
pub mod Ends
use postgres_s3_warehouse_sy.Prelude.{
  ◌≡◌, String, Bool, true, false, Option, none, some, List, [], ◌∷◌, if◌then◌else◌, truthy,
}
use postgres_s3_warehouse_sy.Prelude.Int.{ℤ}
use postgres_s3_warehouse_sy.Prelude.Result.{Error, Result, ok, err, runtime_error, ◌>>=◌}
use postgres_s3_warehouse_sy.Common.Connections.{Connection}

pub data JobStatus : Type 0 where
  queued running succeeded failed cancelled : JobStatus

-- Times are seconds. The error is the exception that was caught, in place of its text.
pub record Job : Type 0 where
  pub job_id : String
  pub sql : String
  pub principal_sub : String
  pub status : JobStatus
  pub created_at : ℤ
  pub finished_at : Option ℤ
  pub rows : Option ℤ
  pub bytes_scanned : Option ℤ
  pub result_s3_uri : Option String
  pub error : Option Error

pub submit : String → ℤ → String → String → Job
submit job_id now sql principal_sub = record {
  job_id = job_id;
  sql = sql;
  principal_sub = principal_sub;
  status = queued;
  created_at = now;
  finished_at = none;
  rows = none;
  bytes_scanned = none;
  result_s3_uri = none;
  error = none;
}

-- What each step of `_run` meets: the connection and the temporary file, COPY into the file, the
-- upload (its URI), the file's metadata and its size.
pub record RunSteps : Type 0 where
  pub prepare : Result (Unit {0})
  pub copy : Result (Unit {0})
  pub upload : Result String
  pub read_rows : Result ℤ
  pub read_size : Result ℤ
  pub ended : ℤ

abbrev fail : Error → Job → Job
fail e job = record job { status = failed; error = some e }

size_step : Result ℤ → String → Job → Job
size_step (err e) uri job = fail e job
size_step (ok size) uri job = record job {
  bytes_scanned = some size;
  result_s3_uri = some uri;
  status = succeeded;
}

rows_step : Result ℤ → Result ℤ → String → Job → Job
unfolding size_step
rows_step (err e) size uri job = fail e job
rows_step (ok n) size uri job = size_step size uri (record job { rows = some n })

upload_step : RunSteps → Result String → Job → Job
unfolding rows_step
upload_step w (err e) job = fail e job
upload_step w (ok uri) job = rows_step w.read_rows w.read_size uri job

copy_step : RunSteps → Result (Unit {0}) → Job → Job
unfolding upload_step
copy_step w (err e) job = fail e job
copy_step w (ok u) job = upload_step w w.upload job

prepare_step : RunSteps → Result (Unit {0}) → Job → Job
unfolding copy_step
prepare_step w (err e) job = fail e job
prepare_step w (ok u) job = copy_step w w.copy job

-- `_run`: the job as the `finally` leaves it.
pub run : RunSteps → Job → Job
unfolding prepare_step
run w job = record (prepare_step w w.prepare (record job { status = running })) {
  finished_at = some w.ended;
}

pub results_connection : Result (List Connection) → Result Connection
results_connection (err e) = err e
results_connection (ok []) = err runtime_error
results_connection (ok (c ∷ conns)) = ok c

-- The enabled connections are listed only where the job has a URI; `sign` is the presigned URL of a
-- connection's client for an object.
pub result_signed_url :
    Result (List Connection) → (Connection → String → Result String) → Job → Result (Option String)
unfolding results_connection
result_signed_url conns sign job = signed job.result_s3_uri
  where
    signed_with : String → Result Connection → Result (Option String)
    signed_with uri (err e) = err e
    signed_with uri (ok c) = do url ← sign c uri; ok (some url)

    signed : Option String → Result (Option String)
    signed none = ok none
    signed (some uri) = if truthy uri then signed_with uri (results_connection conns) else ok none
