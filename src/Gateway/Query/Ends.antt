-- ===== src/Gateway/Query/Ends.antt =====
-- How a query job ends.
use postgres_s3_warehouse_sy.Prelude.{◌≡◌, refl, ◌⊎◌, inl, inr, String, none, some}
use postgres_s3_warehouse_sy.Prelude.Int.{ℤ}
use postgres_s3_warehouse_sy.Prelude.Result.{Error, Result, ok, err}
use postgres_s3_warehouse_sy.Gateway.Query.{
  Job, RunSteps, succeeded, failed, run, prepare_step, copy_step, upload_step, rows_step, size_step,
  submit,
}

-- No step raised, and the job has what they gave.
pub record Succeeds (w : RunSteps) (job : Job) : Type 0 where
  pub is_succeeded : job.status ≡ succeeded
  pub no_error : job.error ≡ none
  pub uri : String
  pub rows : ℤ
  pub size : ℤ
  pub uploaded : w.upload ≡ ok uri
  pub read : w.read_rows ≡ ok rows
  pub measured : w.read_size ≡ ok size
  pub copied : w.copy ≡ ok tt
  pub prepared : w.prepare ≡ ok tt
  pub has_rows : job.rows ≡ some rows
  pub has_size : job.bytes_scanned ≡ some size
  pub has_uri : job.result_s3_uri ≡ some uri

-- The first step that raises, with those before it.
pub data Raises (w : RunSteps) (e : Error) : Type 0 where
  in_prepare : w.prepare ≡ err e → Raises w e
  in_copy : w.prepare ≡ ok tt → w.copy ≡ err e → Raises w e
  in_upload : w.prepare ≡ ok tt → w.copy ≡ ok tt → w.upload ≡ err e → Raises w e
  in_rows :
      {uri : String}
      → w.prepare ≡ ok tt
      → w.copy ≡ ok tt
      → w.upload ≡ ok uri
      → w.read_rows ≡ err e
      → Raises w e
  in_size :
      {uri : String} {rows : ℤ}
      → w.prepare ≡ ok tt
      → w.copy ≡ ok tt
      → w.upload ≡ ok uri
      → w.read_rows ≡ ok rows
      → w.read_size ≡ err e
      → Raises w e

pub record Breaks (w : RunSteps) (job : Job) : Type 0 where
  pub is_failed : job.status ≡ failed
  pub error : Error
  pub has_error : job.error ≡ some error
  pub raised : Raises w error
  pub no_uri : job.result_s3_uri ≡ none

pub record Ended (w : RunSteps) (job : Job) : Type 0 where
  pub finished : job.finished_at ≡ some w.ended
  pub outcome : Succeeds w job ⊎ Breaks w job

abbrev IsFresh : Job → Type 0
IsFresh job = (job.error ≡ none) × (job.result_s3_uri ≡ none)

abbrev Fate : RunSteps → Job → Type 0
Fate w job =
    Succeeds w (record job { finished_at = some w.ended })
    ⊎ Breaks w (record job { finished_at = some w.ended })

breaks :
    (w : RunSteps) (e : Error) (job : Job)
    → job.result_s3_uri ≡ none
    → Raises w e
    → Breaks w (record job { status = failed; error = some e; finished_at = some w.ended })
breaks w e job h r = record {
  is_failed = refl;
  error = e;
  has_error = refl;
  raised = r;
  no_uri = h;
}

size_step-Fate :
    (w : RunSteps) (uri : String) (n : ℤ) (size : Result ℤ) (job : Job)
    → IsFresh job
    → w.prepare ≡ ok tt
    → w.copy ≡ ok tt
    → w.upload ≡ ok uri
    → w.read_rows ≡ ok n
    → w.read_size ≡ size
    → Fate w (size_step size uri (record job { rows = some n }))
unfolding size_step
size_step-Fate w uri n (err e) job h hp hc hu hr hs =
    inr (breaks w e (record job { rows = some n }) h.1 (in_size hp hc hu hr hs))
size_step-Fate w uri n (ok size) job h hp hc hu hr hs = inl (record {
  is_succeeded = refl;
  no_error = h.0;
  uri = uri;
  rows = n;
  size = size;
  uploaded = hu;
  read = hr;
  measured = hs;
  copied = hc;
  prepared = hp;
  has_rows = refl;
  has_size = refl;
  has_uri = refl;
})

rows_step-Fate :
    (w : RunSteps) (uri : String) (rows : Result ℤ) (job : Job)
    → IsFresh job
    → w.prepare ≡ ok tt
    → w.copy ≡ ok tt
    → w.upload ≡ ok uri
    → w.read_rows ≡ rows
    → Fate w (rows_step rows w.read_size uri job)
unfolding rows_step
rows_step-Fate w uri (err e) job h hp hc hu hr = inr (breaks w e job h.1 (in_rows hp hc hu hr))
rows_step-Fate w uri (ok n) job h hp hc hu hr =
    size_step-Fate w uri n w.read_size job h hp hc hu hr refl

upload_step-Fate :
    (w : RunSteps) (upload : Result String) (job : Job)
    → IsFresh job
    → w.prepare ≡ ok tt
    → w.copy ≡ ok tt
    → w.upload ≡ upload
    → Fate w (upload_step w upload job)
unfolding upload_step
upload_step-Fate w (err e) job h hp hc hu = inr (breaks w e job h.1 (in_upload hp hc hu))
upload_step-Fate w (ok uri) job h hp hc hu = rows_step-Fate w uri w.read_rows job h hp hc hu refl

copy_step-Fate :
    (w : RunSteps) (copy : Result (Unit {0})) (job : Job)
    → IsFresh job
    → w.prepare ≡ ok tt
    → w.copy ≡ copy
    → Fate w (copy_step w copy job)
unfolding copy_step
copy_step-Fate w (err e) job h hp hc = inr (breaks w e job h.1 (in_copy hp hc))
copy_step-Fate w (ok u) job h hp hc = upload_step-Fate w w.upload job h hp hc refl

prepare_step-Fate :
    (w : RunSteps) (prepare : Result (Unit {0})) (job : Job)
    → IsFresh job
    → w.prepare ≡ prepare
    → Fate w (prepare_step w prepare job)
unfolding prepare_step
prepare_step-Fate w (err e) job h hp = inr (breaks w e job h.1 (in_prepare hp))
prepare_step-Fate w (ok u) job h hp = copy_step-Fate w w.copy job h hp refl

-- The job that `_run` leaves of a submitted one has the time of its end, and: where no step raised,
-- it is SUCCEEDED without an error, with the rows, the size and the URI that the steps gave; where
-- one did, it is FAILED, with the error of the first that did and without a URI. That the steps
-- themselves return is not stated: a query has no time limit.
pub run-Ended :
    (w : RunSteps) (job_id sql principal_sub : String) (now : ℤ)
    → Ended w (run w (submit job_id now sql principal_sub))
unfolding run submit
run-Ended w job_id sql principal_sub now = record {
  finished = refl;
  outcome = prepare_step-Fate w w.prepare _ (refl, refl) refl;
}
