-- ===== src/Examples/Jobs.antt =====
-- A chunk's retries and a job at concrete inputs.
use postgres_s3_warehouse_sy.Prelude.{ℕ, zero, suc, refl, ◌⊎◌, true, List, [], ◌∷◌}
use postgres_s3_warehouse_sy.Prelude.Int.{pos}
use postgres_s3_warehouse_sy.Prelude.Result.{Result, ok, err, external}
use postgres_s3_warehouse_sy.Load.Commit.{added}
use postgres_s3_warehouse_sy.Orchestration.Bootstrap.{
  Key, World, Weather, Extracted, Task, run_with_retries,
}
use postgres_s3_warehouse_sy.Orchestration.Bootstrap.Retries.{Fails, Commits, run_with_retries-Ends}

abbrev key : Key
key = record { run_id = "run"; chunk_key = ("public.events", pos 0); connection_id = pos 1 }

abbrev extracted : Extracted
extracted = record { s3_uris = "part0" ∷ "part1" ∷ []; rows = pos 12 }

abbrev extraction_at : ℕ → Result Extracted
extraction_at zero = err external
extraction_at (suc n) = ok extracted

-- The first extraction fails, the others work.
abbrev weather : ℕ → Weather
weather n = record {
  connection_found = true;
  running_saved = true;
  extraction = extraction_at n;
  commits = λ i. added;
  done_saved = true;
  failed_saved = true;
  error_message = [];
}

abbrev world : World
world = record { chunks = []; files = "old" ∷ [] }

run_with_retries-Ends_example :
    Fails key world (run_with_retries 3 0 weather key world)
    ⊎ Commits key weather world (run_with_retries 3 0 weather key world)
run_with_retries-Ends_example = run_with_retries-Ends key weather (λ i. refl) 3 0 world

abbrev tasks : List Task
tasks = (key, weather) ∷ []
