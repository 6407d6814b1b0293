-- ===== src/Gateway/Dagster.antt =====
-- gateway/dagster_client.py: the runs of a connection on the Dagster server.
pub mod Deletions
use text.Mathlib.Text.{◌==◌ as str_eq}
use postgres_s3_warehouse_sy.Prelude.{
  ℕ, zero, suc, ◌+◌, String, Bool, true, false, not, ◌||◌, Option, none, some, List, [], ◌∷◌,
  filter, if◌then◌else◌,
}

-- How the server answers `deletePipelineRun`: it deletes the run, it returns an error as a GraphQL
-- object, or the request raises.
pub data DeleteAnswer : Type 0 where
  deleted graphql_error raised : DeleteAnswer

-- The first n of a list: the limit of a query.
unfoldable pub take : ℕ → List String → List String
take zero xs = []
take (suc n) [] = []
take (suc n) (x ∷ xs) = x ∷ take n xs

abbrev pub others : String → String → Bool
others id other = not (str_eq other id)

abbrev pub after_delete : DeleteAnswer → String → List String → List String
after_delete deleted id runs = filter (others id) runs
after_delete _ id runs = runs

-- `_post` raises only where the request does.
abbrev pub posted : DeleteAnswer → Bool
posted raised = false
posted _ = true

-- The server: the ids of the connection's runs, newest first, and its answers to deletions, which
-- do not change. Its listings answer. A failed `terminateRun` is ignored, and a run that it ends is
-- still listed.
module _ (answer : String → DeleteAnswer) where
  -- One round over listed runs: the server's runs, the count so far, whether there was progress.
  unfoldable pub delete_each : List String → List String → ℕ → Bool → List String × ℕ × Bool
  delete_each [] runs count progressed = (runs, count, progressed)
  delete_each (id ∷ ids) runs count progressed =
      delete_each ids (after_delete (answer id) id runs)
        (if posted (answer id) then suc count else count) (posted (answer id) || progressed)

  -- The rounds, at most `rounds`: 200 in the code, of 100 runs each.
  unfoldable pub delete_rounds : ℕ → ℕ → List String → ℕ → List String × ℕ
  delete_rounds zero limit runs count = (runs, count)
  delete_rounds (suc rounds) limit [] count = ([], count)
  delete_rounds (suc rounds) limit (run ∷ runs) count =
      let (left, count', progressed) =
        delete_each (take limit (run ∷ runs)) (run ∷ runs) count false in
      let rest = delete_rounds rounds limit left count' in
      if progressed then rest else (left, count')

  unfoldable pub delete_runs : List String → List String × ℕ
  delete_runs runs = delete_rounds 200 100 runs 0
