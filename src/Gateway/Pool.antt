-- ===== src/Gateway/Pool.antt =====
-- gateway/duckdb_pool.py: the pool of DuckDB connections, which are numbered.
-- Each step is one critical section under the pool's lock; the interleavings of the threads are the
-- sequences of steps. A wait that ends without a connection is a timeout.
pub mod Leases
use postgres_s3_warehouse_sy.Prelude.{
  ℕ, zero, suc, ◌+◌, ◌≡◌, ◌<◌, List, [], ◌∷◌, ◌++◌, count, ◌==◌, if◌then◌else◌, Bool, true, false,
}
use postgres_s3_warehouse_sy.Prelude.Result.{Error, Result, ok, err, timeout_error, ◌>>=◌}

-- The deque of free connections, and the connections that contexts hold.
pub record Pool : Type 0 where
  pub available : List ℕ
  pub leased : List ℕ

-- `init`: the connections 0 to size - 1.
pub connections : ℕ → List ℕ
connections zero = []
connections (suc n) = connections n ++ (n ∷ [])

unfoldable pub init : ℕ → Pool
unfolding connections
init size = record { available = connections size; leased = [] }

-- The deque after a release: `append`.
abbrev pub release : ℕ → List ℕ → List ℕ
release c queue = queue ++ (c ∷ [])

-- One critical section: a context is entered, or left.
pub data Step : Pool → Pool → Type 0 where
  enter :
      (c : ℕ) (queue leased : List ℕ)
      → Step
          (record { available = c ∷ queue; leased = leased })
          (record { available = queue; leased = c ∷ leased })
  leave :
      (c : ℕ) (queue before after : List ℕ)
      → Step
          (record { available = queue; leased = before ++ (c ∷ after) })
          (record { available = release c queue; leased = before ++ after })

pub data Reaches (size : ℕ) : Pool → Type 0 where
  started : Reaches size (init size)
  next : {a b : Pool} → Reaches size a → Step a b → Reaches size b

-- `for_each`, with no other context entered meanwhile: the connections that `fn` is called on, and
-- the deque afterwards.
pub for_each : ℕ → List ℕ → Result (List ℕ × List ℕ)
for_each zero queue = ok ([], queue)
for_each (suc n) [] = err timeout_error
for_each (suc n) (c ∷ queue) = do r ← for_each n (release c queue); ok (c ∷ r.0, r.1)
