-- ===== src/Common/Connections/Runs.antt =====
-- Runs of the operations of common/config_store.py, with the clock of each, against runs on the
-- plain list.
use postgres_s3_warehouse_sy.Prelude.{◌≡◌, refl, ap, ◌∙◌, String, Bool, Option, List, [], ◌∷◌, any}
use postgres_s3_warehouse_sy.Prelude.Int.{ℤ, eqb_ℤ}
use postgres_s3_warehouse_sy.Prelude.Result.{Result, ok, err, ◌>>=◌}
use postgres_s3_warehouse_sy.Common.Crypto.{Fernet}
use postgres_s3_warehouse_sy.Common.Connections.{
  Options, Secrets, Connection, Store, SelectionItem, SelectionRow, list_connections,
  get_connection, get_connection_by_name, upsert_connection, delete_connection,
}
use postgres_s3_warehouse_sy.Common.Connections.Selection.{
  replace_selection, set_selection, enabled_fqns,
}
use postgres_s3_warehouse_sy.Common.Connections.Selection.Enabled.{
  enabled_set, enabled_fqns-enabled_set,
}
use postgres_s3_warehouse_sy.Common.Connections.Spec.{
  Plain, listed, by_id, by_name, upserted, deleted,
}
use postgres_s3_warehouse_sy.Common.Connections.Cached.{
  Shows, Reads, list_connections-Reads, get_connection-Reads, get_connection_by_name-Reads,
}
use postgres_s3_warehouse_sy.Common.Connections.Writes.{
  Agrees, upsert-Agrees, delete-Shows, exists_same,
}

-- An upsert has the value that the identity column would give next.
pub data Op : Type 0 where
  upsert : ℤ → Option ℤ → Options → Secrets → Op
  delete : ℤ → Op
  list : Bool → Bool → Op
  get : ℤ → Op
  get_by_name : String → Op
  set_objects : ℤ → List SelectionItem → Op
  get_objects : ℤ → Op

pub data Answer : Type 0 where
  saved : ℤ → Answer
  done : Answer
  listing : List Connection → Answer
  found : Option Connection → Answer
  objects : Option (String → Bool) → Answer

-- An operation that raises leaves its state.
abbrev settle {ℓ ℓ'} :
    {S : Type ℓ} {A : Type ℓ'} → (A → Answer) → S → Result (S × A) → S × Result Answer
settle answer s (err e) = (s, err e)
settle answer s (ok (s', a)) = (s', ok (answer a))

abbrev unit_of {ℓ} : {S : Type ℓ} → Result S → Result (S × Unit {0})
unit_of (err e) = err e
unit_of (ok s) = ok (s, tt)

unfoldable pub spec_step : Op → Plain → Plain × Result Answer
spec_step (upsert new_id connection_id options secrets) p =
    settle saved p (upserted new_id connection_id options secrets p)
spec_step (delete connection_id) p = (deleted connection_id p, ok done)
spec_step (list enabled_only force) p = (p, ok (listing (listed enabled_only p)))
spec_step (get connection_id) p = (p, ok (found (by_id connection_id p)))
spec_step (get_by_name name) p = (p, ok (found (by_name name p)))
spec_step (set_objects connection_id items) p =
    settle (λ u. done) p
      (unit_of (do
        selection ←
            replace_selection (any (λ c. eqb_ℤ c.id connection_id) p.conns) connection_id items
              p.selection
        ok (record p { selection = selection })))
spec_step (get_objects connection_id) p = (p, ok (objects (enabled_set connection_id p.selection)))

-- `le` is the order of texts that the database sorts by.
module _ (f : Fernet) (le : String → String → Bool) where
  unfoldable pub step : ℤ → Op → Store → Store × Result Answer
  step now (upsert new_id connection_id options secrets) s =
      settle saved s (upsert_connection (ok f) new_id connection_id options secrets s)
  step now (delete connection_id) s = (delete_connection connection_id s, ok done)
  step now (list enabled_only force) s =
      settle listing s (list_connections (ok f) now enabled_only force s)
  step now (get connection_id) s = settle found s (get_connection (ok f) now connection_id s)
  step now (get_by_name name) s = settle found s (get_connection_by_name (ok f) now name s)
  step now (set_objects connection_id items) s =
      settle (λ u. done) s (unit_of (set_selection connection_id items s))
  step now (get_objects connection_id) s =
      (s, ok (objects (enabled_fqns le connection_id s.selection)))

  -- The answers of a run of operations, each at its time.
  unfoldable pub run : List (ℤ × Op) → Store → List (Result Answer)
  run [] s = []
  run ((now, op) ∷ ops) s = let (s', a) = step now op s in a ∷ run ops s'

unfoldable pub spec_run : List (ℤ × Op) → Plain → List (Result Answer)
spec_run [] p = []
spec_run ((now, op) ∷ ops) p = let (p', a) = spec_step op p in a ∷ spec_run ops p'

module _ (f : Fernet) (le : String → String → Bool) where
  -- Both steps answer the same, and the store goes on showing the list.
  abbrev Matches : Plain × Result Answer → Store × Result Answer → Type 0
  Matches (p, a) (s, b) = (b ≡ a) × Shows f s p

  settle-Agrees :
      {A : Type 0} (answer : A → Answer) (s : Store) (p : Plain) (x : Result (Plain × A))
      (y : Result (Store × A))
      → Shows f s p
      → Agrees f x y
      → Matches (settle answer p x) (settle answer s y)
  settle-Agrees answer s p (ok (p', a)) (ok (s', b)) shows (e, shows') =
      (ap (λ c. ok (answer c)) e, shows')
  settle-Agrees answer s p (err e) (err e') shows same = (ap (λ x. err x) same, shows)
  settle-Agrees answer s p (err e) (ok y) shows same = absurd same
  settle-Agrees answer s p (ok x) (err e) shows same = absurd same

  settle-Reads :
      {A : Type 0} (answer : A → Answer) (s : Store) (p : Plain) (a : A) (y : Result (Store × A))
      → Reads f p a y
      → Matches (p, ok (answer a)) (settle answer s y)
  settle-Reads answer s p a y (s', e, shows) = rw e (refl, shows)

  selection-Matches :
      (s : Store) (p : Plain) (r r' : Result (List SelectionRow))
      → r' ≡ r
      → Shows f s p
      → Matches
          (settle (λ u. done) p (unit_of (r >>= λ rows. ok (record p { selection = rows }))))
          (settle (λ u. done) s (unit_of (r' >>= λ rows. ok (record s { selection = rows }))))
  selection-Matches s p (err e) r' same shows = rw same (refl, shows)
  selection-Matches s p (ok rows) r' same shows =
      rw same (refl, record { views = shows.views; selection = refl; coherent = shows.coherent })

  set_selection-Matches :
      (c : ℤ) (items : List SelectionItem) (s : Store) (p : Plain)
      → Shows f s p
      → Matches
          (spec_step (set_objects c items) p)
          (settle (λ u. done) s (unit_of (set_selection c items s)))
  unfolding set_selection spec_step
  set_selection-Matches c items s p shows =
      selection-Matches s p _ _
        (ap (λ b. replace_selection b c items s.selection)
            (exists_same f c s.rows p.conns shows.views)
          ∙ ap (λ rows. replace_selection (any (λ x. eqb_ℤ x.id c) p.conns) c items rows)
              shows.selection)
        shows

  step-Matches :
      (now : ℤ) (op : Op) (s : Store) (p : Plain)
      → Shows f s p
      → Matches (spec_step op p) (step f le now op s)
  unfolding spec_step step
  step-Matches now (upsert new_id c options secrets) s p shows =
      settle-Agrees saved s p _ _ shows (upsert-Agrees f new_id c options secrets s p shows)
  step-Matches now (delete c) s p shows = (refl, delete-Shows f c s p shows)
  step-Matches now (list enabled_only force) s p shows =
      settle-Reads listing s p _ _ (list_connections-Reads f now enabled_only force s p shows)
  step-Matches now (get c) s p shows =
      settle-Reads found s p _ _ (get_connection-Reads f now c s p shows)
  step-Matches now (get_by_name name) s p shows =
      settle-Reads found s p _ _ (get_connection_by_name-Reads f now name s p shows)
  step-Matches now (set_objects c items) s p shows = set_selection-Matches c items s p shows
  step-Matches now (get_objects c) s p shows = (
    ap (λ set. ok (objects set))
        (enabled_fqns-enabled_set le c s.selection ∙ ap (enabled_set c) shows.selection),
    shows,
  )

  -- The store refines a plain list of connections and selections: where it shows the list, any run
  -- of its operations, whatever the times at which they come, answers or raises as the run on the
  -- list does. So no cache is ever stale to its process, an update keeps the secrets that it is not
  -- given, a secret is read as it was written, and the order in which the database sorts does not
  -- matter.
  pub run-spec_run :
      (ops : List (ℤ × Op)) (s : Store) (p : Plain) → Shows f s p → run f le ops s ≡ spec_run ops p
  unfolding run spec_run
  run-spec_run [] s p shows = refl
  run-spec_run ((now, op) ∷ ops) s p shows =
      let (same, shows') = step-Matches now op s p shows in
      rw (same, run-spec_run ops _ _ shows') refl
