-- ===== src/Gateway/Wipe.antt =====
-- gateway/app.py: `wipe_connection`, over the state that it clears. S3, the metadata database, the
-- DuckDB pool and the Dagster server are arguments.
pub mod Cleared
use text.Mathlib.Text.{◌==◌ as str_eq}
use postgres_s3_warehouse_sy.Prelude.{
  ℕ, ◌+◌, String, Bool, true, false, not, Option, none, some, List, [], ◌∷◌, filter, if◌then◌else◌,
}
use postgres_s3_warehouse_sy.Prelude.Int.{ℤ, eqb_ℤ}
use postgres_s3_warehouse_sy.Prelude.Result.{Result, ok, err, not_found}
use postgres_s3_warehouse_sy.Prelude.Action.{Action, return, raise, lift, ◌>>=◌}
use postgres_s3_warehouse_sy.Common.Crypto.{Fernet}
use postgres_s3_warehouse_sy.Common.Connections.{Connection, Store, get_connection}
use postgres_s3_warehouse_sy.Common.ObjectStore.{delete_prefix}
use postgres_s3_warehouse_sy.State.Watermarks.{Texts, Watermarks}
use postgres_s3_warehouse_sy.State.Chunks.{Chunks}
use postgres_s3_warehouse_sy.Load.Drops.{Entries, Drops, drop_all_tables}
use postgres_s3_warehouse_sy.Gateway.Auth.{Principal, require_admin, enforce_connection_scope}
use postgres_s3_warehouse_sy.Gateway.Dagster.{DeleteAnswer, delete_runs}
use postgres_s3_warehouse_sy.Gateway.Views.{Views}

-- What the calls of the services meet. `catalog` says whether the connection's catalog opens,
-- `views_dropped` whether the DROP SCHEMA succeeds, `runs_listed` whether the runs can be listed.
pub record Services : Type 0 where
  pub catalog : Result (Unit {0})
  pub drops : Drops
  pub pages : String → List (Result (List String))
  pub delete_objects : List String → Action (List String) (Unit {0})
  pub metadata : Result (Unit {0})
  pub views_dropped : Bool
  pub runs_listed : Result (Unit {0})
  pub delete_run : String → DeleteAnswer

pub record Wiped : Type 0 where
  pub tables_dropped : ℕ
  pub s3_objects_deleted : ℕ
  pub runs_deleted : ℕ

module _ (texts : Texts) where
  -- The configuration store, the catalog, the keys of the connection's bucket, the tables
  -- pipeline_watermarks and pipeline_chunk_state, the views of a pooled connection and the ids of
  -- the connection's runs.
  pub record Lake : Type 0 where
    pub store : Store
    pub entries : Entries
    pub objects : List String
    pub watermarks : Watermarks texts
    pub chunks : Chunks
    pub views : Views
    pub runs : List String

-- A prefix that fails is passed over; its keys are not counted.
abbrev pub after_prefix : ℕ → List String × Result ℕ → List String × ℕ
after_prefix total (objects, ok n) = (objects, total + n)
after_prefix total (objects, err e) = (objects, total)

pub delete_prefixes : Services → List String → List String × ℕ → List String × ℕ
delete_prefixes services [] state = state
delete_prefixes services (prefix ∷ prefixes) (objects, total) =
    delete_prefixes services prefixes
      (after_prefix total (delete_prefix services.delete_objects (services.pages prefix) objects))

abbrev pub lake_prefixes : List String
lake_prefixes = "raw/" ∷ "curated/" ∷ "gateway-results/" ∷ []

module _ (fernet : Result Fernet) (texts : Texts) (services : Services) (now : ℤ) where
  drop_lake : Connection → Action (Lake texts) (ℕ × ℕ)
  unfolding delete_prefixes
  drop_lake conn w =
      let (entries, tables_dropped) =
        drop_all_tables services.drops conn.options.iceberg_namespace w.entries in
      let (objects, s3_deleted) = delete_prefixes services lake_prefixes (w.objects, 0) in
      (record w { entries = entries; objects = objects }, ok (tables_dropped, s3_deleted))

  -- The two DELETEs, in one transaction.
  delete_rows : ℤ → Result (Unit {0}) → Action (Lake texts) (Unit {0})
  delete_rows connection_id (err e) w = (w, err e)
  delete_rows connection_id (ok u) w = (
    record w {
      watermarks = filter (λ r. not (eqb_ℤ r.0.0 connection_id)) w.watermarks;
      chunks = filter (λ r. not (eqb_ℤ r.1.connection_id connection_id)) w.chunks;
    },
    ok tt,
  )

  abbrev views_left : Connection → Views → Views
  views_left conn views =
      let ns = conn.options.iceberg_namespace in
      if services.views_dropped then filter (λ v. not (str_eq v.0.0 ns)) views else views

  clear_rest : Connection → ℕ × ℕ → Result (Unit {0}) → Action (Lake texts) Wiped
  clear_rest conn dropped (err e) w = (record w { views = views_left conn w.views }, err e)
  clear_rest conn (tables_dropped, s3_deleted) (ok u) w =
      let (runs, runs_deleted) = delete_runs services.delete_run w.runs in
      (
        record w {
          views = views_left conn w.views;
          runs = runs;
          store = record w.store { cache = none };
        },
        ok (record {
          tables_dropped = tables_dropped;
          s3_objects_deleted = s3_deleted;
          runs_deleted = runs_deleted;
        }),
      )

  wipe_found : ℤ → Option Connection → Action (Lake texts) Wiped
  unfolding drop_lake delete_rows clear_rest
  wipe_found connection_id none = raise not_found
  wipe_found connection_id (some conn) = do
    _ ← lift services.catalog
    dropped ← drop_lake conn
    _ ← delete_rows connection_id services.metadata
    clear_rest conn dropped services.runs_listed

  looked_up :
      Lake texts → Result (Store × Option Connection) → Lake texts × Result (Option Connection)
  looked_up w (err e) = (w, err e)
  looked_up w (ok (store, found)) = (record w { store = store }, ok found)

  find_connection : ℤ → Action (Lake texts) (Option Connection)
  unfolding looked_up
  find_connection connection_id w = looked_up w (get_connection fernet now connection_id w.store)

  unfoldable pub wipe_connection : Principal → ℤ → Action (Lake texts) Wiped
  unfolding find_connection wipe_found
  wipe_connection principal connection_id = do
    _ ← lift (require_admin principal)
    _ ← lift (enforce_connection_scope principal connection_id)
    conn ← find_connection connection_id
    wipe_found connection_id conn
