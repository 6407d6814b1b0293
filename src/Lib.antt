-- ===== src/Lib.antt =====
-- postgres-s3-warehouse-sync: verification library.
--
-- The program copies tables of source Postgres databases to parquet objects in S3, keeps them as
-- Iceberg tables, and serves queries on them. A bootstrap plans chunks of a table, extracts each with
-- COPY, commits its files and marks it DONE; an incremental run extracts the window after the stored
-- watermark, merges it by primary key and moves the watermark; a reconciliation makes the keys of the
-- lake those of the source; the gateway authenticates requests and runs queries on a pool of DuckDB
-- connections. All paths below stand under src/viamedia_pipeline/.
--
-- Prelude: native numbers and integers, lists, Python exceptions as values (Result), database tables
--   and dicts by key (Table).
-- Common/Crypto, Common/Dsn: common/crypto.py with the cipher as an argument, and the DSNs of
--   common/config_store.py with libpq's parser as an argument.
-- Common/Connections: common/config_store.py, the connections behind their cache, and in Selection
--   the objects that are selected; the order of texts that the database sorts by is an argument. Spec
--   is a plain list of connections, which Cached, Writes and Runs compare the store with; Enabled
--   holds what is proved of selections.
-- Common/Tokens, Common/Users: common/config_store.py, API tokens and users. Changes, Kept and
--   Lifecycle hold what is proved. The tables' constraints are those of common/migrations.py.
-- Common/ObjectStore: common/s3.py, `delete_prefix`. Requests holds what is proved.
-- Extract/Chunker: extract/chunker.py, the planners; a day is its number. Cover and Numbers hold what
--   is proved.
-- Extract/CopyWorker, Extract/Parts: extract/copy_worker.py, the WHERE clause of a chunk and the loop
--   that rolls rows into parts.
-- Extract/Incremental: extract/incremental.py, `run_incremental`. Scan, Covers, Windows and
--   NoGap hold what is proved.
-- State/Time, State/Watermarks: state/watermarks.py, with Python's values and their comparisons.
-- State/Chunks: state/chunks.py.
-- Load/Commit, Load/Tables: load/iceberg_writer.py, `commit_files_with_retry` and
--   `create_or_get_table`.
-- Load/Columns: load/iceberg_writer.py, `evolve_table_schema` and `_drop_removed_columns`.
-- Load/Drops: load/iceberg_writer.py, `drop_all_tables`.
-- Load/Merge: load/merge.py. `LakeTable` is the interface of Iceberg tables that Merge and Reconcile
--   use; `Sorter` is that of Arrow's sort.
-- Load/Reconcile: load/reconcile.py.
-- Orchestration/Bootstrap: orchestration/bootstrap_job.py.
-- Orchestration/Incremental, Orchestration/Tables: orchestration/incremental_job.py from the
--   extraction on, and orchestration/tables.py.
-- Extract/Discovery: extract/discovery.py.
-- Gateway/Auth, Gateway/Pool, Gateway/Query: gateway/auth.py, gateway/duckdb_pool.py,
--   gateway/query.py.
-- Gateway/SqlGuard: gateway/sql_guard.py, `guard` and `default_config`. `Sqlglot` is the interface of
--   the parser. Safe, Maximum and Schemas hold what is proved.
-- Gateway/OAuth: gateway/oauth.py, the callback and the session cookie.
-- Gateway/App: gateway/app.py, the endpoints of connections; Requests has the other endpoints that
--   edit settings, tokens and users or launch a run, and `handle`, which dispatches to all of these
--   (the wipe stands in Gateway/Wipe); Sql has `_guard_for`, `_prepare_sql` and `query_status`. Access and Updates hold what is proved. Handlers are Actions
--   (Prelude/Action): a state before and after, and a result.
-- Gateway/Wipe: gateway/app.py, `wipe_connection`. Cleared holds what is proved.
-- Gateway/Dagster: gateway/dagster_client.py, `delete_runs`.
-- Gateway/Views: gateway/view_refresher.py, one refresh on one DuckDB connection.
-- Examples: each theorem at a concrete input.
--
-- Loops over lists are structural. `range_loop` runs on fuel, the span of the ids, which is enough as
-- each round moves on by at least 1; a loop that used it up would end in the error `out_of_fuel`.
-- `batches_of` runs on the length of its list; `commit_loop` and `run_with_retries` run on the attempts
-- that the code allows; `delete_rounds` runs on the 200 rounds of the code.
--
-- Not modelled: SQL text, and what the databases, S3, PyIceberg, Arrow, DuckDB, sqlglot, the cipher and
-- the JWT library do beyond the interfaces above; `align_to_table`, which is an argument of the merge;
-- logging and clocks; of gateway/app.py the listings and the test of a connection, of
-- common/config_store.py the settings with their cache and the object state; the thread
-- of the view refresher, the type maps, the user interface and the text of the migrations.
pub mod Prelude
pub mod Common
pub mod Extract
pub mod State
pub mod Load
pub mod Orchestration
pub mod Gateway
pub mod Examples
