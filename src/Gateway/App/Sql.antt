-- ===== src/Gateway/App/Sql.antt =====
-- gateway/app.py: which SQL a caller's query becomes, and whose query job may be read.
use text.Mathlib.Text.{◌==◌ as str_eq}
use postgres_s3_warehouse_sy.Prelude.{
  ◌≡◌, refl, ap, subst, String, Bool, true, false, ◌&&◌, Option, none, some, List, [], ◌∷◌, any,
  if◌then◌else◌, truthy,
}
use postgres_s3_warehouse_sy.Prelude.Int.{ℤ}
use postgres_s3_warehouse_sy.Prelude.Result.{Result, ok, err, not_found, forbidden}
use postgres_s3_warehouse_sy.Prelude.Action.{Action, lift, ◌>>=◌, continue}
use postgres_s3_warehouse_sy.Prelude.Table.{find, string_key}
use postgres_s3_warehouse_sy.Common.Crypto.{Fernet}
use postgres_s3_warehouse_sy.Common.Connections.{Connection, Store, get_connection}
use postgres_s3_warehouse_sy.Common.Connections.Spec.{Plain, by_id}
use postgres_s3_warehouse_sy.Common.Connections.Cached.{Shows, Reads, get_connection-Reads}
use postgres_s3_warehouse_sy.Gateway.Auth.{Principal, is_admin}
use postgres_s3_warehouse_sy.Gateway.Query.{Job, succeeded, JobStatus, result_signed_url}
use postgres_s3_warehouse_sy.Gateway.SqlGuard.{
  Sqlglot, GuardConfig, GuardSettings, default_config, guard, is_query, is_write, foreign_table,
}
use postgres_s3_warehouse_sy.Gateway.SqlGuard.Schemas.{default_config-Configures}
use postgres_s3_warehouse_sy.Gateway.SqlGuard.Safe.{guard-IsSafe}

-- `frozenset({ns} if ns else set())`, where `ns` is the connection's namespace if there is one.
abbrev pub own_schemas : Option Connection → List String
own_schemas none = []
own_schemas (some c) =
    if truthy c.options.iceberg_namespace then c.options.iceberg_namespace ∷ [] else []

abbrev scoped_config : GuardConfig → Option Connection → GuardConfig
scoped_config cfg conn = record cfg { allowed_schemas = own_schemas conn }

module _ (fernet : Result Fernet) (settings : GuardSettings) (now : ℤ) where
  looked_up : GuardConfig → Result (Store × Option Connection) → Action Store GuardConfig
  looked_up cfg (err e) s = (s, err e)
  looked_up cfg (ok (s', conn)) s = (s', ok (scoped_config cfg conn))

  guard_config : Option ℤ → Store × GuardConfig → Store × Result GuardConfig
  unfolding looked_up
  guard_config none (s, cfg) = (s, ok cfg)
  guard_config (some c) (s, cfg) = looked_up cfg (get_connection fernet now c s) s

  pub guard_for : Principal → Action Store GuardConfig
  unfolding guard_config
  guard_for principal s =
      guard_config principal.connection_id (default_config fernet now settings s)

  abbrev unscoped : Option ℤ → Bool
  unscoped none = true
  unscoped (some c) = false

  -- `unrestricted` is the setting gateway_admin_sql_unrestricted.
  unfoldable pub prepare_sql : Sqlglot → Bool → Principal → String → Action Store String
  unfolding guard_for
  prepare_sql glot unrestricted principal sql s =
      if is_admin principal && unscoped principal.connection_id && unrestricted
      then (s, ok sql)
      else (guard_for principal >>= λ cfg. lift (guard glot cfg sql)) s

-- What a job's owner is told.
pub record QueryStatus : Type 0 where
  pub job : Job
  pub result_signed_url : Option String

-- `conns` are the enabled connections as the store lists them, `sign` the presigned URL.
module _ (conns : Result (List Connection)) (sign : Connection → String → Result String) where
  abbrev url_of : Job → JobStatus → Result (Option String)
  url_of job succeeded = result_signed_url conns sign job
  url_of job _ = ok none

  answered : Job → Result (Option String) → Result QueryStatus
  answered job (err e) = err e
  answered job (ok url) = ok (record { job = job; result_signed_url = url })

  status_of : Principal → Option Job → Result QueryStatus
  unfolding answered
  status_of principal none = err not_found
  status_of principal (some job) =
      if str_eq job.principal_sub principal.sub
      then answered job (url_of job job.status)
      else err forbidden

  pub query_status : List (String × Job) → String → Principal → Result QueryStatus
  unfolding status_of
  query_status jobs job_id principal = status_of principal (find job_id jobs)

module _ (f : Fernet) (settings : GuardSettings) (now : ℤ) where
  -- The configuration of a caller who is scoped to a connection.
  record IsScoped (c : ℤ) (p : Plain) (r : Store × Result GuardConfig) : Type 0 where
    store : Store
    cfg : GuardConfig
    returned : r ≡ (store, ok cfg)
    schemas : cfg.allowed_schemas ≡ own_schemas (by_id c p)
    shows : Shows f store p

  looked_up-IsScoped :
      (c : ℤ) (p : Plain) (cfg : GuardConfig) (s : Store) (y : Result (Store × Option Connection))
      → Reads f p (by_id c p) y
      → IsScoped c p (looked_up (ok f) settings now cfg y s)
  unfolding looked_up
  looked_up-IsScoped c p cfg s y (s', e, shows) = record {
    store = s';
    cfg = scoped_config cfg (by_id c p);
    returned = rw e refl;
    schemas = refl;
    shows = shows;
  }

  guard_config-IsScoped :
      (c : ℤ) (p : Plain) (o : Option ℤ) (x : Store × GuardConfig)
      → o ≡ some c
      → Shows f x.0 p
      → IsScoped c p (guard_config (ok f) settings now o x)
  unfolding guard_config
  guard_config-IsScoped c p o x e shows =
      rw e (looked_up-IsScoped c p x.1 x.0 _ (get_connection-Reads f now c x.0 p shows))

  guard_for-IsScoped :
      (principal : Principal) (c : ℤ) (s : Store) (p : Plain)
      → principal.connection_id ≡ some c
      → Shows f s p
      → IsScoped c p (guard_for (ok f) settings now principal s)
  unfolding guard_for
  guard_for-IsScoped principal c s p e shows =
      guard_config-IsScoped c p principal.connection_id (default_config (ok f) now settings s) e
        (default_config-Configures f now settings s p shows).shows

  guarded :
      (glot : Sqlglot) (c : ℤ) (p : Plain) (sql : String) (r : Store × Result GuardConfig)
      (s' : Store) (out : String)
      → IsScoped c p r
      → continue (λ cfg. lift (guard glot cfg sql)) r ≡ (s', ok out)
      → (cfg : GuardConfig) × (cfg.allowed_schemas ≡ own_schemas (by_id c p))
        × (guard glot cfg sql ≡ ok out)
  guarded glot c p sql r s' out scoped h = (
    scoped.cfg,
    scoped.schemas,
    ap (λ (x : Store × Result String). x.1) (rw scoped.returned at h),
  )

  -- A principal who is scoped to a connection, an admin or not, whatever the settings are, runs only
  -- SQL that parses to one query which writes nothing and reads only tables of that connection's
  -- own namespace; of no schema, where the connection is gone.
  pub prepare_sql-scoped :
      (glot : Sqlglot) (unrestricted : Bool) (principal : Principal) (c : ℤ) (s s' : Store)
      (p : Plain) (sql out : String)
      → principal.connection_id ≡ some c
      → Shows f s p
      → prepare_sql (ok f) settings now glot unrestricted principal sql s ≡ (s', ok out)
      → (stmt : glot.Node) × (glot.parse out ≡ some (some stmt ∷ []))
        × (is_query (glot.class_of stmt) ≡ true)
        × (any (λ n. is_write (glot.class_of n)) (glot.walk stmt) ≡ false)
        × (any (λ n. foreign_table (own_schemas (by_id c p)) (glot.class_of n)) (glot.walk stmt)
            ≡ false)
  unfolding prepare_sql
  prepare_sql-scoped glot unrestricted principal c s s' p sql out scope shows h =
      let bypass = not_unscoped (is_admin principal) unrestricted principal.connection_id scope in
      let (cfg, schemas, accepted) =
        guarded glot c p sql _ s' out (guard_for-IsScoped principal c s p scope shows)
          (rw bypass at h) in
      let (stmt, parses, safe) = guard-IsSafe glot cfg sql out accepted in
      (
        stmt,
        parses,
        safe.query,
        safe.reads,
        subst
            (λ schemas. any (λ n. foreign_table schemas (glot.class_of n)) (glot.walk stmt) ≡ false)
            schemas safe.schemas,
      )
    where
      not_unscoped :
          (a u : Bool) (o : Option ℤ)
          → o ≡ some c
          → (a && unscoped (ok f) settings now o && u) ≡ false
      not_unscoped true u o e = rw e refl
      not_unscoped false u o e = refl
