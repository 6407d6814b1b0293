-- ===== src/Gateway/SqlGuard/Schemas.antt =====
-- The configuration of the guard of gateway/sql_guard.py, from the settings and the connections.
use postgres_s3_warehouse_sy.Prelude.{◌≡◌, refl, true, false, List, ◌++◌}
use postgres_s3_warehouse_sy.Prelude.Int.{ℤ}
use postgres_s3_warehouse_sy.Prelude.Result.{Result, ok}
use postgres_s3_warehouse_sy.Common.Crypto.{Fernet}
use postgres_s3_warehouse_sy.Common.Connections.{Connection, Store}
use postgres_s3_warehouse_sy.Common.Connections.Spec.{Plain, listed}
use postgres_s3_warehouse_sy.Common.Connections.Cached.{Shows, Reads, list_connections-Reads}
use postgres_s3_warehouse_sy.Gateway.SqlGuard.{
  GuardConfig, GuardSettings, namespaces, config_with, configured, default_config,
}

module _ (f : Fernet) (now : ℤ) (settings : GuardSettings) where
  -- The settings' schemas and the namespaces of the enabled connections, from a store that shows
  -- them; the store goes on showing them.
  pub record Configures (p : Plain) (r : Store × GuardConfig) : Type 0 where
    pub cfg : r.1 ≡ config_with settings (settings.allowed_schemas ++ namespaces (listed true p))
    pub shows : Shows f r.0 p

  configured-Configures :
      (s : Store) (p : Plain) (y : Result (Store × List Connection))
      → Reads f p (listed true p) y
      → Configures p (configured settings s y)
  unfolding configured
  configured-Configures s p y (s', e, shows) = rw e (record { cfg = refl; shows = shows })

  pub default_config-Configures :
      (s : Store) (p : Plain) → Shows f s p → Configures p (default_config (ok f) now settings s)
  unfolding default_config
  default_config-Configures s p shows =
      configured-Configures s p _ (list_connections-Reads f now true false s p shows)
