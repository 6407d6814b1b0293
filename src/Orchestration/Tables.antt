-- ===== src/Orchestration/Tables.antt =====
-- orchestration/tables.py: the configuration of the objects of one connection, with its cache.
-- Times are seconds of the monotonic clock. `starts_timestamp` is `startswith("timestamp")` on a type
-- in lower case. What each discovery would return is an argument.
pub mod Lookups
use text.Mathlib.Text.{◌==◌ as str_eq}
use postgres_s3_warehouse_sy.Prelude.{
  ℕ, ◌-◌, ◌≡◌, String, Bool, true, false, not, ◌&&◌, Option, none, some, List, [], ◌∷◌, find?, map,
  ltb, if◌then◌else◌,
}
use postgres_s3_warehouse_sy.Extract.Discovery.{
  ObjectKind, Column, DiscoveredObject, supports_parallel_chunking, supports_incremental,
}

abbrev pub PartitionBy : Type 0
PartitionBy = List (String × (String × Option ℕ))

pub record TableConfig : Type 0 where
  pub schema : String
  pub table : String
  pub kind : ObjectKind
  pub partition_by : PartitionBy
  pub watermark_column : Option String
  pub pk : String
  pub parallel : Bool

-- `none` of `watermark_column` is "__keep__".
pub record TableOverride : Type 0 where
  pub partition_by : Option PartitionBy
  pub pk : Option String
  pub watermark_column : Option (Option String)

abbrev pub or_default {ℓ} : {A : Type ℓ} → Option A → A → A
or_default none d = d
or_default (some a) d = a

abbrev pub Fqn : Type 0
Fqn = String × String

module _ (starts_timestamp : String → Bool) (overrides : Fqn → Option TableOverride) where
  day_partition : Option Column → PartitionBy
  day_partition none = []
  day_partition (some c) =
      if starts_timestamp c.pg_type then ("created_at", ("day", none)) ∷ [] else []

  pub default_partition_for : DiscoveredObject → PartitionBy
  unfolding day_partition
  default_partition_for o = day_partition (find? (λ c. str_eq c.name "created_at") o.columns)

  configured : DiscoveredObject → Option TableOverride → TableConfig
  unfolding default_partition_for
  configured o none = record {
    schema = o.schema;
    table = o.name;
    kind = o.kind;
    partition_by = default_partition_for o;
    watermark_column = if supports_incremental o then some "updated_at" else none;
    pk = "id";
    parallel = supports_parallel_chunking o;
  }
  configured o (some v) = record {
    schema = o.schema;
    table = o.name;
    kind = o.kind;
    partition_by = or_default v.partition_by (default_partition_for o);
    watermark_column =
        or_default v.watermark_column (if supports_incremental o then some "updated_at" else none);
    pk = or_default v.pk "id";
    parallel = supports_parallel_chunking o;
  }

  pub config_from_object : DiscoveredObject → TableConfig
  unfolding configured
  config_from_object o = configured o (overrides (o.schema, o.name))

  abbrev pub Cache : Type 0
  Cache = Option (ℕ × List TableConfig)

  fresh : Bool → ℕ → Cache → Option (List TableConfig)
  fresh force now none = none
  fresh true now (some (at, configs)) = none
  fresh false now (some (at, configs)) = if ltb (now - at) 300 then some configs else none

  refreshed :
      ℕ → List DiscoveredObject → Cache → Option (List TableConfig) → List TableConfig × Cache
  refreshed now objects cache (some configs) = (configs, cache)
  refreshed now objects cache none =
      let configs = map config_from_object objects in (configs, some (now, configs))

  -- The configurations, and the cache afterwards. `objects` is what a discovery would return.
  pub get_tables : Bool → ℕ → List DiscoveredObject → Cache → List TableConfig × Cache
  unfolding fresh refreshed config_from_object
  get_tables force now objects cache = refreshed now objects cache (fresh force now cache)

  abbrev pub is_fqn : Fqn → TableConfig → Bool
  is_fqn fqn cfg = str_eq cfg.schema fqn.0 && str_eq cfg.table fqn.1

  -- `for cfg in configs: if cfg.fqn == fqn: return cfg`, and what follows.
  first_or : Option TableConfig → Option TableConfig → Option TableConfig
  first_or (some cfg) next = some cfg
  first_or none next = next

  -- The lookups in the cached, the refreshed and the directly discovered objects. `direct` is the
  -- targeted discovery, `none` if it raised.
  directly : Fqn → Option (List DiscoveredObject) → Option TableConfig
  unfolding config_from_object
  directly fqn none = none
  directly fqn (some objects) = find? (is_fqn fqn) (map config_from_object objects)

  looked_up :
      Option TableConfig
      → Cache
      → Option TableConfig
      → Option TableConfig
      → Cache
      → Option TableConfig × Cache
  unfolding first_or
  looked_up (some cfg) cache1 again direct cache2 = (some cfg, cache1)
  looked_up none cache1 again direct cache2 = (first_or again direct, cache2)

  unfoldable pub get_table :
      Fqn
      → ℕ
      → List DiscoveredObject
      → Option (List DiscoveredObject)
      → Cache
      → Option TableConfig × Cache
  unfolding get_tables looked_up directly
  get_table fqn now objects direct cache =
      let (configs, cache1) = get_tables false now objects cache in
      let (again, cache2) = get_tables true now objects cache1 in
      looked_up (find? (is_fqn fqn) configs) cache1 (find? (is_fqn fqn) again) (directly fqn direct)
        cache2
