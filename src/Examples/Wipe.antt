-- ===== src/Examples/Wipe.antt =====
-- A connection wiped, and the objects under a prefix deleted, at concrete inputs.
use text.Mathlib.Text.{◌==◌ as str_eq}
use postgres_s3_warehouse_sy.Prelude.{◌⊎◌, String, true, false, none, List, [], ◌∷◌, if◌then◌else◌}
use postgres_s3_warehouse_sy.Prelude.Int.{pos}
use postgres_s3_warehouse_sy.Prelude.Result.{Result, ok}
use postgres_s3_warehouse_sy.Common.ObjectStore.{delete_prefix}
use postgres_s3_warehouse_sy.Common.ObjectStore.Requests.{
  PageRaises, RequestRaises, Deletes, listed_keys, send, delete_prefix-Deletes,
}
use postgres_s3_warehouse_sy.State.Chunks.{finished}
use postgres_s3_warehouse_sy.Load.Drops.{Drops}
use postgres_s3_warehouse_sy.Gateway.Auth.{Principal}
use postgres_s3_warehouse_sy.Gateway.Dagster.{deleted}
use postgres_s3_warehouse_sy.Gateway.Wipe.{Services, Lake}
use postgres_s3_warehouse_sy.Examples.Config.{store}
use postgres_s3_warehouse_sy.Examples.State.{texts, row_of}

abbrev answer : List String → Result (Unit {0})
answer keys = ok tt

abbrev pages : List (Result (List String))
pages = ok ("raw/1" ∷ "raw/2" ∷ []) ∷ ok ("raw/3" ∷ []) ∷ []

delete_prefix-Deletes_example :
    Deletes
      (λ e. PageRaises pages e ⊎ RequestRaises answer e)
      (listed_keys pages)
      (delete_prefix (send answer) pages [])
delete_prefix-Deletes_example = delete_prefix-Deletes answer pages

-- `gone` cannot be dropped either way.
abbrev drops : Drops
drops = record {
  list_tables = ok ("orders" ∷ "gone" ∷ []);
  drop_table = λ name. false;
  delete_entry = λ name. if str_eq name "orders" then true else false;
  delete_properties = true;
}

abbrev services : Services
services = record {
  catalog = ok tt;
  runs_listed = ok tt;
  drops = drops;
  pages = λ prefix. pages;
  delete_objects = λ keys objects. ([], ok tt);
  metadata = ok tt;
  views_dropped = true;
  delete_run = λ id. deleted;
}

abbrev lake : Lake texts
lake = record {
  store = store;
  entries = record {
    tables =
        (("sales_lake", "orders"), "s3://lake/1.json")
        ∷ (("other_lake", "orders"), "s3://lake/2.json")
        ∷ [];
    namespaces = "sales_lake" ∷ [];
  };
  objects = "raw/1" ∷ "raw/2" ∷ "raw/3" ∷ [];
  watermarks =
      ((pos 1, "public.orders"), row_of 5_000_000)
      ∷ ((pos 2, "public.orders"), row_of 6_000_000)
      ∷ [];
  chunks =
      (
        ("r1", ("public.orders", pos 0)),
        record {
          connection_id = pos 1;
          status = finished;
          s3_uri = none;
          rows = none;
          error = none;
        },
      )
      ∷ [];
  views = (("sales_lake", "orders"), "s3://lake/1.json") ∷ [];
  runs = "r1" ∷ [];
}

abbrev admin : Principal
admin = record { sub = "ann"; roles = "admin" ∷ []; email = "ann@x"; connection_id = none }
