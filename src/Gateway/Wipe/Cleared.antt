-- ===== src/Gateway/Wipe/Cleared.antt =====
-- What `wipe_connection` of gateway/app.py clears, and what it keeps.
use text.Mathlib.Text.{◌==◌ as str_eq}
use postgres_s3_warehouse_sy.Prelude.{
  true, ◌&&◌, count, ◌≡◌, String, Bool, false, not, none, any, length, if◌then◌else◌,
}
use postgres_s3_warehouse_sy.Prelude.Int.{ℤ, eqb_ℤ}
use postgres_s3_warehouse_sy.Prelude.Result.{Result, ok, err, forbidden}
use postgres_s3_warehouse_sy.Prelude.Table.{find, string_key, int_key, pair_key}
use postgres_s3_warehouse_sy.Common.Crypto.{Fernet}
use postgres_s3_warehouse_sy.Common.Connections.{Connection}
use postgres_s3_warehouse_sy.Common.Connections.Spec.{Plain}
use postgres_s3_warehouse_sy.Common.Connections.Cached.{Shows}
use postgres_s3_warehouse_sy.State.Watermarks.{Texts}
use postgres_s3_warehouse_sy.State.Chunks.{ChunkKey, ChunkRow}
use postgres_s3_warehouse_sy.Load.Drops.{listed_names}
use postgres_s3_warehouse_sy.Load.Drops.Dropped.{goes}
use postgres_s3_warehouse_sy.Gateway.Views.{Views}
use postgres_s3_warehouse_sy.Gateway.Wipe.{Services, Wiped, Lake, drop_lake, delete_rows}

-- A row of the chunk state that belongs to the connection.
abbrev pub belongs : {K : Type 0} → ℤ → K × ChunkRow → Bool
belongs connection_id r = eqb_ℤ r.1.connection_id connection_id

module _ (f : Fernet) (texts : Texts) (services : Services) (p : Plain) where
  -- The store still shows the same connections and selections; each table of the namespace that the
  -- listing names and that can be dropped is out of the catalog, and no other.
  abbrev pub Kept : Connection → Lake texts → Lake texts → Type 0
  Kept c w w' =
      Shows f w'.store p
      × ((key : String × String)
          → find key w'.entries.tables ≡ (
              if goes services.drops c.options.iceberg_namespace
                (listed_names services.drops.list_tables) key
              then none
              else find key w.entries.tables))

  -- The connection's watermarks and chunk state are gone, and other connections' watermarks and chunk
  -- state are as they were.
  abbrev pub Emptied : ℤ → Lake texts → Lake texts → Type 0
  Emptied connection_id w w' =
      ((key : ℤ × String)
        → find key w'.watermarks
          ≡ (if eqb_ℤ key.0 connection_id then none else find key w.watermarks))
      × (any (belongs connection_id) w'.chunks ≡ false)
      × ((q : (String × ChunkKey) × ChunkRow → Bool)
          → count (λ r. q r && not (belongs connection_id r)) w'.chunks
            ≡ count (λ r. q r && not (belongs connection_id r)) w.chunks)

  -- The views of the connection's schema are gone, if they can be dropped, and no other view is.
  abbrev pub Unseen : Connection → Lake texts → Lake texts → Type 0
  Unseen c w w' =
      (key : String × String)
      → find key w'.views ≡ (
          if services.views_dropped && str_eq key.0 c.options.iceberg_namespace
          then none
          else find key w.views)

  -- Where the two DELETEs succeed, the rows are gone, the call raises only where the runs cannot be
  -- listed, and otherwise the cache is empty; where they raise, so does the call, and both tables
  -- are as they were.
  abbrev pub Clears :
      Connection → ℤ → Lake texts → Result (Unit {0}) → Lake texts × Result Wiped → Type 0
  Clears c connection_id w (ok u) (w', ok wiped) =
      Kept c w w'
      × Emptied connection_id w w'
      × Unseen c w w'
      × (w'.store.cache ≡ none)
      × (wiped.tables_dropped ≡ length (listed_names services.drops.list_tables))
  Clears c connection_id w (ok u) (w', err e) =
      Kept c w w'
      × Emptied connection_id w w'
      × Unseen c w w'
      × (w'.runs ≡ w.runs)
      × (services.runs_listed ≡ err e)
  Clears c connection_id w (err e) (w', r) =
      Kept c w w'
      × (r ≡ err e)
      × (w'.watermarks ≡ w.watermarks)
      × (w'.chunks ≡ w.chunks)
      × (w'.views ≡ w.views)
      × (w'.runs ≡ w.runs)

  -- By whether the caller is an admin whom no scope keeps from the connection.
  abbrev pub Wipes :
      Bool → Connection → ℤ → Lake texts → Result (Unit {0}) → Lake texts × Result Wiped → Type 0
  Wipes true c connection_id w metadata out = Clears c connection_id w metadata out
  Wipes false c connection_id w metadata out = out ≡ (w, err forbidden)

  module _ (now : ℤ) where
    abbrev wiped_rows : Connection → ℤ → Lake texts → Lake texts
    wiped_rows c connection_id w =
        (delete_rows (ok f) texts services now connection_id (ok tt)
          (drop_lake (ok f) texts services now c w).0).0
