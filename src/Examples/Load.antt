-- ===== src/Examples/Load.antt =====
-- Merges, reconciliations and commits at concrete inputs.
use postgres_s3_warehouse_sy.Prelude.{
  ℕ, ◌≤◌, ◌<◌, ◌≡◌, refl, Bool, true, none, some, List, [], ◌∷◌, count, leb, arith, if◌then◌else◌,
}
use postgres_s3_warehouse_sy.Prelude.Int.{ℤ, pos}
use postgres_s3_warehouse_sy.Prelude.Result.{ok, err, external, timeout_error}
use postgres_s3_warehouse_sy.Load.Merge.{in_keys, dedupe_latest}
use postgres_s3_warehouse_sy.Load.Merge.Latest.{has, IsLatest, dedupe_latest-IsLatest}
use postgres_s3_warehouse_sy.Load.Merge.Upserts.{
  IsMerged, merge, merge_arrow_table-one_version, merge_arrow_table-merge_arrow_table,
}
use postgres_s3_warehouse_sy.Load.Commit.{
  Attempt, added, conflict, commit_files_with_retry, Decides, commit_files_with_retry-Decides,
}
use postgres_s3_warehouse_sy.Load.Tables.{
  Catalog, Load, loaded, created, already_exists, Partition, Field, day, desired_signature,
  spec_signature, same_set, create_or_get_table,
}
use postgres_s3_warehouse_sy.Load.Tables.Specs.{
  create_or_get_table-signature, create_or_get_table-blip,
}
use postgres_s3_warehouse_sy.Examples.Lake.{Row, key_of, time_of, list_table, sorter}

abbrev same : Row → Row
same r = r

abbrev version : ℕ → ℕ → Row
version k t = record { key = some (pos k); time = some (pos t); content = t }

-- The key 1 is staged twice, the later version second.
abbrev staged : List Row
staged = version 1 10 ∷ version 1 20 ∷ version 2 15 ∷ []

abbrev stored : List Row
stored = version 1 5 ∷ version 3 5 ∷ []

dedupe_latest-IsLatest_example :
    IsLatest key_of time_of staged (dedupe_latest key_of sorter.sort staged)
dedupe_latest-IsLatest_example = dedupe_latest-IsLatest key_of time_of sorter staged

merge_arrow_table-one_version_example :
    IsMerged key_of time_of list_table sorter same
      (λ r. refl)
      (leb 1 (count (has key_of (some (pos 1))) staged))
      (pos 1)
      staged
      stored
      (list_table.rows (merge key_of time_of list_table sorter same (λ r. refl) stored staged).0)
merge_arrow_table-one_version_example =
    merge_arrow_table-one_version key_of time_of list_table sorter same (λ r. refl) stored staged
      (pos 1)

abbrev late : Row → Bool
late r = leb 12 r.content

merge_arrow_table-merge_arrow_table_example :
    count late (
      list_table.rows
        (merge key_of time_of list_table sorter same
          (λ r. refl)
          (merge key_of time_of list_table sorter same (λ r. refl) stored staged).0
          staged).0)
    ≡ count late
        (list_table.rows (merge key_of time_of list_table sorter same (λ r. refl) stored staged).0)
merge_arrow_table-merge_arrow_table_example =
    merge_arrow_table-merge_arrow_table key_of time_of list_table sorter same (λ r. refl) stored
      staged late refl

abbrev source_ids : List ℤ
source_ids = pos 3 ∷ pos 9 ∷ []

-- The source has one row for each of its keys.
abbrev fetch_rows : List ℤ → List Row
fetch_rows [] = []
fetch_rows (k ∷ ks) =
    if in_keys (some k) source_ids
    then record { key = some k; time = none; content = 0 } ∷ fetch_rows ks
    else fetch_rows ks

abbrev fetch : List ℤ → List (List Row)
fetch ks = fetch_rows ks ∷ []

-- Two conflicts, then the files are added.
abbrev answers : ℕ → Attempt
answers n = if leb 2 n then added else conflict

answers-conflict : (i : ℕ) → i < 2 → answers i ≡ conflict
answers-conflict i lt = ground arith

commit_files_with_retry-Decides_example :
    Decides 10 2 answers
      ("a.parquet" ∷ [])
      ("b.parquet" ∷ [])
      (commit_files_with_retry 10 answers ("a.parquet" ∷ []) ("b.parquet" ∷ []))
commit_files_with_retry-Decides_example =
    commit_files_with_retry-Decides 10 2 answers ("a.parquet" ∷ []) "b.parquet" [] answers-conflict

-- The table exists without partitions; it is wanted by day.
abbrev catalog : Catalog
catalog = record {
  load = loaded [];
  read_location = ok none;
  head_object = λ l. ok tt;
  create = already_exists;
  create_again = created;
}

abbrev by_day : List Partition
by_day = ("at", ("day", none)) ∷ []

abbrev at_day : List Field
at_day = record { source = "at"; field_id = 1000; transform = day } ∷ []

create_or_get_table-signature_example :
    same_set (desired_signature by_day) (spec_signature at_day) ≡ true
unfolding create_or_get_table
create_or_get_table-signature_example =
    create_or_get_table-signature catalog ("id" ∷ "at" ∷ []) by_day at_day refl

-- The table cannot be loaded, and S3 answers the HEAD with an error.
abbrev blip : Catalog
blip = record catalog {
  load = Load.raises external;
  read_location = ok (some "s3://lake/metadata.json");
  head_object = λ l. err timeout_error;
  create = created;
}

create_or_get_table-blip_example : 1 ≤ (create_or_get_table blip ("id" ∷ "at" ∷ []) by_day).0
create_or_get_table-blip_example =
    create_or_get_table-blip blip ("id" ∷ "at" ∷ []) by_day external refl
