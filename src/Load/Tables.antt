-- ===== src/Load/Tables.antt =====
-- load/iceberg_writer.py: the table of a bootstrap, loaded, recreated or created.
-- What the catalog and the bucket answer is an argument. A function returns how many catalog entries
-- it dropped and the partition fields of the table, or an error. Field names are not modelled.
pub mod Specs
use text.Mathlib.Text.{◌==◌ as str_eq}
use postgres_s3_warehouse_sy.Prelude.{
  ℕ, zero, suc, ◌+◌, ◌==◌, ◌≡◌, String, Bool, true, false, not, ◌&&◌, ◌||◌, Option, none, some,
  List, [], ◌∷◌, any, map, if◌then◌else◌,
}
use postgres_s3_warehouse_sy.Prelude.Result.{Error, Result, ok, err, value_error, ◌>>=◌}

pub data Transform : Type 0 where
  identity day : Transform
  bucket : ℕ → Transform
  -- A transform that only an existing table can have, by its signature's name.
  other : String → Transform

pub record Field : Type 0 where
  pub source : String
  pub field_id : ℕ
  pub transform : Transform

-- (column, transform name, number of buckets)
abbrev pub Partition : Type 0
Partition = String × (String × Option ℕ)

abbrev pub transform_name : Transform → String
transform_name identity = "identity"
transform_name day = "day"
transform_name (bucket n) = "bucket"
transform_name (other name) = name

abbrev pub Signature : Type 0
Signature = List (String × String)

-- `_table_spec_signature`
pub spec_signature : List Field → Signature
spec_signature [] = []
spec_signature (f ∷ fields) = (f.source, transform_name f.transform) ∷ spec_signature fields

-- {(col, tname) for (col, tname, _n) in partition_by}
pub desired_signature : List Partition → Signature
desired_signature [] = []
desired_signature ((col, (name, n)) ∷ ps) = (col, name) ∷ desired_signature ps

abbrev pub pair_eq : String × String → String × String → Bool
pair_eq (a, b) (c, d) = str_eq a c && str_eq b d

abbrev pub member : String × String → Signature → Bool
member p ps = any (λ q. pair_eq q p) ps

abbrev pub subset : Signature → Signature → Bool
subset [] qs = true
subset (p ∷ ps) qs = member p qs && subset ps qs

-- Equality of sets.
abbrev pub same_set : Signature → Signature → Bool
same_set ps qs = subset ps qs && subset qs ps

buckets : Option ℕ → Result Transform
buckets none = err value_error
buckets (some n) = if n == 0 then err value_error else ok (bucket n)

transform_of : String → Option ℕ → Result Transform
unfolding buckets
transform_of name n =
    if str_eq name "identity"
    then ok identity
    else (if str_eq name "day"
        then ok day
        else (if str_eq name "bucket" then buckets n else err value_error))

-- `find_field` raises ValueError for a column that the schema lacks.
source_of : List String → String → Result String
source_of columns col = if any (λ c. str_eq c col) columns then ok col else err value_error

-- `_build_partition_spec`; field ids count from 1000.
pub build_partition_spec : List String → ℕ → List Partition → Result (List Field)
unfolding source_of transform_of
build_partition_spec columns idx [] = ok []
build_partition_spec columns idx ((col, (name, n)) ∷ ps) = do
  src ← source_of columns col
  t ← transform_of name n
  rest ← build_partition_spec columns (suc idx) ps
  ok (record { source = src; field_id = idx; transform = t } ∷ rest)

pub data Load : Type 0 where
  missing : Load
  loaded : List Field → Load
  raises : Error → Load

pub data Create : Type 0 where
  created already_exists : Create
  fails : Error → Create

-- The query of the metadata location and S3's HEAD of it are asked only where loading raises.
pub record Catalog : Type 0 where
  pub load : Load
  pub read_location : Result (Option String)
  pub head_object : String → Result (Unit {0})
  pub create : Create
  pub create_again : Create

-- Any error counts as no location.
abbrev pub catalog_metadata_location : Result (Option String) → Option String
catalog_metadata_location (ok location) = location
catalog_metadata_location (err e) = none

-- Any error counts as a missing object.
abbrev pub s3_object_exists : Result (Unit {0}) → Bool
s3_object_exists (ok u) = true
s3_object_exists (err e) = false

second_create : ℕ → List Field → Create → ℕ × Result (List Field)
second_create drops spec created = (drops, ok spec)
second_create drops spec already_exists = (drops, err value_error)
second_create drops spec (fails e) = (drops, err e)

first_create : Catalog → ℕ → List Field → Create → ℕ × Result (List Field)
unfolding second_create
first_create c drops spec created = (drops, ok spec)
first_create c drops spec already_exists = second_create (suc drops) spec c.create_again
first_create c drops spec (fails e) = (drops, err e)

create_with : Catalog → ℕ → Result (List Field) → ℕ × Result (List Field)
unfolding first_create
create_with c drops (ok spec) = first_create c drops spec c.create
create_with c drops (err e) = (drops, err e)

-- The metadata of the entry is taken to be gone.
pub orphaned : Option String → (String → Result (Unit {0})) → Bool
orphaned none head_object = false
orphaned (some location) head_object =
    not (str_eq location "") && not (s3_object_exists (head_object location))

on_load : Catalog → List String → List Partition → Load → ℕ × Result (List Field)
unfolding create_with build_partition_spec orphaned spec_signature desired_signature
on_load c columns ps missing = create_with c 0 (build_partition_spec columns 1000 ps)
on_load c columns ps (loaded fields) =
    if same_set (desired_signature ps) (spec_signature fields)
    then (0, ok fields)
    else create_with c 1 (build_partition_spec columns 1000 ps)
on_load c columns ps (raises e) =
    if orphaned (catalog_metadata_location c.read_location) c.head_object
    then create_with c 1 (build_partition_spec columns 1000 ps)
    else (0, err e)

unfoldable pub create_or_get_table :
    Catalog → List String → List Partition → ℕ × Result (List Field)
unfolding on_load
create_or_get_table c columns ps = on_load c columns ps c.load
