-- ===== src/Load/Tables/Specs.antt =====
-- The table of a bootstrap has the partition spec that is wanted.
use text.Mathlib.Text.{◌==◌ as str_eq}
use postgres_s3_warehouse_sy.Prelude.{
  ℕ, suc, ◌≤◌, ◌==◌, ◌≡◌, Bool, false, truthy, if◌then◌else◌, ◌∙◌, refl, sym, ap, inl, inr, eq_iff,
  String, true, Bool-cases, Option, none, some, List, [], ◌∷◌, any, arith,
}
use postgres_s3_warehouse_sy.Prelude.Result.{
  Error, Result, ok, err, value_error, ◌>>=◌, ok-injective,
}
use postgres_s3_warehouse_sy.Load.Tables.{
  Transform, Field, Partition, transform_name, Signature, spec_signature, desired_signature,
  pair_eq, subset, same_set, buckets, transform_of, source_of, build_partition_spec, Load, missing,
  loaded, raises, Create, created, already_exists, fails, Catalog, second_create, first_create,
  create_with, orphaned, catalog_metadata_location, on_load, create_or_get_table,
}

pair_eq_refl : (p : String × String) → pair_eq p p ≡ true
pair_eq_refl (a, b) = rw ((eq_iff _ _).1 refl, (eq_iff _ _).1 refl) refl

subset-add :
    (p : String × String) (ps qs : Signature) → subset ps qs ≡ true → subset ps (p ∷ qs) ≡ true
subset-add p [] qs h = refl
subset-add p (r ∷ ps) qs h = ground (arith, subset-add p ps qs)

subset_refl : (ps : Signature) → subset ps ps ≡ true
subset_refl [] = refl
subset_refl (p ∷ ps) = rw (pair_eq_refl p, subset-add p ps ps (subset_refl ps)) refl

same_set_refl : (ps : Signature) → same_set ps ps ≡ true
same_set_refl ps = rw (subset_refl ps) refl

buckets-name : (n : Option ℕ) (t : Transform) → buckets n ≡ ok t → transform_name t ≡ "bucket"
unfolding buckets
buckets-name none t h = cc
buckets-name (some n) t h = elim (Bool-cases (n == 0)) [
  | inl e ↦ absurd (never (rw e at h))
  | inr e ↦ ap transform_name (sym (ok-injective (rw e at h)))
]
  where
    never : err value_error ≡ ok t → ⊥
    never x = cc

transform_of-name :
    (name : String) (n : Option ℕ) (t : Transform)
    → transform_of name n ≡ ok t
    → transform_name t ≡ name
unfolding transform_of
transform_of-name name n t h = elim (Bool-cases (str_eq name "identity")) [
  | inl e ↦ ap transform_name (sym (ok-injective (rw e at h))) ∙ sym ((eq_iff _ _).0 e)
  | inr e ↦ elim (Bool-cases (str_eq name "day")) [
    | inl f ↦ ap transform_name (sym (ok-injective (rw (e, f) at h))) ∙ sym ((eq_iff _ _).0 f)
    | inr f ↦ elim (Bool-cases (str_eq name "bucket")) [
      | inl g ↦ buckets-name n t (rw (e, f, g) at h) ∙ sym ((eq_iff _ _).0 g)
      | inr g ↦ absurd (never (rw (e, f, g) at h))
    ]
  ]
]
  where
    never : err value_error ≡ ok t → ⊥
    never x = cc

source_of-eq :
    (columns : List String) (col src : String) → source_of columns col ≡ ok src → src ≡ col
unfolding source_of
source_of-eq columns col src h = elim (Bool-cases (any (λ c. str_eq c col) columns)) [
  | inl e ↦ sym (ok-injective (rw e at h))
  | inr e ↦ absurd (never (rw e at h))
]
  where
    never : err value_error ≡ ok src → ⊥
    never x = cc

build_step :
    (col name : String) (n : Option ℕ) (ps : List Partition) (idx : ℕ) (fields : List Field)
    (src : Result String) (t : Result Transform) (rest : Result (List Field))
    → ((s : String) → src ≡ ok s → s ≡ col)
    → ((x : Transform) → t ≡ ok x → transform_name x ≡ name)
    → ((fs : List Field) → rest ≡ ok fs → spec_signature fs ≡ desired_signature ps)
    → (src >>= λ s.
        t >>= λ x. rest >>= λ fs. ok (record { source = s; field_id = idx; transform = x } ∷ fs))
      ≡ ok fields
    → spec_signature fields ≡ desired_signature ((col, (name, n)) ∷ ps)
unfolding spec_signature desired_signature
build_step col name n ps idx fields (ok s) (ok x) (ok fs) hs ht hr h =
    ap spec_signature (sym (ok-injective h)) ∙ rw (hs s refl, ht x refl, hr fs refl) refl
build_step col name n ps idx fields (err e) t rest hs ht hr h = cc
build_step col name n ps idx fields (ok s) (err e) rest hs ht hr h = cc
build_step col name n ps idx fields (ok s) (ok x) (err e) hs ht hr h = cc

build_partition_spec-signature :
    (columns : List String) (idx : ℕ) (ps : List Partition) (fields : List Field)
    → build_partition_spec columns idx ps ≡ ok fields
    → spec_signature fields ≡ desired_signature ps
unfolding build_partition_spec spec_signature desired_signature
build_partition_spec-signature columns idx [] fields h = ap spec_signature (sym (ok-injective h))
build_partition_spec-signature columns idx ((col, (name, n)) ∷ ps) fields h =
    build_step col name n ps idx fields (source_of columns col) (transform_of name n)
      (build_partition_spec columns (suc idx) ps) (source_of-eq columns col)
      (transform_of-name name n) (build_partition_spec-signature columns (suc idx) ps) h

first_create-ok :
    (c : Catalog) (drops : ℕ) (spec fields : List Field) (a : Create)
    → (first_create c drops spec a).1 ≡ ok fields
    → fields ≡ spec
unfolding first_create
first_create-ok c drops spec fields created h = sym (ok-injective h)
first_create-ok c drops spec fields already_exists h = again c.create_again h
  where
    again : (b : Create) → (second_create (suc drops) spec b).1 ≡ ok fields → fields ≡ spec
    again created h = sym (ok-injective h)
    again already_exists h = cc
    again (fails e) h = cc
first_create-ok c drops spec fields (fails e) h = cc

create_with-signature :
    (c : Catalog) (drops : ℕ) (ps : List Partition) (spec : Result (List Field))
    (fields : List Field)
    → ((s : List Field) → spec ≡ ok s → spec_signature s ≡ desired_signature ps)
    → (create_with c drops spec).1 ≡ ok fields
    → same_set (desired_signature ps) (spec_signature fields) ≡ true
unfolding create_with
create_with-signature c drops ps (ok spec) fields hs h =
    ap (λ s. same_set (desired_signature ps) s)
      (ap spec_signature (first_create-ok c drops spec fields c.create h) ∙ hs spec refl)
    ∙ same_set_refl (desired_signature ps)
create_with-signature c drops ps (err e) fields hs h = cc

create_with-drops :
    (c : Catalog) (drops : ℕ) (spec : Result (List Field)) → drops ≤ (create_with c drops spec).0
unfolding create_with first_create second_create
create_with-drops c drops (err e) = omega arith
create_with-drops c drops (ok spec) = first c.create
  where
    second : (a : Create) → drops ≤ (second_create (suc drops) spec a).0
    second created = omega arith
    second already_exists = omega arith
    second (fails e) = omega arith

    first : (a : Create) → drops ≤ (first_create c drops spec a).0
    first created = omega arith
    first already_exists = second c.create_again
    first (fails e) = omega arith

module _ (c : Catalog) (columns : List String) (ps : List Partition) where
  made :
      (drops : ℕ) (fields : List Field)
      → (create_with c drops (build_partition_spec columns 1000 ps)).1 ≡ ok fields
      → same_set (desired_signature ps) (spec_signature fields) ≡ true
  made drops fields h =
      create_with-signature c drops ps _ fields (build_partition_spec-signature columns 1000 ps) h

  on_load-signature :
      (load : Load) (fields : List Field)
      → (on_load c columns ps load).1 ≡ ok fields
      → same_set (desired_signature ps) (spec_signature fields) ≡ true
  unfolding on_load
  on_load-signature missing fields h = made 0 fields h
  on_load-signature (loaded existing) fields h =
      elim (Bool-cases (same_set (desired_signature ps) (spec_signature existing))) [
        | inl e ↦ rw (sym (ok-injective (rw e at h))) e
        | inr e ↦ made 1 fields (rw e at h)
      ]
  on_load-signature (raises e) fields h =
      elim (Bool-cases (orphaned (catalog_metadata_location c.read_location) c.head_object)) [
        | inl o ↦ made 1 fields (rw o at h)
        | inr o ↦ absurd (never (rw o at h))
      ]
    where
      never : err e ≡ ok fields → ⊥
      never x = cc

  -- The partition columns of the table that `create_or_get_table` returns, each with the name of its
  -- transform, are the ones that are wanted, and no others, whether the table was there, recreated
  -- or created. The number of buckets is not compared.
  pub create_or_get_table-signature :
      (fields : List Field)
      → (create_or_get_table c columns ps).1 ≡ ok fields
      → same_set (desired_signature ps) (spec_signature fields) ≡ true
  unfolding create_or_get_table
  create_or_get_table-signature fields h = on_load-signature c.load fields h

  -- What comes of a load that raises: whether the location is a text, and the answer of S3 to HEAD.
  abbrev pub Heads : Error → Bool → Result (Unit {0}) → ℕ × Result (List Field) → Type 0
  Heads e false answer out = out ≡ (0, err e)
  Heads e true (ok u) out = out ≡ (0, err e)
  Heads e true (err x) out = 1 ≤ out.0

  abbrev pub Blips : Error → Result (Option String) → ℕ × Result (List Field) → Type 0
  Blips e (err x) out = out ≡ (0, err e)
  Blips e (ok none) out = out ≡ (0, err e)
  Blips e (ok (some l)) out = Heads e (truthy l) (c.head_object l) out

  orphaned-Heads :
      (e : Error) (l : String) (answer : Result (Unit {0}))
      → c.head_object l ≡ answer
      → Heads e (truthy l) answer (
          if orphaned (some l) c.head_object
          then create_with c 1 (build_partition_spec columns 1000 ps)
          else (0, err e))
  unfolding orphaned
  orphaned-Heads e l (ok u) h = elim (Bool-cases (str_eq l "")) [
    | inl x ↦ rw (h, x) refl
    | inr x ↦ rw (h, x) refl
  ]
  orphaned-Heads e l (err x) h = elim (Bool-cases (str_eq l "")) [
    | inl empty ↦ rw (h, empty) refl
    | inr text ↦ rw (h, text) (create_with-drops c 1 (build_partition_spec columns 1000 ps))
  ]

  -- If loading the table raises, the error is raised and nothing is dropped where the query of the
  -- metadata location raises or finds none, and where S3 answers the HEAD of the location. Where the
  -- HEAD raises, whatever the error is, `_drop_catalog_entry` is called for the table.
  pub create_or_get_table-blip :
      (e : Error) → c.load ≡ raises e → Blips e c.read_location (create_or_get_table c columns ps)
  unfolding create_or_get_table on_load
  create_or_get_table-blip e raised = rw raised (by_location c.read_location)
    where
      by_location :
          (location : Result (Option String))
          → Blips e location (
              if orphaned (catalog_metadata_location location) c.head_object
              then create_with c 1 (build_partition_spec columns 1000 ps)
              else (0, err e))
      by_location (err x) = refl
      by_location (ok none) = refl
      by_location (ok (some l)) = orphaned-Heads e l (c.head_object l) refl
