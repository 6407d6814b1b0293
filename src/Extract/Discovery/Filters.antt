-- ===== src/Extract/Discovery/Filters.antt =====
-- What the filters of the discovery let through.
use postgres_s3_warehouse_sy.Prelude.{
  ◌≡◌, refl, inl, inr, String, Bool, true, not, ◌&&◌, ◌||◌, Bool-cases, none, some, List, [], ◌∷◌,
  count, filter, All, arith,
}
use postgres_s3_warehouse_sy.Extract.Discovery.{
  Column, RawObject, SyncFilter, list_objects_raw, is_empty, glob_match_any, keeps, discovered,
  discover,
}

module _ (glob : String × String → String → Bool) (introspect : String → String → List Column) where
  All-discovered :
      (p : String × String → Bool) (os : List RawObject)
      → All (λ o. p (o.schema, o.name) ≡ true) os
      → All (λ o. p (o.schema, o.name) ≡ true) (discovered glob introspect os)
  unfolding discovered
  All-discovered p [] h = tt
  All-discovered p (o ∷ os) h = (h.0, All-discovered p os h.1)

  last_conjunct : (a b c : Bool) → (a && (b && c)) ≡ true → c ≡ true
  last_conjunct a b c h = ground arith

  All-kept :
      (cfg : SyncFilter) (os : List RawObject)
      → All
          (λ o.
            (is_empty cfg.sync_exclude
              || not (glob_match_any glob (o.schema, o.name) cfg.sync_exclude))
            ≡ true)
          (filter (keeps glob cfg none) os)
  unfolding keeps
  All-kept cfg [] = tt
  All-kept cfg (o ∷ os) = elim (Bool-cases (keeps glob cfg none o)) [
    | inl e ↦ simp e (last_conjunct _ _ _ e, All-kept cfg os)
    | inr e ↦ simp e (All-kept cfg os)
  ]

  -- Without a selection no discovered object matches an exclude glob: if there are exclude globs,
  -- none of them matches it, whatever the include globs and the kinds are.
  pub discover-excludes :
      (rows : List (String × (String × String))) (cfg : SyncFilter)
      → All
          (λ o.
            (is_empty cfg.sync_exclude
              || not (glob_match_any glob (o.schema, o.name) cfg.sync_exclude))
            ≡ true)
          (discover glob introspect rows cfg none)
  unfolding discover
  discover-excludes rows cfg =
      All-discovered
        (λ f. is_empty cfg.sync_exclude || not (glob_match_any glob f cfg.sync_exclude)) _
        (All-kept cfg (list_objects_raw rows))

  count-selected :
      (cfg : SyncFilter) (only p : String × String → Bool) (os : List RawObject)
      → count
          (λ o. p (o.schema, o.name))
          (discovered glob introspect (filter (keeps glob cfg (some only)) os))
        ≡ count (λ o. p (o.schema, o.name) && only (o.schema, o.name)) os
  unfolding discovered keeps
  count-selected cfg only p [] = refl
  count-selected cfg only p (o ∷ os) = elim (Bool-cases (only (o.schema, o.name))) [
    | inl e ↦ simp e (ground (arith, count-selected cfg only p os))
    | inr e ↦ simp e (ground (arith, count-selected cfg only p os))
  ]

  -- A selection is authoritative: the discovered objects are the listed ones that are selected, each
  -- as often as it is listed, whatever the globs and the kinds of the connection are.
  pub discover-selection :
      (rows : List (String × (String × String))) (cfg : SyncFilter)
      (only p : String × String → Bool)
      → count (λ o. p (o.schema, o.name)) (discover glob introspect rows cfg (some only))
        ≡ count (λ o. p (o.schema, o.name) && only (o.schema, o.name)) (list_objects_raw rows)
  unfolding discover
  discover-selection rows cfg only p = count-selected cfg only p (list_objects_raw rows)
