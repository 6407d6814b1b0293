-- ===== src/Orchestration/Tables/Lookups.antt =====
-- What `get_table` finds.
use postgres_s3_warehouse_sy.Prelude.{
  ℕ, ◌≡◌, ◌∙◌, refl, sym, ap, inl, inr, String, Bool, true, false, Bool-cases, Option, none, some,
  List, [], ◌∷◌, find?, map,
}
use postgres_s3_warehouse_sy.Extract.Discovery.{DiscoveredObject}
use postgres_s3_warehouse_sy.Orchestration.Tables.{
  TableConfig, TableOverride, Fqn, config_from_object, Cache, get_tables, is_fqn, looked_up,
  directly, get_table,
}

abbrev test_found {ℓ} : {A : Type ℓ} → (A → Bool) → Option A → Bool
test_found p none = true
test_found p (some x) = p x

find?-holds : {A : Type 0} (p : A → Bool) (xs : List A) (x : A) → find? p xs ≡ some x → p x ≡ true
find?-holds p [] x h = cc
find?-holds p (y ∷ ys) x h = elim (Bool-cases (p y)) [
  | inl e ↦ sym (ap (test_found p) (rw e at h)) ∙ e
  | inr e ↦ find?-holds p ys x (rw e at h)
]

module _ (starts : String → Bool) (overrides : Fqn → Option TableOverride) where
  directly-is_fqn :
      (fqn : Fqn) (direct : Option (List DiscoveredObject)) (cfg : TableConfig)
      → directly starts overrides fqn direct ≡ some cfg
      → is_fqn starts overrides fqn cfg ≡ true
  unfolding directly
  directly-is_fqn fqn none cfg h = cc
  directly-is_fqn fqn (some objects) cfg h = find?-holds (is_fqn starts overrides fqn) _ cfg h

  looked_up-holds :
      (P : TableConfig → Type 0) (a b c : Option TableConfig)
      (cache1 cache2 : Cache starts overrides) (cfg : TableConfig)
      → (a ≡ some cfg → P cfg)
      → (b ≡ some cfg → P cfg)
      → (c ≡ some cfg → P cfg)
      → (looked_up starts overrides a cache1 b c cache2).0 ≡ some cfg
      → P cfg
  unfolding looked_up
  looked_up-holds P (some x) b c cache1 cache2 cfg ha hb hc h = ha h
  looked_up-holds P none (some x) c cache1 cache2 cfg ha hb hc h = hb h
  looked_up-holds P none none c cache1 cache2 cfg ha hb hc h = hc h

  looked_up-none :
      (a b c : Option TableConfig) (cache1 cache2 : Cache starts overrides)
      → (looked_up starts overrides a cache1 b c cache2).0 ≡ none
      → b ≡ none
  unfolding looked_up
  looked_up-none (some x) b c cache1 cache2 h = cc
  looked_up-none none (some x) c cache1 cache2 h = cc
  looked_up-none none none c cache1 cache2 h = refl

  forced :
      (now : ℕ) (objects : List DiscoveredObject) (cache : Cache starts overrides)
      → (get_tables starts overrides true now objects cache).0
        ≡ map (config_from_object starts overrides) objects
  unfolding get_tables
  forced now objects none = refl
  forced now objects (some c) = refl

  -- A configuration that `get_table` returns, from the cache or from any discovery, is of the object
  -- that was asked for.
  pub get_table-is_fqn :
      (fqn : Fqn) (now : ℕ) (objects : List DiscoveredObject)
      (direct : Option (List DiscoveredObject)) (cache : Cache starts overrides) (cfg : TableConfig)
      → (get_table starts overrides fqn now objects direct cache).0 ≡ some cfg
      → is_fqn starts overrides fqn cfg ≡ true
  unfolding get_table
  get_table-is_fqn fqn now objects direct cache cfg h =
      looked_up-holds (λ x. is_fqn starts overrides fqn x ≡ true) _ _ _ _ _ cfg
        (find?-holds (is_fqn starts overrides fqn) _ cfg)
        (find?-holds (is_fqn starts overrides fqn) _ cfg) (directly-is_fqn fqn direct cfg) h

  -- A stale cache hides no object: if `get_table` finds nothing, then a discovery made now has no
  -- object of the name that was asked for.
  pub get_table-none :
      (fqn : Fqn) (now : ℕ) (objects : List DiscoveredObject)
      (direct : Option (List DiscoveredObject)) (cache : Cache starts overrides)
      → (get_table starts overrides fqn now objects direct cache).0 ≡ none
      → find? (is_fqn starts overrides fqn) (map (config_from_object starts overrides) objects)
        ≡ none
  unfolding get_table
  get_table-none fqn now objects direct cache h =
      ap (λ l. find? (is_fqn starts overrides fqn) l)
        (sym (forced now objects (get_tables starts overrides false now objects cache).1))
      ∙ looked_up-none _ _ _ _ _ h
