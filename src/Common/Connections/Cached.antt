-- ===== src/Common/Connections/Cached.antt =====
-- The cached, encrypted store of common/config_store.py shows a plain list of connections.
use postgres_s3_warehouse_sy.Prelude.{
  ◌≡◌, refl, subst, ap, ◌∙◌, inl, inr, String, Bool, true, false, ◌||◌, Option, none, some, List,
  [], ◌∷◌, ◌++◌, map, any, filter, Bool-cases,
}
use postgres_s3_warehouse_sy.Prelude.Int.{ℤ, pos, leb_ℤ, ◌-ℤ◌}
use postgres_s3_warehouse_sy.Prelude.Result.{Result, ok}
use postgres_s3_warehouse_sy.Common.Crypto.{Fernet, Stored}
use postgres_s3_warehouse_sy.Common.Connections.{
  Secrets, Connection, Row, Store, row_to_connection, load_all, loaded, cached, list_connections,
  forced, get_connection, get_connection_by_name,
}
use postgres_s3_warehouse_sy.Common.Connections.Spec.{Plain, listed, by_id, by_name}

module _ (f : Fernet) where
  pub record AreStored (plain stored : Secrets) : Type 0 where
    pub dsn : Stored f plain.source_dsn stored.source_dsn
    pub ak : Stored f plain.aws_access_key stored.aws_access_key
    pub sk : Stored f plain.aws_secret_key stored.aws_secret_key

  pub record IsView (r : Row) (c : Connection) : Type 0 where
    pub id : r.id ≡ c.id
    pub options : r.options ≡ c.options
    pub secrets : AreStored c.secrets r.stored

  abbrev pub Views : List Row → List Connection → Type 0
  Views [] [] = Unit
  Views (r ∷ rows) (c ∷ conns) = IsView r c × Views rows conns
  Views _ _ = ⊥

  pub Views-append :
      (rows rows' : List Row) (conns conns' : List Connection)
      → Views rows conns
      → Views rows' conns'
      → Views (rows ++ rows') (conns ++ conns')
  Views-append [] rows' [] conns' v v' = v'
  Views-append (r ∷ rows) rows' (c ∷ conns) conns' v v' =
      (v.0, Views-append rows rows' conns conns' v.1 v')
  Views-append [] rows' (c ∷ conns) conns' v v' = absurd v
  Views-append (r ∷ rows) rows' [] conns' v v' = absurd v

  pub Views-map :
      (g : Row → Row) (h : Connection → Connection) (rows : List Row) (conns : List Connection)
      → ((r : Row) (c : Connection) → IsView r c → IsView (g r) (h c))
      → Views rows conns
      → Views (map g rows) (map h conns)
  Views-map g h [] [] each v = tt
  Views-map g h (r ∷ rows) (c ∷ conns) each v = (each r c v.0, Views-map g h rows conns each v.1)
  Views-map g h [] (c ∷ conns) each v = absurd v
  Views-map g h (r ∷ rows) [] each v = absurd v

  module _ (p : Row → Bool) (q : Connection → Bool)
      (same : (r : Row) (c : Connection) → IsView r c → p r ≡ q c) where
    pub Views-any :
        (rows : List Row) (conns : List Connection) → Views rows conns → any p rows ≡ any q conns
    Views-any [] [] v = refl
    Views-any (r ∷ rows) (c ∷ conns) v = rw (same r c v.0, Views-any rows conns v.1)
    Views-any [] (c ∷ conns) v = absurd v
    Views-any (r ∷ rows) [] v = absurd v

    pub Views-filter :
        (rows : List Row) (conns : List Connection)
        → Views rows conns
        → Views (filter p rows) (filter q conns)
    Views-filter [] [] v = tt
    Views-filter (r ∷ rows) (c ∷ conns) v = rw (same r c v.0) (elim (Bool-cases (q c)) [
      | inl e ↦ rw e (v.0, Views-filter rows conns v.1)
      | inr e ↦ rw e (Views-filter rows conns v.1)
    ])
    Views-filter [] (c ∷ conns) v = absurd v
    Views-filter (r ∷ rows) [] v = absurd v

  row-IsView : (r : Row) (c : Connection) → IsView r c → row_to_connection (ok f) r ≡ ok c
  unfolding row_to_connection
  row-IsView r c v =
      rw (v.secrets.dsn, v.secrets.ak, v.secrets.sk)
        (ap (λ i. ok (record { id = i; options = r.options; secrets = c.secrets })) v.id
          ∙ ap (λ o. ok (record { id = c.id; options = o; secrets = c.secrets })) v.options)

  pub load_all-Views :
      (rows : List Row) (conns : List Connection)
      → Views rows conns
      → load_all (ok f) rows ≡ ok conns
  unfolding load_all
  load_all-Views [] [] v = refl
  load_all-Views (r ∷ rows) (c ∷ conns) v = rw (row-IsView r c v.0, load_all-Views rows conns v.1)
  load_all-Views [] (c ∷ conns) v = absurd v
  load_all-Views (r ∷ rows) [] v = absurd v

  abbrev Coherent : Option (ℤ × List Connection) → List Connection → Type 0
  Coherent none conns = Unit
  Coherent (some (filled, cached)) conns = cached ≡ conns

  -- The store shows the list: its rows and what its cache holds, if anything, decrypt to it.
  pub record Shows (s : Store) (p : Plain) : Type 0 where
    pub views : Views s.rows p.conns
    pub selection : s.selection ≡ p.selection
    pub coherent : Coherent s.cache p.conns

  -- A read that answers, and leaves the list as it was.
  abbrev pub Reads {ℓ} : {A : Type ℓ} → Plain → A → Result (Store × A) → Type ℓ
  Reads p a r = (s : Store) × (r ≡ ok (s, a)) × Shows s p

  loaded-Reads :
      (now : ℤ) (s : Store) (p : Plain) → Shows s p → Reads p p.conns (loaded (ok f) now s)
  unfolding loaded
  loaded-Reads now s p shows = (
    record s { cache = some (now, p.conns) },
    rw (load_all-Views s.rows p.conns shows.views) refl,
    record { views = shows.views; selection = shows.selection; coherent = refl },
  )

  cached-Reads :
      (now : ℤ) (force : Bool) (s : Store) (p : Plain) (cache : Option (ℤ × List Connection))
      → s.cache ≡ cache
      → Shows s p
      → Reads p p.conns (cached (ok f) now force s cache)
  unfolding cached
  cached-Reads now force s p none e shows = loaded-Reads now s p shows
  cached-Reads now force s p (some (filled, conns)) e shows =
      elim (Bool-cases (force || leb_ℤ (pos 30) (now -ℤ filled))) [
        | inl stale ↦ rw stale (loaded-Reads now s p shows)
        | inr valid ↦ rw valid (s, ap (λ c. ok (s, c)) held, shows)
      ]
    where
      held : conns ≡ p.conns
      held = subst (λ c. Coherent c p.conns) e shows.coherent

  pub list_connections-Reads :
      (now : ℤ) (enabled_only force : Bool) (s : Store) (p : Plain)
      → Shows s p
      → Reads p (listed enabled_only p) (list_connections (ok f) now enabled_only force s)
  unfolding list_connections
  list_connections-Reads now enabled_only force s p shows =
      let (s', e, shows') = cached-Reads now force s p s.cache refl shows in (s', rw e refl, shows')

  forced-Reads :
      (now connection_id : ℤ) (s : Store) (p : Plain) (found : Option Connection)
      → Shows s p
      → by_id connection_id p ≡ found
      → Reads p found (forced (ok f) now connection_id s found)
  unfolding forced
  forced-Reads now connection_id s p (some c) shows e = (s, refl, shows)
  forced-Reads now connection_id s p none shows e =
      let (s', e', shows') = list_connections-Reads now false true s p shows in
      (s', rw (e', e) refl, shows')

  pub get_connection-Reads :
      (now connection_id : ℤ) (s : Store) (p : Plain)
      → Shows s p
      → Reads p (by_id connection_id p) (get_connection (ok f) now connection_id s)
  unfolding get_connection
  get_connection-Reads now connection_id s p shows =
      let (s', e, shows') = list_connections-Reads now false false s p shows in
      rw e (forced-Reads now connection_id s' p (by_id connection_id p) shows' refl)

  pub get_connection_by_name-Reads :
      (now : ℤ) (name : String) (s : Store) (p : Plain)
      → Shows s p
      → Reads p (by_name name p) (get_connection_by_name (ok f) now name s)
  unfolding get_connection_by_name
  get_connection_by_name-Reads now name s p shows =
      let (s', e, shows') = list_connections-Reads now false false s p shows in
      (s', rw e refl, shows')
