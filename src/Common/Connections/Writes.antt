-- ===== src/Common/Connections/Writes.antt =====
-- Writes to the encrypted store of common/config_store.py do what they do to the plain list.
use postgres_s3_warehouse_sy.Prelude.{
  ◌≡◌, refl, ap, ◌∙◌, inl, inr, String, Bool, true, false, not, ◌&&◌, Option, none, some, List, any,
  filter, Bool-cases, given,
}
use postgres_s3_warehouse_sy.Prelude.Int.{ℤ, eqb_ℤ}
use postgres_s3_warehouse_sy.Prelude.Result.{Result, ok, err, constraint_violation, ◌>>=◌, require}
use postgres_s3_warehouse_sy.Common.Crypto.{Fernet, Stored, encrypt-Stored}
use postgres_s3_warehouse_sy.Common.Connections.{
  Options, Secrets, Connection, Row, Store, same_name, coalesce, coalesce_secrets, encrypt_all,
  update_row, clashes, exists, upsert_connection, delete_connection,
}
use postgres_s3_warehouse_sy.Common.Connections.Spec.{
  Plain, or_old, or_old_secrets, updated, upserted, deleted,
}
use postgres_s3_warehouse_sy.Common.Connections.Cached.{
  AreStored, IsView, Views, Shows, Views-append, Views-map, Views-any, Views-filter,
}

module _ (f : Fernet) where
  encrypt_all-AreStored :
      (s : Secrets)
      → (stored : Secrets) × (encrypt_all (ok f) s ≡ ok stored)
        × AreStored f s stored
        × (given stored.source_dsn ≡ given s.source_dsn)
        × (given stored.aws_access_key ≡ given s.aws_access_key)
        × (given stored.aws_secret_key ≡ given s.aws_secret_key)
  unfolding encrypt_all
  encrypt_all-AreStored s =
      let (d, ed, sd, gd) = encrypt-Stored f s.source_dsn in
      let (a, ea, sa, ga) = encrypt-Stored f s.aws_access_key in
      let (k, ek, sk, gk) = encrypt-Stored f s.aws_secret_key in
      (
        record { source_dsn = d; aws_access_key = a; aws_secret_key = k },
        rw (ed, ea, ek) refl,
        record { dsn = sd; ak = sa; sk = sk },
        gd,
        ga,
        gk,
      )

  coalesce-Stored :
      (new new' old old' : Option String)
      → given new' ≡ given new
      → Stored f new new'
      → Stored f old old'
      → Stored f (or_old new old) (coalesce new' old')
  coalesce-Stored none none old old' g n o = o
  coalesce-Stored (some s) (some s') old old' g n o = n
  coalesce-Stored none (some s') old old' g n o = cc
  coalesce-Stored (some s) none old old' g n o = cc

  -- An outcome on the list and one on the store: both raise, or both answer the same and the store
  -- shows the list.
  abbrev pub Agrees : {A : Type 0} → Result (Plain × A) → Result (Store × A) → Type 0
  Agrees (ok (p, a)) (ok (s, b)) = (b ≡ a) × Shows f s p
  Agrees (err e) (err e') = e' ≡ e
  Agrees _ _ = ⊥

  require-Agrees :
      {A : Type 0} (b b' : Bool) (x : Result (Plain × A)) (y : Result (Store × A))
      → b' ≡ b
      → Agrees x y
      → Agrees
          (require b constraint_violation >>= λ _. x)
          (require b' constraint_violation >>= λ _. y)
  require-Agrees true b' x y e agrees = rw e agrees
  require-Agrees false b' x y e agrees = rw e refl

  pub exists_same :
      (c : ℤ) (rows : List Row) (conns : List Connection)
      → Views f rows conns
      → exists c rows ≡ any (λ x. eqb_ℤ x.id c) conns
  exists_same c rows conns v =
      Views-any f (λ r. eqb_ℤ r.id c) (λ x. eqb_ℤ x.id c) (λ r x w. ap (λ i. eqb_ℤ i c) w.id) rows
        conns v

  clashes_same :
      (c : ℤ) (options : Options) (row : Row) (conn : Connection)
      → IsView f row conn
      → clashes c options row ≡ (not (eqb_ℤ conn.id c) && same_name conn.options options)
  clashes_same c options row conn v = simp (v.id, v.options)

  updated-IsView :
      (c : ℤ) (options : Options) (secrets stored : Secrets)
      → ((old old' : Secrets)
          → AreStored f old old'
          → AreStored f (or_old_secrets secrets old) (coalesce_secrets stored old'))
      → (row : Row) (conn : Connection) → IsView f row conn
      → IsView f (update_row c options stored row) (updated c options secrets conn)
  updated-IsView c options secrets stored keep row conn v =
      let same = ap (λ i. eqb_ℤ i c) v.id in
      elim (Bool-cases (eqb_ℤ conn.id c)) [
        | inl e ↦
            rw (same ∙ e, e)
              (record {
                id = v.id;
                options = refl;
                secrets = keep conn.secrets row.stored v.secrets;
              })
        | inr e ↦ rw (same ∙ e, e) v
      ]

  upserted-insert :
      (new_id : ℤ) (options : Options) (secrets : Secrets) (s : Store) (p : Plain)
      → Shows f s p
      → Agrees
          (upserted new_id none options secrets p)
          (upsert_connection (ok f) new_id none options secrets s)
  unfolding upsert_connection
  upserted-insert new_id options secrets s p shows =
      let (stored, e, are, gd, ga, gk) = encrypt_all-AreStored secrets in
      let free = ap not (
        Views-any f (λ r. same_name r.options options) (λ c. same_name c.options options)
          (λ r c v. ap (λ o. same_name o options) v.options) s.rows p.conns shows.views) in
      rw e (
        require-Agrees _ _ _ _ gd (
          require-Agrees _ _ _ _ free (
            refl,
            record {
              views =
                  Views-append f s.rows _ p.conns _ shows.views
                    (record { id = refl; options = refl; secrets = are }, tt);
              selection = shows.selection;
              coherent = tt;
            },
          )))

  coalesce-AreStored :
      (new new' : Secrets)
      → AreStored f new new'
      → given new'.source_dsn ≡ given new.source_dsn
      → given new'.aws_access_key ≡ given new.aws_access_key
      → given new'.aws_secret_key ≡ given new.aws_secret_key
      → (old old' : Secrets) → AreStored f old old'
      → AreStored f (or_old_secrets new old) (coalesce_secrets new' old')
  coalesce-AreStored new new' are gd ga gk old old' o = record {
    dsn = coalesce-Stored _ _ _ _ gd are.dsn o.dsn;
    ak = coalesce-Stored _ _ _ _ ga are.ak o.ak;
    sk = coalesce-Stored _ _ _ _ gk are.sk o.sk;
  }

  upserted-update :
      (new_id c : ℤ) (options : Options) (secrets : Secrets) (s : Store) (p : Plain)
      → Shows f s p
      → Agrees
          (upserted new_id (some c) options secrets p)
          (upsert_connection (ok f) new_id (some c) options secrets s)
  unfolding upsert_connection
  upserted-update new_id c options secrets s p shows =
      let (stored, e, are, gd, ga, gk) = encrypt_all-AreStored secrets in
      let there = exists_same c s.rows p.conns shows.views in
      let other =
        Views-any f (clashes c options) _ (clashes_same c options) s.rows p.conns shows.views in
      let free = ap not (
        ap (λ b. b && any (clashes c options) s.rows) there
        ∙ ap (λ b. any (λ x. eqb_ℤ x.id c) p.conns && b) other) in
      rw e (
        require-Agrees _ _ _ _ free (
          refl,
          record {
            views =
                Views-map f (update_row c options stored) (updated c options secrets) s.rows p.conns
                  (updated-IsView c options secrets stored
                    (coalesce-AreStored secrets stored are gd ga gk))
                  shows.views;
            selection = shows.selection;
            coherent = tt;
          },
        ))

  -- An upsert of the store agrees with that of the list.
  pub upsert-Agrees :
      (new_id : ℤ) (connection_id : Option ℤ) (options : Options) (secrets : Secrets) (s : Store)
      (p : Plain)
      → Shows f s p
      → Agrees
          (upserted new_id connection_id options secrets p)
          (upsert_connection (ok f) new_id connection_id options secrets s)
  upsert-Agrees new_id none options secrets s p shows =
      upserted-insert new_id options secrets s p shows
  upsert-Agrees new_id (some c) options secrets s p shows =
      upserted-update new_id c options secrets s p shows

  pub delete-Shows :
      (c : ℤ) (s : Store) (p : Plain) → Shows f s p → Shows f (delete_connection c s) (deleted c p)
  unfolding delete_connection
  delete-Shows c s p shows = record {
    views =
        Views-filter f (λ r. not (eqb_ℤ r.id c)) (λ x. not (eqb_ℤ x.id c))
          (λ r x v. ap (λ i. not (eqb_ℤ i c)) v.id) s.rows p.conns shows.views;
    selection = ap (filter (λ r. not (eqb_ℤ r.connection_id c))) shows.selection;
    coherent = tt;
  }
