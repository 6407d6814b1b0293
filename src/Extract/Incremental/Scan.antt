-- ===== src/Extract/Incremental/Scan.antt =====
-- The rows of a window and the running maximum over them.
use postgres_s3_warehouse_sy.Prelude.{
  ◌≡◌, ◌∙◌, refl, Bool, true, false, ◌&&◌, ◌⊎◌, inl, inr, Bool-cases, Option, none, some, List, [],
  ◌∷◌, All, count, count-filter, filter, arith,
}
use postgres_s3_warehouse_sy.Prelude.Int.{ℤ, pos, ◌-ℤ◌, ◌<ℤ◌, -ℤ_parts, eq_of_parts}
use postgres_s3_warehouse_sy.Prelude.Int.Order.{ltb_ℤ→lt}
use postgres_s3_warehouse_sy.Prelude.Result.{ok}
use postgres_s3_warehouse_sy.State.Time.{
  Datetime, Kind, timestamp_tz, timestamp_naive, date, integer, Value, moment, day, number, rank,
  lex_le, HasKind, tuple_le-HasKind, instant,
}
use postgres_s3_warehouse_sy.State.Watermarks.{Watermark}
use postgres_s3_warehouse_sy.Extract.Incremental.{
  as_utc, norm, below, picks, in_order, place, order_by, copy_rows, advance_to, value_below,
  scan_max,
}

as_utc-instant : (d : Datetime) (o : ℤ) → d.offset ≡ some o → instant (as_utc d) ≡ instant d
as_utc-instant d o e = rw e (eq_of_parts _ _ (omega (arith, -ℤ_parts (d.clock -ℤ o) (pos 0))))

pub norm-HasKind : (k : Kind) (v : Value) → HasKind k v → HasKind k (norm k v)
unfolding norm
norm-HasKind timestamp_tz (moment d) (o, e) = (pos 0, rw e)
norm-HasKind timestamp_naive (moment d) h = h
norm-HasKind date (day d) h = h
norm-HasKind integer (number n) h = h
norm-HasKind _ _ h = ground arith

pub rank-norm : (k : Kind) (v : Value) → HasKind k v → rank (norm k v) ≡ rank v
unfolding norm
rank-norm timestamp_tz (moment d) (o, e) = as_utc-instant d o e
rank-norm timestamp_naive (moment d) h = refl
rank-norm date (day d) h = refl
rank-norm integer (number n) h = refl
rank-norm _ _ h = ground arith

-- A value that is NULL or of the column's kind, and one that is NULL or has a rank as required.
abbrev pub MayHave : Kind → Option Value → Type 0
MayHave k none = Unit
MayHave k (some v) = HasKind k v

abbrev pub MayBe : (ℤ → Type 0) → Option Value → Type 0
MayBe P none = Unit
MayBe P (some v) = P (rank v)

abbrev After : Kind → (ℤ → Type 0) → Watermark → Watermark → Type 0
After k P m m' = HasKind k m'.value × ((rank m'.value ≡ rank m.value) ⊎ P (rank m'.value))

-- One row: the maximum moves to it or stays; a row of the column's kind never raises.
advance_to-After :
    (k : Kind) (P : ℤ → Type 0) (m : Watermark) (id : ℤ) (v : Option Value)
    → HasKind k m.value
    → MayHave k v
    → MayBe P v
    → (m' : Watermark) × (advance_to k m id v ≡ ok m') × After k P m m'
unfolding advance_to
advance_to-After k P m id none hm h b = (m, refl, (hm, inl refl))
advance_to-After k P m id (some v) hm h b =
    let kv = norm-HasKind k v h in
    let e = tuple_le-HasKind k (norm k v) id m.value m.last_id kv hm in
    elim (Bool-cases (lex_le (rank (norm k v)) id (rank m.value) m.last_id)) [
      | inl le ↦ (m, rw (e, le), (hm, inl refl))
      | inr gt ↦ (
        record { value = norm k v; last_id = id },
        rw (e, gt),
        (kv, inr (rw (rank-norm k v h) b)),
      )
    ]

value_below-MayBelow :
    (hi : Value) (v : Option Value) → value_below hi v ≡ true → MayBe (λ x. x <ℤ rank hi) v
value_below-MayBelow hi none h = tt
value_below-MayBelow hi (some v) h = ltb_ℤ→lt (rank v) (rank hi) h

module _ {A : Type 0} (value : A → Option Value) (id : A → ℤ) where
  count-place :
      (p : A → Bool) (a : A) (xs : List A) → count p (place value id a xs) ≡ count p (a ∷ xs)
  count-place p a [] = refl
  count-place p a (b ∷ bs) = elim (Bool-cases (in_order value id a b)) [
    | inl e ↦ rw e
    | inr e ↦ rw e (ground (arith, count-place p a bs))
  ]

  pub count-order_by : (p : A → Bool) (xs : List A) → count p (order_by value id xs) ≡ count p xs
  count-order_by p [] = refl
  count-order_by p (a ∷ xs) =
      count-place p a (order_by value id xs) ∙ ground (arith, count-order_by p xs)

  All-place : (P : A → Type 0) (a : A) (xs : List A) → P a → All P xs → All P (place value id a xs)
  All-place P a [] h hs = (h, tt)
  All-place P a (b ∷ bs) h hs = elim (Bool-cases (in_order value id a b)) [
    | inl e ↦ rw e (h, hs)
    | inr e ↦ rw e (hs.0, All-place P a bs h hs.1)
  ]

  pub All-order_by : (P : A → Type 0) (xs : List A) → All P xs → All P (order_by value id xs)
  All-order_by P [] h = tt
  All-order_by P (a ∷ xs) h = All-place P a (order_by value id xs) h.0 (All-order_by P xs h.1)

  abbrev pub RowHas : Kind → A → Type 0
  RowHas k r = MayHave k (value r)

  abbrev pub RowIs : (ℤ → Type 0) → A → Type 0
  RowIs P r = MayBe P (value r)

  pub scan_max-After :
      (k : Kind) (P : ℤ → Type 0) (m : Watermark) (rows : List A)
      → HasKind k m.value
      → All (RowHas k) rows
      → All (RowIs P) rows
      → (m' : Watermark) × (scan_max value id k m rows ≡ ok m') × After k P m m'
  unfolding scan_max
  scan_max-After k P m [] hm hr hb = (m, refl, (hm, inl refl))
  scan_max-After k P m (r ∷ rows) hm hr hb =
      let (m1, e1, h1) = advance_to-After k P m (id r) (value r) hm hr.0 hb.0 in
      let (m2, e2, h2) = scan_max-After k P m1 rows h1.0 hr.1 hb.1 in
      (m2, rw (e1, e2), (h2.0, chain m1 m2 h1.1 h2.1))
    where
      chain :
          (m1 m2 : Watermark)
          → (rank m1.value ≡ rank m.value) ⊎ P (rank m1.value)
          → (rank m2.value ≡ rank m1.value) ⊎ P (rank m2.value)
          → (rank m2.value ≡ rank m.value) ⊎ P (rank m2.value)
      chain m1 m2 (inl e) (inl e') = inl (e' ∙ e)
      chain m1 m2 (inr b) (inl e') = inr (rw e' b)
      chain m1 m2 h (inr b') = inr b'

  pub All-free : (rows : List A) → All (RowIs (λ _. Unit {0})) rows
  All-free [] = tt
  All-free (r ∷ rows) = (free (value r), All-free rows)
    where
      free : (v : Option Value) → MayBe (λ _. Unit {0}) v
      free none = tt
      free (some v) = tt

  All-filter :
      (P Q : A → Type 0) (p : A → Bool)
      → ((r : A) → P r → p r ≡ true → Q r)
      → (rows : List A) → All P rows
      → All Q (filter p rows)
  All-filter P Q p keep [] h = tt
  All-filter P Q p keep (r ∷ rows) h = elim (Bool-cases (p r)) [
    | inl e ↦ rw e (keep r h.0 e, All-filter P Q p keep rows h.1)
    | inr e ↦ rw e (All-filter P Q p keep rows h.1)
  ]

  pub copy_rows-RowHas :
      (k : Kind) (lo : Value) (hi : Option Value) (last_id : ℤ) (rows : List A)
      → All (RowHas k) rows
      → All (RowHas k) (copy_rows value id lo hi last_id rows)
  unfolding copy_rows
  copy_rows-RowHas k lo hi last_id rows h =
      All-order_by (RowHas k) _
        (All-filter (RowHas k) (RowHas k) (picks value id lo hi last_id) (λ r x _. x) rows h)

  pub and_right : (a b : Bool) → (a && b) ≡ true → b ≡ true
  and_right true b h = h
  and_right false b h = cc

  below-RowIs :
      (hi : Value) (r : A) → below value id (some hi) r ≡ true → RowIs (λ x. x <ℤ rank hi) r
  unfolding below
  below-RowIs hi r h = value_below-MayBelow hi (value r) h

  pub copy_rows-RowIs :
      (lo hi : Value) (last_id : ℤ) (rows : List A)
      → All (RowIs (λ x. x <ℤ rank hi)) (copy_rows value id lo (some hi) last_id rows)
  unfolding copy_rows
  copy_rows-RowIs lo hi last_id rows = All-order_by (RowIs (λ x. x <ℤ rank hi)) _ (
      All-filter (λ _. Unit {0}) (RowIs (λ x. x <ℤ rank hi)) (picks value id lo (some hi) last_id)
        (λ r _ e. below-RowIs hi r (and_right _ _ e)) rows (trivial rows))
    where
      trivial : (xs : List A) → All (λ _. Unit {0}) xs
      trivial [] = tt
      trivial (x ∷ xs) = (tt, trivial xs)

  -- The statement returns each picked row as often as the table holds it.
  pub count-copy_rows :
      (p : A → Bool) (lo : Value) (hi : Option Value) (last_id : ℤ) (rows : List A)
      → count p (copy_rows value id lo hi last_id rows)
        ≡ count (λ r. p r && picks value id lo hi last_id r) rows
  unfolding copy_rows
  count-copy_rows p lo hi last_id rows =
      count-order_by p _ ∙ count-filter p (picks value id lo hi last_id) rows
