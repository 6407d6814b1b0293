-- ===== src/Extract/Incremental/Covers.antt =====
-- What one window does with the rows of the table, and the pieces of the proof.
use postgres_s3_warehouse_sy.Prelude.{
  ◌≡◌, ◌∙◌, refl, sym, Bool, true, false, not, ◌&&◌, ◌⊎◌, inl, inr, Bool-cases, Option, none, some,
  List, [], ◌∷◌, All, count, arith,
}
use postgres_s3_warehouse_sy.Prelude.Int.{ℤ, pos, ◌-ℤ◌, ◌≤ℤ◌, ◌<ℤ◌, -ℤ_parts}
use postgres_s3_warehouse_sy.Prelude.Int.Order.{ltb_ℤ-false→le}
use postgres_s3_warehouse_sy.Prelude.Result.{Result, ok}
use postgres_s3_warehouse_sy.State.Time.{
  Kind, timestamp_tz, timestamp_naive, date, integer, Value, rank, lex_le, HasKind,
}
use postgres_s3_warehouse_sy.State.Watermarks.{Watermark}
use postgres_s3_warehouse_sy.Extract.Incremental.{
  WindowSettings, us_of, overlap_days, value_after, value_below, picks, shut, Outcome, finish,
  run_window, empty_watermark,
}

-- How far before the watermark a window starts: microseconds, days, nothing.
abbrev pub overlap : Kind → WindowSettings → ℤ
overlap timestamp_tz s = us_of s.overlap_seconds
overlap timestamp_naive s = us_of s.overlap_seconds
overlap date s = overlap_days s.overlap_seconds
overlap integer s = pos 0

-- The value and id lie after the start of the window that begins at a watermark. NULL does not.
abbrev pub started : ℤ → ℤ → ℤ → Option Value → Bool
started start last_id id none = false
started start last_id id (some v) = not (lex_le (rank v) id start last_id)

abbrev pub start_of : Kind → WindowSettings → Watermark → ℤ
start_of k s wm = rank wm.value -ℤ overlap k s

lex_gt : (x i a j : ℤ) → a <ℤ x → lex_le x i a j ≡ false
lex_gt x i a j h = ground arith

value_covered :
    (lo hi : Value) (next : ℤ) (last_id new_id id : ℤ) (v : Option Value)
    → next <ℤ rank hi
    → (value_after lo last_id id v ≡ false)
      ⊎ ((value_after lo last_id id v && value_below hi v) ≡ true)
      ⊎ (started next new_id id v ≡ true)
value_covered lo hi next last_id new_id id none h = inl refl
value_covered lo hi next last_id new_id id (some v) h =
    elim (Bool-cases (value_after lo last_id id (some v))) [
      | inr before ↦ inl before
      | inl from ↦ elim (Bool-cases (value_below hi (some v))) [
        | inl low ↦ inr (inl (rw (from, low)))
        | inr high ↦
            let up = ltb_ℤ-false→le (rank v) (rank hi) high in
            inr (inr (rw (lex_gt (rank v) id next new_id (omega arith))))
      ]
    ]

module _ {A : Type 0} (value : A → Option Value) (id : A → ℤ) where
  abbrev pub contents : Option (List A) → List A
  contents none = []
  contents (some rows) = rows

  abbrev pub row_started : Kind → WindowSettings → Watermark → A → Bool
  row_started k s wm r = started (start_of k s wm) wm.last_id (id r) (value r)

  -- What one window does with the rows of the table.
  pub record Covers (k : Kind) (s : WindowSettings) (wm : Watermark) (rows : List A)
      (r : Result (Outcome value id)) : Type 0 where
    pub outcome : Outcome value id
    pub succeeds : r ≡ ok outcome
    pub new : Watermark
    pub returned : outcome.watermark ≡ some new
    pub kind_is : outcome.kind ≡ some k
    pub new_kind : HasKind k new.value
    pub picked : A → Bool
    pub uploads_picked :
        (p : A → Bool) → count p (contents outcome.uploaded) ≡ count (λ r. p r && picked r) rows
    pub no_gap :
        All
          (λ r. (row_started k s wm r ≡ false) ⊎ (picked r ≡ true) ⊎ (row_started k s new r ≡ true))
          rows

  row_dichotomy :
      (k : Kind) (s : WindowSettings) (wm : Watermark) (picked : A → Bool) (rows : List A)
      → All
          (λ r. (row_started k s wm r ≡ false) ⊎ (picked r ≡ true) ⊎ (row_started k s wm r ≡ true))
          rows
  row_dichotomy k s wm picked [] = tt
  row_dichotomy k s wm picked (r ∷ rows) = (
    elim (Bool-cases (row_started k s wm r)) [ inl e ↦ inr (inr e) | inr e ↦ inl e ],
    row_dichotomy k s wm picked rows,
  )

  count_never : (p : A → Bool) (rows : List A) → 0 ≡ count (λ r. p r && false) rows
  count_never p [] = refl
  count_never p (r ∷ rows) = ground (arith, count_never p rows)

  pub shut-Covers :
      (k : Kind) (s : WindowSettings) (wm : Watermark) (rows : List A)
      → HasKind k wm.value
      → Covers k s wm rows (run_window value id k wm rows shut)
  unfolding run_window
  shut-Covers k s wm rows h = record {
    outcome = record { uploaded = none; watermark = some wm; kind = some k };
    succeeds = refl;
    new = wm;
    returned = refl;
    kind_is = refl;
    new_kind = h;
    picked = λ _. false;
    uploads_picked = λ p. count_never p rows;
    no_gap = row_dichotomy k s wm (λ _. false) rows;
  }

  pub contents-finish :
      (k : Kind) (wm : Watermark) (hi : Option Value) (found : List A) (m : Watermark)
      → contents (finish value id k wm hi found m).uploaded ≡ found
  unfolding finish
  contents-finish k wm hi [] m = refl
  contents-finish k wm hi (r ∷ rows) m = refl

  pub kind-finish :
      (k : Kind) (wm : Watermark) (hi : Option Value) (found : List A) (m : Watermark)
      → (finish value id k wm hi found m).kind ≡ some k
  unfolding finish
  kind-finish k wm hi [] m = refl
  kind-finish k wm hi (r ∷ rows) m = refl

  -- The watermark that is returned: the bound of an empty window, else the running maximum.
  pub returned_by : Watermark → Option Value → List A → Watermark → Watermark
  returned_by wm hi [] m = empty_watermark value id hi wm
  returned_by wm hi (r ∷ rows) m = m

  pub watermark-finish :
      (k : Kind) (wm : Watermark) (hi : Option Value) (found : List A) (m : Watermark)
      → (finish value id k wm hi found m).watermark ≡ some (returned_by wm hi found m)
  unfolding finish returned_by
  watermark-finish k wm hi [] m = refl
  watermark-finish k wm hi (r ∷ rows) m = refl

  pub returned_by-kind :
      (k : Kind) (wm : Watermark) (hi : Value) (found : List A) (m : Watermark)
      → HasKind k hi
      → HasKind k m.value
      → HasKind k (returned_by wm (some hi) found m).value
  unfolding returned_by
  returned_by-kind k wm hi [] m hh hm = hh
  returned_by-kind k wm hi (r ∷ rows) m hh hm = hm

  pub returned_by-rank :
      (wm : Watermark) (hi : Value) (start ov : ℤ) (found : List A) (m : Watermark)
      → start ≡ rank wm.value -ℤ ov
      → start <ℤ rank hi
      → pos 1 ≤ℤ ov
      → (rank m.value ≡ rank wm.value) ⊎ (rank m.value <ℤ rank hi)
      → rank (returned_by wm (some hi) found m).value -ℤ ov <ℤ rank hi
  unfolding returned_by
  returned_by-rank wm hi start ov [] m e lt pos_ov h = omega (arith, -ℤ_parts (rank hi) ov)
  returned_by-rank wm hi start ov (r ∷ rows) m e lt pos_ov (inl same) = rw (same, ← e) lt
  returned_by-rank wm hi start ov (r ∷ rows) m e lt pos_ov (inr low) =
      omega (arith, -ℤ_parts (rank m.value) ov)

  after-started :
      (lo : Value) (start last_id id : ℤ) (v : Option Value)
      → rank lo ≡ start
      → value_after lo last_id id v ≡ started start last_id id v
  after-started lo start last_id id none e = refl
  after-started lo start last_id id (some v) e = rw e refl

  pub covered_bounded :
      (k : Kind) (s : WindowSettings) (wm new : Watermark) (lo hi : Value)
      → rank lo ≡ start_of k s wm
      → start_of k s new <ℤ rank hi
      → (rows : List A)
      → All
          (λ r.
            (row_started k s wm r ≡ false)
            ⊎ (picks value id lo (some hi) wm.last_id r ≡ true)
            ⊎ (row_started k s new r ≡ true))
          rows
  unfolding picks
  covered_bounded k s wm new lo hi e lt [] = tt
  covered_bounded k s wm new lo hi e lt (r ∷ rows) =
      let a = after-started lo (start_of k s wm) wm.last_id (id r) (value r) e in
      let c = value_covered lo hi (start_of k s new) wm.last_id new.last_id (id r) (value r) lt in
      (
        elim c [ inl x ↦ inl (sym a ∙ x) | inr y ↦ inr y ],
        covered_bounded k s wm new lo hi e lt rows,
      )

  pub covered_unbounded :
      (k : Kind) (s : WindowSettings) (wm new : Watermark) (lo : Value)
      → rank lo ≡ start_of k s wm
      → (rows : List A)
      → All
          (λ r.
            (row_started k s wm r ≡ false)
            ⊎ (picks value id lo none wm.last_id r ≡ true)
            ⊎ (row_started k s new r ≡ true))
          rows
  unfolding picks
  covered_unbounded k s wm new lo e [] = tt
  covered_unbounded k s wm new lo e (r ∷ rows) =
      let a = after-started lo (start_of k s wm) wm.last_id (id r) (value r) e in
      (
        elim (Bool-cases (value_after lo wm.last_id (id r) (value r))) [
          | inl x ↦ inr (inl (rw x refl))
          | inr x ↦ inl (sym a ∙ x)
        ],
        covered_unbounded k s wm new lo e rows,
      )

  pub returned_by-unbounded :
      (k : Kind) (wm : Watermark) (found : List A) (m : Watermark)
      → HasKind k wm.value
      → HasKind k m.value
      → HasKind k (returned_by wm none found m).value
  unfolding returned_by
  returned_by-unbounded k wm [] m hw hm = hw
  returned_by-unbounded k wm (r ∷ rows) m hw hm = hm
