-- ===== src/Extract/Incremental/Windows.antt =====
-- Each window that is opened, with a bound or without, covers the rows.
use postgres_s3_warehouse_sy.Prelude.{
  ◌≡◌, ◌∙◌, refl, ap, ◌⊎◌, inl, inr, Bool-cases, Option, none, some, List, All, count,
}
use postgres_s3_warehouse_sy.Prelude.Int.{ℤ, pos, ◌≤ℤ◌, ◌<ℤ◌, leb_ℤ}
use postgres_s3_warehouse_sy.Prelude.Int.Order.{leb_ℤ-false→lt}
use postgres_s3_warehouse_sy.Prelude.Result.{ok, ◌>>=◌}
use postgres_s3_warehouse_sy.State.Time.{Kind, Value, value_le, rank, HasKind}
use postgres_s3_warehouse_sy.State.Watermarks.{Watermark}
use postgres_s3_warehouse_sy.Extract.Incremental.{
  WindowSettings, norm, picks, copy_rows, between, bounded, finish, run_window,
}
use postgres_s3_warehouse_sy.Extract.Incremental.Scan.{
  norm-HasKind, rank-norm, RowHas, All-free, scan_max-After, copy_rows-RowHas, copy_rows-RowIs,
  count-copy_rows,
}
use postgres_s3_warehouse_sy.Extract.Incremental.Covers.{
  overlap, start_of, shut-Covers, contents-finish, kind-finish, returned_by-unbounded,
  returned_by-kind, returned_by-rank, watermark-finish, returned_by, covered_bounded,
  covered_unbounded, Covers,
}

module _ {A : Type 0} (value : A → Option Value) (id : A → ℤ) where
  pub between-Covers :
      (k : Kind) (s : WindowSettings) (wm : Watermark) (rows : List A) (lo hi : Value)
      → HasKind k wm.value
      → HasKind k hi
      → All (RowHas value id k) rows
      → rank lo ≡ start_of k s wm
      → rank lo <ℤ rank hi
      → pos 1 ≤ℤ overlap k s
      → Covers value id k s wm rows (run_window value id k wm rows (between lo (some hi)))
  unfolding run_window
  between-Covers k s wm rows lo hi hw hh hr e lt ov =
      let found = copy_rows value id lo (some hi) wm.last_id rows in
      let start : Watermark = record { value = norm k wm.value; last_id = wm.last_id } in
      let (m, em, (hm, hp)) =
        scan_max-After value id k (λ x. x <ℤ rank hi) start found (norm-HasKind k wm.value hw)
          (copy_rows-RowHas value id k lo (some hi) wm.last_id rows hr)
          (copy_rows-RowIs value id lo hi wm.last_id rows) in
      let new = returned_by value id wm (some hi) found m in
      let hp' : (rank m.value ≡ rank wm.value) ⊎ (rank m.value <ℤ rank hi) = elim hp [
        | inl x ↦ inl (x ∙ rank-norm k wm.value hw)
        | inr x ↦ inr x
      ] in
      let next = returned_by-rank value id wm hi (rank lo) (overlap k s) found m e lt ov hp' in
      record {
        outcome = finish value id k wm (some hi) found m;
        succeeds = rw em refl;
        new = new;
        returned = watermark-finish value id k wm (some hi) found m;
        kind_is = kind-finish value id k wm (some hi) found m;
        new_kind = returned_by-kind value id k wm hi found m hh hm;
        picked = picks value id lo (some hi) wm.last_id;
        uploads_picked = λ p.
            ap (count p) (contents-finish value id k wm (some hi) found m)
            ∙ count-copy_rows value id p lo (some hi) wm.last_id rows;
        no_gap = covered_bounded value id k s wm new lo hi e next rows;
      }

  pub unbounded-Covers :
      (k : Kind) (s : WindowSettings) (wm : Watermark) (rows : List A) (lo : Value)
      → HasKind k wm.value
      → All (RowHas value id k) rows
      → rank lo ≡ start_of k s wm
      → Covers value id k s wm rows (run_window value id k wm rows (between lo none))
  unfolding run_window
  unbounded-Covers k s wm rows lo hw hr e =
      let found = copy_rows value id lo none wm.last_id rows in
      let start : Watermark = record { value = norm k wm.value; last_id = wm.last_id } in
      let (m, em, (hm, hp)) =
        scan_max-After value id k (λ _. Unit {0}) start found (norm-HasKind k wm.value hw)
          (copy_rows-RowHas value id k lo none wm.last_id rows hr) (All-free value id found) in
      let new = returned_by value id wm none found m in
      record {
        outcome = finish value id k wm none found m;
        succeeds = rw em refl;
        new = new;
        returned = watermark-finish value id k wm none found m;
        kind_is = kind-finish value id k wm none found m;
        new_kind = returned_by-unbounded value id k wm found m hw hm;
        picked = picks value id lo none wm.last_id;
        uploads_picked = λ p.
            ap (count p) (contents-finish value id k wm none found m)
            ∙ count-copy_rows value id p lo none wm.last_id rows;
        no_gap = covered_unbounded value id k s wm new lo e rows;
      }

  -- A bounded window is shut or opens before its bound.
  pub bounded-Covers :
      (k : Kind) (s : WindowSettings) (wm : Watermark) (rows : List A) (lo hi : Value)
      → HasKind k wm.value
      → HasKind k hi
      → value_le hi lo ≡ ok (leb_ℤ (rank hi) (rank lo))
      → All (RowHas value id k) rows
      → rank lo ≡ start_of k s wm
      → pos 1 ≤ℤ overlap k s
      → Covers value id k s wm rows (bounded lo hi >>= run_window value id k wm rows)
  unfolding bounded
  bounded-Covers k s wm rows lo hi hw hh le hr e ov =
      rw le (elim (Bool-cases (leb_ℤ (rank hi) (rank lo))) [
        | inl over ↦ rw over (shut-Covers value id k s wm rows hw)
        | inr open' ↦ rw open' (
            between-Covers k s wm rows lo hi hw hh hr e (leb_ℤ-false→lt (rank hi) (rank lo) open')
              ov)
      ])
