-- ===== src/State/Watermarks/Writers.antt =====
-- Several writers of one watermark, one after the other under the row lock.
use postgres_s3_warehouse_sy.Prelude.{
  String, ◌≡◌, refl, Bool, true, false, List, [], ◌∷◌, Bool-cases, inl, inr, All, arith,
}
use postgres_s3_warehouse_sy.Prelude.Int.{ℤ}
use postgres_s3_warehouse_sy.Prelude.Result.{Result, ok, ◌>>=◌}
use postgres_s3_warehouse_sy.State.Time.{Kind, HasKind, rank, lex_le}
use postgres_s3_warehouse_sy.State.Watermarks.{Texts, Watermark, Watermarks, set_watermark}
use postgres_s3_warehouse_sy.State.Watermarks.Laws.{later, Stores, set_watermark_forward}

abbrev pub wm_le : Watermark → Watermark → Bool
wm_le a b = lex_le (rank a.value) a.last_id (rank b.value) b.last_id

lex_le_refl : (a i : ℤ) → lex_le a i a i ≡ true
lex_le_refl a i = ground arith

lex_le_trans :
    (a i b j c k : ℤ) → lex_le a i b j ≡ true → lex_le b j c k ≡ true → lex_le a i c k ≡ true
lex_le_trans a i b j c k h g = ground arith

lex_le_total : (a i b j : ℤ) → lex_le a i b j ≡ false → lex_le b j a i ≡ true
lex_le_total a i b j h = ground arith

later-upper_left : (a b : Watermark) → wm_le a (later a b) ≡ true
unfolding later
later-upper_left a b = elim (Bool-cases (wm_le b a)) [
  | inl h ↦ rw h (lex_le_refl (rank a.value) a.last_id)
  | inr h ↦ rw h (lex_le_total (rank b.value) b.last_id (rank a.value) a.last_id h)
]

later-upper_right : (a b : Watermark) → wm_le b (later a b) ≡ true
unfolding later
later-upper_right a b = elim (Bool-cases (wm_le b a)) [
  | inl h ↦ rw h h
  | inr h ↦ rw h (lex_le_refl (rank b.value) b.last_id)
]

-- The watermark that is left after the writes of a list.
pub latest : Watermark → List Watermark → Watermark
latest cur [] = cur
latest cur (w ∷ ws) = latest (later cur w) ws

wm_le_trans : (a b c : Watermark) → wm_le a b ≡ true → wm_le b c ≡ true → wm_le a c ≡ true
wm_le_trans a b c =
    lex_le_trans (rank a.value) a.last_id (rank b.value) b.last_id (rank c.value) c.last_id

latest-upper : (cur : Watermark) (ws : List Watermark) → wm_le cur (latest cur ws) ≡ true
unfolding latest
latest-upper cur [] = lex_le_refl (rank cur.value) cur.last_id
latest-upper cur (w ∷ ws) =
    wm_le_trans cur (later cur w) (latest (later cur w) ws) (later-upper_left cur w)
      (latest-upper (later cur w) ws)

latest-greatest :
    (cur : Watermark) (ws : List Watermark) → All (λ w. wm_le w (latest cur ws) ≡ true) (cur ∷ ws)
unfolding latest
latest-greatest cur [] = (lex_le_refl (rank cur.value) cur.last_id, tt)
latest-greatest cur (w ∷ ws) =
    let rest = latest-greatest (later cur w) ws in
    (
      latest-upper cur (w ∷ ws),
      (
        wm_le_trans w (later cur w) (latest (later cur w) ws) (later-upper_right cur w) rest.0,
        rest.1,
      ),
    )

module _ (texts : Texts) (c : ℤ) (fqn : String) (k : Kind) where
  -- Writers that come one after the other; the first error stops them.
  pub set_all : Watermarks texts → List Watermark → Result (Watermarks texts)
  set_all table [] = ok table
  set_all table (w ∷ ws) = do table' ← set_watermark texts table c fqn w k; set_all table' ws

  pub record EndsWith (cur : Watermark) (ws : List Watermark) (r : Result (Watermarks texts))
      : Type 0 where
    pub table' : Watermarks texts
    pub succeeds : r ≡ ok table'
    pub stores : Stores texts table' c fqn k (latest cur ws)
    pub greatest : All (λ w. wm_le w (latest cur ws) ≡ true) (cur ∷ ws)

  -- Whatever the order in which writers of a column's kind come, none fails, and the watermark
  -- that is stored in the end is at or after the one that was stored before and every one written.
  pub set_all-EndsWith :
      (table : Watermarks texts) (cur : Watermark) (ws : List Watermark)
      → Stores texts table c fqn k cur
      → All (λ w. HasKind k w.value) ws
      → EndsWith cur ws (set_all table ws)
  unfolding set_all latest
  set_all-EndsWith table cur [] s kinds = record {
    table' = table;
    succeeds = refl;
    stores = s;
    greatest = latest-greatest cur [];
  }
  set_all-EndsWith table cur (w ∷ ws) s kinds =
      let step = set_watermark_forward texts table c fqn k cur w s kinds.0 in
      let rest = set_all-EndsWith step.table' (later cur w) ws step.stores kinds.1 in
      record {
        table' = rest.table';
        succeeds = rw step.succeeds rest.succeeds;
        stores = rest.stores;
        greatest = latest-greatest cur (w ∷ ws);
      }
