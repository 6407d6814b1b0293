-- ===== src/Extract/Chunker/Loop.antt =====
-- The `while cur_lo <= hi` loop: its slices meet every id of the range once, and are numbered.
use mathlib.Core.Bool.{◌&&◌}
use postgres_s3_warehouse_sy.Prelude.{
  ℕ, zero, suc, ◌+◌, ◌<◌, ◌≡◌, Bool, true, false, not, List, [], ◌∷◌, refl, inl, inr, Bool-cases,
  arith, count, if◌then◌else◌,
}
use postgres_s3_warehouse_sy.Prelude.Int.{
  ℤ, pos, pos_part, neg_part, ◌+ℤ◌, ◌≤ℤ◌, leb_ℤ, ltb_ℤ, max_ℤ, floor_div, eqb_ℤ, ◌-ℤ◌, +ℤ_parts,
  -ℤ_parts,
}
use postgres_s3_warehouse_sy.Prelude.Result.{ok, err, out_of_fuel, >>=-eq-ok, ok-injective}
use postgres_s3_warehouse_sy.Prelude.Int.Order.{
  leb_ℤ→le, le→leb_ℤ, leb_ℤ-false→lt, ltb_ℤ→lt, lt→ltb_ℤ, ltb_ℤ-false→le, between_empty,
  leb_ℤ-eq-not-ltb_ℤ, ltb_ℤ_succ,
}
use postgres_s3_warehouse_sy.Extract.Chunker.{Chunk, range_loop, split_ids, checked_div}

-- One round as an equation of tests: `from` is cur ≤ x, `below` x < nxt, `upto` x ≤ hi.
round_tests :
    (base running from upto below more : Bool)
    → (running ≡ false → (from && upto) ≡ false)
    → (more ≡ true → below ≡ true → upto ≡ true)
    → (more ≡ false → upto ≡ true → below ≡ true)
    → (below ≡ false → from ≡ true)
    → (if running
        then (if base && (from && (if more then below else upto))
            then suc (if base && (not below && upto) then 1 else 0)
            else (if base && (not below && upto) then 1 else 0))
        else 0)
      ≡ (if base && (from && upto) then 1 else 0)
round_tests base running from upto below more h1 h2 h3 h4 = ground (arith, h1, h2, h3, h4)

end_tests :
    (base from : Bool) (x nxt hi : ℤ) (more : Bool)
    → (base && (from && ltb_ℤ x (if more then nxt else hi +ℤ pos 1)))
      ≡ (base && (from && (if more then ltb_ℤ x nxt else leb_ℤ x hi)))
end_tests base from x nxt hi true = refl
end_tests base from x nxt hi false = rw ltb_ℤ_succ

module _ (make : ℕ → ℤ → ℤ → Chunk) (x : ℤ) (base : Bool) (p : Chunk → Bool)
    (reads : (cid : ℕ) (a b : ℤ) → p (make cid a b) ≡ (base && (leb_ℤ a x && ltb_ℤ x b))) where
  no_round :
      (cur_lo hi : ℤ) (chunks : List Chunk)
      → leb_ℤ cur_lo hi ≡ false
      → ok [] ≡ ok chunks
      → count p chunks ≡ (if base && (leb_ℤ cur_lo x && leb_ℤ x hi) then 1 else 0)
  no_round cur_lo hi chunks e h =
      rw (← ok-injective h)
        (rw (between_empty cur_lo x hi (leb_ℤ-false→lt cur_lo hi e)) (ground arith))

  -- Where the loop ends, a value is met by one slice if it lies in the range, and by none if not.
  pub count-range_loop :
      (fuel : ℕ) (cur_lo hi step : ℤ) (cid : ℕ) {chunks : List Chunk}
      → pos 1 ≤ℤ step
      → range_loop fuel make cur_lo hi step cid ≡ ok chunks
      → count p chunks ≡ (if base && (leb_ℤ cur_lo x && leb_ℤ x hi) then 1 else 0)
  unfolding range_loop
  count-range_loop zero cur_lo hi step cid {chunks} grows h = elim (Bool-cases (leb_ℤ cur_lo hi)) [
    | inl e ↦ absurd (runs (rw e at h))
    | inr e ↦ no_round cur_lo hi chunks e (rw e at h)
  ]
    where
      runs : err out_of_fuel ≡ ok chunks → ⊥
      runs same = cc
  count-range_loop (suc fuel) cur_lo hi step cid {chunks} grows h =
      elim (Bool-cases (leb_ℤ cur_lo hi)) [
        | inl e ↦
            let nxt = cur_lo +ℤ step in
            let (cs, e1, e2) =
              >>=-eq-ok (range_loop fuel make nxt hi step (cid + 1)) _ (rw e at h) in
            rw (← ok-injective e2) (
              rw
                (
                  reads,
                  count-range_loop fuel nxt hi step (cid + 1) grows e1,
                  leb_ℤ-eq-not-ltb_ℤ nxt x,
                  end_tests,
                )
                (round_tests base true (leb_ℤ cur_lo x) (leb_ℤ x hi) (ltb_ℤ x nxt) (leb_ℤ nxt hi)
                  (λ f. cc)
                  (λ e f.
                    let m = leb_ℤ→le nxt hi e in
                    let b = ltb_ℤ→lt x nxt f in le→leb_ℤ x hi (omega arith))
                  (λ e f.
                    let m = leb_ℤ-false→lt nxt hi e in
                    let u = leb_ℤ→le x hi f in lt→ltb_ℤ x nxt (omega arith))
                  (λ e.
                    let b = ltb_ℤ-false→le x nxt e in
                    le→leb_ℤ cur_lo x (omega (arith, +ℤ_parts cur_lo step)))))
        | inr e ↦ no_round cur_lo hi chunks e (rw e at h)
      ]

-- With the span of ids as fuel and a step of at least 1 the loop ends.
pub range_loop_total :
    (make : ℕ → ℤ → ℤ → Chunk) (fuel : ℕ) (cur_lo hi step : ℤ) (cid : ℕ)
    → pos 1 ≤ℤ step
    → pos_part hi + neg_part cur_lo < pos_part cur_lo + neg_part hi + fuel
    → (chunks : List Chunk) × (range_loop fuel make cur_lo hi step cid ≡ ok chunks)
unfolding range_loop
range_loop_total make zero cur_lo hi step cid grows enough = elim (Bool-cases (leb_ℤ cur_lo hi)) [
  | inl e ↦ let m = leb_ℤ→le cur_lo hi e in let no : ⊥ = omega (arith, enough) in absurd no
  | inr e ↦ ([], rw e refl)
]
range_loop_total make (suc fuel) cur_lo hi step cid grows enough =
    elim (Bool-cases (leb_ℤ cur_lo hi)) [
      | inl e ↦
          let (cs, r) =
            range_loop_total make fuel (cur_lo +ℤ step) hi step (cid + 1) grows
              (omega (arith, +ℤ_parts cur_lo step)) in
          let nxt = cur_lo +ℤ step in
          (make cid cur_lo (if leb_ℤ nxt hi then nxt else hi +ℤ pos 1) ∷ cs, rw (e, r) refl)
      | inr e ↦ ([], rw e refl)
    ]

pub max_ℤ-pos : (a : ℤ) → pos 1 ≤ℤ max_ℤ (pos 1) a
max_ℤ-pos a = elim (Bool-cases (ltb_ℤ (pos 1) a)) [
  | inl e ↦ rw e (let h = ltb_ℤ→lt (pos 1) a e in omega arith)
  | inr e ↦ rw e (omega arith)
]

module _ (make : ℕ → ℤ → ℤ → Chunk) (x : ℤ) (base : Bool) (p : Chunk → Bool)
    (reads : (cid : ℕ) (a b : ℤ) → p (make cid a b) ≡ (base && (leb_ℤ a x && ltb_ℤ x b))) where
  pub count-split_ids :
      (rows target lo hi : ℤ) (cid : ℕ) {chunks : List Chunk}
      → split_ids make rows target lo hi cid ≡ ok chunks
      → count p chunks ≡ (if base && (leb_ℤ lo x && leb_ℤ x hi) then 1 else 0)
  unfolding split_ids
  count-split_ids rows target lo hi cid h =
      let (wanted, _, e) = >>=-eq-ok (checked_div rows target) _ h in
      let span = hi -ℤ lo +ℤ pos 1 in
      count-range_loop make x base p reads (pos_part span) lo hi _ cid
        (max_ℤ-pos (floor_div span (max_ℤ (pos 1) wanted))) e

pub split_ids_total :
    (make : ℕ → ℤ → ℤ → Chunk) (rows target lo hi : ℤ) (cid : ℕ)
    → eqb_ℤ target (pos 0) ≡ false
    → (chunks : List Chunk) × (split_ids make rows target lo hi cid ≡ ok chunks)
unfolding split_ids
split_ids_total make rows target lo hi cid e =
    let span = hi -ℤ lo +ℤ pos 1 in
    let step = max_ℤ (pos 1) (floor_div span (max_ℤ (pos 1) (floor_div rows target))) in
    let (chunks, r) =
      range_loop_total make (pos_part span) lo hi step cid
        (max_ℤ-pos (floor_div span (max_ℤ (pos 1) (floor_div rows target))))
        (omega (arith, -ℤ_parts hi lo, +ℤ_parts (hi -ℤ lo) (pos 1))) in
    (chunks, rw e r)
