-- ===== src/Load/Merge/Latest.antt =====
-- `_dedupe_latest` keeps one row of each key, the newest.
use postgres_s3_warehouse_sy.Prelude.{
  ◌≤◌, ◌≡◌, ◌∙◌, refl, sym, ap, Bool, true, false, not, ◌||◌, inl, inr, Bool-cases, Option, none,
  some, List, [], ◌∷◌, count, All, leb, arith, if◌then◌else◌,
}
use postgres_s3_warehouse_sy.Prelude.Int.{ℤ, eqb_ℤ_iff}
use postgres_s3_warehouse_sy.Load.Merge.{
  same_key, newer, IsSorted, Sorter, seen_key, keep_first, dedupe_latest,
}

pub same_key_trans : (a b c : Option ℤ) → same_key a b ≡ true → same_key a c ≡ same_key b c
same_key_trans none none c h = refl
same_key_trans (some a) (some b) c h = rw ((eqb_ℤ_iff a b).0 h) refl
same_key_trans none (some b) c h = cc
same_key_trans (some a) none c h = cc

pub same_key_refl : (a : Option ℤ) → same_key a a ≡ true
same_key_refl none = refl
same_key_refl (some a) = (eqb_ℤ_iff a a).1 refl

newer_refl : (a : Option ℤ) → newer a a ≡ true
newer_refl none = refl
newer_refl (some a) = ground arith

pub same_key→eq : (a b : Option ℤ) → same_key a b ≡ true → a ≡ b
same_key→eq none none h = refl
same_key→eq (some a) (some b) h = ap (λ x. some x) ((eqb_ℤ_iff a b).0 h)
same_key→eq none (some b) h = cc
same_key→eq (some a) none h = cc

same_key_sym_false : (a b : Option ℤ) → same_key a b ≡ false → same_key b a ≡ false
same_key_sym_false none none h = h
same_key_sym_false (some a) (some b) h = ground arith
same_key_sym_false none (some b) h = refl
same_key_sym_false (some a) none h = refl

-- A test that holds of every element, by counting.
pub All-of_count :
    {A : Type 0} (q : A → Bool) (xs : List A)
    → count (λ x. not (q x)) xs ≡ 0
    → All (λ x. q x ≡ true) xs
All-of_count q [] h = tt
All-of_count q (x ∷ xs) h = elim (Bool-cases (q x)) [
  | inl e ↦ (e, All-of_count q xs (ground arith))
  | inr e ↦ ground arith
]

pub count-of_All :
    {A : Type 0} (q : A → Bool) (xs : List A)
    → All (λ x. q x ≡ true) xs
    → count (λ x. not (q x)) xs ≡ 0
count-of_All q [] h = refl
count-of_All q (x ∷ xs) h = rw (h.0) (count-of_All q xs h.1)

module _ {A : Type 0} (key : A → Option ℤ) where
  abbrev pub has : Option ℤ → A → Bool
  has k r = same_key (key r) k

  keep_first-unseen :
      (seen : List (Option ℤ)) (rs : List A)
      → All (λ d. seen_key (key d) seen ≡ false) (keep_first key seen rs)
  unfolding keep_first
  keep_first-unseen seen [] = tt
  keep_first-unseen seen (r ∷ rs) = elim (Bool-cases (seen_key (key r) seen)) [
    | inl e ↦ rw e (keep_first-unseen seen rs)
    | inr e ↦ rw e (e, weaken _ (keep_first-unseen (key r ∷ seen) rs))
  ]
    where
      weaken :
          (ds : List A)
          → All (λ d. seen_key (key d) (key r ∷ seen) ≡ false) ds
          → All (λ d. seen_key (key d) seen ≡ false) ds
      weaken [] h = tt
      weaken (d ∷ ds) h = (ground arith, weaken ds h.1)

  pub count-keep_first :
      (k : Option ℤ) (seen : List (Option ℤ)) (rs : List A)
      → count (has k) (keep_first key seen rs)
        ≡ (if seen_key k seen then 0 else (if leb 1 (count (has k) rs) then 1 else 0))
  unfolding keep_first
  count-keep_first k seen [] = ground arith
  count-keep_first k seen (r ∷ rs) = elim (Bool-cases (has k r)) [
    | inl e ↦
        let same = same_key→eq (key r) k e in
        elim (Bool-cases (seen_key (key r) seen)) [
          | inl s ↦
              let sk : seen_key k seen ≡ true = ap (λ x. seen_key x seen) (sym same) ∙ s in
              rw (s, sk) (count-keep_first k seen rs ∙ rw sk refl)
          | inr s ↦
              let sk : seen_key k seen ≡ false = ap (λ x. seen_key x seen) (sym same) ∙ s in
              let hit : seen_key k (key r ∷ seen) ≡ true = rw e refl in
              rw (s, sk, e, count-keep_first k (key r ∷ seen) rs, hit) (ground arith)
        ]
    | inr e ↦
        let miss : seen_key k (key r ∷ seen) ≡ seen_key k seen = rw (e) refl in
        elim (Bool-cases (seen_key (key r) seen)) [
          | inl s ↦ rw (s, e) (count-keep_first k seen rs)
          | inr s ↦ rw (s, e) (count-keep_first k (key r ∷ seen) rs ∙ rw miss refl)
        ]
  ]

  count-keep_first-le :
      (p : A → Bool) (seen : List (Option ℤ)) (rs : List A)
      → count p (keep_first key seen rs) ≤ count p rs
  unfolding keep_first
  count-keep_first-le p seen [] = omega arith
  count-keep_first-le p seen (r ∷ rs) =
      ground (arith, count-keep_first-le p seen rs, count-keep_first-le p (key r ∷ seen) rs)

  module _ (ts : A → Option ℤ) where
    -- If `r` has the key of `d`, it is not newer than `d`.
    abbrev pub newest_of : A → A → Bool
    newest_of d r = not (same_key (key r) (key d)) || newer (ts d) (ts r)

    or_right : (a b : Bool) → b ≡ true → (a || b) ≡ true
    or_right true b h = refl
    or_right false b h = h

    clash :
        (a b : Option ℤ) (seen : List (Option ℤ))
        → seen_key a seen ≡ true
        → seen_key b seen ≡ false
        → same_key a b ≡ true
        → ⊥
    clash a b seen ha hb e =
        let eq : seen_key a seen ≡ seen_key b seen =
          ap (λ x. seen_key x seen) (same_key→eq a b e) in
        ground arith

    differs :
        (a b : Option ℤ) (seen : List (Option ℤ))
        → seen_key a seen ≡ true
        → seen_key b seen ≡ false
        → same_key a b ≡ false
    differs a b seen ha hb = elim (Bool-cases (same_key a b)) [
      | inl e ↦ absurd (clash a b seen ha hb e)
      | inr e ↦ e
    ]

    add_row :
        (r : A) (rs : List A) (seen : List (Option ℤ)) (ds : List A)
        → seen_key (key r) seen ≡ true
        → All (λ d. seen_key (key d) seen ≡ false) ds
        → All (λ d. All (λ s. newest_of d s ≡ true) rs) ds
        → All (λ d. All (λ s. newest_of d s ≡ true) (r ∷ rs)) ds
    add_row r rs seen [] hr hu hs = tt
    add_row r rs seen (d ∷ ds) hr hu hs =
        ((rw (differs (key r) (key d) seen hr hu.0) refl, hs.0), add_row r rs seen ds hr hu.1 hs.1)

    All-newest :
        (r : A) (rs : List A)
        → All (λ s. newer (ts r) (ts s) ≡ true) rs
        → All (λ s. newest_of r s ≡ true) rs
    All-newest r [] h = tt
    All-newest r (s ∷ rs) h = (or_right _ _ h.0, All-newest r rs h.1)

    keep_first-newest :
        (seen : List (Option ℤ)) (rs : List A)
        → IsSorted ts rs
        → All (λ d. All (λ r. newest_of d r ≡ true) rs) (keep_first key seen rs)
    unfolding keep_first
    keep_first-newest seen [] h = tt
    keep_first-newest seen (r ∷ rs) h = elim (Bool-cases (seen_key (key r) seen)) [
      | inl e ↦
          rw e (add_row r rs seen _ e (keep_first-unseen seen rs) (keep_first-newest seen rs h.1))
      | inr e ↦ rw e (
        (or_right _ _ (newer_refl (ts r)), All-newest r rs h.0),
        add_row r rs (key r ∷ seen) _ (rw (same_key_refl (key r)) refl)
            (keep_first-unseen (key r ∷ seen) rs) (keep_first-newest (key r ∷ seen) rs h.1),
      )
    ]

    -- `kept` are rows of `staged`: one of each key, and none older than a row of its key.
    pub record IsLatest (staged kept : List A) : Type 0 where
      pub one_each :
          (k : Option ℤ) → count (has k) kept ≡ (if leb 1 (count (has k) staged) then 1 else 0)
      pub newest : All (λ d. All (λ r. newest_of d r ≡ true) staged) kept
      pub no_new : (p : A → Bool) → count p kept ≤ count p staged

    unsort :
        (s : Sorter ts) (rs ds : List A)
        → All (λ d. All (λ r. newest_of d r ≡ true) (s.sort rs)) ds
        → All (λ d. All (λ r. newest_of d r ≡ true) rs) ds
    unsort s rs [] h = tt
    unsort s rs (d ∷ ds) h = (
      All-of_count (newest_of d) rs (
          sym (s.count-sort (λ r. not (newest_of d r)) rs)
          ∙ count-of_All (newest_of d) (s.sort rs) h.0),
      unsort s rs ds h.1,
    )

    -- Whatever sort by descending time is used, `_dedupe_latest` keeps staged rows only: exactly one
    -- of each key that is staged (NULL counts as a key), and none that is older than another staged
    -- row of its key. A row without a time is older than any with one.
    pub dedupe_latest-IsLatest :
        (s : Sorter ts) (staged : List A) → IsLatest staged (dedupe_latest key s.sort staged)
    unfolding dedupe_latest
    dedupe_latest-IsLatest s staged = record {
      one_each = λ k.
          count-keep_first k [] (s.sort staged)
          ∙ ap (λ n. if leb 1 n then 1 else 0) (s.count-sort (has k) staged);
      newest = unsort s staged _ (keep_first-newest [] (s.sort staged) (s.sort-IsSorted staged));
      no_new = λ p. omega (arith, count-keep_first-le p [] (s.sort staged), s.count-sort p staged);
    }
