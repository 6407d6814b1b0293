-- ===== src/Examples/Lake.antt =====
-- A lake table kept as a list, and a sort by insertion.
use postgres_s3_warehouse_sy.Prelude.{
  ℕ, ◌≡◌, ◌∙◌, refl, Bool, true, false, not, inl, inr, Bool-cases, Option, none, some, List, [],
  ◌∷◌, ◌++◌, filter, count, count-append, count-filter, All, arith, if◌then◌else◌,
}
use postgres_s3_warehouse_sy.Prelude.Int.{ℤ}
use postgres_s3_warehouse_sy.Load.Merge.{in_keys, newer, LakeTable, IsSorted, Sorter}

-- A row: its key, its time, what else it holds.
pub record Row : Type 0 where
  pub key : Option ℤ
  pub time : Option ℤ
  pub content : ℕ

abbrev pub key_of : Row → Option ℤ
key_of r = r.key

abbrev pub time_of : Row → Option ℤ
time_of r = r.time

abbrev kept : List Row → List ℤ → List Row
kept t keys = filter (λ r. not (in_keys r.key keys)) t

abbrev pub list_table : LakeTable Row key_of
list_table = record {
  T = List Row;
  rows = λ t. t;
  overwrite = λ t df keys. kept t keys ++ df;
  append = λ t df. t ++ df;
  delete = kept;
  count-overwrite = λ p t df keys.
      count-append p (kept t keys) df
      ∙ ground (arith, count-filter p (λ r. not (in_keys r.key keys)) t);
  count-append = λ p t df. count-append p t df;
  count-delete = λ p t keys. count-filter p (λ r. not (in_keys r.key keys)) t;
}

abbrev place : Row → List Row → List Row
place r [] = r ∷ []
place r (x ∷ xs) = let rest = place r xs in if newer r.time x.time then r ∷ x ∷ xs else x ∷ rest

abbrev sort : List Row → List Row
sort [] = []
sort (r ∷ rs) = place r (sort rs)

newer_total : (a b : Option ℤ) → newer a b ≡ false → newer b a ≡ true
newer_total a none h = cc
newer_total none (some b) h = refl
newer_total (some a) (some b) h = ground arith

newer_trans : (a b c : Option ℤ) → newer a b ≡ true → newer b c ≡ true → newer a c ≡ true
newer_trans a b none h g = refl
newer_trans none (some b) (some c) h g = cc
newer_trans none none (some c) h g = cc
newer_trans (some a) none (some c) h g = cc
newer_trans (some a) (some b) (some c) h g = ground arith

count-place : (p : Row → Bool) (r : Row) (xs : List Row) → count p (place r xs) ≡ count p (r ∷ xs)
count-place p r [] = refl
count-place p r (x ∷ xs) = elim (Bool-cases (newer r.time x.time)) [
  | inl e ↦ simp e refl
  | inr e ↦ simp e (ground (arith, count-place p r xs))
]

count-sort : (p : Row → Bool) (rs : List Row) → count p (sort rs) ≡ count p rs
count-sort p [] = refl
count-sort p (r ∷ rs) = count-place p r (sort rs) ∙ ground (arith, count-sort p rs)

abbrev Below : Row → List Row → Type 0
Below r xs = All (λ s. newer r.time s.time ≡ true) xs

Below-place :
    (a r : Row) (xs : List Row) → newer a.time r.time ≡ true → Below a xs → Below a (place r xs)
Below-place a r [] h hs = (h, tt)
Below-place a r (x ∷ xs) h hs = elim (Bool-cases (newer r.time x.time)) [
  | inl e ↦ simp e (h, hs)
  | inr e ↦ simp e (hs.0, Below-place a r xs h hs.1)
]

Below-trans : (a b : Row) (xs : List Row) → newer a.time b.time ≡ true → Below b xs → Below a xs
Below-trans a b [] h hs = tt
Below-trans a b (x ∷ xs) h hs = (newer_trans a.time b.time x.time h hs.0, Below-trans a b xs h hs.1)

place-IsSorted : (r : Row) (xs : List Row) → IsSorted time_of xs → IsSorted time_of (place r xs)
place-IsSorted r [] h = (tt, tt)
place-IsSorted r (x ∷ xs) h = elim (Bool-cases (newer r.time x.time)) [
  | inl e ↦ simp e ((refl, Below-trans r x xs e h.0), h)
  | inr e ↦ simp e (Below-place x r xs (newer_total r.time x.time e) h.0, place-IsSorted r xs h.1)
]

sort-IsSorted : (rs : List Row) → IsSorted time_of (sort rs)
sort-IsSorted [] = tt
sort-IsSorted (r ∷ rs) = place-IsSorted r (sort rs) (sort-IsSorted rs)

pub sorter : Sorter time_of
sorter = record { sort = sort; count-sort = count-sort; sort-IsSorted = sort-IsSorted }
