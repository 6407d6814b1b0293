-- ===== src/Gateway/Dagster/Deletions.antt =====
-- How many runs `delete_runs` of gateway/dagster_client.py deletes, and how many it counts.
use text.Mathlib.Text.{◌==◌ as str_eq}
use Prim.Native.Nat.mul
use postgres_s3_warehouse_sy.Prelude.{
  ℕ, zero, suc, ◌+◌, ◌-◌, ◌*◌, ◌≤◌, ◌≡◌, refl, ap, ◌∙◌, inl, inr, String, Bool, true, false, ◌||◌,
  List, [], ◌∷◌, filter, any, length, if◌then◌else◌, Bool-cases, arith,
}
use postgres_s3_warehouse_sy.Prelude.Table.{beq_refl, string_key}
use postgres_s3_warehouse_sy.Gateway.Dagster.{
  DeleteAnswer, deleted, graphql_error, take, others, after_delete, delete_each, delete_rounds,
  delete_runs, posted,
}

-- Each id is listed once.
abbrev pub IsDistinct : List String → Type 0
IsDistinct [] = Unit
IsDistinct (x ∷ xs) = (any (λ y. str_eq y x) xs ≡ false) × IsDistinct xs

or_true : (b : Bool) → (b || true) ≡ true
or_true true = refl
or_true false = refl

drop : ℕ → List String → List String
drop zero xs = xs
drop (suc n) [] = []
drop (suc n) (x ∷ xs) = drop n xs

filter_absent :
    (x : String) (xs : List String) → any (λ y. str_eq y x) xs ≡ false → filter (others x) xs ≡ xs
filter_absent x [] e = refl
filter_absent x (y ∷ ys) e = elim (Bool-cases (str_eq y x)) [
  | inl same ↦ let e' = rw same at e in cc
  | inr differs ↦ rw (differs, filter_absent x ys (rw differs at e)) refl
]

length-take-drop : (n : ℕ) (xs : List String) → length (take n xs) + length (drop n xs) ≡ length xs
unfolding take drop
length-take-drop zero xs = omega arith
length-take-drop (suc n) [] = omega arith
length-take-drop (suc n) (x ∷ xs) = omega (arith, length-take-drop n xs)

length-drop : (n : ℕ) (xs : List String) → length (drop n xs) ≡ length xs - n
unfolding drop
length-drop zero xs = omega arith
length-drop (suc n) [] = omega arith
length-drop (suc n) (x ∷ xs) = omega (arith, length-drop n xs)

drop-IsDistinct : (n : ℕ) (xs : List String) → IsDistinct xs → IsDistinct (drop n xs)
unfolding drop
drop-IsDistinct zero xs d = d
drop-IsDistinct (suc n) [] d = d
drop-IsDistinct (suc n) (x ∷ xs) d = drop-IsDistinct n xs d.1

module _ (answer : String → DeleteAnswer) (works : (id : String) → answer id ≡ deleted) where
  delete_each-head :
      (x : String) (ids xs : List String) (count : ℕ) (p : Bool)
      → any (λ y. str_eq y x) xs ≡ false
      → delete_each answer (x ∷ ids) (x ∷ xs) count p ≡ delete_each answer ids xs (suc count) true
  unfolding delete_each
  delete_each-head x ids xs count p e =
      ap
        (λ a.
          delete_each answer ids (after_delete a x (x ∷ xs)) (if posted a then suc count else count)
            (posted a || p))
        (works x)
      ∙ ap (λ runs. delete_each answer ids runs (suc count) true) removed
    where
      removed : filter (others x) (x ∷ xs) ≡ xs
      removed = rw (beq_refl x) (filter_absent x xs e)

  delete_each-take :
      (n : ℕ) (runs : List String) (count : ℕ) (p : Bool)
      → IsDistinct runs
      → delete_each answer (take n runs) runs count p
        ≡ (drop n runs, count + length (take n runs), any (λ x. true) (take n runs) || p)
  unfolding delete_each take drop
  delete_each-take zero runs count p d = ap (λ c. (runs, c, p)) (omega arith)
  delete_each-take (suc n) [] count p d = ap (λ c. ([], c, p)) (omega arith)
  delete_each-take (suc n) (x ∷ xs) count p d =
      delete_each-head x (take n xs) xs count p d.0
      ∙ delete_each-take n xs (suc count) true d.1
      ∙ ap (λ c. (drop n xs, c, any (λ x. true) (take n xs) || true)) (omega arith)
      ∙ ap (λ b. (drop n xs, count + suc (length (take n xs)), b))
          (or_true (any (λ x. true) (take n xs)))

  delete_rounds-all :
      (rounds limit : ℕ) (runs : List String) (count : ℕ)
      → IsDistinct runs
      → length runs ≤ rounds * suc limit
      → delete_rounds answer rounds (suc limit) runs count ≡ ([], count + length runs)
  unfolding delete_rounds take drop
  delete_rounds-all zero limit [] count d few = ap (λ c. ([], c)) (omega arith)
  delete_rounds-all zero limit (x ∷ xs) count d few =
      let no : ⊥ = omega (arith, few, mul.zero (suc limit)) in absurd no
  delete_rounds-all (suc rounds) limit [] count d few = ap (λ c. ([], c)) (omega arith)
  delete_rounds-all (suc rounds) limit (x ∷ xs) count d few =
      let left = drop (suc limit) (x ∷ xs) in
      let fewer : length left ≤ rounds * suc limit =
        omega (arith, few, mul.suc rounds (suc limit), length-drop (suc limit) (x ∷ xs)) in
      let ih =
        delete_rounds-all rounds limit left (count + length (take (suc limit) (x ∷ xs)))
          (drop-IsDistinct (suc limit) (x ∷ xs) d) fewer in
      rw (delete_each-take (suc limit) (x ∷ xs) count false d)
        (ih ∙ ap (λ c. ([], c)) (omega (arith, length-take-drop (suc limit) (x ∷ xs))))

  -- Where the server deletes what it is told to delete, up to 20,000 runs of a connection, each
  -- listed once, are all deleted within the 200 rounds, and all are counted.
  pub delete_runs-all :
      (runs : List String)
      → IsDistinct runs
      → length runs ≤ 20000
      → delete_runs answer runs ≡ ([], length runs)
  unfolding delete_runs
  delete_runs-all runs d few =
      delete_rounds-all 200 99 runs 0 d few ∙ ap (λ c. ([], c)) (omega arith)

module _ (answer : String → DeleteAnswer)
    (refuses : (id : String) → answer id ≡ graphql_error) where
  delete_each-refused :
      (ids runs : List String) (count : ℕ) (p : Bool)
      → delete_each answer ids runs count p ≡ (runs, count + length ids, any (λ x. true) ids || p)
  unfolding delete_each
  delete_each-refused [] runs count p = ap (λ c. (runs, c, p)) (omega arith)
  delete_each-refused (x ∷ ids) runs count p =
      ap
        (λ a.
          delete_each answer ids (after_delete a x runs) (if posted a then suc count else count)
            (posted a || p))
        (refuses x)
      ∙ delete_each-refused ids runs (suc count) true
      ∙ ap (λ c. (runs, c, any (λ x. true) ids || true)) (omega arith)
      ∙ ap (λ b. (runs, count + suc (length ids), b)) (or_true (any (λ x. true) ids))

  delete_rounds-refused :
      (rounds limit : ℕ) (x : String) (xs : List String) (count : ℕ)
      → delete_rounds answer rounds (suc limit) (x ∷ xs) count
        ≡ (x ∷ xs, count + rounds * length (take (suc limit) (x ∷ xs)))
  unfolding delete_rounds take
  delete_rounds-refused zero limit x xs count =
      ap (λ c. (x ∷ xs, c)) (omega (arith, mul.zero (length (take (suc limit) (x ∷ xs)))))
  delete_rounds-refused (suc rounds) limit x xs count =
      rw (delete_each-refused (take (suc limit) (x ∷ xs)) (x ∷ xs) count false) (
        delete_rounds-refused rounds limit x xs (count + length (take (suc limit) (x ∷ xs)))
        ∙ ap (λ c. (x ∷ xs, c))
            (omega (arith, mul.suc rounds (length (take (suc limit) (x ∷ xs))))))

  -- Where the server refuses every deletion with a GraphQL error, the loop makes all its 200 rounds,
  -- deletes nothing, and returns 200 times the runs that a round lists as deleted.
  pub delete_runs-refused :
      (x : String) (xs : List String)
      → delete_runs answer (x ∷ xs) ≡ (x ∷ xs, 200 * length (take 100 (x ∷ xs)))
  unfolding delete_runs
  delete_runs-refused x xs =
      delete_rounds-refused 200 99 x xs 0 ∙ ap (λ c. (x ∷ xs, c)) (omega arith)
