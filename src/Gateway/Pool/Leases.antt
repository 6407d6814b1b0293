-- ===== src/Gateway/Pool/Leases.antt =====
-- A connection is free or leased once; `for_each` reaches every connection of an idle pool.
use postgres_s3_warehouse_sy.Prelude.{
  ℕ, zero, suc, ◌+◌, ◌≡◌, ◌∙◌, refl, sym, ap, List, [], ◌∷◌, ◌++◌, length, count, count-append,
  ◌==◌, ltb, arith, if◌then◌else◌, Bool, append_assoc, append-nil,
}
use postgres_s3_warehouse_sy.Prelude.Result.{Result, ok, err, ◌>>=◌}
use postgres_s3_warehouse_sy.Gateway.Pool.{
  Pool, connections, init, Step, enter, leave, Reaches, started, next, for_each,
}

count-connections : (c n : ℕ) → count (λ j. j == c) (connections n) ≡ (if ltb c n then 1 else 0)
unfolding connections
count-connections c zero = ground arith
count-connections c (suc n) =
    count-append (λ j. j == c) (connections n) (n ∷ []) ∙ ground (arith, count-connections c n)

abbrev held : (ℕ → Bool) → Pool → ℕ
held p pool = count p pool.available + count p pool.leased

Step-held : (p : ℕ → Bool) (a b : Pool) → Step a b → held p a ≡ held p b
Step-held p a b (enter c queue leased) = ground arith
Step-held p a b (leave c queue before after) = ground (
  arith,
  count-append p queue (c ∷ []),
  count-append p before (c ∷ after),
  count-append p before after,
)

Reaches-held :
    (p : ℕ → Bool) (size : ℕ) (pool : Pool)
    → Reaches size pool
    → held p pool ≡ count p (connections size)
unfolding init
Reaches-held p size pool started = omega arith
Reaches-held p size pool (next {a} {b} r s) = sym (Step-held p a b s) ∙ Reaches-held p size a r

-- In every state that a pool of `size` connections reaches, by whatever interleaving of contexts
-- entered and left, each of its connections is free once or leased once, and there is no other: no
-- connection is lost, and none is leased to two contexts.
pub Reaches-once :
    (size : ℕ) (pool : Pool) (c : ℕ)
    → Reaches size pool
    → count (λ j. j == c) pool.available + count (λ j. j == c) pool.leased
      ≡ (if ltb c size then 1 else 0)
Reaches-once size pool c r = Reaches-held (λ j. j == c) size pool r ∙ count-connections c size

abbrev visit_first : List ℕ → Result (List ℕ × List ℕ) → Result (List ℕ × List ℕ)
visit_first xs r = r >>= λ x. ok (xs ++ x.0, x.1)

visit_twice :
    (c : ℕ) (xs : List ℕ) (r : Result (List ℕ × List ℕ))
    → (visit_first xs r >>= λ x. ok (c ∷ x.0, x.1)) ≡ visit_first (c ∷ xs) r
visit_twice c xs (ok r) = refl
visit_twice c xs (err e) = refl

visit_none : (r : Result (List ℕ × List ℕ)) → r ≡ visit_first [] r
visit_none (ok r) = refl
visit_none (err e) = refl

-- A round over the front of the deque moves it to the back.
for_each-append :
    (m n : ℕ) (xs ys : List ℕ)
    → m ≡ length xs + n
    → for_each m (xs ++ ys) ≡ visit_first xs (for_each n (ys ++ xs))
unfolding for_each
for_each-append m n [] ys h =
    let e : m ≡ n = omega (arith, h) in rw (e, append-nil ys) (visit_none (for_each n ys))
for_each-append zero n (x ∷ xs) ys h = ground arith
for_each-append (suc m) n (x ∷ xs) ys h =
    let ih = for_each-append m n xs (ys ++ (x ∷ [])) (omega (arith, h)) in
    rw (append_assoc xs ys (x ∷ []), ih, append_assoc ys (x ∷ []) xs)
      (visit_twice x xs (for_each n (ys ++ (x ∷ xs))))

-- On an idle pool `for_each` calls the function on every connection once, in the deque's order, and
-- leaves the deque as it was.
pub for_each-idle : (queue : List ℕ) → for_each (length queue) queue ≡ ok (queue, queue)
unfolding for_each
for_each-idle queue =
    ap (λ q. for_each (length queue) q) (sym (append-nil queue))
    ∙ for_each-append (length queue) 0 queue [] (omega arith)
    ∙ ap (λ q. ok (q, queue)) (append-nil queue)

-- If one connection is leased all the while, `for_each` calls the function twice on the first free
-- connection and not on the leased one.
pub for_each-leased :
    (c : ℕ) (queue : List ℕ)
    → for_each (suc (length (c ∷ queue))) (c ∷ queue)
      ≡ ok ((c ∷ queue) ++ (c ∷ []), queue ++ (c ∷ []))
unfolding for_each
for_each-leased c queue =
    ap (λ q. for_each (suc (length (c ∷ queue))) q) (sym (append-nil (c ∷ queue)))
    ∙ for_each-append (suc (length (c ∷ queue))) 1 (c ∷ queue) [] (omega arith)
