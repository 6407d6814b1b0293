-- ===== src/Common/ObjectStore/Requests.antt =====
-- Which requests `delete_prefix` of common/s3.py sends.
use postgres_s3_warehouse_sy.Prelude.{
  ℕ, ◌+◌, ◌≤◌, ◌<◌, ◌≡◌, refl, sym, ap, ◌∙◌, inl, inr, ◌⊎◌, String, List, [], ◌∷◌, ◌++◌, length,
  leb, All, All-append, length-append, append-nil, append_assoc, Bool-cases, tests, arith,
}
use postgres_s3_warehouse_sy.Prelude.Result.{Error, Result, ok, err}
use postgres_s3_warehouse_sy.Prelude.Action.{Action, return, continue}
use postgres_s3_warehouse_sy.Common.ObjectStore.{
  Batch, sent_batch, add_key, add_page, add_pages, send_rest, delete_prefix,
}

abbrev pub Requests : Type 0
Requests = List (List String)

-- A request that is answered as `answer` says, after the others.
abbrev pub send : (List String → Result (Unit {0})) → List String → Action Requests (Unit {0})
send answer keys sent = (sent ++ keys ∷ [], answer keys)

abbrev pub joined : Requests → List String
joined [] = []
joined (keys ∷ requests) = keys ++ joined requests

-- The keys of the pages.
abbrev pub listed_keys : List (Result (List String)) → List String
listed_keys [] = []
listed_keys (err e ∷ pages) = listed_keys pages
listed_keys (ok keys ∷ pages) = keys ++ listed_keys pages

-- What S3 takes in one request.
abbrev pub IsRequest : List String → Type 0
IsRequest keys = (1 ≤ length keys) × (length keys ≤ 1000)

-- A page raises the error.
abbrev pub PageRaises : List (Result (List String)) → Error → Type 0
PageRaises [] e = ⊥
PageRaises (err raised ∷ pages) e = (raised ≡ e) ⊎ PageRaises pages e
PageRaises (ok keys ∷ pages) e = PageRaises pages e

-- A request raises the error.
abbrev pub RequestRaises : (List String → Result (Unit {0})) → Error → Type 0
RequestRaises answer e = (keys : List String) × (answer keys ≡ err e)

-- The requests are in the bounds of S3, and a call that returns has sent each of the keys once, in
-- their order, and counted it. One that raises has a cause.
abbrev pub Deletes : (Error → Type 0) → List String → Requests × Result ℕ → Type 0
Deletes Cause keys (sent, ok total) =
    All IsRequest sent × (joined sent ≡ keys) × (total ≡ length keys)
Deletes Cause keys (sent, err e) = All IsRequest sent × Cause e

-- The same in the middle of the loop, where `seen` are the keys listed so far.
abbrev Waits : (Error → Type 0) → List String → Requests × Result Batch → Type 0
Waits Cause seen (sent, ok (keys, total)) =
    All IsRequest sent
    × (length keys < 1000)
    × (joined sent ++ keys ≡ seen)
    × (total ≡ length (joined sent))
Waits Cause seen (sent, err e) = All IsRequest sent × Cause e

joined-append : (a b : Requests) → joined (a ++ b) ≡ joined a ++ joined b
joined-append [] b = refl
joined-append (keys ∷ a) b = rw (joined-append a b, append_assoc)

joined_last :
    (sent : Requests) (keys : List String) → joined (sent ++ keys ∷ []) ≡ joined sent ++ keys
joined_last sent keys =
    joined-append sent (keys ∷ []) ∙ ap (λ k. joined sent ++ k) (append-nil keys)

length-last : (keys : List String) (key : String) → length (keys ++ key ∷ []) ≡ length keys + 1
length-last keys key = length-append keys (key ∷ [])

module _ (answer : List String → Result (Unit {0})) (Cause : Error → Type 0)
    (raises : (keys : List String) (e : Error) → answer keys ≡ err e → Cause e) where
  Waits-then :
      (seen seen' : List String) (next : Batch → Action Requests Batch)
      (o : Requests × Result Batch)
      → Waits Cause seen o
      → ((sent : Requests) (batch : Batch)
          → Waits Cause seen (sent, ok batch)
          → Waits Cause seen' (next batch sent))
      → Waits Cause seen' (continue next o)
  Waits-then seen seen' next (sent, ok batch) w step = step sent batch w
  Waits-then seen seen' next (sent, err e) w step = w

  sent_batch-Waits :
      (seen keys : List String) (total : ℕ) (sent : Requests)
      → IsRequest keys
      → All IsRequest sent
      → joined sent ++ keys ≡ seen
      → total ≡ length (joined sent)
      → Waits Cause seen (sent_batch (send answer) (keys, total) sent)
  unfolding sent_batch
  sent_batch-Waits seen keys total sent is all order sum =
      let all' = All-append IsRequest sent (keys ∷ []) all (is, tt) in
      (elim (answer keys)
          as (λ r.
            ((e : Error) → r ≡ err e → Cause e)
            → Waits Cause seen (
                continue (λ u. return {State = Requests} ([], total + length keys))
                  (sent ++ keys ∷ [], r))) [
                    | err e ↦ λ cause. (all', cause e refl)
                    | ok u ↦ λ cause. (
                      all',
                      omega arith,
                      append-nil (joined (sent ++ keys ∷ [])) ∙ joined_last sent keys ∙ order,
                      rw (joined_last sent keys, length-append) (ap (λ n. n + length keys) sum),
                    )
                  ])
        (raises keys)

  add_key-Waits :
      (seen : List String) (key : String) (sent : Requests) (batch : Batch)
      → Waits Cause seen (sent, ok batch)
      → Waits Cause (seen ++ key ∷ []) (add_key (send answer) key batch sent)
  unfolding add_key
  add_key-Waits seen key sent (keys, total) w =
      let waiting = keys ++ key ∷ [] in
      let order = sym (append_assoc (joined sent) keys (key ∷ [])) ∙ ap (λ k. k ++ key ∷ []) w.2 in
      let size = length-last keys key in
      elim (Bool-cases (leb 1000 (length waiting))) [
        | inl full ↦ rw full (
            sent_batch-Waits (seen ++ key ∷ []) waiting total sent
              (omega (arith, size), omega (arith, size)) w.0 order w.3)
        | inr more ↦ rw more (w.0, grind (arith, tests), order, w.3)
      ]

  add_page-Waits :
      (seen page : List String) (sent : Requests) (batch : Batch)
      → Waits Cause seen (sent, ok batch)
      → Waits Cause (seen ++ page) (add_page (send answer) page batch sent)
  unfolding add_page
  add_page-Waits seen [] sent batch w = rw (append-nil seen) w
  add_page-Waits seen (key ∷ page) sent batch w = rw (sym (append_assoc seen (key ∷ []) page)) (
      Waits-then (seen ++ key ∷ []) ((seen ++ key ∷ []) ++ page) (add_page (send answer) page)
        (add_key (send answer) key batch sent) (add_key-Waits seen key sent batch w)
        (add_page-Waits (seen ++ key ∷ []) page))

  add_pages-Waits :
      (seen : List String) (pages : List (Result (List String)))
      → ((e : Error) → PageRaises pages e → Cause e)
      → (sent : Requests) (batch : Batch) → Waits Cause seen (sent, ok batch)
      → Waits Cause (seen ++ listed_keys pages) (add_pages (send answer) pages batch sent)
  unfolding add_pages
  add_pages-Waits seen [] fails sent batch w = rw (append-nil seen) w
  add_pages-Waits seen (err e ∷ pages) fails sent (keys, total) w = (w.0, fails e (inl refl))
  add_pages-Waits seen (ok page ∷ pages) fails sent batch w =
      rw (sym (append_assoc seen page (listed_keys pages))) (
        Waits-then (seen ++ page) ((seen ++ page) ++ listed_keys pages)
          (add_pages (send answer) pages) (add_page (send answer) page batch sent)
          (add_page-Waits seen page sent batch w) (add_pages-Waits (seen ++ page) pages fails))

  send_rest-Deletes :
      (seen : List String) (o : Requests × Result Batch)
      → Waits Cause seen o
      → Deletes Cause seen (continue (send_rest (send answer)) o)
  unfolding send_rest
  send_rest-Deletes seen (sent, err e) w = w
  send_rest-Deletes seen (sent, ok ([], total)) w =
      let order = sym (append-nil (joined sent)) ∙ w.2 in (w.0, order, w.3 ∙ ap length order)
  send_rest-Deletes seen (sent, ok (key ∷ keys, total)) w =
      let rest = key ∷ keys in
      let all = All-append IsRequest sent (rest ∷ []) w.0 ((omega arith, omega (arith, w.1)), tt) in
      let order = joined_last sent rest ∙ w.2 in
      (elim (answer rest)
          as (λ r.
            ((e : Error) → r ≡ err e → Cause e)
            → Deletes Cause seen (
                continue (λ u. return {State = Requests} (total + length rest))
                  (sent ++ rest ∷ [], r))) [
                    | err e ↦ λ cause. (all, cause e refl)
                    | ok u ↦ λ cause. (
                      all,
                      order,
                      ap (λ n. n + length rest) w.3
                          ∙ sym (length-append (joined sent) rest)
                          ∙ ap length w.2,
                    )
                  ])
        (raises rest)

-- Every request of `delete_prefix` has between 1 and 1000 keys, also where a call raises. It raises
-- nothing but what a page of the listing or a request raises; where it returns, the requests hold
-- each key that the pages list once, in the order of the pages, and the number returned is the
-- number of these keys.
pub delete_prefix-Deletes :
    (answer : List String → Result (Unit {0})) (pages : List (Result (List String)))
    → Deletes
        (λ e. PageRaises pages e ⊎ RequestRaises answer e)
        (listed_keys pages)
        (delete_prefix (send answer) pages [])
unfolding delete_prefix
delete_prefix-Deletes answer pages =
    let Cause = λ (e : Error). PageRaises pages e ⊎ RequestRaises answer e in
    send_rest-Deletes answer Cause (λ keys e r. inr (keys, r)) (listed_keys pages)
      (add_pages (send answer) pages ([], 0) [])
      (add_pages-Waits answer Cause (λ keys e r. inr (keys, r)) [] pages (λ e p. inl p) [] ([], 0)
        (tt, omega arith, refl, refl))
