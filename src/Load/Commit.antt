-- ===== src/Load/Commit.antt =====
-- load/iceberg_writer.py: data files added to a table under concurrent commits.
-- What `load_table` and `add_files` do at each attempt is an argument. `add_files` is atomic: an
-- attempt that fails adds nothing.
use postgres_s3_warehouse_sy.Prelude.{
  ℕ, zero, suc, ◌+◌, ◌<◌, String, ◌≡◌, ◌∙◌, ap, sym, refl, List, [], ◌∷◌, ◌++◌, arith,
}
use postgres_s3_warehouse_sy.Prelude.Result.{Error, Result, ok, err, runtime_error, ok-injective}

pub data Attempt : Type 0 where
  added conflict : Attempt
  raises : Error → Attempt

commit_at : Attempt → List String → List String → Result (List String) → Result (List String)
commit_at added files uris next = ok (files ++ uris)
commit_at conflict files uris next = next
commit_at (raises e) files uris next = err e

-- The loop over the attempts that are left; the table's files afterwards.
commit_loop : ℕ → ℕ → (ℕ → Attempt) → List String → List String → Result (List String)
unfolding commit_at
commit_loop zero attempt answers files uris = err runtime_error
commit_loop (suc left) attempt answers files uris =
    commit_at (answers attempt) files uris (commit_loop left (suc attempt) answers files uris)

unfoldable pub commit_files_with_retry :
    ℕ → (ℕ → Attempt) → List String → List String → Result (List String)
unfolding commit_loop
commit_files_with_retry max_attempts answers files [] = ok files
commit_files_with_retry max_attempts answers files (uri ∷ uris) =
    commit_loop max_attempts 0 answers files (uri ∷ uris)

later_conflicts :
    (attempt n : ℕ) (answers : ℕ → Attempt)
    → ((i : ℕ) → i < suc n → answers (attempt + i) ≡ conflict)
    → (i : ℕ) → i < n
    → answers (suc attempt + i) ≡ conflict
later_conflicts attempt n answers h i lt = ap answers (omega arith) ∙ h (suc i) (omega arith)

first_conflict :
    (attempt n : ℕ) (answers : ℕ → Attempt)
    → ((i : ℕ) → i < suc n → answers (attempt + i) ≡ conflict)
    → answers attempt ≡ conflict
first_conflict attempt n answers h = ap answers (omega arith) ∙ h 0 (omega arith)

commit_loop-first :
    (left attempt n : ℕ) (answers : ℕ → Attempt) (files uris : List String)
    (r : Result (List String))
    → n < left
    → ((i : ℕ) → i < n → answers (attempt + i) ≡ conflict)
    → ((next : Result (List String)) → commit_at (answers (attempt + n)) files uris next ≡ r)
    → commit_loop left attempt answers files uris ≡ r
unfolding commit_loop
commit_loop-first zero attempt n answers files uris r lt h d = ground arith
commit_loop-first (suc left) attempt zero answers files uris r lt h d =
    let e : attempt ≡ attempt + 0 = omega arith in
    ap (λ a. commit_at (answers a) files uris (commit_loop left (suc attempt) answers files uris)) e
    ∙ d (commit_loop left (suc attempt) answers files uris)
commit_loop-first (suc left) attempt (suc n) answers files uris r lt h d =
    let e : suc attempt + n ≡ attempt + suc n = omega arith in
    rw (first_conflict attempt n answers h) (
      commit_loop-first left (suc attempt) n answers files uris r (omega arith)
        (later_conflicts attempt n answers h)
        (λ next. ap (λ a. commit_at (answers a) files uris next) e ∙ d next))

commit_loop-exhausted :
    (left attempt : ℕ) (answers : ℕ → Attempt) (files uris : List String)
    → ((i : ℕ) → i < left → answers (attempt + i) ≡ conflict)
    → commit_loop left attempt answers files uris ≡ err runtime_error
unfolding commit_loop
commit_loop-exhausted zero attempt answers files uris h = refl
commit_loop-exhausted (suc left) attempt answers files uris h =
    rw (first_conflict attempt left answers h) (
      commit_loop-exhausted left (suc attempt) answers files uris
        (later_conflicts attempt left answers h))

-- What a commit with at most `max_attempts` attempts comes to, after `n` conflicts.
pub record Decides (max_attempts n : ℕ) (answers : ℕ → Attempt) (files uris : List String)
    (r : Result (List String)) : Type 0 where
  pub adds : n < max_attempts → answers n ≡ added → r ≡ ok (files ++ uris)
  pub fails : (e : Error) → n < max_attempts → answers n ≡ raises e → r ≡ err e
  pub exhausts : n ≡ max_attempts → r ≡ err runtime_error

-- A commit of at least one file is decided by the first attempt that does not conflict, if that is
-- one of the first `max_attempts`: where it adds the files they are in the table once, after those
-- that were there, and where it raises its error is raised. If `max_attempts` attempts conflict,
-- RuntimeError is raised.
pub commit_files_with_retry-Decides :
    (max_attempts n : ℕ) (answers : ℕ → Attempt) (files : List String) (uri : String)
    (uris : List String)
    → ((i : ℕ) → i < n → answers i ≡ conflict)
    → Decides max_attempts n answers files
        (uri ∷ uris)
        (commit_files_with_retry max_attempts answers files (uri ∷ uris))
unfolding commit_files_with_retry commit_at
commit_files_with_retry-Decides max_attempts n answers files uri uris h = record {
  adds = λ lt a.
      commit_loop-first max_attempts 0 n answers files (uri ∷ uris) _ lt at_zero
        (λ next. rw (at_n, a) refl);
  fails = λ e lt a.
      commit_loop-first max_attempts 0 n answers files (uri ∷ uris) _ lt at_zero
        (λ next. rw (at_n, a) refl);
  exhausts = λ e.
      commit_loop-exhausted max_attempts 0 answers files (uri ∷ uris)
        (λ i lt. at_zero i (omega arith));
}
  where
    at_n : 0 + n ≡ n
    at_n = omega arith

    at_zero : (i : ℕ) → i < n → answers (0 + i) ≡ conflict
    at_zero i lt = ap answers (omega arith) ∙ h i lt

commit_at-ok :
    (x : Attempt) (files uris files' : List String) (next : Result (List String))
    → (next ≡ ok files' → files' ≡ files ++ uris)
    → commit_at x files uris next ≡ ok files'
    → files' ≡ files ++ uris
unfolding commit_at
commit_at-ok added files uris files' next h e = sym (ok-injective e)
commit_at-ok conflict files uris files' next h e = h e
commit_at-ok (raises x) files uris files' next h e = cc

-- A commit that succeeds has added the files, once, after those that were there.
commit_loop-ok :
    (left attempt : ℕ) (answers : ℕ → Attempt) (files uris files' : List String)
    → commit_loop left attempt answers files uris ≡ ok files'
    → files' ≡ files ++ uris
unfolding commit_loop
commit_loop-ok zero attempt answers files uris files' h = cc
commit_loop-ok (suc left) attempt answers files uris files' h =
    commit_at-ok (answers attempt) files uris files' _
      (commit_loop-ok left (suc attempt) answers files uris files') h

pub append_empty : (files : List String) → files ≡ files ++ []
append_empty [] = refl
append_empty (f ∷ files) = ap (λ fs. f ∷ fs) (append_empty files)

pub commit_files_with_retry-ok :
    (max_attempts : ℕ) (answers : ℕ → Attempt) (files uris files' : List String)
    → commit_files_with_retry max_attempts answers files uris ≡ ok files'
    → files' ≡ files ++ uris
unfolding commit_files_with_retry
commit_files_with_retry-ok max_attempts answers files [] files' h =
    sym (ok-injective h) ∙ append_empty files
commit_files_with_retry-ok max_attempts answers files (uri ∷ uris) files' h =
    commit_loop-ok max_attempts 0 answers files (uri ∷ uris) files' h
