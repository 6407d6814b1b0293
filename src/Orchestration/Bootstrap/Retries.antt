-- ===== src/Orchestration/Bootstrap/Retries.antt =====
-- A chunk's files are committed once, whatever its attempts meet.
use postgres_s3_warehouse_sy.Prelude.{
  ℕ, zero, suc, ◌+◌, String, ◌≡◌, ◌∙◌, refl, sym, ap, ◌⊎◌, inl, inr, Bool, true, false, Bool-cases,
  List, [], ◌∷◌, ◌++◌, length, length-append, arith,
}
use postgres_s3_warehouse_sy.Prelude.Int.{pos}
use postgres_s3_warehouse_sy.Prelude.Result.{
  Error, Result, ok, err, external, runtime_error, ok-injective,
}
use postgres_s3_warehouse_sy.State.Chunks.{
  list_done, put_chunk, list_done-put_chunk, list_done-put_other,
}
use postgres_s3_warehouse_sy.Load.Commit.{commit_files_with_retry-ok, append_empty}
use postgres_s3_warehouse_sy.Orchestration.Bootstrap.{
  Key, World, Weather, Extracted, Task, running_record, done_record, failed_record, fail_chunk,
  save_done, commit_step, extract_step, extract_chunk_op, retry_after, run_with_retries, collected,
  collect, run_chunks, sum_files, commit_chunks,
}

abbrev pub is_done : Key → World → Bool
is_done k s = list_done s.chunks k.run_id k.chunk_key

-- An attempt, or several, failed: no file was added and the chunk is as done as it was.
pub record Fails (k : Key) (s : World) (r : World × Result Extracted) : Type 0 where
  pub error : Error
  pub raised : r.1 ≡ err error
  pub same_files : r.0.files ≡ s.files
  pub same_state : is_done k r.0 ≡ is_done k s

-- They succeeded: the files that are returned were added, once, and the chunk is done. They are the
-- files of one attempt, or none where the chunk was done before.
pub record Commits (k : Key) (weather : ℕ → Weather) (s : World) (r : World × Result Extracted)
    : Type 0 where
  pub result : Extracted
  pub returned : r.1 ≡ ok result
  pub files_added : r.0.files ≡ s.files ++ result.s3_uris
  pub marked : is_done k r.0 ≡ true
  pub origin :
      ((is_done k s ≡ true) × (result.s3_uris ≡ []))
      ⊎ ((is_done k s ≡ false) × ((i : ℕ) × ((weather i).extraction ≡ ok result)))

fail_chunk-Fails :
    (k : Key) (w : Weather) (s s0 : World) (e : Error)
    → s.files ≡ s0.files
    → is_done k s ≡ false
    → is_done k s0 ≡ false
    → Fails k s0 (fail_chunk k w s e)
unfolding fail_chunk
fail_chunk-Fails k w s s0 e files undone undone0 = elim (Bool-cases w.failed_saved) [
  | inl saved ↦ rw saved (record {
    error = e;
    raised = refl;
    same_files = files;
    same_state =
        list_done-put_other s.chunks (failed_record k w.error_message) (inr refl) ∙ sym undone0;
  })
  | inr lost ↦ rw lost (record {
    error = external;
    raised = refl;
    same_files = files;
    same_state = undone ∙ sym undone0;
  })
]

module _ (k : Key) (weather : ℕ → Weather) (saved : (i : ℕ) → (weather i).done_saved ≡ true) where
  commit_step-Ends :
      (i : ℕ) (res : Extracted) (s s0 : World) (r : Result (List String))
      → s.files ≡ s0.files
      → is_done k s ≡ false
      → is_done k s0 ≡ false
      → (weather i).extraction ≡ ok res
      → ((files : List String) → r ≡ ok files → files ≡ s.files ++ res.s3_uris)
      → Fails k s0 (commit_step k (weather i) res s r)
        ⊎ Commits k weather s0 (commit_step k (weather i) res s r)
  unfolding commit_step save_done
  commit_step-Ends i res s s0 (ok files) same undone undone0 from adds = rw (saved i) (
      inr (record {
        result = res;
        returned = refl;
        files_added = adds files refl ∙ ap (λ fs. fs ++ res.s3_uris) same;
        marked = list_done-put_chunk s.chunks (done_record k res) refl;
        origin = inr (undone0, (i, from));
      }))
  commit_step-Ends i res s s0 (err e) same undone undone0 from adds =
      inl (fail_chunk-Fails k (weather i) s s0 e same undone undone0)

  extract_step-Ends :
      (i : ℕ) (s s0 : World) (r : Result Extracted)
      → s.files ≡ s0.files
      → is_done k s ≡ false
      → is_done k s0 ≡ false
      → (weather i).extraction ≡ r
      → Fails k s0 (extract_step k (weather i) s r)
        ⊎ Commits k weather s0 (extract_step k (weather i) s r)
  unfolding extract_step
  extract_step-Ends i s s0 (ok res) same undone undone0 from =
      commit_step-Ends i res s s0 _ same undone undone0 from
        (λ files e. commit_files_with_retry-ok 10 (weather i).commits s.files res.s3_uris files e)
  extract_step-Ends i s s0 (err e) same undone undone0 from =
      inl (fail_chunk-Fails k (weather i) s s0 e same undone undone0)

  extract_chunk_op-Ends :
      (i : ℕ) (s : World)
      → Fails k s (extract_chunk_op k (weather i) s)
        ⊎ Commits k weather s (extract_chunk_op k (weather i) s)
  unfolding extract_chunk_op
  extract_chunk_op-Ends i s = elim (Bool-cases (weather i).connection_found) [
    | inr lost ↦ simp lost (
        inl (record { error = runtime_error; raised = refl; same_files = refl; same_state = refl }))
    | inl found ↦ elim (Bool-cases (is_done k s)) [
      | inl before ↦
          simp (found, before)
            (inr (record {
              result = record { s3_uris = []; rows = pos 0 };
              returned = refl;
              files_added = append_empty s.files;
              marked = before;
              origin = inl (before, refl);
            }))
      | inr undone ↦ elim (Bool-cases (weather i).running_saved) [
        | inr lost ↦
            simp (found, undone, lost)
              (inl
                (record { error = external; raised = refl; same_files = refl; same_state = refl }))
        | inl put_ok ↦
            simp (found, undone, put_ok)
              (extract_step-Ends i (record s { chunks = put_chunk s.chunks (running_record k) }) s
                (weather i).extraction refl
                (list_done-put_other s.chunks (running_record k) (inl refl)) undone refl)
      ]
    ]
  ]

  retry_after-Ends :
      (s : World) (r : World × Result Extracted) (next : World → World × Result Extracted)
      → Fails k s r ⊎ Commits k weather s r
      → ((s' : World) → Fails k s' (next s') ⊎ Commits k weather s' (next s'))
      → Fails k s (retry_after r next) ⊎ Commits k weather s (retry_after r next)
  unfolding retry_after
  retry_after-Ends s (s', ok res) next h hn = h
  retry_after-Ends s (s', err e) next (inr c) hn = cc
  retry_after-Ends s (s', err e) next (inl f) hn = carry (hn s')
    where
      carry :
          Fails k s' (next s') ⊎ Commits k weather s' (next s')
          → Fails k s (next s') ⊎ Commits k weather s (next s')
      carry (inl g) = inl (record {
        error = g.error;
        raised = g.raised;
        same_files = g.same_files ∙ f.same_files;
        same_state = g.same_state ∙ f.same_state;
      })
      carry (inr c) = inr (record {
        result = c.result;
        returned = c.returned;
        files_added = c.files_added ∙ ap (λ fs. fs ++ c.result.s3_uris) f.same_files;
        marked = c.marked;
        origin = elim c.origin [
          | inl b ↦ inl (sym f.same_state ∙ b.0, b.1)
          | inr b ↦ inr (sym f.same_state ∙ b.0, b.1)
        ];
      })

  -- A chunk is committed at most once. Where every write of DONE is saved, running the op with any
  -- number of retries, whatever else fails in its attempts, ends in one of two ways: it raises, no
  -- file was added and the chunk is as done as before; or it returns, the returned files were added
  -- once after those of the table, and the chunk is done. Then they are the files of one attempt's
  -- extraction, or none if the chunk was done before.
  pub run_with_retries-Ends :
      (retries attempt : ℕ) (s : World)
      → Fails k s (run_with_retries retries attempt weather k s)
        ⊎ Commits k weather s (run_with_retries retries attempt weather k s)
  unfolding run_with_retries
  run_with_retries-Ends zero attempt s = extract_chunk_op-Ends attempt s
  run_with_retries-Ends (suc retries) attempt s =
      retry_after-Ends s _ _ (extract_chunk_op-Ends attempt s)
        (run_with_retries-Ends retries (suc attempt))

abbrev pub SavesDone : List Task → Type 0
SavesDone [] = Unit
SavesDone ((k, weather) ∷ tasks) = ((i : ℕ) → (weather i).done_saved ≡ true) × SavesDone tasks

-- A job that succeeds added as many files as the results name.
abbrev CountsOr : World → World × Result (List Extracted) → Type 0
CountsOr s (s', ok results) = length s'.files ≡ length s.files + sum_files results
CountsOr s (s', err e) = Unit

collected-Counts :
    (s s1 : World) (res : Extracted) (r : World × Result (List Extracted))
    → length s1.files ≡ length s.files + length res.s3_uris
    → CountsOr s1 r
    → CountsOr s (collected res r)
unfolding collected sum_files
collected-Counts s s1 res (s2, ok rest) e h = omega (arith, e, h)
collected-Counts s s1 res (s2, err x) e h = tt

collect-Counts :
    (k : Key) (weather : ℕ → Weather) (s : World) (r : World × Result Extracted)
    (next : World → World × Result (List Extracted))
    → Fails k s r ⊎ Commits k weather s r
    → ((s' : World) → CountsOr s' (next s'))
    → CountsOr s (collect r next)
unfolding collect
collect-Counts k weather s (s1, err e) next h hn = tt
collect-Counts k weather s (s1, ok res) next (inl f) hn = cc
collect-Counts k weather s (s1, ok res) next (inr c) hn =
    collected-Counts s s1 res (next s1)
      (ap (λ fs. length fs) c.files_added
        ∙ length-append s.files c.result.s3_uris
        ∙ ap (λ x. length s.files + length x.s3_uris) (sym (ok-injective c.returned)))
      (hn s1)

run_chunks-Counts :
    (tasks : List Task) (s : World) → SavesDone tasks → CountsOr s (run_chunks tasks s)
unfolding run_chunks sum_files
run_chunks-Counts [] s h = omega arith
run_chunks-Counts ((k, weather) ∷ tasks) s h =
    collect-Counts k weather s _ _ (run_with_retries-Ends k weather h.0 3 0 s)
      (λ s'. run_chunks-Counts tasks s' h.1)

CountsOr-ok :
    (s : World) (r : World × Result (List Extracted)) (results : List Extracted)
    → CountsOr s r
    → r.1 ≡ ok results
    → length r.0.files ≡ length s.files + sum_files results
CountsOr-ok s (s', ok rs) results h e = h ∙ ap (λ x. length s.files + sum_files x) (ok-injective e)
CountsOr-ok s (s', err x) results h e = cc

-- The totals of the finalizer are those of the table: where every write of DONE is saved and no
-- chunk runs out of retries, the job adds as many data files as `commit_chunks` reports.
pub commit_chunks-run_chunks :
    (tasks : List Task) (s : World) (results : List Extracted)
    → SavesDone tasks
    → (run_chunks tasks s).1 ≡ ok results
    → length (run_chunks tasks s).0.files ≡ length s.files + (commit_chunks results).files
unfolding commit_chunks
commit_chunks-run_chunks tasks s results h e =
    CountsOr-ok s (run_chunks tasks s) results (run_chunks-Counts tasks s h) e
