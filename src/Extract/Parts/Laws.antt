-- ===== src/Extract/Parts/Laws.antt =====
-- The uploaded parts hold the rows of the COPY, in order and each once, in bounded parts.
use postgres_s3_warehouse_sy.Prelude.{
  ℕ, ◌+◌, ◌≤◌, ◌<◌, ◌≡◌, ◌∙◌, sym, ap, refl, false, Bool-cases, inl, inr, List, [], ◌∷◌, ◌++◌,
  arith, leb, ltb, length, length-append, All, All-append,
}
use mathlib.Core.List.{append-nil, append_assoc}
use postgres_s3_warehouse_sy.Prelude.Int.{ℤ, pos, pos_part, max_ℤ}
use postgres_s3_warehouse_sy.Extract.Parts.{
  Part, Writer, opened, take_row, stream, flush_rest, finish_rest, write_parts, row_group_rows,
  part_rows_limit,
}

module _ {ℓ} {A : Type ℓ} where
  abbrev pub contents : List (Part A) → List A
  contents [] = []
  contents (p ∷ ps) = p.rows ++ contents ps

  contents-append :
      (ps : List (Part A)) (p : Part A) → contents (ps ++ p ∷ []) ≡ contents ps ++ p.rows
  contents-append [] p = append-nil p.rows
  contents-append (q ∷ ps) p = rw (contents-append ps p) (sym (append_assoc q.rows _ _))

  -- The parts are numbered n, n + 1 and so on.
  abbrev pub PartsFrom : ℕ → List (Part A) → Type 0
  PartsFrom n [] = Unit
  PartsFrom n (p ∷ ps) = (p.index ≡ n) × PartsFrom (n + 1) ps

  PartsFrom-append :
      (n : ℕ) (ps : List (Part A)) (p : Part A)
      → p.index ≡ n + length ps
      → PartsFrom n ps
      → PartsFrom n (ps ++ p ∷ [])
  PartsFrom-append n [] p e h = (omega arith, tt)
  PartsFrom-append n (q ∷ ps) p e h = (h.0, PartsFrom-append (n + 1) ps p (omega arith) h.1)

  abbrev pub written : Writer A → List A
  written w = (contents w.uploaded ++ w.open_rows) ++ w.batch

  nil_of_length : (xs : List A) → ltb 0 (length xs) ≡ false → xs ≡ []
  nil_of_length [] h = refl
  nil_of_length (x ∷ xs) h = ground arith

  module _ (group limit : ℕ) where
    -- A part that was rolled over is not empty and not much larger than the limit.
    abbrev pub FitsPart : Part A → Type 0
    FitsPart p = (0 < length p.rows) × (length p.rows < limit + group)

    -- What holds of the loop's variables before every row, `seen` being the rows so far.
    pub record IsWriting (w : Writer A) (seen : List A) : Type ℓ where
      pub all_rows : written w ≡ seen
      pub open_size : w.part_rows ≡ length w.open_rows
      pub counted : w.rows_written + length w.batch ≡ length seen
      pub small_batch : length w.batch < group
      pub small_part : w.part_rows < limit
      pub next_index : w.part_idx ≡ length w.uploaded
      pub numbered : PartsFrom 0 w.uploaded
      pub sizes : All FitsPart w.uploaded

    module _ (w : Writer A) (seen : List A) (row : A) (h : IsWriting w seen) where
      abbrev batched : List A
      batched = w.batch ++ row ∷ []

      length-batched : length batched ≡ length w.batch + 1
      length-batched = omega (arith, length-append {ℓ} w.batch (row ∷ []))

      length-flushed : length (w.open_rows ++ batched) ≡ w.part_rows + length w.batch + 1
      length-flushed =
          omega (arith, length-append {ℓ} w.open_rows batched, length-batched, h.open_size)

      length-seen : length (seen ++ row ∷ []) ≡ w.rows_written + length w.batch + 1
      length-seen = omega (arith, length-append {ℓ} seen (row ∷ []), h.counted)

      written-batched : contents w.uploaded ++ (w.open_rows ++ batched) ≡ seen ++ row ∷ []
      written-batched = simp append_assoc at (ap (λ l. l ++ row ∷ []) h.all_rows)

    -- One row more, whether it stays in the batch, is flushed, or ends a part.
    take_row-IsWriting :
        (w : Writer A) (seen : List A) (row : A)
        → 0 < limit
        → IsWriting w seen
        → IsWriting (take_row group limit w row) (seen ++ row ∷ [])
    unfolding take_row
    take_row-IsWriting w seen row some_limit h =
        elim (Bool-cases (leb group (length (batched w seen row h)))) [
          | inr small ↦ rw small (record {
            all_rows = simp append_assoc (written-batched w seen row h);
            open_size = h.open_size;
            counted = omega (arith, length-batched w seen row h, length-seen w seen row h);
            small_batch = ground arith;
            small_part = h.small_part;
            next_index = h.next_index;
            numbered = h.numbered;
            sizes = h.sizes;
          })
          | inl full ↦
              rw full (elim (Bool-cases (leb limit (w.part_rows + length (batched w seen row h)))) [
                | inr room ↦ rw room (record {
                  all_rows = simp append-nil (written-batched w seen row h);
                  open_size =
                      omega (arith, length-batched w seen row h, length-flushed w seen row h);
                  counted = omega (arith, length-batched w seen row h, length-seen w seen row h);
                  small_batch = omega (arith, h.small_batch);
                  small_part = ground arith;
                  next_index = h.next_index;
                  numbered = h.numbered;
                  sizes = h.sizes;
                })
                | inl over ↦ rw over (record {
                  all_rows = simp (contents-append, append-nil) (written-batched w seen row h);
                  open_size = refl;
                  counted = omega (arith, length-batched w seen row h, length-seen w seen row h);
                  small_batch = omega (arith, h.small_batch);
                  small_part = some_limit;
                  next_index = omega (arith, length-append {ℓ} w.uploaded, h.next_index);
                  numbered =
                      PartsFrom-append 0 w.uploaded _ (omega (arith, h.next_index)) h.numbered;
                  sizes = All-append FitsPart w.uploaded _ h.sizes (
                    (
                      omega (arith, length-flushed w seen row h),
                      omega (arith, length-flushed w seen row h, h.small_part, h.small_batch),
                    ),
                    tt,
                  );
                })
              ])
        ]

    stream-IsWriting :
        (w : Writer A) (seen rows : List A)
        → 0 < limit
        → IsWriting w seen
        → IsWriting (stream group limit w rows) (seen ++ rows)
    unfolding stream
    stream-IsWriting w seen [] some_limit h = rw append-nil h
    stream-IsWriting w seen (row ∷ rows) some_limit h =
        let next = take_row-IsWriting w seen row some_limit h in
        let rest =
          stream-IsWriting (take_row group limit w row) (seen ++ row ∷ []) rows some_limit next in
        rw append_assoc at rest

    -- What is known when the stream has ended and the last part is closed.
    pub record IsFinished (w : Writer A) (rows : List A) : Type ℓ where
      pub all_rows : contents w.uploaded ≡ rows
      pub counted : w.rows_written ≡ length rows
      pub numbered : PartsFrom 0 w.uploaded
      pub sizes : All FitsPart w.uploaded

    -- Between the last flush and the last part.
    record IsFlushed (w : Writer A) (rows : List A) : Type ℓ where
      all_rows : contents w.uploaded ++ w.open_rows ≡ rows
      open_size : w.part_rows ≡ length w.open_rows
      counted : w.rows_written ≡ length rows
      small_part : w.part_rows < limit + group
      next_index : w.part_idx ≡ length w.uploaded
      numbered : PartsFrom 0 w.uploaded
      sizes : All FitsPart w.uploaded

    flush_rest-IsFlushed :
        (w : Writer A) (rows : List A) → IsWriting w rows → IsFlushed (flush_rest w) rows
    unfolding flush_rest
    flush_rest-IsFlushed w rows h = elim (Bool-cases (ltb 0 (length w.batch))) [
      | inl some_left ↦ rw some_left (record {
        all_rows = rw append_assoc at h.all_rows;
        open_size = omega (arith, length-append {ℓ} w.open_rows w.batch, h.open_size);
        counted = h.counted;
        small_part = omega (arith, h.small_part, h.small_batch);
        next_index = h.next_index;
        numbered = h.numbered;
        sizes = h.sizes;
      })
      | inr none_left ↦ rw none_left (record {
        all_rows = sym (append-nil _) ∙ rw (nil_of_length w.batch none_left) at h.all_rows;
        open_size = h.open_size;
        counted = omega (arith, h.counted, ap (length {ℓ}) (nil_of_length w.batch none_left));
        small_part = omega (arith, h.small_part, h.small_batch);
        next_index = h.next_index;
        numbered = h.numbered;
        sizes = h.sizes;
      })
    ]

    finish_rest-IsFinished :
        (w : Writer A) (rows : List A) → IsFlushed w rows → IsFinished (finish_rest w) rows
    unfolding finish_rest
    finish_rest-IsFinished w rows h = elim (Bool-cases (ltb 0 w.part_rows)) [
      | inl some_left ↦ rw some_left (record {
        all_rows = contents-append w.uploaded _ ∙ h.all_rows;
        counted = h.counted;
        numbered = PartsFrom-append 0 w.uploaded _ (omega (arith, h.next_index)) h.numbered;
        sizes =
            All-append FitsPart w.uploaded _ h.sizes
              ((ground (arith, h.open_size), omega (arith, h.open_size, h.small_part)), tt);
      })
      | inr none_left ↦ rw none_left (record {
        all_rows =
            sym (append-nil _)
            ∙ rw (nil_of_length w.open_rows (rw h.open_size at none_left)) at h.all_rows;
        counted = h.counted;
        numbered = h.numbered;
        sizes = h.sizes;
      })
    ]

max_ℤ-le : (a : ℕ) (b : ℤ) → a ≤ pos_part (max_ℤ (pos a) b)
max_ℤ-le a b = ground arith

-- Whatever the row group and chunk settings are, negative ones included: the uploaded parts
-- together hold the rows of the COPY, in order and each once; `rows_written` counts them; the
-- parts are numbered 0, 1, 2 and so on, so no upload overwrites another; no part is empty, and
-- each has fewer rows than the limit and one row group together.
pub write_parts-IsFinished {ℓ} :
    {A : Type ℓ} (row_group rows_per_chunk : ℤ) (rows : List A)
    → IsFinished
        (row_group_rows row_group)
        (part_rows_limit (row_group_rows row_group) rows_per_chunk)
        (write_parts row_group rows_per_chunk rows)
        rows
unfolding write_parts row_group_rows part_rows_limit opened
write_parts-IsFinished row_group rows_per_chunk rows = finish_rest-IsFinished group limit _ rows (
    flush_rest-IsFlushed group limit _ rows (
      stream-IsWriting group limit opened [] rows
        (omega (arith, some_group, max_ℤ-le group rows_per_chunk))
        (record {
          all_rows = refl;
          open_size = refl;
          counted = refl;
          small_batch = some_group;
          small_part = omega (arith, some_group, max_ℤ-le group rows_per_chunk);
          next_index = refl;
          numbered = tt;
          sizes = tt;
        })))
  where
    group : ℕ
    group = row_group_rows row_group

    limit : ℕ
    limit = part_rows_limit group rows_per_chunk

    some_group : 0 < group
    some_group = max_ℤ-le 1 row_group
