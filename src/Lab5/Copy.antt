-- ===== src/Lab5/Copy.antt =====
-- What the reader and the writer make of a file.
use mathlib.Core.Path.{ap₂, subst}
use spovm4_labs.Base.{
  length, take, drop, take-append-drop, ltb, ◌==◌, if◌then◌else◌, ltb→lt, Bool-cases, ℕ, zero, suc,
  ◌+◌, ◌*◌, ◌^◌, ◌≤◌, ◌<◌, ◌≡◌, refl, sym, ap, ◌∙◌, inl, inr, true, false, Option, some, List, [],
  ◌∷◌, ◌++◌, arith,
}
use spovm4_labs.Base.Cuts.{take-append, length-take, drop_all}
use spovm4_labs.Lab5.Rounds.{
  IsAt, chunk, counter, after, reader_job-finished, reader_job-request, chunk-pos, chunk-le,
  chunk-full, drop-chunk,
}
use spovm4_labs.Lab5.Task.{
  writer, Task, Context, zeros, create_task, starts_with_byte, finished, request, reader_job,
  writer_job, complete, prepend, run_task,
}

-- No byte is NUL.
abbrev pub IsTextFile : List ℕ → Type 0
IsTextFile [] = Unit
IsTextFile (b ∷ bs) = ((b == 0) ≡ false) × IsTextFile bs

-- the bytes of all writes, in order
abbrev pub written : List (ℕ × List ℕ) → List ℕ
written [] = []
written ((o, b) ∷ ws) = b ++ written ws

-- Each write starts where the one before ended, the first at `w`.
abbrev pub AreAdjacent : ℕ → List (ℕ × List ℕ) → Type 0
AreAdjacent w [] = Unit
AreAdjacent w ((o, b) ∷ ws) = (o ≡ w) × AreAdjacent (w + length b) ws

pub drop-IsTextFile : (n : ℕ) (bs : List ℕ) → IsTextFile bs → IsTextFile (drop n bs)
drop-IsTextFile zero bs h = h
drop-IsTextFile (suc n) [] h = tt
drop-IsTextFile (suc n) (b ∷ bs) h = drop-IsTextFile n bs h.1

-- The buffer starts with a byte once some of a text file have been read into it.
pub starts_with_byte-take :
    (n : ℕ) (bs xs : List ℕ)
    → 0 < n
    → n ≤ length bs
    → IsTextFile bs
    → starts_with_byte (take n bs ++ xs) ≡ true
starts_with_byte-take zero bs xs p h t = absurd (omega arith)
starts_with_byte-take (suc n) [] xs p h t = absurd (omega arith)
starts_with_byte-take (suc n) (b ∷ bs) xs p h t = rw t.0

pub starts_with_byte-zeros : (n : ℕ) → starts_with_byte (zeros n) ≡ false
starts_with_byte-zeros zero = refl
starts_with_byte-zeros (suc n) = refl

module _ (source : List ℕ) (size fd : ℕ) (aio_read : ℕ → ℕ → List ℕ)
    (reads : (offset n : ℕ) → aio_read offset n ≡ take n (drop offset source))
    (some_size : 0 < size) (small : length source + size < 2 ^ 31)
    (is_text : IsTextFile source) where
  after-IsAt :
      (d : ℕ) (t : Task)
      → IsAt source size d t
      → d < length source
      → IsAt source size
          (d + size)
          (after fd t size (chunk source size d) (take (chunk source size d) (drop d source)))
  after-IsAt d t at lt =
      let n = chunk source size d in
      let started =
        starts_with_byte-take n (drop d source) (drop (length (take n (drop d source))) t.aio_buf)
          (chunk-pos source size d lt some_size) (chunk-le source size d lt some_size)
          (drop-IsTextFile d source is_text) in
      record {
        sized = at.sized;
        reading = ap (λ o. o + size) at.reading;
        counted =
            ap (λ b. ((if b then 1 else 0) + counter t) * size) started ∙ omega (arith, at.counted);
        whole = chunk-full source size d lt some_size;
      }

  -- what a round with the bytes `bs` gives
  abbrev round : ℕ → Task → ℕ → List ℕ → Option (List (ℕ × List ℕ))
  round k t n bs =
      prepend (t.write_offset, take n (bs ++ drop (length bs) t.aio_buf))
        (run_task aio_read fd k size (after fd t size n bs))

  run_task-step :
      (k : ℕ) (t : Task) (n : ℕ)
      → reader_job size t
        ≡ request t.read_offset (record t {
          buffers_written = counter t;
          executor = writer;
          aio_nbytes = n;
          aio_fildes = t.source_file_fd;
          read_offset = t.read_offset + size;
        })
      → run_task aio_read fd (suc k) size t ≡ round k t n (aio_read t.read_offset n)
  unfolding run_task writer_job complete
  run_task-step k t n e = rw (run_task, e)

  run_task-finished :
      (k : ℕ) (t : Task) {t' : Task}
      → reader_job size t ≡ finished t'
      → run_task aio_read fd (suc k) size t ≡ some []
  unfolding run_task
  run_task-finished k t e = rw (run_task, e)

  next_adjacent :
      (d : ℕ) (t : Task) (ws : List (ℕ × List ℕ)) (bs : List ℕ)
      → d < length source
      → length bs ≡ chunk source size d
      → AreAdjacent (t.write_offset + size) ws
      → (length source ≤ d + size → ws ≡ [])
      → AreAdjacent (t.write_offset + length bs) ws
  next_adjacent d t ws bs lt full adjacent last =
      elim (Bool-cases (ltb (d + size) (length source))) [
        | inl more ↦
            let e : length bs ≡ size =
              full
              ∙ chunk-full source size d lt some_size (ltb→lt (d + size) (length source) more) in
            subst (λ l. AreAdjacent (t.write_offset + l) ws) (sym e) adjacent
        | inr none_left ↦
            subst (λ l. AreAdjacent (t.write_offset + length bs) l) (sym (last (ground arith))) tt
      ]

  -- The writes are the rest of the source in order.
  run_task-rest :
      (k d : ℕ) (t : Task)
      → IsAt source size d t
      → d < length source + size
      → 0 < k
      → length source < d + k
      → (ws : List (ℕ × List ℕ)) × (run_task aio_read fd k size t ≡ some ws)
        × (written ws ≡ drop d source)
        × AreAdjacent t.write_offset ws
        × (length source ≤ d → ws ≡ [])
  run_task-rest zero d t at u p l = absurd (omega arith)
  run_task-rest (suc k) d t at u p l = elim (Bool-cases (ltb d (length source))) [
    | inl more ↦
        let lt : d < length source = ltb→lt d (length source) more in
        let n = chunk source size d in
        let bs = take n (drop d source) in
        let full : length bs ≡ n =
          length-take n (drop d source) (chunk-le source size d lt some_size) in
        let found : aio_read t.read_offset n ≡ bs =
          reads t.read_offset n ∙ ap (λ o. take n (drop o source)) at.reading in
        let (ws, run, bytes, adjacent, last) =
          run_task-rest k (d + size) (after fd t size n bs) (after-IsAt d t at lt) (omega arith)
            (omega arith) (omega arith) in
        let sent : take n (bs ++ drop (length bs) t.aio_buf) ≡ bs =
          take-append n bs (drop (length bs) t.aio_buf) full in
        (
          (t.write_offset, bs) ∷ ws,
          run_task-step k t n (reader_job-request source size d t at (omega arith) lt)
              ∙ ap (round k t n) found
              ∙ ap₂ (λ b r. prepend (t.write_offset, b) r) sent run,
          ap (λ r. bs ++ r) (bytes ∙ sym (drop-chunk source size d lt some_size))
              ∙ take-append-drop n (drop d source),
          (refl, next_adjacent d t ws bs lt full adjacent last),
          λ le. absurd (omega arith),
        )
    | inr none_left ↦
        let le : length source ≤ d = ground arith in
        (
          [],
          run_task-finished k t (reader_job-finished source size d t at (omega arith) le),
          sym (drop_all d source le),
          tt,
          λ e. refl,
        )
  ]

-- For a source without NUL bytes and below 2 GiB with a buffer to spare, where a read at an offset
-- finds the bytes that stand there and every request completes: the writes that the task of
-- create_task requests are, in order, exactly the bytes of the source, each starts where the one
-- before ended, the first at the expected size of the target, which create_task raises by the size
-- of the source; as many rounds as the source has bytes and one more are enough.
pub run_task-copies :
    (source : List ℕ) (fd : ℕ) (aio_read : ℕ → ℕ → List ℕ) (context : Context)
    → ((offset n : ℕ) → aio_read offset n ≡ take n (drop offset source))
    → 0 < context.buffer_size
    → length source + context.buffer_size < 2 ^ 31
    → IsTextFile source
    → (ws : List (ℕ × List ℕ)) × (run_task aio_read context.target_file_fd
          (suc (length source))
          context.buffer_size
          ((create_task context fd (length source)).0)
        ≡ some ws)
      × (written ws ≡ source)
      × AreAdjacent context.target_file_expected_size ws
      × ((create_task context fd (length source)).1.target_file_expected_size
          ≡ context.target_file_expected_size + length source)
unfolding create_task
run_task-copies source fd aio_read context reads some_size small is_text =
    let t = (create_task context fd (length source)).0 in
    let start : starts_with_byte (zeros context.buffer_size) ≡ false =
      starts_with_byte-zeros context.buffer_size in
    let at : IsAt source context.buffer_size 0 t = record {
      sized = refl;
      reading = refl;
      counted = ap (λ b. ((if b then 1 else 0) + 0) * context.buffer_size) start ∙ omega arith;
      whole = λ h. refl;
    } in
    let (ws, run, bytes, adjacent, _) =
      run_task-rest source context.buffer_size context.target_file_fd aio_read reads some_size small
        is_text (suc (length source)) 0 t at (omega arith) (omega arith) (omega arith) in
    (ws, run, bytes, adjacent, refl)
