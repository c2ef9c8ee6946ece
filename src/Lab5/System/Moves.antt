-- ===== src/Lab5/System/Moves.antt =====
-- A write of a task completes, and what every step of a task keeps.
use mathlib.Core.Path.{ap₂, subst}
use spovm4_labs.Base.{
  length, take, drop, get_or, ltb, if◌then◌else◌, ltb→lt, Bool-cases, ℕ, ◌+◌, ◌-◌, ◌*◌, ◌^◌, ◌≤◌,
  ◌<◌, ◌≡◌, ◌⊎◌, refl, sym, ap, ◌∙◌, inl, inr, true, List, ◌++◌, arith,
}
use spovm4_labs.Base.Cuts.{take-append, length-take, length-drop}
use spovm4_labs.Lab5.Copy.{IsTextFile, starts_with_byte-take, drop-IsTextFile}
use spovm4_labs.Lab5.Rounds.{chunk, chunk-pos, chunk-le, chunk-full}
use spovm4_labs.Lab5.System.{
  FileOperations, Stage, to_read, reading, to_write, writing, complete_, overflowed, Entry,
  finish_write, move,
}
use spovm4_labs.Lab5.System.Stages.{
  get_or-take, get_or-drop, IsAsked, IsCopied, StandsAt, IsCopying, start_read-IsCopying,
  finish_read-IsCopying, start_write-IsCopying,
}
use spovm4_labs.Lab5.Task.{starts_with_byte}

module _ {F : Type 0} (files : FileOperations F) (fd size : ℕ) (some_size : 0 < size) where
  -- what a request writes
  sent :
      (w d : ℕ) (e : Entry) (rest : List ℕ)
      → IsAsked e.source size d e.task
      → e.task.aio_buf ≡ take (chunk e.source size d) (drop d e.source) ++ rest
      → take e.task.aio_nbytes e.task.aio_buf ≡ take (chunk e.source size d) (drop d e.source)
  sent w d e rest asked buf =
      let n = chunk e.source size d in
      ap₂ take asked.asks buf
      ∙ take-append n (take n (drop d e.source)) rest
          (length-take n (drop d e.source) (chunk-le e.source size d asked.more some_size))

  write-IsCopied :
      (source : List ℕ) (w d : ℕ) (f : F)
      → d < length source
      → IsCopied files source w d f
      → IsCopied files source w
          (d + size)
          (files.aio_write (w + d) (take (chunk source size d) (drop d source)) f)
  write-IsCopied source w d f more copied k near inside =
      let bs = take (chunk source size d) (drop d source) in
      let full : length bs ≡ chunk source size d =
        length-take (chunk source size d) (drop d source) (chunk-le source size d more some_size) in
      elim (Bool-cases (ltb k d)) [
        | inl old ↦
            files.byte-write_before (w + d) bs f (w + k) (ground arith)
            ∙ copied k (ltb→lt k d old) inside
        | inr new ↦
            let le : d ≤ k = ground arith in
            let within : k - d < chunk source size d = ground arith in
            ap (files.byte_at (files.aio_write (w + d) bs f)) (omega arith)
            ∙ files.byte-write_within (w + d) bs f (k - d) (omega arith)
            ∙ get_or-take (chunk source size d) (drop d source) (k - d) within
            ∙ get_or-drop d source (k - d)
            ∙ ap (λ i. get_or source i 0) (omega arith)
      ]

  finish_write-IsCopying :
      (w d offset : ℕ) (e : Entry) (f : F)
      → IsTextFile e.source
      → length e.source + size < 2 ^ 31
      → StandsAt files fd size (writing offset) e.source w d e.task
      → IsCopied files e.source w d f
      → IsCopying files fd size w
          (finish_write files fd size offset e f).0
          (finish_write files fd size offset e f).1
  unfolding finish_write
  finish_write-IsCopying w d offset e f text small (here, asked, into, fildes, rest, buf) copied =
      let n = chunk e.source size d in
      let bytes = sent w d e rest asked buf in
      let started : starts_with_byte e.task.aio_buf ≡ true =
        ap starts_with_byte buf
        ∙ starts_with_byte-take n (drop d e.source) rest
            (chunk-pos e.source size d asked.more some_size)
            (chunk-le e.source size d asked.more some_size) (drop-IsTextFile d e.source text) in
      record {
        at = d + size;
        is_text = text;
        small = small;
        stands = (
          record {
            sized = asked.sized;
            reading = asked.ahead;
            counted =
                ap (λ b. ((if b then 1 else 0) + e.task.buffers_written) * size) started
                ∙ omega (arith, asked.counted);
            whole = λ h. asked.asks ∙ chunk-full e.source size d asked.more some_size h;
          },
          into,
          omega (arith, asked.more),
          record {
            fildes = fildes ∙ ground arith;
            filled = λ h. omega (arith, asked.more);
            reaches = λ h. ground (arith, asked.asks, asked.more);
          },
        );
        copied =
            subst (λ b. IsCopied files e.source w (d + size) (files.aio_write offset b f))
              (sym bytes)
              (subst
                (λ o.
                  IsCopied files e.source w (d + size)
                    (files.aio_write o (take n (drop d e.source)) f))
                (sym here) (write-IsCopied e.source w d f asked.more copied));
      }

  finish_write-outside :
      (w d offset : ℕ) (e : Entry) (f : F) (k : ℕ)
      → StandsAt files fd size (writing offset) e.source w d e.task
      → (k < w) ⊎ (w + length e.source ≤ k)
      → files.byte_at (finish_write files fd size offset e f).1 k ≡ files.byte_at f k
  unfolding finish_write
  finish_write-outside w d offset e f k (here, asked, into, fildes, rest, buf) (inl before) =
      files.byte-write_before offset (take e.task.aio_nbytes e.task.aio_buf) f k (omega arith)
  finish_write-outside w d offset e f k (here, asked, into, fildes, rest, buf) (inr behind) =
      let n = chunk e.source size d in
      let le = chunk-le e.source size d asked.more some_size in
      let full : length (take e.task.aio_nbytes e.task.aio_buf) ≡ n =
        ap length (sent w d e rest asked buf) ∙ length-take n (drop d e.source) le in
      files.byte-write_behind offset (take e.task.aio_nbytes e.task.aio_buf) f k
        (omega (arith, full, le, length-drop d e.source, asked.more))

  -- The next step of a task keeps what is known of it.
  pub move-IsCopying :
      (w : ℕ) (st : Stage) (e : Entry) (f : F)
      → e.stage ≡ st
      → IsCopying files fd size w e f
      → IsCopying files fd size w (move files fd size st e f).0 (move files fd size st e f).1
  unfolding move
  move-IsCopying w st e f at c =
      dispatch st (subst (λ s. StandsAt files fd size s e.source w c.at e.task) at c.stands)
    where
      dispatch :
          (s : Stage)
          → StandsAt files fd size s e.source w c.at e.task
          → IsCopying files fd size w (move files fd size s e f).0 (move files fd size s e f).1
      dispatch to_read h =
          start_read-IsCopying files fd size some_size w c.at e f c.is_text c.small h c.copied
      dispatch (reading o) h =
          finish_read-IsCopying files fd size some_size w c.at o e f c.is_text c.small h c.copied
      dispatch to_write h =
          start_write-IsCopying files fd size some_size w c.at e f c.is_text c.small h c.copied
      dispatch (writing o) h = finish_write-IsCopying w c.at o e f c.is_text c.small h c.copied
      dispatch complete_ h = c
      dispatch overflowed h = absurd h

  -- The next step of a task writes to its own part of the target only.
  pub move-outside :
      (w : ℕ) (st : Stage) (e : Entry) (f : F) (k : ℕ)
      → e.stage ≡ st
      → IsCopying files fd size w e f
      → (k < w) ⊎ (w + length e.source ≤ k)
      → files.byte_at (move files fd size st e f).1 k ≡ files.byte_at f k
  unfolding move
  move-outside w to_read e f k at c out = refl
  move-outside w (reading o) e f k at c out = refl
  move-outside w to_write e f k at c out = refl
  move-outside w complete_ e f k at c out = refl
  move-outside w overflowed e f k at c out = refl
  move-outside w (writing o) e f k at c out =
      write_outside (subst (λ s. StandsAt files fd size s e.source w c.at e.task) at c.stands) out
    where
      write_outside :
          StandsAt files fd size (writing o) e.source w c.at e.task
          → (k < w) ⊎ (w + length e.source ≤ k)
          → files.byte_at (finish_write files fd size o e f).1 k ≡ files.byte_at f k
      write_outside h out' = finish_write-outside w c.at o e f k h out'
