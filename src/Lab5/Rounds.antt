-- ===== src/Lab5/Rounds.antt =====
-- One round of the reader and the writer on a task.
use mathlib.Core.Path.{ap₂}
use spovm4_labs.Base.{
  length, drop, ltb, leb, if◌then◌else◌, le→leb, Bool-cases, ℕ, ◌+◌, ◌-◌, ◌*◌, ◌^◌, ◌≤◌, ◌<◌, ◌≡◌,
  sym, ap, ◌∙◌, inl, inr, true, false, List, ◌++◌, arith,
}
use spovm4_labs.Base.Cuts.{drop-drop, length-drop, drop_all}
use spovm4_labs.Lab5.Task.{reader, writer, Task, starts_with_byte, finished, request, reader_job}

-- The task when `d` bytes of the source have been asked for.
pub record IsAt (source : List ℕ) (size d : ℕ) (t : Task) : Type 0 where
  pub sized : t.source_file_size ≡ length source
  pub reading : t.read_offset ≡ d
  pub counted : ((if starts_with_byte t.aio_buf then 1 else 0) + t.buffers_written) * size ≡ d
  pub whole : d < length source → t.aio_nbytes ≡ size

-- one round: how many bytes, and the task behind it
abbrev pub chunk : List ℕ → ℕ → ℕ → ℕ
chunk source size d = if ltb (length source - d) size then length source - d else size

abbrev pub counter : Task → ℕ
counter t = (if starts_with_byte t.aio_buf then 1 else 0) + t.buffers_written

-- the task behind a round that reads the bytes `bs`
abbrev pub after : ℕ → Task → ℕ → ℕ → List ℕ → Task
after fd t size n bs = record t {
  buffers_written = counter t;
  executor = reader;
  aio_nbytes = n;
  aio_fildes = fd;
  read_offset = t.read_offset + size;
  write_offset = t.write_offset + size;
  aio_buf = bs ++ drop (length bs) t.aio_buf;
}

module _ (source : List ℕ) (size d : ℕ) (t : Task) (at : IsAt source size d t)
    (small : d < 2 ^ 31) where
  no_overflow : leb (2 ^ 31) (counter t * size) ≡ false
  no_overflow = ap (λ n. leb (2 ^ 31) n) at.counted ∙ ground arith

  pub reader_job-finished :
      length source ≤ d
      → reader_job size t ≡ finished (record t { buffers_written = counter t; executor = writer })
  unfolding reader_job
  reader_job-finished le =
      let all : leb t.source_file_size (counter t * size) ≡ true =
        ap₂ leb at.sized at.counted ∙ le→leb (length source) d le in
      rw (no_overflow, all)

  pub reader_job-request :
      d < length source
      → reader_job size t
        ≡ request t.read_offset (record t {
          buffers_written = counter t;
          executor = writer;
          aio_nbytes = chunk source size d;
          aio_fildes = t.source_file_fd;
          read_offset = t.read_offset + size;
        })
  unfolding reader_job
  reader_job-request lt =
      let more : leb t.source_file_size (counter t * size) ≡ false =
        ap₂ leb at.sized at.counted ∙ ground arith in
      rw (no_overflow, more)
        (ap
          (λ v. request t.read_offset (record t {
            buffers_written = counter t;
            executor = writer;
            aio_nbytes = v;
            aio_fildes = t.source_file_fd;
            read_offset = t.read_offset + size;
          }))
          (ap₂ (λ s w. if ltb (s - w) size then s - w else t.aio_nbytes) at.sized at.counted
            ∙ ap (λ v. if ltb (length source - d) size then length source - d else v)
                (at.whole lt)))

module _ (source : List ℕ) (size d : ℕ) (lt : d < length source) (some_size : 0 < size) where
  pub chunk-pos : 0 < chunk source size d
  chunk-pos = ground arith

  pub chunk-le : chunk source size d ≤ length (drop d source)
  chunk-le = ground (arith, length-drop d source)

  pub chunk-full : d + size < length source → chunk source size d ≡ size
  chunk-full h = ground arith

  pub drop-chunk : drop (chunk source size d) (drop d source) ≡ drop (d + size) source
  drop-chunk = elim (Bool-cases (ltb (length source - d) size)) [
    | inl last ↦ rw last (
        drop_all (length source - d) (drop d source) (omega (arith, length-drop d source))
        ∙ sym (drop_all (d + size) source (ground arith)))
    | inr full ↦ rw full (drop-drop d size source)
  ]
