-- ===== src/Lab5/System/Stages.antt =====
-- What is known of one task at each of its stages, and that the task's own steps keep it.
use mathlib.Core.Path.{ap₂, subst}
use spovm4_labs.Base.{
  ◌==◌, ◌≢◌, min, length, take, drop, get_or, ltb, if◌then◌else◌, ltb→lt, Bool-cases, ℕ, zero, suc,
  ◌+◌, ◌-◌, ◌*◌, ◌^◌, ◌≤◌, ◌<◌, ◌≡◌, refl, sym, ap, ◌∙◌, inl, inr, List, [], ◌∷◌, ◌++◌, arith,
}
use spovm4_labs.Lab5.Copy.{IsTextFile}
use spovm4_labs.Lab5.Rounds.{IsAt, chunk, reader_job-finished, reader_job-request}
use spovm4_labs.Lab5.System.{
  FileOperations, after_reader, Stage, to_read, reading, to_write, writing, complete_, overflowed,
  Entry, start_read, finish_read, start_write,
}
use spovm4_labs.Lab5.Task.{Task, writer_job, complete}

pub get_or-take : (n : ℕ) (bs : List ℕ) (k : ℕ) → k < n → get_or (take n bs) k 0 ≡ get_or bs k 0
get_or-take zero bs k h = absurd (omega arith)
get_or-take (suc n) [] k h = refl
get_or-take (suc n) (b ∷ bs) zero h = refl
get_or-take (suc n) (b ∷ bs) (suc k) h = get_or-take n bs k (omega arith)

pub get_or-drop : (n : ℕ) (bs : List ℕ) (k : ℕ) → get_or (drop n bs) k 0 ≡ get_or bs (n + k) 0
get_or-drop zero bs k = ap (λ i. get_or bs i 0) (omega arith)
get_or-drop (suc n) [] k = refl
get_or-drop (suc n) (b ∷ bs) k =
    let e : suc (n + k) ≡ suc n + k = omega arith in
    get_or-drop n bs k ∙ ap (λ i. get_or (b ∷ bs) i 0) e

-- The task while a request for the bytes at `d` is under way.
pub record IsAsked (source : List ℕ) (size d : ℕ) (t : Task) : Type 0 where
  pub sized : t.source_file_size ≡ length source
  pub ahead : t.read_offset ≡ d + size
  pub counted : t.buffers_written * size ≡ d
  pub asks : t.aio_nbytes ≡ chunk source size d
  pub more : d < length source

-- What the last request has left in the task, none at `d` = 0.
pub record HasServed (fd : ℕ) (source : List ℕ) (size d : ℕ) (t : Task) : Type 0 where
  pub fildes : t.aio_fildes ≡ (if d == 0 then 0 else fd)
  pub filled : d ≢ 0 → 0 < length source
  pub reaches : d ≢ 0 → t.aio_nbytes + (d - size) ≡ min d (length source)

-- The first `d` bytes of the source stand in the target from `w` on.
abbrev pub IsCopied : {F : Type 0} → FileOperations F → List ℕ → ℕ → ℕ → F → Type 0
IsCopied files source w d f =
    (k : ℕ) → k < d → k < length source → files.byte_at f (w + k) ≡ get_or source k 0

module _ {F : Type 0} (files : FileOperations F) (fd size : ℕ) where
  abbrev pub StandsAt : Stage → List ℕ → ℕ → ℕ → Task → Type 0
  StandsAt to_read source w d t =
      IsAt source size d t
      × (t.write_offset ≡ w + d)
      × (d < length source + size)
      × HasServed fd source size d t
  StandsAt (reading offset) source w d t =
      (offset ≡ d) × IsAsked source size d t × (t.write_offset ≡ w + d)
  StandsAt to_write source w d t =
      IsAsked source size d t
      × (t.write_offset ≡ w + d)
      × (rest : List ℕ) × (t.aio_buf ≡ take (chunk source size d) (drop d source) ++ rest)
  StandsAt (writing offset) source w d t =
      (offset ≡ w + d)
      × IsAsked source size d t
      × (t.write_offset ≡ w + (d + size))
      × (t.aio_fildes ≡ fd)
      × (rest : List ℕ) × (t.aio_buf ≡ take (chunk source size d) (drop d source) ++ rest)
  StandsAt complete_ source w d t =
      (length source ≤ d) × HasServed fd source size d t × (t.buffers_written * size ≡ d)
  StandsAt overflowed source w d t = ⊥

  -- A task whose bytes go to the target from `w` on.
  pub record IsCopying (w : ℕ) (e : Entry) (f : F) : Type 0 where
    pub at : ℕ
    pub is_text : IsTextFile e.source
    pub small : length e.source + size < 2 ^ 31
    pub stands : StandsAt e.stage e.source w at e.task
    pub copied : IsCopied files e.source w at f

  module _ (some_size : 0 < size) where
    pub start_read-IsCopying :
        (w d : ℕ) (e : Entry) (f : F)
        → IsTextFile e.source
        → length e.source + size < 2 ^ 31
        → StandsAt to_read e.source w d e.task
        → IsCopied files e.source w d f
        → IsCopying w (start_read files fd size e) f
    unfolding start_read
    start_read-IsCopying w d e f text small (at, into, near, served) copied =
        elim (Bool-cases (ltb d (length e.source))) [
          | inl more ↦
              let lt : d < length e.source = ltb→lt d (length e.source) more in
              subst (λ j. IsCopying w (after_reader e j) f)
                (sym (reader_job-request e.source size d e.task at (omega arith) lt))
                (record {
                  at = d;
                  is_text = text;
                  small = small;
                  stands = (
                    at.reading,
                    record {
                      sized = at.sized;
                      ahead = ap (λ o. o + size) at.reading;
                      counted = at.counted;
                      asks = refl;
                      more = lt;
                    },
                    into,
                  );
                  copied = copied;
                })
          | inr none_left ↦
              let le : length e.source ≤ d = ground arith in
              subst (λ j. IsCopying w (after_reader e j) f)
                (sym (reader_job-finished e.source size d e.task at (omega arith) le))
                (record {
                  at = d;
                  is_text = text;
                  small = small;
                  stands = (
                    le,
                    record {
                      fildes = served.fildes;
                      filled = served.filled;
                      reaches = served.reaches;
                    },
                    at.counted,
                  );
                  copied = copied;
                })
        ]

    pub finish_read-IsCopying :
        (w d offset : ℕ) (e : Entry) (f : F)
        → IsTextFile e.source
        → length e.source + size < 2 ^ 31
        → StandsAt (reading offset) e.source w d e.task
        → IsCopied files e.source w d f
        → IsCopying w (finish_read files fd size offset e) f
    unfolding finish_read complete
    finish_read-IsCopying w d offset e f text small (here, asked, into) copied =
        let found : files.aio_read e.source offset e.task.aio_nbytes
            ≡ take (chunk e.source size d) (drop d e.source) =
          files.read-take-drop e.source offset e.task.aio_nbytes
          ∙ ap₂ (λ n o. take n (drop o e.source)) asked.asks here in
        record {
          at = d;
          is_text = text;
          small = small;
          stands = (
            record {
              sized = asked.sized;
              ahead = asked.ahead;
              counted = asked.counted;
              asks = asked.asks;
              more = asked.more;
            },
            into,
            drop (length (files.aio_read e.source offset e.task.aio_nbytes)) e.task.aio_buf,
            ap
                (λ bs.
                  bs
                  ++ drop (length (files.aio_read e.source offset e.task.aio_nbytes))
                      e.task.aio_buf)
                found,
          );
          copied = copied;
        }

    pub start_write-IsCopying :
        (w d : ℕ) (e : Entry) (f : F)
        → IsTextFile e.source
        → length e.source + size < 2 ^ 31
        → StandsAt to_write e.source w d e.task
        → IsCopied files e.source w d f
        → IsCopying w (start_write files fd size e) f
    unfolding start_write writer_job
    start_write-IsCopying w d e f text small (asked, into, rest, buf) copied = record {
      at = d;
      is_text = text;
      small = small;
      stands = (
        into,
        record {
          sized = asked.sized;
          ahead = asked.ahead;
          counted = asked.counted;
          asks = asked.asks;
          more = asked.more;
        },
        omega arith,
        refl,
        rest,
        buf,
      );
      copied = copied;
    }

  -- A task that is complete has copied its source.
  pub complete_copied :
      (w : ℕ) (e : Entry) (f : F)
      → IsCopying w e f
      → e.stage ≡ complete_
      → (k : ℕ) → k < length e.source
      → files.byte_at f (w + k) ≡ get_or e.source k 0
  complete_copied w e f c over k inside =
      let all = subst (λ s. StandsAt s e.source w c.at e.task) over c.stands in
      c.copied k (omega (arith, all.0)) inside
