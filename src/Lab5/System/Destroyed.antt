-- ===== src/Lab5/System/Destroyed.antt =====
-- What destroy_context closes, and what the progress of a task says, when all tasks are complete.
use mathlib.Core.Path.{ap₂, subst}
use spovm4_labs.Base.{
  length, ltb, ◌==◌, if◌then◌else◌, ℕ, zero, suc, ◌+◌, ◌-◌, ◌*◌, ◌≤◌, ◌<◌, ◌≡◌, ◌≢◌, refl, ap, ◌∙◌,
  List, [], ◌∷◌, ◌++◌, map, min, arith,
}
use spovm4_labs.Lab5.Library.{
  Release, close, delete_task, delete_tasks, destroy_context, bytes_written,
}
use spovm4_labs.Lab5.System.Concatenated.{run-AreCopying}
use spovm4_labs.Lab5.System.Stages.{StandsAt, IsCopying}
use spovm4_labs.Lab5.System.Together.{AreComplete, AllFit, AreCopying}
use spovm4_labs.Lab5.System.{FileOperations, complete_, Entry, Event, context_of, run, initialized}

-- the descriptors that are closed
abbrev pub closed : List Release → List ℕ
closed [] = []
closed (close fd ∷ rs) = fd ∷ closed rs
closed (Release.free_path ∷ rs) = closed rs
closed (Release.free_buffer ∷ rs) = closed rs
closed (Release.free_cb ∷ rs) = closed rs
closed (Release.free_task ∷ rs) = closed rs
closed (Release.free_tasks ∷ rs) = closed rs
closed (Release.free_target_path ∷ rs) = closed rs
closed (Release.free_context ∷ rs) = closed rs

-- the descriptor of a task's last request, 0 if there was none
abbrev pub last_descriptor : ℕ → Entry → ℕ
last_descriptor fd e = if length e.source == 0 then 0 else fd

closed-append : (rs qs : List Release) → closed (rs ++ qs) ≡ closed rs ++ closed qs
closed-append [] qs = refl
closed-append (close fd ∷ rs) qs = ap (λ l. fd ∷ l) (closed-append rs qs)
closed-append (Release.free_path ∷ rs) qs = closed-append rs qs
closed-append (Release.free_buffer ∷ rs) qs = closed-append rs qs
closed-append (Release.free_cb ∷ rs) qs = closed-append rs qs
closed-append (Release.free_task ∷ rs) qs = closed-append rs qs
closed-append (Release.free_tasks ∷ rs) qs = closed-append rs qs
closed-append (Release.free_target_path ∷ rs) qs = closed-append rs qs
closed-append (Release.free_context ∷ rs) qs = closed-append rs qs

-- `n` buffers without the last one, and the last request's bytes.
count_bytes :
    (n size d b len : ℕ)
    → 0 < size
    → n * size ≡ d
    → len ≤ d
    → (d ≢ 0 → b + (d - size) ≡ min d len)
    → (if ltb 0 n then n * size - size + b else n * size) ≡ len
count_bytes zero size d b len p e le reaches = omega arith
count_bytes (suc n) size d b len p e le reaches =
    let more : d ≢ 0 = λ z. omega arith in ground (arith, reaches more)

module _ {F : Type 0} (files : FileOperations F) (fd size : ℕ) (some_size : 0 < size) where
  complete-fildes :
      (w : ℕ) (e : Entry) (f : F)
      → IsCopying files fd size w e f
      → e.stage ≡ complete_
      → e.task.aio_fildes ≡ last_descriptor fd e
  complete-fildes w e f c over =
      let (le, served, counted) =
        subst (λ s. StandsAt files fd size s e.source w c.at e.task) over c.stands in
      ground (arith, served.fildes, served.filled)

  complete-bytes_written :
      (w : ℕ) (e : Entry) (f : F)
      → IsCopying files fd size w e f
      → e.stage ≡ complete_
      → bytes_written size e.task ≡ length e.source
  unfolding bytes_written
  complete-bytes_written w e f c over =
      let (le, served, counted) =
        subst (λ s. StandsAt files fd size s e.source w c.at e.task) over c.stands in
      count_bytes e.task.buffers_written size c.at e.task.aio_nbytes (length e.source) some_size
        counted le served.reaches

  closed-delete_tasks :
      (w : ℕ) (es : List Entry) (f : F) (end : ℕ)
      → AreCopying files fd size w es f end
      → AreComplete es
      → closed (delete_tasks (map (λ e. e.task) es)) ≡ map (last_descriptor fd) es
  unfolding delete_tasks delete_task
  closed-delete_tasks w [] f end c d = refl
  closed-delete_tasks w (e ∷ es) f end c d =
      ap₂ (λ x l. x ∷ l) (complete-fildes w e f c.0 d.0)
        (closed-delete_tasks (w + length e.source) es f end c.1 d.1)

  all-bytes_written :
      (w : ℕ) (es : List Entry) (f : F) (end : ℕ)
      → AreCopying files fd size w es f end
      → AreComplete es
      → map (λ e. bytes_written size e.task) es ≡ map (λ e. length e.source) es
  all-bytes_written w [] f end c d = refl
  all-bytes_written w (e ∷ es) f end c d =
      ap₂ (λ x l. x ∷ l) (complete-bytes_written w e f c.0 d.0)
        (all-bytes_written (w + length e.source) es f end c.1 d.1)

  -- Files without NUL bytes and below 2 GiB with a buffer to spare, and buffers of a byte at least:
  -- where all tasks are complete, destroy_context closes for each task the target's descriptor, or
  -- 0 if the task's file is empty, and then the target's once more: of the sources' none.
  pub destroy_context-closes :
      (events : List Event) (f : F)
      → AllFit size events
      → AreComplete (run files fd size events (initialized files fd size f)).entries
      → closed (
          destroy_context
            (context_of files fd size (run files fd size events (initialized files fd size f))))
        ≡ map (last_descriptor fd) (run files fd size events (initialized files fd size f)).entries
          ++ fd ∷ []
  unfolding destroy_context
  destroy_context-closes events f fit complete =
      let start = initialized files fd size f in
      let s = run files fd size events start in
      let c = run-AreCopying files fd size some_size events start fit refl in
      closed-append (delete_tasks (map (λ e. e.task) s.entries)) _
      ∙ ap (λ l. l ++ fd ∷ [])
          (closed-delete_tasks 0 s.entries s.target s.target_file_expected_size c complete)

  -- Files without NUL bytes and below 2 GiB with a buffer to spare, and buffers of a byte at least:
  -- where all tasks are complete, the bytes that calculate_task_progress counts for each task are
  -- those of its file.
  pub progress_complete :
      (events : List Event) (f : F)
      → AllFit size events
      → AreComplete (run files fd size events (initialized files fd size f)).entries
      → map
          (λ e. bytes_written size e.task)
          (run files fd size events (initialized files fd size f)).entries
        ≡ map
            (λ e. length e.source)
            (run files fd size events (initialized files fd size f)).entries
  progress_complete events f fit complete =
      let start = initialized files fd size f in
      let s = run files fd size events start in
      all-bytes_written 0 s.entries s.target s.target_file_expected_size
        (run-AreCopying files fd size some_size events start fit refl) complete
