-- ===== src/Lab5/System/Completed.antt =====
-- That every task comes to its end.
use mathlib.Core.Path.{subst}
use spovm4_labs.Base.{
  length, length-append, ltb, ◌==◌, if◌then◌else◌, ltb→lt, Bool-cases, ℕ, zero, suc, ◌+◌, ◌-◌, ◌*◌,
  ◌^◌, ◌≤◌, ◌<◌, ◌≡◌, refl, sym, ap, inl, inr, Option, none, some, List, [], ◌∷◌, ◌++◌, arith,
}
use spovm4_labs.Lab5.Rounds.{reader_job-finished, reader_job-request}
use spovm4_labs.Lab5.System.Concatenated.{run-AreCopying}
use spovm4_labs.Lab5.System.Stages.{StandsAt, IsCopying}
use spovm4_labs.Lab5.System.Together.{AllFit, AreCopying}
use spovm4_labs.Lab5.System.{
  FileOperations, Stage, to_read, reading, to_write, writing, complete_, overflowed, Entry, System,
  Event, add, advance, after_reader, start_read, finish_read, start_write, finish_write, move,
  move_at, context_of, step, run, initialized,
}
use spovm4_labs.Lab5.Task.{create_task, complete, writer_job}

-- how many steps a task needs at most
abbrev work_at : ℕ → Stage → Entry → ℕ
work_at size to_read e = 4 * (length e.source - e.task.read_offset) + 1
work_at size (reading offset) e = 4 * (length e.source + size - e.task.read_offset)
work_at size to_write e = 4 * (length e.source + size - e.task.read_offset) - 1
work_at size (writing offset) e = 4 * (length e.source + size - e.task.read_offset) - 2
work_at size complete_ e = 0
work_at size overflowed e = 0

abbrev work : ℕ → Entry → ℕ
work size e = work_at size e.stage e

-- what the entry with an id needs; nothing where there is none
abbrev work_of : ℕ → ℕ → List Entry → ℕ
work_of size i [] = 0
work_of size zero (e ∷ es) = work size e
work_of size (suc i) (e ∷ es) = work_of size i es

abbrev pub stage_of : ℕ → List Entry → Option Stage
stage_of i [] = none
stage_of zero (e ∷ es) = some e.stage
stage_of (suc i) (e ∷ es) = stage_of i es

-- how often a task is carried on
abbrev pub advances : ℕ → List Event → ℕ
advances i [] = 0
advances i (add task_file_fd source ∷ events) = advances i events
advances i (advance j ∷ events) = (if j == i then 1 else 0) + advances i events

module _ {F : Type 0} (files : FileOperations F) (fd size : ℕ) where
  module _ (some_size : 0 < size) where
    start_read-work :
        (w d : ℕ) (e : Entry)
        → d < length e.source + size
        → length e.source + size < 2 ^ 31
        → StandsAt files fd size to_read e.source w d e.task
        → work size (start_read files fd size e) ≤ work_at size to_read e - 1
    unfolding start_read after_reader
    start_read-work w d e near small (at, into, _, fildes) =
        elim (Bool-cases (ltb d (length e.source))) [
          | inl more ↦
              let lt : d < length e.source = ltb→lt d (length e.source) more in
              subst (λ j. work size (after_reader e j) ≤ work_at size to_read e - 1)
                (sym (reader_job-request e.source size d e.task at (omega arith) lt))
                (omega (arith, at.reading))
          | inr none_left ↦
              subst (λ j. work size (after_reader e j) ≤ work_at size to_read e - 1)
                (sym (reader_job-finished e.source size d e.task at (omega arith) (ground arith)))
                (omega arith)
        ]

    -- A step of a task leaves one step less, and no work only where the task is complete.
    move-work :
        (w : ℕ) (e : Entry) (f : F)
        → IsCopying files fd size w e f
        → work size (move files fd size e.stage e f).0 ≤ work size e - 1
    unfolding move
    move-work w e f c = by_stage e.stage refl (c.stands)
      where
        by_stage :
            (st : Stage)
            → e.stage ≡ st
            → StandsAt files fd size st e.source w c.at e.task
            → work size (move files fd size st e f).0 ≤ work_at size st e - 1
        by_stage to_read h s = start_read-work w c.at e s.2 c.small s
        by_stage (reading o) h s = unfold finish_read complete in omega arith
        by_stage to_write h s = unfold start_write writer_job in omega arith
        by_stage (writing o) h s = unfold finish_write in omega (arith, s.1.ahead, s.1.more)
        by_stage complete_ h s = rw h (omega arith)
        by_stage overflowed h s = absurd s

    no_work :
        (w : ℕ) (e : Entry) (f : F)
        → IsCopying files fd size w e f
        → work size e ≡ 0
        → e.stage ≡ complete_
    no_work w e f c none_left = by_stage e.stage refl c.stands
      where
        by_stage :
            (st : Stage)
            → e.stage ≡ st
            → StandsAt files fd size st e.source w c.at e.task
            → st ≡ complete_
        by_stage to_read h s = absurd (omega (arith, none_left, ap (λ x. work_at size x e) h))
        by_stage (reading o) h s =
            absurd (omega (arith, none_left, ap (λ x. work_at size x e) h, s.1.ahead, s.1.more))
        by_stage to_write h s =
            absurd (omega (arith, none_left, ap (λ x. work_at size x e) h, s.0.ahead, s.0.more))
        by_stage (writing o) h s =
            absurd (omega (arith, none_left, ap (λ x. work_at size x e) h, s.1.ahead, s.1.more))
        by_stage complete_ h s = refl
        by_stage overflowed h s = absurd s

    move_at-work :
        (i j w : ℕ) (es : List Entry) (f : F) (end : ℕ)
        → AreCopying files fd size w es f end
        → work_of size i (move_at files fd size j es f).0
          ≤ work_of size i es - (if j == i then 1 else 0)
    unfolding move_at
    move_at-work i j w [] f end c = omega arith
    move_at-work zero zero w (e ∷ es) f end c = move-work w e f c.0
    move_at-work zero (suc j) w (e ∷ es) f end c = ground arith
    move_at-work (suc i) zero w (e ∷ es) f end c = ground arith
    move_at-work (suc i) (suc j) w (e ∷ es) f end c =
        ground (arith, move_at-work i j (w + length e.source) es f end c.1)

    complete_at :
        (i w : ℕ) (es : List Entry) (f : F) (end : ℕ)
        → AreCopying files fd size w es f end
        → i < length es
        → work_of size i es ≡ 0
        → stage_of i es ≡ some complete_
    complete_at i w [] f end c h none_left = absurd (omega arith)
    complete_at zero w (e ∷ es) f end c h none_left = ap some (no_work w e f c.0 none_left)
    complete_at (suc i) w (e ∷ es) f end c h none_left =
        complete_at i (w + length e.source) es f end c.1 (omega arith) none_left

  length-move_at :
      (i : ℕ) (es : List Entry) (f : F) → length (move_at files fd size i es f).0 ≡ length es
  unfolding move_at
  length-move_at i [] f = refl
  length-move_at zero (e ∷ es) f = refl
  length-move_at (suc i) (e ∷ es) f = ap suc (length-move_at i es f)

  work_of-append :
      (i : ℕ) (es xs : List Entry) → i < length es → work_of size i (es ++ xs) ≡ work_of size i es
  work_of-append i [] xs h = absurd (omega arith)
  work_of-append zero (e ∷ es) xs h = refl
  work_of-append (suc i) (e ∷ es) xs h = work_of-append i es xs (omega arith)

  work_of-last :
      (es : List Entry) (e : Entry) → work_of size (length es) (es ++ e ∷ []) ≡ work size e
  work_of-last [] e = refl
  work_of-last (x ∷ es) e = work_of-last es e

  module _ (some_size : 0 < size) where
    run-work :
        (i : ℕ) (events : List Event) (s : System F)
        → AllFit size events
        → AreCopying files fd size 0 s.entries s.target s.target_file_expected_size
        → i < length s.entries
        → (work_of size i (run files fd size events s).entries
            ≤ work_of size i s.entries - advances i events)
          × (i < length (run files fd size events s).entries)
    unfolding run step create_task
    run-work i [] s fit c h = (omega arith, h)
    run-work i (add task_file_fd source ∷ events) s fit c h =
        let event = add task_file_fd source in
        let s' = step files fd size event s in
        let c' = run-AreCopying files fd size some_size (event ∷ []) s (fit.0, fit.1, tt) c in
        let one = (create_task (context_of files fd size s) task_file_fd (length source)).0 in
        let new : Entry = record { source = source; task = one; stage = to_read } in
        let (less, there) =
          run-work i events s' fit.2 c' (omega (arith, length-append s.entries (new ∷ []))) in
        (omega (arith, less, work_of-append i s.entries (new ∷ []) h), there)
    run-work i (advance j ∷ events) s fit c h =
        let s' = step files fd size (advance j) s in
        let c' = run-AreCopying files fd size some_size (advance j ∷ []) s tt c in
        let (less, there) =
          run-work i events s' fit c' (omega (arith, length-move_at j s.entries s.target)) in
        (
          omega (
            arith,
            less,
            move_at-work some_size i j 0 s.entries s.target s.target_file_expected_size c,
          ),
          there,
        )

    -- Files without NUL bytes and below 2 GiB with a buffer to spare, and buffers of a byte at
    -- least: whatever was done before a file is added and whatever else is done between, four steps
    -- of its task for each byte of the file and one more bring the task to its end.
    pub run-completes :
        (before after : List Event) (task_file_fd : ℕ) (source : List ℕ) (f : F)
        → AllFit size before
        → AllFit size (add task_file_fd source ∷ after)
        → 4 * length source + 1
          ≤ advances (length (run files fd size before (initialized files fd size f)).entries) after
        → stage_of
            (length (run files fd size before (initialized files fd size f)).entries)
            (run files fd size
              (add task_file_fd source ∷ after)
              (run files fd size before (initialized files fd size f))).entries
          ≡ some complete_
    unfolding run
    run-completes before after task_file_fd source f fit fit' enough =
        let start = initialized files fd size f in
        let s = run files fd size before start in
        let c = run-AreCopying files fd size some_size before start fit refl in
        let event = add task_file_fd source in
        let s' = step files fd size event s in
        let c' = run-AreCopying files fd size some_size (event ∷ []) s (fit'.0, fit'.1, tt) c in
        let one = (create_task (context_of files fd size s) task_file_fd (length source)).0 in
        let new : Entry = record { source = source; task = one; stage = to_read } in
        let needs : work_of size (length s.entries) s'.entries ≤ 4 * length source + 1 =
          unfold step create_task in omega (arith, work_of-last s.entries new) in
        let (less, there) =
          run-work (length s.entries) after s' fit'.2 c'
            (unfold step in omega (arith, length-append s.entries (new ∷ []))) in
        let t = run files fd size after s' in
        let ct = run-AreCopying files fd size some_size after s' fit'.2 c' in
        complete_at some_size (length s.entries) 0 t.entries t.target t.target_file_expected_size ct
          there (omega (arith, less, needs))
