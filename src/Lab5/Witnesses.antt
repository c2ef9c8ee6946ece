-- ===== src/Lab5/Witnesses.antt =====
-- The theorems at two files of three bytes and one byte, with buffers of two.
use spovm4_labs.Base.{
  length, get_or, ltb, if◌then◌else◌, take, drop, ℕ, ◌+◌, ◌-◌, ◌≤◌, ◌<◌, ◌≡◌, ◌⊎◌, refl, true,
  false, some, List, [], ◌∷◌, ◌++◌, map, arith,
}
use spovm4_labs.Lab5.Library.Leaks.{create_task_held-leaks}
use spovm4_labs.Lab5.Library.{
  nothing_held, Answers, destroy_context, bytes_written, create_task_held,
}
use spovm4_labs.Lab5.System.Completed.{stage_of, run-completes}
use spovm4_labs.Lab5.System.Concatenated.{run-concatenates}
use spovm4_labs.Lab5.System.Destroyed.{
  closed, last_descriptor, destroy_context-closes, progress_complete,
}
use spovm4_labs.Lab5.System.Together.{added, AreComplete}
use spovm4_labs.Lab5.System.{
  FileOperations, complete_, Event, add, advance, after_reader, context_of, start_read, finish_read,
  start_write, finish_write, move, move_at, step, run, initialized,
}
use spovm4_labs.Lab5.Task.{Context, create_task, reader_job, writer_job, complete}

-- a target file as a function
abbrev written_at : ℕ → List ℕ → (ℕ → ℕ) → ℕ → ℕ
written_at offset bytes f k =
    if ltb k offset
    then f k
    else if ltb (k - offset) (length bytes)
    then get_or bytes (k - offset) 0
    else f k

within_write :
    (offset : ℕ) (bytes : List ℕ) (f : ℕ → ℕ) (k : ℕ)
    → k < length bytes
    → written_at offset bytes f (offset + k) ≡ get_or bytes k 0
within_write offset bytes f k h =
    let e : offset + k - offset ≡ k = omega arith in
    let behind : ltb (offset + k) offset ≡ false = ground arith in rw (behind, e) (ground arith)

before_write :
    (offset : ℕ) (bytes : List ℕ) (f : ℕ → ℕ) (k : ℕ)
    → k < offset
    → written_at offset bytes f k ≡ f k
before_write offset bytes f k h = ground arith

behind_write :
    (offset : ℕ) (bytes : List ℕ) (f : ℕ → ℕ) (k : ℕ)
    → offset + length bytes ≤ k
    → written_at offset bytes f k ≡ f k
behind_write offset bytes f k h = ground arith

abbrev files : FileOperations (ℕ → ℕ)
files = record {
  aio_read = λ source offset n. take n (drop offset source);
  aio_write = written_at;
  byte_at = λ f. f;
  read-take-drop = λ source offset n. refl;
  byte-write_within = within_write;
  byte-write_before = before_write;
  byte-write_behind = behind_write;
}

abbrev rounds_of : List Event
rounds_of =
    advance 0
    ∷ advance 1
    ∷ advance 1
    ∷ advance 0
    ∷ advance 0
    ∷ advance 1
    ∷ advance 0
    ∷ advance 1
    ∷ advance 0
    ∷ advance 1
    ∷ advance 0
    ∷ advance 0
    ∷ advance 0
    ∷ advance 0
    ∷ advance 0
    ∷ advance 0
    ∷ advance 0
    ∷ []

abbrev events : List Event
events = add 5 (7 ∷ 8 ∷ 9 ∷ []) ∷ add 6 (4 ∷ []) ∷ rounds_of

abbrev target : ℕ → ℕ
target k = 0

events_complete : AreComplete (run files 3 2 events (initialized files 3 2 target)).entries
unfolding run step move_at move start_read after_reader finish_read start_write finish_write
    reader_job writer_job complete create_task
events_complete = (refl, (refl, tt))

run-concatenates_example :
    ((run files 3 2 events (initialized files 3 2 target)).target_file_expected_size
      ≡ length (added events))
    × ((k : ℕ)
        → k < length (added events)
        → (run files 3 2 events (initialized files 3 2 target)).target k
          ≡ get_or (added events) k 0)
run-concatenates_example =
    run-concatenates files 3 2 (omega arith) events target
      ((refl, (refl, (refl, tt))), omega arith, ((refl, tt), omega arith, tt)) events_complete

run-completes_example :
    stage_of
      (length (run files 3 2 [] (initialized files 3 2 target)).entries)
      (run files 3 2
        (add 5 (7 ∷ 8 ∷ 9 ∷ []) ∷ rounds_of ++ rounds_of)
        (run files 3 2 [] (initialized files 3 2 target))).entries
    ≡ some complete_
unfolding run
run-completes_example =
    run-completes files 3 2 (omega arith) [] (rounds_of ++ rounds_of) 5 (7 ∷ 8 ∷ 9 ∷ []) target tt
      ((refl, (refl, (refl, tt))), omega arith, tt) (omega arith)

destroy_context-closes_example :
    closed
      (destroy_context (context_of files 3 2 (run files 3 2 events (initialized files 3 2 target))))
    ≡ map (last_descriptor 3) (run files 3 2 events (initialized files 3 2 target)).entries
      ++ 3 ∷ []
destroy_context-closes_example =
    destroy_context-closes files 3 2 (omega arith) events target
      ((refl, (refl, (refl, tt))), omega arith, ((refl, tt), omega arith, tt)) events_complete

progress_complete_example :
    map (λ e. bytes_written 2 e.task) (run files 3 2 events (initialized files 3 2 target)).entries
    ≡ map (λ e. length e.source) (run files 3 2 events (initialized files 3 2 target)).entries
progress_complete_example =
    progress_complete files 3 2 (omega arith) events target
      ((refl, (refl, (refl, tt))), omega arith, ((refl, tt), omega arith, tt)) events_complete

abbrev context : Context
context = record { target_file_fd = 3; target_file_expected_size = 10; tasks = []; buffer_size = 2 }

-- `malloc` fails for the aiocb
abbrev answers : Answers
answers = record {
  opened = some 5;
  fdopened = true;
  file_size = 3;
  has_task = true;
  has_cb = false;
  has_callback_data = true;
  has_buffer = true;
}

create_task_held-leaks_example :
    (record nothing_held { task_file_fd = true; new_task = true } ≡ nothing_held)
    ⊎ (true ≡ false)
      × (record nothing_held { task_file_fd = true; new_task = true }
          ≡ record nothing_held { fdcopy = true })
    ⊎ (answers.has_cb ≡ false)
      × (record nothing_held { task_file_fd = true; new_task = true }
          ≡ record nothing_held { task_file_fd = true; new_task = true })
unfolding create_task_held
create_task_held-leaks_example =
    create_task_held-leaks context answers
      (record nothing_held { task_file_fd = true; new_task = true }) refl
