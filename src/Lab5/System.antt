-- ===== src/Lab5/System.antt =====
-- lab5/src/zox_aio: a context at work. The program adds files, the reader and the writer carry out
-- jobs, and requests complete, in any order. A job takes any task that its executor was notified of,
-- which includes the order of the executor's queue.
mod Stages
mod Moves
pub mod Together
pub mod Concatenated
pub mod Completed
pub mod Destroyed
use spovm4_labs.Base.{
  length, take, drop, get_or, ℕ, zero, suc, ◌+◌, ◌≤◌, ◌<◌, ◌≡◌, List, [], ◌∷◌, ◌++◌, map,
}
use spovm4_labs.Lab5.Task.{
  Task, Context, create_task, Job, finished, request, overflow, reader_job, writer_job, complete,
}

-- What the code uses of files: `aio_read` gives the bytes that a read of so many bytes at an offset
-- finds in a source, `aio_write` is what a write at an offset makes of the target.
pub record FileOperations (F : Type 0) : Type 0 where
  pub aio_read : List ℕ → ℕ → ℕ → List ℕ
  pub aio_write : ℕ → List ℕ → F → F
  pub byte_at : F → ℕ → ℕ
  pub read-take-drop :
      (source : List ℕ) (offset n : ℕ) → aio_read source offset n ≡ take n (drop offset source)
  pub byte-write_within :
      (offset : ℕ) (bytes : List ℕ) (f : F) (k : ℕ)
      → k < length bytes
      → byte_at (aio_write offset bytes f) (offset + k) ≡ get_or bytes k 0
  pub byte-write_before :
      (offset : ℕ) (bytes : List ℕ) (f : F) (k : ℕ)
      → k < offset
      → byte_at (aio_write offset bytes f) k ≡ byte_at f k
  pub byte-write_behind :
      (offset : ℕ) (bytes : List ℕ) (f : F) (k : ℕ)
      → offset + length bytes ≤ k
      → byte_at (aio_write offset bytes f) k ≡ byte_at f k

-- where a task stands: one of the executors was notified of it, a request at an offset is under way,
-- the reader has found that it is finished, or an `int` has overflowed
pub data Stage : Type 0 where
  to_read : Stage
  reading : ℕ → Stage
  to_write : Stage
  writing : ℕ → Stage
  complete_ : Stage
  overflowed : Stage

pub record Entry : Type 0 where
  pub source : List ℕ
  pub task : Task
  pub stage : Stage

-- the context's tasks with their sources, and the target file
pub record System (F : Type 0) : Type 0 where
  pub target_file_expected_size : ℕ
  pub entries : List Entry
  pub target : F

-- `add_task` for a file that is opened as a descriptor and has these bytes, or the next step of the
-- task with an id
pub data Event : Type 0 where
  add : ℕ → List ℕ → Event
  advance : ℕ → Event

-- what the reader's job leaves of a task
unfoldable pub after_reader : Entry → Job → Entry
after_reader e (finished t) = record e { task = t; stage = complete_ }
after_reader e (request offset t) = record e { task = t; stage = reading offset }
after_reader e overflow = record e { stage = overflowed }

module _ {F : Type 0} (files : FileOperations F) (target_file_fd buffer_size : ℕ) where
  -- the reader's job
  unfoldable pub start_read : Entry → Entry
  unfolding after_reader
  start_read e = after_reader e (reader_job buffer_size e.task)

  -- a read completes, and aio_callback notifies the writer
  unfoldable pub finish_read : ℕ → Entry → Entry
  finish_read offset e = record e {
    task = complete (files.aio_read e.source) offset e.task;
    stage = to_write;
  }

  -- the writer's job
  unfoldable pub start_write : Entry → Entry
  start_write e =
      let asked = writer_job target_file_fd buffer_size e.task in
      record e { task = asked.1; stage = writing asked.0 }

  -- a write completes, and aio_callback notifies the reader
  unfoldable pub finish_write : ℕ → Entry → F → Entry × F
  finish_write offset e f = (
    record e { stage = to_read },
    files.aio_write offset (take e.task.aio_nbytes e.task.aio_buf) f,
  )

  unfoldable pub move : Stage → Entry → F → Entry × F
  move to_read e f = (start_read e, f)
  move (reading offset) e f = (finish_read offset e, f)
  move to_write e f = (start_write e, f)
  move (writing offset) e f = finish_write offset e f
  move complete_ e f = (e, f)
  move overflowed e f = (e, f)

  abbrev pub in_front : Entry → List Entry × F → List Entry × F
  in_front e (es, f) = (e ∷ es, f)

  abbrev pub replace : List Entry → Entry × F → List Entry × F
  replace es (e, f) = (e ∷ es, f)

  unfoldable pub move_at : ℕ → List Entry → F → List Entry × F
  move_at i [] f = ([], f)
  move_at zero (e ∷ es) f = replace es (move e.stage e f)
  move_at (suc i) (e ∷ es) f = in_front e (move_at i es f)

  -- the context as the library keeps it
  abbrev pub context_of : System F → Context
  context_of s = record {
    target_file_fd = target_file_fd;
    target_file_expected_size = s.target_file_expected_size;
    tasks = map (λ e. e.task) s.entries;
    buffer_size = buffer_size;
  }

  unfoldable pub step : Event → System F → System F
  step (add task_file_fd source) s =
      let made = create_task (context_of s) task_file_fd (length source) in
      record s {
        target_file_expected_size = made.1.target_file_expected_size;
        entries = s.entries ++ record { source = source; task = made.0; stage = to_read } ∷ [];
      }
  step (advance i) s =
      let moved = move_at i s.entries s.target in record s { entries = moved.0; target = moved.1 }

  -- one event after the other
  unfoldable pub run : List Event → System F → System F
  run [] s = s
  run (event ∷ events) s = run events (step event s)

  -- the context of `initialize_context` with a target file
  abbrev pub initialized : F → System F
  initialized f = record { target_file_expected_size = 0; entries = []; target = f }
