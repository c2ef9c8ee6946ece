-- ===== src/Lab5/Library.antt =====
-- lab5/src/zox_aio/zox_aio.c and the rest of lab5/src/zox_aio/task/zox_aio_task.c: what a context takes
-- and gives back, and the progress of a task.
pub mod Leaks
pub mod Beginning
use spovm4_labs.Base.{
  ltb, if◌then◌else◌, ℕ, zero, suc, ◌+◌, ◌-◌, ◌*◌, Bool, true, false, Option, none, some, List, [],
  ◌∷◌, ◌++◌,
}
use spovm4_labs.Lab5.Task.{Task, Context, create_task}
use spovm4_labs.Stateful.{Program, ◌>>=◌, ◌>>◌, pure, failing, state, change}

-- What `create_task` has acquired and not given back: the descriptor of the source and its copy, the
-- blocks of the task, of its aiocb, of the callback's data and of the buffer, and the copied path.
pub record Held : Type 0 where
  pub task_file_fd : Bool
  pub fdcopy : Bool
  pub new_task : Bool
  pub cb : Bool
  pub callback_data : Bool
  pub aio_buf : Bool
  pub source_file_path : Bool

abbrev pub nothing_held : Held
nothing_held = record {
  task_file_fd = false;
  fdcopy = false;
  new_task = false;
  cb = false;
  callback_data = false;
  aio_buf = false;
  source_file_path = false;
}

-- What the calls of `create_task` answer: `open`, `fdopen`, the size that `ftell` gives, and `malloc`
-- four times. `dup` and the copy of the path succeed.
pub record Answers : Type 0 where
  pub opened : Option ℕ
  pub fdopened : Bool
  pub file_size : ℕ
  pub has_task : Bool
  pub has_cb : Bool
  pub has_callback_data : Bool
  pub has_buffer : Bool

-- the blocks are there, and the buffer's `malloc` decides
abbrev pub with_buffer : Context → ℕ → Answers → Program Held (Option (Task × Context))
with_buffer context fd a =
    if a.has_buffer
    then (do
      change (λ h. record h { aio_buf = true; source_file_path = true })
      pure (some (create_task context fd a.file_size)))
    else (do
      change (λ h. record h {
        task_file_fd = false;
        callback_data = false;
        cb = false;
        new_task = false;
      })
      pure none)

-- The test behind the `malloc` of the callback's data asks for `cb`, so that `memset` is given NULL
-- where it failed.
abbrev pub with_blocks : Context → ℕ → Answers → Program Held (Option (Task × Context))
with_blocks context fd a =
    if a.has_task
    then (do
      change (λ h. record h { new_task = true })
      if a.has_cb
          then (do
            change (λ h. record h { cb = true })
            if a.has_callback_data
                then (do change (λ h. record h { callback_data = true }); with_buffer context fd a)
                else failing)
          else pure none)
    else (do change (λ h. record h { task_file_fd = false }); pure none)

-- `create_task` call by call; none for NULL
unfoldable pub create_task_held : Context → Answers → Program Held (Option (Task × Context))
create_task_held context a = elim a.opened [
  | none ↦ pure none
  | some fd ↦ do
    change (λ h. record h { task_file_fd = true; fdcopy = true })
    if a.fdopened
        then (do change (λ h. record h { fdcopy = false }); with_blocks context fd a)
        else (do change (λ h. record h { task_file_fd = false }); pure none)
]

-- what is given back when a context is destroyed
pub data Release : Type 0 where
  close : ℕ → Release
  free_path free_buffer free_cb free_task : Release
  free_tasks free_target_path free_context : Release

unfoldable pub delete_task : Task → List Release
delete_task task = free_path ∷ close task.aio_fildes ∷ free_buffer ∷ free_cb ∷ free_task ∷ []

unfoldable pub delete_tasks : List Task → List Release
delete_tasks [] = []
delete_tasks (task ∷ tasks) = delete_task task ++ delete_tasks tasks

-- `destroy_context` behind the ends of both executors
unfoldable pub destroy_context : Context → List Release
destroy_context context =
    delete_tasks context.tasks
    ++ (free_tasks ∷ free_target_path ∷ close context.target_file_fd ∷ free_context ∷ [])

-- the bytes that calculate_task_progress takes to be written
unfoldable pub bytes_written : ℕ → Task → ℕ
bytes_written buffer_size task =
    let n = task.buffers_written * buffer_size in
    if ltb 0 task.buffers_written then n - buffer_size + task.aio_nbytes else n

-- `get_task_progress`; the percentage of two numbers, computed in floating point, is a parameter. An id
-- that no task has reads behind the array.
unfoldable pub task_at : ℕ → List Task → Option Task
task_at i [] = none
task_at zero (t ∷ ts) = some t
task_at (suc i) (t ∷ ts) = task_at i ts

unfoldable pub get_task_progress : (ℕ → ℕ → ℕ) → Context → ℕ → Option ℕ
get_task_progress percentage context task_id = elim (task_at task_id context.tasks) [
  | none ↦ none
  | some task ↦ some (percentage (bytes_written context.buffer_size task) task.source_file_size)
]

-- what `initialize_context` is given, but for the target's path and what only debugging and delays use
pub record Settings : Type 0 where
  pub buffer_size : ℕ

-- What its calls answer: `creat`, `malloc` of the context, and for each executor `malloc` and
-- pthread_create.
pub record Beginnings : Type 0 where
  pub target_file_fd : Option ℕ
  pub has_context : Bool
  pub has_reader : Bool
  pub reader_started : Bool
  pub has_writer : Bool
  pub writer_started : Bool

-- what is held of a context: the target's descriptor, its block, and how many executors have a block
-- and how many run
pub record Begun : Type 0 where
  pub is_open : Bool
  pub has_block : Bool
  pub executors : ℕ
  pub threads : ℕ

abbrev pub nothing_begun : Begun
nothing_begun = record { is_open = false; has_block = false; executors = 0; threads = 0 }

-- `create_executor`; false for NULL, where the executor's block stays
unfoldable pub create_executor : Bool → Bool → Program Begun Bool
create_executor has_block started =
    if has_block
    then (do
      change (λ h. record h { executors = h.executors + 1 })
      if started
          then (do change (λ h. record h { threads = h.threads + 1 }); pure true)
          else pure false)
    else pure false

-- `create_reader` and `create_writer`, which write to what create_executor returned
unfoldable pub create_listener : Bool → Bool → Program Begun (Unit {0})
create_listener has_block started = do
  executor ← create_executor has_block started
  if executor then pure tt else failing

-- `initialize_context`; none for -1
unfoldable pub initialize_context : Settings → Beginnings → Program Begun (Option Context)
initialize_context settings a = elim a.target_file_fd [
  | none ↦ pure none
  | some fd ↦ do
    change (λ h. record h { is_open = true })
    if a.has_context
        then (do
          change (λ h. record h { has_block = true })
          create_listener a.has_reader a.reader_started
          create_listener a.has_writer a.writer_started
          pure (
              some (record {
                target_file_fd = fd;
                target_file_expected_size = 0;
                tasks = [];
                buffer_size = settings.buffer_size;
              })))
        else (do change (λ h. record h { is_open = false }); pure none)
]
