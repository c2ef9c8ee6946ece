-- ===== src/Lab5/Task.antt =====
-- lab5/src/zox_aio/task: a task, and what the reader and the writer of
-- lab5/src/zox_aio/task_executor do with it. Each works on a task when the request of the other is
-- complete, so that a task passes between them in turn.
use spovm4_labs.Base.{
  length, take, drop, ltb, leb, ◌==◌, if◌then◌else◌, ℕ, zero, suc, ◌+◌, ◌-◌, ◌*◌, ◌^◌, Bool, false,
  not, Option, none, some, List, [], ◌∷◌, ◌++◌,
}

-- the fields of `struct zox_aio_task` and of its `struct aiocb` that the jobs use; `executor` of the
-- callback data is who is told when a request completes
pub data Executor : Type 0 where
  reader writer : Executor

pub record Task : Type 0 where
  pub source_file_size : ℕ
  pub source_file_fd : ℕ
  pub read_offset : ℕ
  pub write_offset : ℕ
  pub buffers_written : ℕ
  pub aio_buf : List ℕ
  pub aio_nbytes : ℕ
  pub aio_fildes : ℕ
  pub executor : Executor

-- `struct zox_aio_context`
pub record Context : Type 0 where
  pub target_file_fd : ℕ
  pub target_file_expected_size : ℕ
  pub tasks : List Task
  pub buffer_size : ℕ

abbrev pub zeros : ℕ → List ℕ
zeros zero = []
zeros (suc n) = 0 ∷ zeros n

-- A task for a file that is opened as `task_file_fd` and has `file_size` bytes, and the context then.
-- The descriptor of a request is 0 before the first one.
unfoldable pub create_task : Context → ℕ → ℕ → Task × Context
create_task context task_file_fd file_size = (
  record {
    source_file_size = file_size;
    source_file_fd = task_file_fd;
    read_offset = 0;
    write_offset = context.target_file_expected_size;
    buffers_written = 0;
    aio_buf = zeros context.buffer_size;
    aio_nbytes = context.buffer_size;
    aio_fildes = 0;
    executor = reader;
  },
  record context { target_file_expected_size = context.target_file_expected_size + file_size },
)

-- `add_task`, with the descriptor and the size of the file, none if `create_task` returns NULL; the
-- result is the task's id,
-- none for -1.
unfoldable pub add_task : Context → Option (ℕ × ℕ) → Option ℕ × Context
add_task context none = (none, context)
add_task context (some (task_file_fd, file_size)) =
    let made = create_task context task_file_fd file_size in
    (some (length context.tasks), record (made.1) { tasks = context.tasks ++ made.0 ∷ [] })

-- `*((char*)cb->aio_buf) != '\0'`
abbrev pub starts_with_byte : List ℕ → Bool
starts_with_byte [] = false
starts_with_byte (b ∷ bs) = not (b == 0)

-- What a job leaves: the task is finished, the task with a request at an offset of a file, or an
-- `int` that overflows.
pub data Job : Type 0 where
  finished : Task → Job
  request : ℕ → Task → Job
  overflow : Job

unfoldable pub reader_job : ℕ → Task → Job
reader_job buffer_size task =
    let n = (if starts_with_byte task.aio_buf then 1 else 0) + task.buffers_written in
    let bytes_written = n * buffer_size in
    let counted = record task { buffers_written = n; executor = writer } in
    if leb (2 ^ 31) bytes_written
    then overflow
    else if leb task.source_file_size bytes_written
    then finished counted
    else request task.read_offset (record counted {
      aio_nbytes =
          if ltb (task.source_file_size - bytes_written) buffer_size
          then task.source_file_size - bytes_written
          else task.aio_nbytes;
      aio_fildes = task.source_file_fd;
      read_offset = task.read_offset + buffer_size;
    })

-- the offset in the target of the request, and the task
unfoldable pub writer_job : ℕ → ℕ → Task → ℕ × Task
writer_job target_file_fd buffer_size task = (
  task.write_offset,
  record task {
    write_offset = task.write_offset + buffer_size;
    executor = reader;
    aio_fildes = target_file_fd;
  },
)

-- A read of the task's `aio_nbytes` at an offset is complete: the bytes it found are at the front
-- of the buffer. `aio_read` gives the bytes that a read of so many bytes at an offset finds.
unfoldable pub complete : (ℕ → ℕ → List ℕ) → ℕ → Task → Task
complete aio_read offset task =
    let bytes = aio_read offset task.aio_nbytes in
    record task { aio_buf = bytes ++ drop (length bytes) task.aio_buf }

abbrev pub prepend : ℕ × List ℕ → Option (List (ℕ × List ℕ)) → Option (List (ℕ × List ℕ))
prepend w none = none
prepend w (some ws) = some (w ∷ ws)

-- The writes that a task requests in turn, each with its offset and bytes, if every request
-- completes; none for an overflow or where the fuel is out.
unfoldable pub run_task : (ℕ → ℕ → List ℕ) → ℕ → ℕ → ℕ → Task → Option (List (ℕ × List ℕ))
run_task aio_read target_file_fd zero buffer_size task = none
run_task aio_read target_file_fd (suc k) buffer_size task = elim (reader_job buffer_size task) [
  | overflow ↦ none
  | finished t ↦ some []
  | request offset t ↦
      let read = complete aio_read offset t in
      let asked = writer_job target_file_fd buffer_size read in
      prepend (asked.0, take read.aio_nbytes read.aio_buf)
        (run_task aio_read target_file_fd k buffer_size (asked.1))
]
