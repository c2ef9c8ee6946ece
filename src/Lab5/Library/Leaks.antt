-- ===== src/Lab5/Library/Leaks.antt =====
-- What create_task leaves open where it fails.
use spovm4_labs.Base.{◌≡◌, ◌⊎◌, refl, ℕ, true, false, Option, none, some, arith}
use spovm4_labs.Lab5.Library.{Held, nothing_held, Answers, create_task_held}
use spovm4_labs.Lab5.Task.{Task, Context, create_task}
use spovm4_labs.Stateful.{done}

-- Where create_task returns NULL, it has given back all that it acquired, or fdopen failed and the
-- copy of the descriptor stays open, or malloc of the aiocb failed and the descriptor of the source
-- and the task's block stay.
pub create_task_held-leaks :
    (context : Context) (a : Answers) (h : Held)
    → create_task_held context a nothing_held ≡ done none h
    → (h ≡ nothing_held)
      ⊎ (a.fdopened ≡ false) × (h ≡ record nothing_held { fdcopy = true })
      ⊎ (a.has_cb ≡ false) × (h ≡ record nothing_held { task_file_fd = true; new_task = true })
unfolding create_task_held
create_task_held-leaks context a h e = ground arith

-- Where create_task returns a task, it is the one of the context, the descriptor and the size, and
-- all that it acquired is held but the copy of the descriptor.
pub create_task_held-some :
    (context : Context) (a : Answers) (made : Task × Context) (h : Held)
    → create_task_held context a nothing_held ≡ done (some made) h
    → (fd : ℕ) × (a.opened ≡ some fd)
      × (made ≡ create_task context fd a.file_size)
      × (h ≡ record {
        task_file_fd = true;
        fdcopy = false;
        new_task = true;
        cb = true;
        callback_data = true;
        aio_buf = true;
        source_file_path = true;
      })
unfolding create_task_held
create_task_held-some context a made h e = by_descriptor a.opened refl e
  where
    by_descriptor :
        (o : Option ℕ)
        → a.opened ≡ o
        → create_task_held context a nothing_held ≡ done (some made) h
        → (fd : ℕ) × (a.opened ≡ some fd)
          × (made ≡ create_task context fd a.file_size)
          × (h ≡ record {
            task_file_fd = true;
            fdcopy = false;
            new_task = true;
            cb = true;
            callback_data = true;
            aio_buf = true;
            source_file_path = true;
          })
    by_descriptor none p q = absurd (ground arith)
    by_descriptor (some fd) p q = (fd, p, ground arith, ground arith)
