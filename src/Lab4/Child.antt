-- ===== src/Lab4/Child.antt =====
-- lab4/src/child/child.c: what the thread manager does to a child, and what a child's thread takes
-- and writes. Its mutex protects `message`, its condition wakes it when `message` is set.
use spovm4_labs.Base.Text.{Text}
use spovm4_labs.Base.{◌==◌, if◌then◌else◌, ℕ, zero, suc, ◌-◌, ◌^◌, Bool, true, false, [], ◌∷◌}
use spovm4_labs.Pointers.{null, Cmd, pure, ◌>>=◌, ◌>>◌, load, store, fill}

-- `child_thread_t`; `message` is 0, 1 to wake the child or -1, which is `kill_message`, to end it.
pub record Child : Type 0 where
  pub name : ℕ
  pub message : ℕ

abbrev pub kill_message : ℕ
kill_message = 2 ^ 32 - 1

-- `new_child` is what `malloc` returns, `created` whether `pthread_create` succeeds. If it fails,
-- NULL is returned and the structure stays allocated.
unfoldable pub start_child : ℕ → Bool → ℕ → Cmd Child ℕ
start_child new_child created name = if new_child == null then pure null else do
  fill new_child (record { name = name; message = 0 })
  if created then pure new_child else pure null

unfoldable pub wake_child : ℕ → Cmd Child (Unit {0})
wake_child child = do c ← load child; store child (record c { message = 1 })

-- The structure of a killed child is not freed.
unfoldable pub kill_child : ℕ → Cmd Child (Unit {0})
kill_child child = do c ← load child; store child (record c { message = kill_message })

-- What a child's thread takes under its mutex; 0 where it waits on the condition.
unfoldable pub take_message : ℕ → Cmd Child ℕ
take_message child = do
  c ← load child
  if c.message == 0 then pure 0 else do store child (record c { message = 0 }); pure c.message

abbrev pub after : ℕ → Text × Bool → Text × Bool
after name (t, finished) = (name ∷ t, finished)

-- The loop that writes so many letters, and whether it comes to its end; `cancelled` tells, by the
-- rounds that are left, whether pthread_testcancel finds that the thread was cancelled.
unfoldable pub write_letters : (ℕ → Bool) → ℕ → ℕ → Text × Bool
write_letters cancelled name zero = ([], true)
write_letters cancelled name (suc n) =
    let rest = write_letters cancelled name n in
    if cancelled n then (name ∷ [], false) else after name rest
