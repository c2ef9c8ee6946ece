-- ===== src/Lab4/Input.antt =====
-- lab4/src/main.c and the loop of a child's thread in lab4/src/child/child.c: who sends letters to the
-- thread manager.
pub mod Turns
pub mod Order
mod Witnesses
use spovm4_labs.Base.Text.{Text}
use spovm4_labs.Base.{◌==◌, if◌then◌else◌, ℕ, Bool, true, false, ◌||◌, [], ◌∷◌, ◌++◌}
use spovm4_labs.Lab4.Child.{take_message, write_letters}
use spovm4_labs.Lab4.Manager.{
  Step, Supply, ◌>>=◌, ◌>>◌, give, on_children, send_tm, print_current_child, round,
}
use spovm4_labs.Pointers.{load}

-- What a round of a child's thread ends with: it waits, it returns, it was cancelled with a part of
-- its letters written, or it has written a row.
pub data Turn : Type 0 where
  waits : Turn
  returns : Turn
  cancelled : Text → Turn
  wrote : Text → Turn

-- One round of the loop of `child_thread`. A cancellation is noticed where pthread_testcancel is
-- called.
unfoldable pub child_thread : (ℕ → Bool) → ℕ → ℕ → Supply → ℕ → Step Turn
child_thread cancel child_letters_count fuel supply child = do
  message ← on_children (take_message child)
  if message == 0
      then give waits
      else if message == 1
      then (do
        c ← on_children (load child)
        let row = write_letters cancel c.name child_letters_count
        if row.1
            then (do send_tm fuel supply b'x'; give (wrote (row.0 ++ 0x0A ∷ [])))
            else give (cancelled row.0))
      else give returns

-- `kill_tm` and `preDestroy` up to the wait for the manager's end
unfoldable pub kill_tm : ℕ → Supply → Step (Unit {0})
kill_tm fuel supply = send_tm fuel supply b'q'

-- One letter of the user; whether the loop goes on.
unfoldable pub on_choise : ℕ → Supply → ℕ → Step Bool
unfolding kill_tm
on_choise fuel supply choise =
    if choise == b'+' || (choise == b'-' || choise == b'p')
    then (do send_tm fuel supply choise; give true)
    else if choise == b'i'
    then (do print_current_child; give true)
    else if choise == b'q'
    then (do kill_tm fuel supply; give false)
    else give true

-- A child's thread, and the manager behind it.
unfoldable pub turn : ℕ → ℕ → Supply → ℕ → Step Turn
turn child_letters_count fuel supply child = do
  t ← child_thread (λ n. false) child_letters_count fuel supply child
  round fuel supply
  give t
