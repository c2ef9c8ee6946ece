-- ===== src/Lab2/Child.antt =====
-- lab2/src/lin/child_lin.c: the children print rows of their letter in turn, on one semaphore that the
-- parent sets to 1. A step is what a child does between two calls that another can notice; a step
-- that is not possible leaves everything as it is.
pub mod Exclusive
pub mod Rows
mod Witnesses
use spovm4_labs.Base.{
  ltb, ◌==◌, if◌then◌else◌, ℕ, zero, suc, ◌+◌, ◌-◌, ◌≡◌, Bool, true, false, List, [], ◌∷◌, ◌++◌,
}
use spovm4_labs.Base.Text.{Text}

-- where a child stands: not started, in the `semop` that takes the semaphore, in the loop with so
-- many bytes printed, or ended
pub data Phase : Type 0 where
  absent : Phase
  waiting : Phase
  printing : ℕ → Phase
  ended : Phase

-- the variable `c` and `errno`, which no call of a child sets before its handler runs: a `semop` that
-- a signal interrupts sets it only when it returns
pub record Child : Type 0 where
  pub phase : Phase
  pub c : ℕ
  pub errno : ℕ

pub record Terminal : Type 0 where
  pub semaphore : ℕ
  pub child : ℕ → Child
  pub printed : Text

pub data Event : Type 0 where
  start : ℕ → ℕ → Event
  take print release terminate : ℕ → Event

abbrev pub set_child : ℕ → Child → Terminal → Terminal
set_child i c s = record s { child = λ j. if j == i then c else s.child j }

abbrev pub set_phase : ℕ → Phase → Terminal → Terminal
set_phase i p s = set_child i (record (s.child i) { phase = p }) s

-- the semaphore is 1 where the parent has made it
abbrev pub initialized : Terminal
initialized = record {
  semaphore = 1;
  child = λ i. record { phase = absent; c = 0; errno = 0 };
  printed = [];
}

-- `main` up to the first `semop`
unfoldable pub on_start : Phase → ℕ → ℕ → Terminal → Terminal
on_start absent i c s = set_child i (record { phase = waiting; c = c; errno = 0 }) s
on_start p i c s = s

-- `semop(semID, &takeSemaphore, 1)`
unfoldable pub on_take : Phase → ℕ → Terminal → Terminal
on_take waiting i s =
    if ltb 0 s.semaphore
    then record (set_phase i (printing 0) s) { semaphore = s.semaphore - 1 }
    else s
on_take p i s = s

-- a `printf` of the loop, or the one behind it
unfoldable pub on_print : Phase → ℕ → Terminal → Terminal
on_print (printing k) i s =
    if ltb k 6
    then record (set_phase i (printing (suc k)) s) { printed = s.printed ++ (s.child i).c ∷ [] }
    else if k == 6
    then record (set_phase i (printing 7) s) { printed = s.printed ++ 0x0A ∷ [] }
    else s
on_print p i s = s

-- `semop(semID, &releaseSemaphore, 1)`
unfoldable pub on_release : Phase → ℕ → Terminal → Terminal
on_release (printing k) i s =
    if k == 7 then record (set_phase i waiting s) { semaphore = s.semaphore + 1 } else s
on_release p i s = s

-- `killHandler`, but for its messages
unfoldable pub kill_handler : ℕ → Terminal → Terminal
kill_handler i s = record (set_phase i ended s) {
  semaphore = if (s.child i).errno == 0 then s.semaphore + 1 else s.semaphore;
}

-- SIGTERM, which a child that runs handles
unfoldable pub on_terminate : Phase → ℕ → Terminal → Terminal
unfolding kill_handler
on_terminate waiting i s = kill_handler i s
on_terminate (printing k) i s = kill_handler i s
on_terminate p i s = s

unfoldable pub step : Event → Terminal → Terminal
unfolding on_start on_take on_print on_release on_terminate
step (start i c) s = on_start (s.child i).phase i c s
step (take i) s = on_take (s.child i).phase i s
step (print i) s = on_print (s.child i).phase i s
step (release i) s = on_release (s.child i).phase i s
step (terminate i) s = on_terminate (s.child i).phase i s

-- the states that follow a state by events that are allowed
pub data Reaches (allowed : Event → Terminal → Bool) (s : Terminal) : Terminal → Type 0 where
  here : Reaches allowed s s
  then_step :
      {s' : Terminal} (event : Event)
      → Reaches allowed s s'
      → allowed event s' ≡ true
      → Reaches allowed s (step event s')
