-- ===== src/Lab2/Parent.antt =====
-- lab2/src/lin/implementation_lin.c: the parent, which keeps its children on a stack.
use spovm4_labs.Base.{
  ltb, ◌==◌, if◌then◌else◌, ℕ, zero, suc, ◌+◌, ◌%◌, Bool, true, false, ◌&&◌, Option, none, some,
  List, [], ◌∷◌, ◌++◌,
}
use spovm4_labs.Base.Text.{Text, codes}
use spovm4_labs.Lab2.Stack.{Frame, zox_push, zox_pop}
use spovm4_labs.Pointers.{null, Heap, Run, done, fault, out_of_fuel, Cmd, load, fill}

-- `struct processInformation`
pub record Process : Type 0 where
  pub pid : ℕ

-- the global variables, the memory they reach, the processes that were sent SIGTERM and waited for,
-- in order, and the texts printed, the last first, but for those that hold a number
pub record Parent : Type 0 where
  pub frames : Heap Frame
  pub processes : Heap Process
  pub child_stack_top : ℕ
  pub new_process_symbol : ℕ
  pub killed : List ℕ
  pub semaphore_removed : Bool
  pub printed : List Text

-- a result, `exit` with a code, a fault, or a loop cut by fuel
pub data Outcome (A : Type 0) : Type 0 where
  ok : A → Parent → Outcome A
  exited : ℕ → Parent → Outcome A
  failed : Outcome A
  stuck : Outcome A

abbrev pub Step : Type 0 → Type 0
Step A = Parent → Outcome A

abbrev pub give : {A : Type 0} → A → Step A
give = ok

module _ {A B : Type 0} where
  abbrev pub and_then : Outcome A → (A → Step B) → Outcome B
  and_then (ok a s) k = k a s
  and_then (exited code s) k = exited code s
  and_then failed k = failed
  and_then stuck k = stuck

  infixl 5 ◌>>=◌ ◌>>◌
  abbrev pub ◌>>=◌ : Step A → (A → Step B) → Step B
  m >>= k = λ s. and_then (m s) k

  abbrev pub ◌>>◌ : Step A → Step B → Step B
  m >> n = m >>= λ _. n

abbrev pub within : {N A : Type 0} → (Heap N → Parent) → Run N A → Outcome A
within back (done a h) = ok a (back h)
within back fault = failed
within back out_of_fuel = stuck

abbrev pub on_frames : {A : Type 0} → Cmd Frame A → Step A
on_frames m s = within (λ h. record s { frames = h }) (m s.frames)

abbrev pub on_processes : {A : Type 0} → Cmd Process A → Step A
on_processes m s = within (λ h. record s { processes = h }) (m s.processes)

abbrev pub state : Step Parent
state s = ok s s

abbrev pub change : (Parent → Parent) → Step (Unit {0})
change f s = ok tt (f s)

abbrev pub print : Text → Step (Unit {0})
print t = change (λ s. record s { printed = t ∷ s.printed })

-- `c > 'z'` for a signed `char` with the bits `c`
abbrev pub above_z : ℕ → Bool
above_z c = ltb b'z' c && ltb c 128

unfoldable pub next_symbol : ℕ → ℕ
next_symbol c = let c' = (c + 1) % 256 in if above_z c' then b'a' else c'

unfoldable pub kill_process : ℕ → Step (Unit {0})
kill_process pi = do
  p ← on_processes (load pi)
  change (λ s. record s {
    killed = s.killed ++ p.pid ∷ [];
    new_process_symbol = (s.new_process_symbol + 255) % 256;
  })

unfoldable pub kill_last_child : Step (Unit {0})
kill_last_child = do
  s ← state
  if s.child_stack_top == null then print (codes "There is no any child yet\n") else (do
    (last_child, top) ← on_frames (zox_pop s.child_stack_top)
    change (λ s. record s { child_stack_top = top })
    kill_process last_child)

-- `while(childStackTop != NULL)`
unfoldable pub kill_loop : ℕ → Step (Unit {0})
kill_loop zero = λ _. stuck
kill_loop (suc k) = do
  s ← state
  if s.child_stack_top == null then give tt else (do kill_last_child; kill_loop k)

unfoldable pub kill_children : ℕ → Step (Unit {0})
kill_children fuel = do kill_loop fuel; change (λ s. record s { semaphore_removed = true })

-- In the parent. `pi` is what `malloc` returns, `forked` what `fork` does, none for -1.
unfoldable pub create_process : ℕ → ℕ → Option ℕ → Step ℕ
create_process fuel pi forked = do
  change (λ s. record s { new_process_symbol = next_symbol s.new_process_symbol })
  elim forked [
    | none ↦ (do print (codes "Fork error, exit 1\n"); kill_children fuel; exited 1)
    | some pid ↦ (do on_processes (fill pi (record { pid = pid })); give pi)
  ]

-- `fresh` is the memory of the stack's new element.
unfoldable pub init_new_child : ℕ → ℕ → ℕ → Option ℕ → Step (Unit {0})
init_new_child fuel pi fresh forked = do
  new_child ← create_process fuel pi forked
  s ← state
  top ← on_frames (zox_push fresh s.child_stack_top new_child)
  change (λ s. record s { child_stack_top = top })

-- One letter read by `main` of lab2/src/main.c; whether it goes on. A newline is skipped, as is
-- any letter without a case.
unfoldable pub act : ℕ → ℕ → ℕ → Option ℕ → ℕ → Step Bool
act fuel pi fresh forked action =
    if action == b'+'
    then (do init_new_child fuel pi fresh forked; give true)
    else if action == b'-'
    then (do kill_last_child; give true)
    else if action == b't'
    then (do print (codes "Test success\n"); give true)
    else if action == b'q'
    then (do kill_children fuel; give false)
    else give true
