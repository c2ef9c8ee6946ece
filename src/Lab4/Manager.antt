-- ===== src/Lab4/Manager.antt =====
-- lab4/src/tm/tm.c: the thread manager, as a step on its state for each command it takes from its
-- queue. The locks only make each step atomic.
pub mod Live
mod Witnesses
pub mod Pausing
pub mod Adding
pub mod Removing
pub mod Emptying
use spovm4_labs.Base.{
  ◌==◌, if◌then◌else◌, ℕ, zero, suc, ◌+◌, ◌%◌, Bool, true, false, not, ◌&&◌, ◌||◌, Option, none,
  some, List, [], ◌∷◌, ◌++◌,
}
use spovm4_labs.Base.Text.{Text, codes}
use spovm4_labs.Lab4.Child.{Child, start_child, wake_child, kill_child}
use spovm4_labs.Lab4.Queue.{Element, offer, poll}
use spovm4_labs.Lab4.Ring.{Node, add, remove, data_of}
use spovm4_labs.Pointers.{null, Heap, Run, done, fault, out_of_fuel, Cmd, load, fill, free}

-- the static variables of tm.c, the memory that they reach, and the texts printed, the last first
pub record Manager : Type 0 where
  pub commands : Heap Element
  pub letters : Heap ℕ
  pub ring : Heap Node
  pub children : Heap Child
  pub tm_data : ℕ
  pub current_child : ℕ
  pub top_child : ℕ
  pub last_child_name : ℕ
  pub tm_paused : ℕ
  pub tm_initialized : ℕ
  pub tm_child_paused : ℕ
  pub printed : List Text

pub data Outcome (A : Type 0) : Type 0 where
  ok : A → Manager → Outcome A
  failed : Outcome A
  stuck : Outcome A

abbrev pub Step : Type 0 → Type 0
Step A = Manager → Outcome A

abbrev pub give : {A : Type 0} → A → Step A
give = ok

module _ {A B : Type 0} where
  abbrev pub and_then : Outcome A → (A → Step B) → Outcome B
  and_then (ok a s) k = k a s
  and_then failed k = failed
  and_then stuck k = stuck

  infixl 5 ◌>>=◌ ◌>>◌
  abbrev pub ◌>>=◌ : Step A → (A → Step B) → Step B
  m >>= k = λ s. and_then (m s) k

  abbrev pub ◌>>◌ : Step A → Step B → Step B
  m >> n = m >>= λ _. n

-- a run on one of the heaps, and the state with the heap it leaves
abbrev pub within : {N A : Type 0} → (Heap N → Manager) → Run N A → Outcome A
within back (done a h) = ok a (back h)
within back fault = failed
within back out_of_fuel = stuck

abbrev pub on_commands : {A : Type 0} → Cmd Element A → Step A
on_commands m s = within (λ h. record s { commands = h }) (m s.commands)

abbrev pub on_letters : {A : Type 0} → Cmd ℕ A → Step A
on_letters m s = within (λ h. record s { letters = h }) (m s.letters)

abbrev pub on_ring : {A : Type 0} → Cmd Node A → Step A
on_ring m s = within (λ h. record s { ring = h }) (m s.ring)

abbrev pub on_children : {A : Type 0} → Cmd Child A → Step A
on_children m s = within (λ h. record s { children = h }) (m s.children)

abbrev pub state : Step Manager
state s = ok s s

abbrev pub change : (Manager → Manager) → Step (Unit {0})
change f s = ok tt (f s)

-- `printf`
abbrev pub print : Text → Step (Unit {0})
print t = change (λ s. record s { printed = t ∷ s.printed })

-- What one command may get from outside: the addresses that `malloc` returns for a sent letter, its
-- queue element, a child and its ring element, and whether `pthread_create` succeeds.
pub record Supply : Type 0 where
  pub letter : ℕ
  pub queue_element : ℕ
  pub child : ℕ
  pub ring_element : ℕ
  pub created : Bool

-- rounds of a loop over the queue; the queue never has more elements than were ever sent
unfoldable pub send_tm : ℕ → Supply → ℕ → Step (Unit {0})
send_tm fuel supply value = do
  on_letters (fill supply.letter value)
  s ← state
  tail ← on_commands (offer fuel supply.queue_element s.tm_data supply.letter)
  change (λ s. record s { tm_data = tail })

unfoldable pub update_current_child : ℕ → Step (Unit {0})
update_current_child new_value = change (λ s. record s { current_child = new_value })

-- The letter taken, none where the manager would wait on the condition.
unfoldable pub get_data : Step (Option ℕ)
get_data = do
  s ← state
  if s.tm_data == null then give none else do
    (tmp, tail) ← on_commands (poll s.tm_data)
    change (λ s. record s { tm_data = tail })
    letter ← on_letters (load tmp)
    on_letters (free tmp)
    give (some letter)

-- One more than a `char` with the bits `c`, and one less.
abbrev pub char_next : ℕ → ℕ
char_next c = (c + 1) % 256

abbrev pub char_previous : ℕ → ℕ
char_previous c = (c + 255) % 256

unfoldable pub add_child : Supply → Step (Unit {0})
add_child supply = do
  s ← state
  new ← on_children (start_child supply.child supply.created s.last_child_name)
  top ← on_ring (add supply.ring_element s.top_child new)
  change (λ s. record s { top_child = top })
  if s.top_child == null
      then (do
        update_current_child top
        child ← on_ring (data_of top)
        on_children (wake_child child))
      else give tt
  change (λ s. record s {
    last_child_name = if s.last_child_name == b'z' then b'a' else char_next s.last_child_name;
  })

unfoldable pub remove_child : Step (Unit {0})
remove_child = do
  s ← state
  (child, top) ← on_ring (remove s.top_child)
  change (λ s. record s { top_child = top })
  on_children (kill_child child)
  if top == null then update_current_child null else give tt
  change (λ s. record s { last_child_name = char_previous s.last_child_name })

-- `while (top_child != NULL)`
unfoldable pub remove_children : ℕ → Step (Unit {0})
remove_children zero = λ _. stuck
remove_children (suc k) = do
  s ← state
  if s.top_child == null then give tt else (do remove_child; remove_children k)

unfoldable pub no_children : Text
no_children = codes "There is no any children yet\n"

-- `case '-'`
unfoldable pub on_minus : ℕ → Supply → Step (Unit {0})
on_minus fuel supply = do
  s ← state
  if s.top_child == null
      then print no_children
      else (do flag ← last_runs; remove_child; if flag then send_tm fuel supply b'x' else give tt)
  where
    -- `current_child == top_child && top_child->next != top_child`
    last_runs : Step Bool
    last_runs = do
      s ← state
      if s.current_child == s.top_child
          then (do n ← on_ring (load s.top_child); give (not (n.next == s.top_child)))
          else give false

-- `case 'p'`
unfoldable pub on_pause : ℕ → Supply → Step (Unit {0})
on_pause fuel supply = do
  s ← state
  if s.tm_paused == 1 && s.tm_child_paused == 0 then give tt else do
    let paused = if s.tm_paused == 0 then 1 else 0
    change (λ s. record s { tm_paused = paused; tm_child_paused = 0 })
    if paused == 0 then send_tm fuel supply b'x' else give tt

-- `case 'x'`
unfoldable pub on_signal : Step (Unit {0})
on_signal = do
  s ← state
  if s.current_child == null
      then give tt
      else if s.tm_paused == 1
      then change (λ s. record s { tm_child_paused = 1 })
      else (do
        n ← on_ring (load s.current_child)
        update_current_child n.next
        m ← on_ring (load n.next)
        on_children (wake_child m.value))

-- What one letter does; whether the thread goes on.
unfoldable pub handle : ℕ → Supply → ℕ → Step Bool
handle fuel supply letter =
    if letter == b'q'
    then (do remove_children fuel; give false)
    else if letter == b'+'
    then (do add_child supply; give true)
    else if letter == b'-'
    then (do on_minus fuel supply; give true)
    else if letter == b'p'
    then (do on_pause fuel supply; give true)
    else if letter == b'x'
    then (do on_signal; give true)
    else give true

-- One round of the loop of `thread_manager`; true also where it would wait.
unfoldable pub round : ℕ → Supply → Step Bool
round fuel supply = do
  taken ← get_data
  elim taken [ none ↦ give true | some letter ↦ handle fuel supply letter ]

unfoldable pub print_current_child : Step (Unit {0})
print_current_child = do
  s ← state
  if s.current_child == null || s.tm_initialized == 0
      then print (codes "Threre is no children yet\n")
      else (do
        n ← on_ring (load s.current_child)
        c ← on_children (load n.value)
        print (codes "Current running child: " ++ c.name ∷ codes "\n"))

-- `start_tm`, from the initial values of the variables
unfoldable pub start_tm : Manager
start_tm = record {
  commands = λ a. none;
  letters = λ a. none;
  ring = λ a. none;
  children = λ a. none;
  tm_data = null;
  current_child = null;
  top_child = null;
  last_child_name = b'a';
  tm_paused = 0;
  tm_initialized = 1;
  tm_child_paused = 0;
  printed = [];
}
