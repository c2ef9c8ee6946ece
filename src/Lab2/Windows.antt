-- ===== src/Lab2/Windows.antt =====
-- lab2/src/win/childManager.c: the process that manages the children on Windows, as what one event
-- does. An event object is its name; a child's three are named by its process id and its multiples.
mod Children
pub mod Managed
pub mod Ending
pub mod Turns
pub mod Order
mod Witnesses
use spovm4_labs.Base.{
  length, ◌==◌, if◌then◌else◌, ℕ, zero, suc, ◌+◌, ◌-◌, ◌*◌, Bool, true, false, not, ◌&&◌, Option,
  none, some, List, [], ◌∷◌, ◌++◌,
}
use spovm4_labs.Base.Text.{Text, codes}
use spovm4_labs.Lab2.Stack.{Frame, zox_push, zox_pop}
use spovm4_labs.Pointers.{null, Heap, Run, Cmd}
use spovm4_labs.Pointers as P
use spovm4_labs.Stateful.{
  Outcome, done, fault, out_of_fuel, Program, ◌>>=◌, ◌>>◌, pure, state, change,
}

pub data Name : Type 0 where
  kill_manager create_child kill_child test : Name
  numbered : ℕ → Name

abbrev pub name_eq : Name → Name → Bool
name_eq Name.kill_manager Name.kill_manager = true
name_eq Name.create_child Name.create_child = true
name_eq Name.kill_child Name.kill_child = true
name_eq Name.test Name.test = true
name_eq (Name.numbered a) (Name.numbered b) = a == b
name_eq a b = false

-- `struct processInformation`: its handles are those of the process and of the three events
pub record Info : Type 0 where
  pub pid : ℕ

abbrev pub workflow_event_child : Info → Name
workflow_event_child pi = Name.numbered pi.pid

abbrev pub workflow_event_parent : Info → Name
workflow_event_parent pi = Name.numbered (pi.pid * 2)

abbrev pub lifecycle_event : Info → Name
lifecycle_event pi = Name.numbered (pi.pid * 3)

-- the variables of the process, the memory they reach, which events are set, the children that were
-- ended and waited for, in order, and the texts printed, but for those about a new child
pub record Manager : Type 0 where
  pub frames : Heap Frame
  pub infos : Heap Info
  pub child_stack_top : ℕ
  pub current_working_child : ℕ
  pub child_count : ℕ
  pub handlers_array : List Name
  pub is_set : Name → Bool
  pub killed : List ℕ
  pub printed : List Text

-- What a new child gets from outside: the addresses that `malloc` returns for its structure and its
-- stack element, its process id, whether the process is created, and whether there is memory for
-- the new array.
pub record Supply : Type 0 where
  pub info : ℕ
  pub frame : ℕ
  pub pid : ℕ
  pub created : Bool
  pub has_array : Bool

abbrev pub within : {N A : Type 0} → (Heap N → Manager) → Run N A → Outcome Manager A
within back (P.done a h) = done a (back h)
within back P.fault = fault
within back P.out_of_fuel = out_of_fuel

abbrev pub on_frames : {A : Type 0} → Cmd Frame A → Program Manager A
on_frames m s = within (λ h. record s { frames = h }) (m s.frames)

abbrev pub on_infos : {A : Type 0} → Cmd Info A → Program Manager A
on_infos m s = within (λ h. record s { infos = h }) (m s.infos)

abbrev pub put_event : Name → Bool → Manager → Manager
put_event e b s = record s { is_set = λ n. if name_eq n e then b else s.is_set n }

abbrev pub set_event : Name → Program Manager (Unit {0})
set_event e = change (put_event e true)

abbrev pub reset_event : Name → Program Manager (Unit {0})
reset_event e = change (put_event e false)

abbrev pub print : Text → Program Manager (Unit {0})
print t = change (λ s. record s { printed = t ∷ s.printed })

-- `createProcess`; none where it exits with the code 0
unfoldable pub create_process : Supply → Program Manager (Option ℕ)
create_process supply = do
  on_infos (P.fill supply.info (record { pid = supply.pid }))
  if supply.created
      then (do change (λ s. record s { child_count = s.child_count + 1 }); pure (some supply.info))
      else (do print (codes "Cannot create child process\n"); pure none)

unfoldable pub kill_process : ℕ → Program Manager (Unit {0})
kill_process process = do
  change (λ s. record s { child_count = s.child_count - 1 })
  pi ← on_infos (P.load process)
  set_event (lifecycle_event pi)
  change (λ s. record s { killed = s.killed ++ pi.pid ∷ [] })
  on_infos (P.free process)

abbrev pub base_handlers : List Name
base_handlers = Name.kill_manager ∷ Name.create_child ∷ Name.kill_child ∷ Name.test ∷ []

-- The handles behind the base ones: so many stack elements from one on.
unfoldable pub parent_events : ℕ → ℕ → Program Manager (List Name)
parent_events zero zse = pure []
parent_events (suc i) zse = do
  f ← on_frames (P.load zse)
  pi ← on_infos (P.load f.content)
  rest ← parent_events i f.previous
  pure (workflow_event_parent pi ∷ rest)

-- The new array. Where a child is killed, the code does not test whether there is memory for it.
unfoldable pub refresh_handlers : Program Manager (Unit {0})
refresh_handlers = do
  s ← state
  names ← parent_events s.child_count s.child_stack_top
  change (λ s. record s { handlers_array = base_handlers ++ names })

-- `zse = zse->previous` so often
unfoldable pub step_down : ℕ → ℕ → Program Manager ℕ
step_down zero zse = pure zse
step_down (suc i) zse = do f ← on_frames (P.load zse); step_down i f.previous

-- a stack element becomes the working child, and its child is woken
unfoldable pub run_child : ℕ → Program Manager (Unit {0})
run_child zse = do
  change (λ s. record s { current_working_child = zse })
  f ← on_frames (P.load zse)
  pi ← on_infos (P.load f.content)
  set_event (workflow_event_child pi)

-- WAIT_OBJECT_0: all children are ended, the last started first
unfoldable pub on_kill_manager : ℕ → Program Manager (Unit {0})
on_kill_manager zero = λ s. out_of_fuel
on_kill_manager (suc fuel) = do
  s ← state
  if s.child_stack_top == null then print (codes "manager died\n") else do
    (top_child, top) ← on_frames (zox_pop s.child_stack_top)
    change (λ s. record s { child_stack_top = top })
    kill_process top_child
    on_kill_manager fuel

-- WAIT_OBJECT_0 + 1; some code where the process ends
unfoldable pub on_create_child : Supply → Program Manager (Option ℕ)
on_create_child supply = do
  reset_event Name.create_child
  new_child ← create_process supply
  elim new_child [
    | none ↦ pure (some 0)
    | some new ↦ do
      s ← state
      top ← on_frames (zox_push supply.frame s.child_stack_top new)
      change (λ s. record s { child_stack_top = top })
      f ← on_frames (P.load top)
      pi ← on_infos (P.load new)
      if f.previous == null then set_event (workflow_event_child pi) else pure tt
      if supply.has_array
          then (do refresh_handlers; pure none)
          else (do print (codes "Cannot malloc memory for handlersArray, exit 2\n"); pure (some 2))
  ]

-- `childStackTop == currentWorkingChild && childStackTop->previous != NULL`
unfoldable pub kills_running : Program Manager Bool
kills_running = do
  s ← state
  if s.child_stack_top == s.current_working_child
      then (do f ← on_frames (P.load s.child_stack_top); pure (not (f.previous == null)))
      else pure false

-- WAIT_OBJECT_0 + 2
unfoldable pub on_kill_child : Program Manager (Unit {0})
on_kill_child = do
  reset_event Name.kill_child
  s ← state
  if s.child_stack_top == null then print (codes "There is no child yet\n") else do
    kill_running_flag ← kills_running
    (child_to_kill, top) ← on_frames (zox_pop s.child_stack_top)
    change (λ s. record s { child_stack_top = top })
    kill_process child_to_kill
    refresh_handlers
    if kill_running_flag
        then (do
          f ← on_frames (P.load top)
          pi ← on_infos (P.load f.content)
          reset_event (workflow_event_parent pi)
          run_child top)
        else pure tt

-- a child has set its event: its number counts from the top of the stack
unfoldable pub on_child : ℕ → Program Manager (Unit {0})
on_child process_number = do
  s ← state
  signaled_child ← step_down process_number s.child_stack_top
  f ← on_frames (P.load signaled_child)
  pi ← on_infos (P.load f.content)
  reset_event (workflow_event_parent pi)
  if suc process_number == s.child_count then run_child s.child_stack_top else (do
    at_number ← step_down process_number s.child_stack_top
    g ← on_frames (P.load at_number)
    run_child g.previous)

-- One round of the loop on what `WaitForMultipleObjects` returned; some code where the process ends.
unfoldable pub on_event : ℕ → Supply → ℕ → Program Manager (Option ℕ)
on_event fuel supply signaled_event =
    if signaled_event == 0
    then (do on_kill_manager fuel; pure (some 0))
    else if signaled_event == 1
    then on_create_child supply
    else if signaled_event == 2
    then (do on_kill_child; pure none)
    else if signaled_event == 3
    then (do print (codes "ChildManager got test event\n"); reset_event Name.test; pure none)
    else (do on_child (signaled_event - 4); pure none)

-- the variables once the events are there
abbrev pub initialized : (Name → Bool) → Manager
initialized is_set = record {
  frames = λ a. none;
  infos = λ a. none;
  child_stack_top = null;
  current_working_child = null;
  child_count = 0;
  handlers_array = base_handlers;
  is_set = is_set;
  killed = [];
  printed = [];
}
