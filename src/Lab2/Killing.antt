-- ===== src/Lab2/Killing.antt =====
-- How the parent's children end.
use spovm4_labs.Base.{
  length, ◌==◌, ==_iff, ℕ, zero, suc, ◌+◌, ◌%◌, ◌<◌, ◌≡◌, refl, sym, ap, ◌∙◌, true, false, none,
  some, List, [], ◌∷◌, ◌++◌, append-nil, append_assoc, arith,
}
use spovm4_labs.Base.Text.{codes}
use spovm4_labs.Lab2.Parent.{
  Process, Parent, ok, exited, next_symbol, kill_process, kill_last_child, kill_loop, kill_children,
  create_process, init_new_child,
}
use spovm4_labs.Lab2.Stack.{holds_frame, IsStack, zox_push-IsStack, zox_pop-IsStack}
use spovm4_labs.Pointers.{
  null, Heap, write, Points, load-done, fill-done, Points-write_self, Points-write_ne,
}

-- The processes on the stack, the last started first: the addresses of a stack frame and of a
-- process, and its pid.
abbrev pub Started : Type 0
Started = List (ℕ × ℕ × ℕ)

abbrev pub frames_of : Started → List (ℕ × ℕ)
frames_of [] = []
frames_of ((p, pi, pid) ∷ xs) = (p, pi) ∷ frames_of xs

abbrev pub pids : Started → List ℕ
pids [] = []
pids ((p, pi, pid) ∷ xs) = pid ∷ pids xs

abbrev pub AreProcesses : Heap Process → Started → Type 0
AreProcesses h [] = Unit
AreProcesses h ((p, pi, pid) ∷ xs) = Points h pi (record { pid = pid }) × AreProcesses h xs

pub AreProcesses-write :
    (h : Heap Process) (xs : Started) (a : ℕ) (n : Process)
    → h a ≡ none
    → AreProcesses h xs
    → AreProcesses (write h a (some n)) xs
AreProcesses-write h [] a n unused e = tt
AreProcesses-write h ((p, pi, pid) ∷ xs) a n unused (e, es) = (
  Points-write_ne h pi a (some n) (record { pid = pid })
      (λ q. absurd (cc (ap h q, e.holds, unused))) e,
  AreProcesses-write h xs a n unused es,
)

pub record HasChildren (s : Parent) (xs : Started) : Type 0 where
  pub stack : IsStack s.frames s.child_stack_top (frames_of xs)
  pub processes : AreProcesses s.processes xs

abbrev pub lowered : ℕ → ℕ → ℕ
lowered c zero = c
lowered c (suc n) = lowered ((c + 255) % 256) n

-- Killing the last child takes it off the stack and lowers the symbol.
pub kill_last_child-HasChildren :
    (s : Parent) (p pi pid : ℕ) (xs : Started)
    → HasChildren s ((p, pi, pid) ∷ xs)
    → (s' : Parent) × (kill_last_child s ≡ ok tt s')
      × HasChildren s' xs
      × (s'.killed ≡ s.killed ++ pid ∷ [])
      × (s'.new_process_symbol ≡ (s.new_process_symbol + 255) % 256)
unfolding kill_last_child kill_process
kill_last_child-HasChildren s p pi pid xs h =
    let (frames, q, run, rest) =
      zox_pop-IsStack s.frames s.child_stack_top p pi (frames_of xs) h.stack in
    let some_child : (s.child_stack_top == null) ≡ false =
      ap (λ t. t == null) h.stack.0 ∙ h.stack.1.1.not_null in
    let process : Process = record { pid = pid } in
    (
      record s {
        frames = frames;
        child_stack_top = q;
        killed = s.killed ++ pid ∷ [];
        new_process_symbol = (s.new_process_symbol + 255) % 256;
      },
      rw (some_child, run, load-done s.processes pi process h.processes.0),
      record { stack = rest; processes = h.processes.1 },
      refl,
      refl,
    )

kill_loop-HasChildren :
    (fuel : ℕ) (s : Parent) (xs : Started)
    → HasChildren s xs
    → length xs < fuel
    → (s' : Parent) × (kill_loop fuel s ≡ ok tt s')
      × HasChildren s' []
      × (s'.killed ≡ s.killed ++ pids xs)
      × (s'.new_process_symbol ≡ lowered s.new_process_symbol (length xs))
unfolding kill_loop
kill_loop-HasChildren zero s xs h l = absurd (omega arith)
kill_loop-HasChildren (suc k) s [] h l =
    (s, rw ((==_iff s.child_stack_top null).1 h.stack), h, sym (append-nil s.killed), refl)
kill_loop-HasChildren (suc k) s ((p, pi, pid) ∷ xs) h l =
    let (s₁, run, h₁, killed, symbol) = kill_last_child-HasChildren s p pi pid xs h in
    let (s₂, run₂, h₂, killed₂, symbol₂) = kill_loop-HasChildren k s₁ xs h₁ (omega arith) in
    let some_child : (s.child_stack_top == null) ≡ false =
      ap (λ t. t == null) h.stack.0 ∙ h.stack.1.1.not_null in
    (
      s₂,
      rw (some_child, run) run₂,
      h₂,
      killed₂ ∙ ap (λ l. l ++ pids xs) killed ∙ append_assoc s.killed (pid ∷ []) (pids xs),
      symbol₂ ∙ ap (λ c. lowered c (length xs)) symbol,
    )

-- With more fuel than children are on the stack, killChildren ends: it kills every child on the
-- stack once, the last started first, empties the stack and removes the semaphore.
pub kill_children-HasChildren :
    (fuel : ℕ) (s : Parent) (xs : Started)
    → HasChildren s xs
    → length xs < fuel
    → (s' : Parent) × (kill_children fuel s ≡ ok tt s')
      × HasChildren s' []
      × (s'.killed ≡ s.killed ++ pids xs)
      × (s'.semaphore_removed ≡ true)
unfolding kill_children
kill_children-HasChildren fuel s xs h l =
    let (s', run, h', killed, symbol) = kill_loop-HasChildren fuel s xs h l in
    (
      record s' { semaphore_removed = true },
      rw run,
      record { stack = h'.stack; processes = tt },
      killed,
      refl,
    )

-- Where fork succeeds and the memory is new, initNewChild puts the new child on top of the children
-- on the stack, kills none, and moves newProcessSymbol on by one letter.
pub init_new_child-HasChildren :
    (fuel pi fresh pid : ℕ) (s : Parent) (xs : Started)
    → HasChildren s xs
    → (pi == null) ≡ false
    → s.processes pi ≡ none
    → (fresh == null) ≡ false
    → holds_frame fresh (frames_of xs) ≡ false
    → (s' : Parent) × (init_new_child fuel pi fresh (some pid) s ≡ ok tt s')
      × HasChildren s' ((fresh, pi, pid) ∷ xs)
      × (s'.new_process_symbol ≡ next_symbol s.new_process_symbol)
      × (s'.killed ≡ s.killed)
unfolding init_new_child create_process
init_new_child-HasChildren fuel pi fresh pid s xs h not_null unused frame_not_null out =
    let (frames, run, stack) =
      zox_push-IsStack s.frames fresh s.child_stack_top pi (frames_of xs) h.stack frame_not_null
        out in
    let process : Process = record { pid = pid } in
    (
      record s {
        frames = frames;
        processes = write s.processes pi (some process);
        child_stack_top = fresh;
        new_process_symbol = next_symbol s.new_process_symbol;
      },
      rw (fill-done s.processes pi process not_null, run),
      record {
        stack = stack;
        processes = (
          Points-write_self s.processes pi process not_null,
          AreProcesses-write s.processes xs pi process unused h.processes,
        );
      },
      refl,
      refl,
    )

-- Where fork fails, and with more fuel than children are on the stack, initNewChild exits with code
-- 1 after it has killed every child on the stack once and removed the semaphore.
pub init_new_child-exited :
    (fuel pi fresh : ℕ) (s : Parent) (xs : Started)
    → HasChildren s xs
    → length xs < fuel
    → (s' : Parent) × (init_new_child fuel pi fresh none s ≡ exited 1 s')
      × HasChildren s' []
      × (s'.killed ≡ s.killed ++ pids xs)
      × (s'.semaphore_removed ≡ true)
unfolding init_new_child create_process
init_new_child-exited fuel pi fresh s xs h l =
    let t : Parent = record s {
      new_process_symbol = next_symbol s.new_process_symbol;
      printed = codes "Fork error, exit 1\n" ∷ s.printed;
    } in
    let (s', run, h', killed, removed) =
      kill_children-HasChildren fuel t xs (record { stack = h.stack; processes = h.processes }) l in
    (s', rw run, h', killed, removed)
