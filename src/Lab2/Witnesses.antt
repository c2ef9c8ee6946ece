-- ===== src/Lab2/Witnesses.antt =====
-- The theorems at a parent with one child.
use spovm4_labs.Base.{◌==◌, if◌then◌else◌, ◌≡◌, refl, true, false, none, some, [], ◌∷◌, ◌++◌, arith}
use spovm4_labs.Lab2.Killing.{pids, HasChildren, kill_children-HasChildren}
use spovm4_labs.Lab2.Parent.{Parent, ok, kill_children}
use spovm4_labs.Pointers.{null}

abbrev parent : Parent
parent = record {
  frames = λ a. if a == 1 then some (record { content = 2; previous = null }) else none;
  processes = λ a. if a == 2 then some (record { pid = 77 }) else none;
  child_stack_top = 1;
  new_process_symbol = b'a';
  killed = [];
  semaphore_removed = false;
  printed = [];
}

parent-HasChildren : HasChildren parent ((1, 2, 77) ∷ [])
parent-HasChildren = record {
  stack = (refl, (null, record { not_null = refl; holds = refl }, refl), refl);
  processes = (record { not_null = refl; holds = refl }, tt);
}

kill_children-HasChildren_example :
    (s' : Parent) × (kill_children 2 parent ≡ ok tt s')
    × HasChildren s' []
    × (s'.killed ≡ [] ++ pids ((1, 2, 77) ∷ []))
    × (s'.semaphore_removed ≡ true)
kill_children-HasChildren_example =
    kill_children-HasChildren 2 parent ((1, 2, 77) ∷ []) parent-HasChildren (omega arith)
