-- ===== src/Lab2/Windows/Turns.antt =====
-- lab2/src/win/child_win.c, and the children together with their manager: they print in turn.
use spovm4_labs.Base.Text.{Text, codes}
use spovm4_labs.Base.{
  length, get_or, ◌==◌, if◌then◌else◌, ℕ, zero, suc, ◌*◌, ◌<◌, ◌≡◌, ◌≢◌, Bool, true, false, Option,
  none, some, List, [], ◌∷◌, ◌++◌,
}
use spovm4_labs.Lab2.Windows.Children.{Entry, no_entry}
use spovm4_labs.Lab2.Windows.Managed.{IsManaged, number_after}
use spovm4_labs.Lab2.Windows.{
  Name, numbered, name_eq, Supply, on_event, Info, Manager, workflow_event_child,
  workflow_event_parent, lifecycle_event, set_event, reset_event,
}
use spovm4_labs.Stateful.{Program, ◌>>=◌, ◌>>◌, pure, state}

-- what a round of a child ends with, and what it printed
pub data Turn : Type 0 where
  waits : Turn
  exits : Text → Turn
  wrote : Text → Turn

abbrev pub after : Text → Text × Bool → Text × Bool
after name (t, finished) = (name ++ t, finished)

-- The loop that prints the name so often, and whether it comes to its end; `ended` tells, by the
-- rounds that are left, whether the wait for the lifecycle event finds it set.
unfoldable pub print_names : (ℕ → Bool) → Text → ℕ → Text × Bool
print_names ended name zero = ([], true)
print_names ended name (suc n) =
    let rest = print_names ended name n in if ended n then (name, false) else after name rest

abbrev pub farewell : Text → Text
farewell name = codes "Child " ++ (name ++ codes " exit\n")

-- One round of the loop of a child's `main`, whose argument is its name.
unfoldable pub child_win : (ℕ → Bool) → Text → Info → Program Manager Turn
child_win ended name pi = do
  s ← state
  if s.is_set (workflow_event_child pi)
      then (let row = print_names ended name 3 in
          if row.1
          then (do
            reset_event (workflow_event_child pi)
            set_event (workflow_event_parent pi)
            pure (wrote (row.0 ++ codes "\n")))
          else pure (exits (row.0 ++ farewell name)))
      else if s.is_set (lifecycle_event pi)
      then (do set_event (workflow_event_parent pi); pure (exits (farewell name)))
      else pure waits

-- three times a name, and the line's end
abbrev pub row : Text → Text
row name = (name ++ (name ++ (name ++ []))) ++ codes "\n"

-- A round of the loop of `main` of childManager.c: what `WaitForMultipleObjects` returns for the
-- events and the array of handles is handled; none where it waits on.
unfoldable pub manager_round :
    ((Name → Bool) → List Name → Option ℕ) → ℕ → Supply → Program Manager (Option ℕ)
manager_round wait fuel supply = do
  s ← state
  elim (wait s.is_set s.handlers_array) [
    | none ↦ pure none
    | some signaled_event ↦ on_event fuel supply signaled_event
  ]

-- A round of the child with a number, and one of the manager.
unfoldable pub turn :
    ((Name → Bool) → List Name → Option ℕ)
    → ℕ
    → Supply
    → (ℕ → Text)
    → List Entry
    → ℕ
    → Program Manager Turn
turn wait fuel supply name_of es i =
    let pid = (get_or es i no_entry).pid in
    do
      t ← child_win (λ n. false) (name_of pid) (record { pid = pid })
      manager_round wait fuel supply
      pure t

abbrev pub printed_in : Turn → Text
printed_in waits = []
printed_in (exits t) = t
printed_in (wrote t) = t

-- The turns of children with these numbers, one after the other, and what they print.
unfoldable pub turns :
    ((Name → Bool) → List Name → Option ℕ)
    → ℕ
    → Supply
    → (ℕ → Text)
    → List Entry
    → List ℕ
    → Program Manager Text
turns wait fuel supply name_of es [] = pure []
turns wait fuel supply name_of es (i ∷ is) = do
  t ← turn wait fuel supply name_of es i
  rest ← turns wait fuel supply name_of es is
  pure (printed_in t ++ rest)

-- What is printed when children with these numbers run, one after the other: only the child with
-- the number `now` prints, and then it is the turn of the next number.
abbrev pub rows_from : (ℕ → Text) → List Entry → List ℕ → ℕ → Text
rows_from name_of es [] now = []
rows_from name_of es (i ∷ is) now =
    if i == now
    then row (name_of (get_or es i no_entry).pid)
      ++ rows_from name_of es is (number_after (length es) now)
    else rows_from name_of es is now

-- the number whose turn it is then
abbrev pub turn_after : ℕ → List ℕ → ℕ → ℕ
turn_after count [] now = now
turn_after count (i ∷ is) now =
    if i == now then turn_after count is (number_after count now) else turn_after count is now

abbrev pub AreNumbers : List Entry → List ℕ → Type 0
AreNumbers es [] = Unit
AreNumbers es (i ∷ is) = (i < length es) × AreNumbers es is

-- What is documented of the wait for any of some events: the place of one that is set, or that none
-- of them is set.
pub record IsWait (wait : (Name → Bool) → List Name → Option ℕ) : Type 0 where
  pub found :
      (set : Name → Bool) (events : List Name) (i : ℕ)
      → wait set events ≡ some i
      → (i < length events) × (set (get_or events i Name.test) ≡ true)
  pub missing :
      (set : Name → Bool) (events : List Name) (i : ℕ)
      → wait set events ≡ none
      → i < length events
      → set (get_or events i Name.test) ≡ false

-- Two children have different process ids, and no child's is the double or the triple of one.
pub record AreApart (es : List Entry) : Type 0 where
  pub different :
      (i j : ℕ)
      → i < length es
      → j < length es
      → (get_or es i no_entry).pid ≡ (get_or es j no_entry).pid
      → i ≡ j
  pub no_double :
      (i j : ℕ)
      → i < length es
      → j < length es
      → (get_or es i no_entry).pid ≢ (get_or es j no_entry).pid * 2
  pub no_triple :
      (i j : ℕ)
      → i < length es
      → j < length es
      → (get_or es i no_entry).pid ≢ (get_or es j no_entry).pid * 3

-- Of all events only that which wakes the child with a number is set.
pub record IsAwake (s : Manager) (es : List Entry) (now : ℕ) : Type 0 where
  pub managed : IsManaged s es
  pub within : now < length es
  pub only : (n : Name) → s.is_set n ≡ name_eq n (numbered (get_or es now no_entry).pid)
