-- ===== src/Lab2/Windows/Witnesses.antt =====
-- The theorems at a manager of two children, the last of which works.
use spovm4_labs.Base.{
  length, get_or, ◌==◌, if◌then◌else◌, Bool, Bool-cases, Option, Option-cases, ℕ, zero, suc, ◌≡◌,
  ◌∙◌, ap, inl, inr, ◌⊎◌, ◌<◌, true, refl, false, none, some, List, [], ◌∷◌, ◌++◌, arith,
}
use spovm4_labs.Lab2.Windows.Children.{Entry, no_entry, parents}
use spovm4_labs.Lab2.Windows.Ending.{working_after, on_kill_child-IsManaged}
use spovm4_labs.Lab2.Windows.Managed.{IsManaged}
use spovm4_labs.Lab2.Windows.Turns.{rows_from, turns, turn_after, AreApart, IsAwake}
use spovm4_labs.Lab2.Windows.Order.{turns-rows_from}
use spovm4_labs.Lab2.Windows.{
  Name, Supply, numbered, name_eq, Manager, base_handlers, on_kill_child, initialized,
}
use spovm4_labs.Pointers.{null}
use spovm4_labs.Stateful.{done}

abbrev children : List Entry
children = record { frame = 3; info = 4; pid = 92 } ∷ record { frame = 1; info = 2; pid = 52 } ∷ []

abbrev manager : Manager
manager = record (initialized (λ n. false)) {
  frames = λ a.
      if a == 3
      then some (record { content = 4; previous = 1 })
      else if a == 1
      then some (record { content = 2; previous = null })
      else none;
  infos = λ a.
      if a == 4
      then some (record { pid = 92 })
      else if a == 2
      then some (record { pid = 52 })
      else none;
  child_stack_top = 3;
  current_working_child = 3;
  child_count = 2;
  handlers_array = base_handlers ++ parents children;
}

manager-IsManaged : IsManaged manager children
manager-IsManaged = record {
  stack = (
    refl,
    (
      1,
      record { not_null = refl; holds = refl },
      (refl, (null, record { not_null = refl; holds = refl }, refl), refl),
    ),
    refl,
  );
  infos = (
    record { not_null = refl; holds = refl },
    refl,
    (record { not_null = refl; holds = refl }, refl, tt),
  );
  counted = refl;
  watched = refl;
}

-- the first of them is awake
abbrev awake : Manager
awake = record manager { is_set = λ n. name_eq n (numbered 92) }

awake-IsManaged : IsManaged awake children
awake-IsManaged = record {
  stack = manager-IsManaged.stack;
  infos = manager-IsManaged.infos;
  counted = refl;
  watched = refl;
}

awake-IsAwake : IsAwake awake children 0
awake-IsAwake = record { managed = awake-IsManaged; within = omega arith; only = λ n. refl }

children-different :
    (i j : ℕ)
    → i < 2
    → j < 2
    → (get_or children i no_entry).pid ≡ (get_or children j no_entry).pid
    → i ≡ j
children-different zero zero h k e = refl
children-different zero (suc zero) h k e = omega arith
children-different (suc zero) zero h k e = omega arith
children-different (suc zero) (suc zero) h k e = refl
children-different (suc (suc i)) j h k e = absurd (omega arith)
children-different i (suc (suc j)) h k e = absurd (omega arith)

children-pid :
    (i : ℕ)
    → i < 2
    → ((get_or children i no_entry).pid ≡ 92) ⊎ ((get_or children i no_entry).pid ≡ 52)
children-pid zero h = inl refl
children-pid (suc zero) h = inr refl
children-pid (suc (suc i)) h = absurd (omega arith)

children-AreApart : AreApart children
children-AreApart = record {
  different = children-different;
  no_double = λ i j h k e. omega (arith, children-pid i h, children-pid j k, e);
  no_triple = λ i j h k e. omega (arith, children-pid i h, children-pid j k, e);
}

-- a wait that looks for the first event that is set
abbrev first_set : (Name → Bool) → List Name → Option ℕ
first_set set [] = none
first_set set (n ∷ ns) =
    if set n then some 0 else elim (first_set set ns) [ none ↦ none | some i ↦ some (suc i) ]

first_set-found :
    (set : Name → Bool) (events : List Name) (i : ℕ)
    → first_set set events ≡ some i
    → (i < length events) × (set (get_or events i Name.test) ≡ true)
first_set-found set [] i h = cc
first_set-found set (n ∷ ns) zero h = elim (Bool-cases (set n)) [
  | inl here ↦ (omega arith, here)
  | inr there ↦ elim (Option-cases (first_set set ns)) [
    | inl quiet ↦ ground (arith, there, quiet)
    | inr (k, ends) ↦ ground (arith, there, ends)
  ]
]
first_set-found set (n ∷ ns) (suc i) h = elim (Bool-cases (set n)) [
  | inl here ↦ ground (arith, here)
  | inr there ↦ elim (Option-cases (first_set set ns)) [
    | inl quiet ↦ ground (arith, there, quiet)
    | inr (k, ends) ↦
        let e : k ≡ i = ground (arith, there, ends) in
        let (l, found) = first_set-found set ns i (ends ∙ ap some e) in (omega arith, found)
  ]
]

first_set-missing :
    (set : Name → Bool) (events : List Name) (i : ℕ)
    → first_set set events ≡ none
    → i < length events
    → set (get_or events i Name.test) ≡ false
first_set-missing set [] i h l = absurd (omega arith)
first_set-missing set (n ∷ ns) zero h l = elim (Bool-cases (set n)) [
  | inl here ↦ ground (arith, here)
  | inr there ↦ there
]
first_set-missing set (n ∷ ns) (suc i) h l = elim (Bool-cases (set n)) [
  | inl here ↦ ground (arith, here)
  | inr there ↦ elim (Option-cases (first_set set ns)) [
    | inl quiet ↦ first_set-missing set ns i quiet (omega arith)
    | inr (k, ends) ↦ ground (arith, there, ends)
  ]
]

abbrev no_supply : Supply
no_supply = record { info = 0; frame = 0; pid = 0; created = false; has_array = false }

turns-rows_from_example :
    (s' : Manager) × (turns first_set 0 no_supply
        (λ pid. pid ∷ [])
        children
        (0 ∷ 0 ∷ 1 ∷ 0 ∷ [])
        awake
      ≡ done (rows_from (λ pid. pid ∷ []) children (0 ∷ 0 ∷ 1 ∷ 0 ∷ []) 0) s')
    × IsAwake s' children (turn_after 2 (0 ∷ 0 ∷ 1 ∷ 0 ∷ []) 0)
turns-rows_from_example =
    turns-rows_from first_set (record { found = first_set-found; missing = first_set-missing }) 0
      no_supply (λ pid. pid ∷ []) children children-AreApart (0 ∷ 0 ∷ 1 ∷ 0 ∷ []) 0 awake
      awake-IsAwake (omega arith, (omega arith, (omega arith, (omega arith, tt))))

on_kill_child-IsManaged_example :
    (s' : Manager) × (on_kill_child manager ≡ done tt s')
    × IsManaged s' (record { frame = 1; info = 2; pid = 52 } ∷ [])
    × (s'.killed ≡ [] ++ 92 ∷ [])
    × (s'.current_working_child
        ≡ working_after manager (record { frame = 1; info = 2; pid = 52 } ∷ []))
on_kill_child-IsManaged_example =
    on_kill_child-IsManaged manager (record { frame = 3; info = 4; pid = 92 })
      (record { frame = 1; info = 2; pid = 52 } ∷ []) manager-IsManaged
