-- ===== src/Lab4/Manager/Witnesses.antt =====
-- The theorems on the thread manager at one with two children.
use spovm4_labs.Base.{
  ◌==◌, if◌then◌else◌, Bool-cases, ℕ, ◌≡◌, refl, ap, ◌⊎◌, inl, inr, true, false, none, some, [],
  ◌∷◌, arith,
}
use spovm4_labs.Lab4.Child.{Child}
use spovm4_labs.Lab4.Manager.{
  ok, failed, Manager, Supply, add_child, remove_child, on_signal, handle, start_tm,
}
use spovm4_labs.Lab4.Manager.Adding.{IsFresh, with_child, add_child-another}
use spovm4_labs.Lab4.Manager.Emptying.{handle-quits}
use spovm4_labs.Lab4.Manager.Live.{IsLive}
use spovm4_labs.Lab4.Manager.Removing.{remove_current-dangles, remove_child-IsLive}
use spovm4_labs.Lab4.Ring.{Node}
use spovm4_labs.Lab4.Ring.Laws.{Added}
use spovm4_labs.Lab4.Ring.Links.{value_of}
use spovm4_labs.Lab4.Witnesses.{pair, pair-IsRing}
use spovm4_labs.Pointers.{Heap, null, Points}

-- a manager of these two elements, whose children lie at 5 and 6
abbrev managed : ℕ → Manager
managed current = record start_tm {
  ring = pair;
  children = λ a.
      if a == 5
      then some (record { name = b'a'; message = 0 })
      else if a == 6
      then some (record { name = b'b'; message = 0 })
      else none;
  current_child = current;
  top_child = 2;
  last_child_name = b'c';
}

managed-IsLive : (current : ℕ) → (current ≡ 1) ⊎ (current ≡ 2) → IsLive (managed current)
unfolding start_tm value_of
managed-IsLive current e = record {
  ring = pair-IsRing;
  held = λ a v h. held_pair a v h;
  pointed = inr ((_, refl), at_current);
}
  where
    at_current : (n : Node) × (pair current ≡ some n)
    at_current = elim e [ inl q ↦ (_, ap pair q) | inr q ↦ (_, ap pair q) ]

    held_pair :
        (a v : ℕ) → value_of pair a ≡ some v → (c : Child) × Points (managed current).children v c
    held_pair a v h = elim (Bool-cases (a == 1)) [
      | inl here ↦
          let q : v ≡ 5 = ground (arith, h) in
          (
            record { name = b'a'; message = 0 },
            record { not_null = ap (λ x. x == null) q; holds = ap (managed current).children q },
          )
      | inr there ↦
          let q : v ≡ 6 = ground (arith, h) in
          (
            record { name = b'b'; message = 0 },
            record { not_null = ap (λ x. x == null) q; holds = ap (managed current).children q },
          )
    ]

abbrev top_node : Node
top_node = record { value = 6; next = 1; previous = 1 }

abbrev supply : Supply
supply = record { letter = 11; queue_element = 12; child = 13; ring_element = 14; created = true }

supply-IsFresh : (current : ℕ) → IsFresh (managed current) supply
supply-IsFresh current = record {
  element_ok = refl;
  element_unused = refl;
  child_ok = refl;
  child_unused = refl;
  thread_created = refl;
}

add_child-another_example :
    (ring : Heap Node) × (add_child supply (managed 1) ≡ ok tt (with_child (managed 1) supply ring))
    × Added pair 14 2 1 13 ring
    × IsLive (with_child (managed 1) supply ring)
add_child-another_example =
    add_child-another (managed 1) supply (managed-IsLive 1 (inl refl)) (supply-IsFresh 1) top_node
      refl

remove_child-IsLive_example : (s' : Manager) × (remove_child (managed 1) ≡ ok tt s') × IsLive s'
remove_child-IsLive_example =
    remove_child-IsLive (managed 1) top_node (managed-IsLive 1 (inl refl)) refl (λ e. omega arith)
      (λ e. omega arith)

remove_current-dangles_example :
    (s' : Manager) × (remove_child (managed 2) ≡ ok tt s')
    × (s'.current_child ≡ 2)
    × (s'.ring s'.current_child ≡ none)
    × (on_signal s' ≡ failed)
unfolding start_tm
remove_current-dangles_example =
    remove_current-dangles (managed 2) top_node (managed-IsLive 2 (inr refl)) refl
      (λ e. omega arith) refl refl

handle-quits_example :
    (s' : Manager) × (handle 3 supply b'q' (managed 2) ≡ ok false s')
    × (s'.top_child ≡ null)
    × (s'.current_child ≡ null)
    × IsLive s'
handle-quits_example =
    handle-quits 3 supply (managed 2) (1 ∷ 2 ∷ []) (managed-IsLive 2 (inr refl))
      (λ a n e. ground (arith, e)) (omega arith)
