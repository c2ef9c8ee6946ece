-- ===== src/Lab4/Input/Witnesses.antt =====
-- The theorem at a manager of two children, the first of which was woken.
use spovm4_labs.Base.{
  ◌==◌, if◌then◌else◌, ◌≡◌, refl, inl, Bool-cases, inr, ap, true, none, some, [], ◌∷◌, arith,
}
use spovm4_labs.Lab4.Child.{Child}
use spovm4_labs.Lab4.Input.Order.{rows_from, turns, turns-rows}
use spovm4_labs.Lab4.Input.Turns.{IsWoken}
use spovm4_labs.Lab4.Manager.Live.{IsLive}
use spovm4_labs.Lab4.Manager.{ok, Manager, Supply, start_tm}
use spovm4_labs.Lab4.Ring.Links.{value_of}
use spovm4_labs.Lab4.Witnesses.{pair, pair-IsRing}
use spovm4_labs.Pointers.{Heap, null}

-- a manager of these two elements, whose children lie at 5 and 6
abbrev children : Heap Child
children a =
    if a == 5
    then some (record { name = b'a'; message = 1 })
    else if a == 6
    then some (record { name = b'b'; message = 0 })
    else none

abbrev managed : Manager
managed = record start_tm {
  ring = pair;
  children = children;
  current_child = 1;
  top_child = 2;
  last_child_name = b'c';
}

managed-IsLive : IsLive managed
unfolding start_tm value_of
managed-IsLive = record {
  ring = pair-IsRing;
  held = λ a v h. elim (Bool-cases (a == 1)) [
    | inl here ↦
        let q : v ≡ 5 = ground (arith, h) in
        (
          record { name = b'a'; message = 1 },
          record { not_null = ap (λ x. x == null) q; holds = ap children q },
        )
    | inr there ↦
        let q : v ≡ 6 = ground (arith, h) in
        (
          record { name = b'b'; message = 0 },
          record { not_null = ap (λ x. x == null) q; holds = ap children q },
        )
  ];
  pointed = inr ((_, refl), (_, refl));
}

managed-IsWoken : IsWoken managed
unfolding start_tm
managed-IsWoken = record {
  live = managed-IsLive;
  running = refl;
  none_sent = refl;
  node = record { value = 5; next = 2; previous = 2 };
  at_current = refl;
  child = record { name = b'a'; message = 1 };
  held = record { not_null = refl; holds = refl };
  woken = refl;
  others = λ v c ne e. elim (Bool-cases (v == 6)) [
    | inl here ↦ ground (arith, e)
    | inr there ↦ ground (arith, e)
  ];
}

abbrev supply : Supply
supply = record { letter = 11; queue_element = 12; child = 13; ring_element = 14; created = true }

turns-rows_example :
    (s' : Manager) × (turns 5 2 supply (5 ∷ 5 ∷ 6 ∷ 5 ∷ []) managed
      ≡ ok (rows_from 5 (5 ∷ 5 ∷ 6 ∷ 5 ∷ []) pair children 1) s')
    × IsWoken s'
unfolding start_tm
turns-rows_example = turns-rows (5 ∷ 5 ∷ 6 ∷ 5 ∷ []) 5 2 supply managed refl refl managed-IsWoken (
  (_, record { not_null = refl; holds = refl }),
  (
    (_, record { not_null = refl; holds = refl }),
    (
      (_, record { not_null = refl; holds = refl }),
      ((_, record { not_null = refl; holds = refl }), tt),
    ),
  ),
)
