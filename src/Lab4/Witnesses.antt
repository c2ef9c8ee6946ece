-- ===== src/Lab4/Witnesses.antt =====
-- The theorems on queues and rings at a queue and a ring of two.
use spovm4_labs.Base.{◌==◌, if◌then◌else◌, ℕ, ◌≡◌, refl, none, some, [], ◌∷◌, ◌++◌, arith}
use spovm4_labs.Lab4.Queue.{Element, offer}
use spovm4_labs.Lab4.Queue.Chain.{first, IsChain, keep_last}
use spovm4_labs.Lab4.Queue.Laws.{offer-IsChain}
use spovm4_labs.Lab4.Ring.{Node, add, remove}
use spovm4_labs.Lab4.Ring.Links.{next_of, previous_of, value_of, IsRing}
use spovm4_labs.Lab4.Ring.RoundTrip.{remove-add}
use spovm4_labs.Pointers.{◌>>=◌, null, Heap, done}

-- two elements that point to each other
abbrev pub pair : Heap Node
pair a =
    if a == 1
    then some (record { value = 5; next = 2; previous = 2 })
    else if a == 2
    then some (record { value = 6; next = 1; previous = 1 })
    else none

pub pair-IsRing : IsRing pair
unfolding next_of previous_of value_of
pair-IsRing = record {
  no_null = refl;
  ahead = λ p q e. ground arith;
  behind = λ p q e. ground arith;
}

remove-add_example :
    (h' : Heap Node) × ((add 3 1 7 >>= remove) pair ≡ done (7, 1) h')
    × ((a : ℕ) → next_of h' a ≡ next_of pair a)
    × ((a : ℕ) → previous_of h' a ≡ previous_of pair a)
    × ((a : ℕ) → value_of h' a ≡ value_of pair a)
remove-add_example =
    remove-add pair 3 1 7 (record { value = 5; next = 2; previous = 2 }) pair-IsRing refl refl refl

-- a queue of two elements
abbrev queue : Heap Element
queue a =
    if a == 1
    then some (record { value = 5; next = 2 })
    else if a == 2
    then some (record { value = 6; next = null })
    else none

queue-IsChain : IsChain queue ((1, 5) ∷ (2, 6) ∷ [])
queue-IsChain = (
  record { not_null = refl; holds = refl },
  refl,
  (record { not_null = refl; holds = refl }, refl, tt),
)

offer-IsChain_example :
    (tail : ℕ) × (h' : Heap Element) × (offer 2 3 1 7 queue ≡ done tail h')
    × (tail ≡ first (keep_last ((1, 5) ∷ (2, 6) ∷ [])))
    × IsChain h' (keep_last ((1, 5) ∷ (2, 6) ∷ []) ++ (3, 7) ∷ [])
offer-IsChain_example =
    offer-IsChain queue 2 3 1 5 7 ((2, 6) ∷ []) queue-IsChain (omega arith) refl refl
