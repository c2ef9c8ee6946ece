-- ===== src/Lab3/Witnesses.antt =====
-- The theorems on the messagers applied to a short conversation.
use spovm4_labs.Base.{◌-◌, ◌≡◌, refl, Bool, true, false, some, List, [], ◌∷◌, ◌++◌, arith}
use spovm4_labs.Base.Text.{Text, c_string}
use spovm4_labs.Lab3.Connection.{is_connected, connected-released, receiver-takes_connection}
use spovm4_labs.Lab3.Messager.{
  buffer_size, System, fgets, is_starting, is_ready, is_listening, Action, can, perform, started,
  run, Reaches,
}
use spovm4_labs.Lab3.Messages.{IsQuiet, delivery, delivery-printed, second_line, second-overwrites}
use spovm4_labs.Lab3.Runs.{run-Reaches}

-- two lines
abbrev lines : Text
lines = b'h' ∷ b'i' ∷ 0x0A ∷ b'y' ∷ b'o' ∷ 0x0A ∷ []

abbrev both_released : System
both_released = perform false Action.release (perform true Action.release (started lines []))

abbrev linked : System
linked = perform false Action.connect (perform true Action.connect both_released)

abbrev linking : List (Bool × Action)
linking =
    (true, Action.release)
    ∷ (false, Action.release)
    ∷ (true, Action.connect)
    ∷ (false, Action.connect)
    ∷ []

linked-Reaches : Reaches (started lines []) linked
unfolding run can perform
linked-Reaches = run-Reaches (started lines []) (started lines []) linked linking Reaches.here refl

linked-IsQuiet : IsQuiet true linked
unfolding perform
linked-IsQuiet = record { sender = refl; listener = refl; nothing = refl; typed = omega arith }

connected-released_example : is_starting (linked.party false).phase ≡ false
unfolding perform
connected-released_example = connected-released lines [] true linked linked-Reaches refl

receiver-takes_connection_example :
    (s' : System) × (run ((true, Action.connect) ∷ (true, Action.receive) ∷ []) both_released
      ≡ some s')
    × ((s'' : System) → Reaches s' s'' → is_connected (s''.party false).phase ≡ false)
unfolding perform
receiver-takes_connection_example =
    receiver-takes_connection false both_released refl refl refl refl

delivery-printed_example :
    (s' : System) × (run (delivery true) linked ≡ some s')
    × ((s'.party false).printed
        ≡ (linked.party false).printed
          ++ c_string (fgets (buffer_size - 2) (linked.party true).input).0 ∷ [])
    × ((s'.party true).input ≡ (fgets (buffer_size - 2) (linked.party true).input).1)
    × (is_ready (s'.party true).phase ≡ true)
    × (is_listening (s'.party false).receiver ≡ true)
    × (s'.semaphore false ≡ 0)
delivery-printed_example = delivery-printed true linked linked-IsQuiet

second-overwrites_example :
    (s' : System) × (run
        ((true, Action.copy)
          ∷ (true, Action.post)
          ∷ (true, Action.copy)
          ∷ (true, Action.post)
          ∷ (false, Action.receive)
          ∷ (false, Action.print)
          ∷ (false, Action.receive)
          ∷ (false, Action.print)
          ∷ [])
        linked
      ≡ some s')
    × ((s'.party false).printed
        ≡ ((linked.party false).printed ++ second_line (linked.party true).input ∷ [])
          ++ second_line (linked.party true).input ∷ [])
    × (s'.semaphore false ≡ 0)
unfolding perform
second-overwrites_example = second-overwrites true linked linked-IsQuiet (omega arith)
