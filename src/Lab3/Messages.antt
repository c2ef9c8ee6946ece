-- ===== src/Lab3/Messages.antt =====
-- What the messagers write to each other.
use spovm4_labs.Base.{
  length, ◌-◌, ◌<◌, ◌≡◌, refl, ◌∙◌, Bool, true, false, not, some, List, [], ◌∷◌, ◌++◌, arith,
}
use spovm4_labs.Base.Text.{Text, c_string}
use spovm4_labs.Lab3.Messager.{
  buffer_size, System, fgets, is_ready, is_listening, Action, can, perform, run,
}
use spovm4_labs.Lab3.Runs.{run-can, runs-one}

-- a messager that can send and one that waits for messages, none of them on its way
pub record IsQuiet (b : Bool) (s : System) : Type 0 where
  pub sender : is_ready (s.party b).phase ≡ true
  pub listener : is_listening (s.party (not b)).receiver ≡ true
  pub nothing : s.semaphore (not b) ≡ 0
  pub typed : 0 < length (s.party b).input

abbrev pub delivery : Bool → List (Bool × Action)
delivery b =
    (b, Action.copy) ∷ (b, Action.post) ∷ (not b, Action.receive) ∷ (not b, Action.print) ∷ []

-- From a state in which a messager can send, the other listens and no message is on its way: a line
-- that is typed and then copied, posted, received and printed in this order is printed as it was
-- typed, up to a NUL and to 198 bytes, and behind it both stand as before.
pub delivery-printed :
    (b : Bool) (s : System)
    → IsQuiet b s
    → (s' : System) × (run (delivery b) s ≡ some s')
      × ((s'.party (not b)).printed
          ≡ (s.party (not b)).printed
            ++ c_string (fgets (buffer_size - 2) (s.party b).input).0 ∷ [])
      × ((s'.party b).input ≡ (fgets (buffer_size - 2) (s.party b).input).1)
      × (is_ready (s'.party b).phase ≡ true)
      × (is_listening (s'.party (not b)).receiver ≡ true)
      × (s'.semaphore (not b) ≡ 0)
delivery-printed b s q =
    let s₁ = perform b Action.copy s in
    let s₂ = perform b Action.post s₁ in
    let s₃ = perform (not b) Action.receive s₂ in
    (
      perform (not b) Action.print s₃,
      run-can b Action.copy _ s
            (unfold can in ground (arith, q.sender, q.listener, q.nothing, q.typed))
          ∙ run-can b Action.post _ s₁ (unfold can perform in ground arith)
          ∙ run-can (not b) Action.receive _ s₂
              (unfold can perform in ground (arith, q.sender, q.listener, q.nothing, q.typed))
          ∙ runs-one (not b) Action.print s₃ (unfold can perform in ground arith),
      unfold perform in ground arith,
      unfold perform in ground arith,
      unfold perform in ground arith,
      unfold perform in ground arith,
      unfold perform in ground (arith, q.nothing),
    )

-- the line behind the first one
abbrev pub second_line : Text → Text
second_line input = c_string (fgets (buffer_size - 2) (fgets (buffer_size - 2) input).1).0

-- From such a state, where a messager copies and posts a second message before the first one is
-- received, the other prints the second one twice and the first one never.
pub second-overwrites :
    (b : Bool) (s : System)
    → IsQuiet b s
    → 0 < length (fgets (buffer_size - 2) (s.party b).input).1
    → (s' : System) × (run
          ((b, Action.copy)
            ∷ (b, Action.post)
            ∷ (b, Action.copy)
            ∷ (b, Action.post)
            ∷ (not b, Action.receive)
            ∷ (not b, Action.print)
            ∷ (not b, Action.receive)
            ∷ (not b, Action.print)
            ∷ [])
          s
        ≡ some s')
      × ((s'.party (not b)).printed
          ≡ ((s.party (not b)).printed ++ second_line (s.party b).input ∷ [])
            ++ second_line (s.party b).input ∷ [])
      × (s'.semaphore (not b) ≡ 0)
second-overwrites true s q more =
    let s₁ = perform true Action.copy s in
    let s₂ = perform true Action.post s₁ in
    let s₃ = perform true Action.copy s₂ in
    let s₄ = perform true Action.post s₃ in
    let s₅ = perform (not true) Action.receive s₄ in
    let s₆ = perform (not true) Action.print s₅ in
    let s₇ = perform (not true) Action.receive s₆ in
    (
      perform (not true) Action.print s₇,
      run-can true Action.copy _ s
            (unfold can perform in ground (arith, q.sender, q.listener, q.nothing, q.typed))
          ∙ run-can true Action.post _ s₁ (unfold can perform in refl)
          ∙ run-can true Action.copy _ s₂
              (unfold can perform in ground (arith, q.sender, q.listener, q.nothing, q.typed))
          ∙ run-can true Action.post _ s₃ (unfold can perform in refl)
          ∙ run-can (not true) Action.receive _ s₄
              (unfold can perform in ground (arith, q.sender, q.listener, q.nothing, q.typed))
          ∙ run-can (not true) Action.print _ s₅ (unfold can perform in refl)
          ∙ run-can (not true) Action.receive _ s₆
              (unfold can perform in ground (arith, q.sender, q.listener, q.nothing, q.typed))
          ∙ runs-one (not true) Action.print s₇ (unfold can perform in refl),
      unfold perform in refl,
      unfold perform in ground (arith, q.nothing),
    )
second-overwrites false s q more =
    let s₁ = perform false Action.copy s in
    let s₂ = perform false Action.post s₁ in
    let s₃ = perform false Action.copy s₂ in
    let s₄ = perform false Action.post s₃ in
    let s₅ = perform (not false) Action.receive s₄ in
    let s₆ = perform (not false) Action.print s₅ in
    let s₇ = perform (not false) Action.receive s₆ in
    (
      perform (not false) Action.print s₇,
      run-can false Action.copy _ s
            (unfold can perform in ground (arith, q.sender, q.listener, q.nothing, q.typed))
          ∙ run-can false Action.post _ s₁ (unfold can perform in refl)
          ∙ run-can false Action.copy _ s₂
              (unfold can perform in ground (arith, q.sender, q.listener, q.nothing, q.typed))
          ∙ run-can false Action.post _ s₃ (unfold can perform in refl)
          ∙ run-can (not false) Action.receive _ s₄
              (unfold can perform in ground (arith, q.sender, q.listener, q.nothing, q.typed))
          ∙ run-can (not false) Action.print _ s₅ (unfold can perform in refl)
          ∙ run-can (not false) Action.receive _ s₆
              (unfold can perform in ground (arith, q.sender, q.listener, q.nothing, q.typed))
          ∙ runs-one (not false) Action.print s₇ (unfold can perform in refl),
      unfold perform in refl,
      unfold perform in ground (arith, q.nothing),
    )
