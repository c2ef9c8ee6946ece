-- ===== src/Stateful.antt =====
-- Programs on a state: they end with a result and the new state, with a fault, or for want of fuel.

pub data Outcome (S A : Type 0) : Type 0 where
  done : A → S → Outcome S A
  fault : Outcome S A
  out_of_fuel : Outcome S A

abbrev pub Program : Type 0 → Type 0 → Type 0
Program S A = S → Outcome S A

module _ {S : Type 0} where
  abbrev pub pure : {A : Type 0} → A → Program S A
  pure = done

  abbrev pub failing : {A : Type 0} → Program S A
  failing s = fault

  abbrev pub state : Program S S
  state s = done s s

  abbrev pub change : (S → S) → Program S (Unit {0})
  change f s = done tt (f s)

module _ {S A B : Type 0} where
  abbrev pub and_then : Outcome S A → (A → Program S B) → Outcome S B
  and_then (done a s) k = k a s
  and_then fault k = fault
  and_then out_of_fuel k = out_of_fuel

  infixl 5 ◌>>=◌ ◌>>◌
  abbrev pub ◌>>=◌ : Program S A → (A → Program S B) → Program S B
  m >>= k = λ s. and_then (m s) k

  abbrev pub ◌>>◌ : Program S A → Program S B → Program S B
  m >> n = m >>= λ _. n
