-- ===== src/Lab3/Runs.antt =====
-- Actions in a row.
use mathlib.Core.Path.{subst}
use spovm4_labs.Base.{
  if◌then◌else◌, ◌≡◌, refl, ◌∙◌, Bool, true, false, Option, none, some, List, [], ◌∷◌,
}
use spovm4_labs.Lab3.Messager.{System, Action, can, perform, run, Reaches}

pub run-can :
    (who : Bool) (a : Action) (rest : List (Bool × Action)) (s : System)
    → can who a s ≡ true
    → run ((who, a) ∷ rest) s ≡ run rest (perform who a s)
unfolding run
run-can who a rest s c = rw c refl

pub runs-one :
    (who : Bool) (a : Action) (s : System)
    → can who a s ≡ true
    → run ((who, a) ∷ []) s ≡ some (perform who a s)
unfolding run
runs-one who a s c = run-can who a [] s c

pub runs-two :
    (who : Bool) (a b : Action) (s : System)
    → can who a s ≡ true
    → can who b (perform who a s) ≡ true
    → run ((who, a) ∷ (who, b) ∷ []) s ≡ some (perform who b (perform who a s))
runs-two who a b s c d = run-can who a ((who, b) ∷ []) s c ∙ runs-one who b (perform who a s) d

-- What a row of actions leads to is reached.
pub run-Reaches :
    (s s₁ s' : System) (actions : List (Bool × Action))
    → Reaches s s₁
    → run actions s₁ ≡ some s'
    → Reaches s s'
unfolding run
run-Reaches s s₁ s' [] r e = subst (Reaches s) (cc) r
run-Reaches s s₁ s' ((who, a) ∷ rest) r e =
    run-Reaches s (perform who a s₁) s' rest
      (Reaches.then_act who a r (possible (can who a s₁) _ e)) (rest_of (can who a s₁) _ e)
  where
    possible : (c : Bool) (o : Option System) → (if c then o else none) ≡ some s' → c ≡ true
    possible true o q = refl
    possible false o q = cc

    rest_of : (c : Bool) (o : Option System) → (if c then o else none) ≡ some s' → o ≡ some s'
    rest_of true o q = q
    rest_of false o q = cc
