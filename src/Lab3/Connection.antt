-- ===== src/Lab3/Connection.antt =====
-- establishConnection between two messagers.
use spovm4_labs.Base.{◌≡◌, refl, Bool, true, false, not, some, [], ◌∷◌, arith}
use spovm4_labs.Base.Text.{Text}
use spovm4_labs.Lab3.Messager.{
  Phase, System, is_starting, is_waiting, Action, can, perform, started, run, Reaches,
}
use spovm4_labs.Lab3.Runs.{runs-two}

abbrev pub is_connected : Phase → Bool
is_connected Phase.ready = true
is_connected Phase.copied = true
is_connected p = false

-- While a messager has not released its semaphore, the semaphore is 0 and the other is not connected.
pub record IsOrderly (s : System) : Type 0 where
  pub zero_ : (b : Bool) → is_starting (s.party b).phase ≡ true → s.semaphore b ≡ 0
  pub apart :
      (b : Bool)
      → is_starting (s.party b).phase ≡ true
      → is_connected (s.party (not b)).phase ≡ false

perform-zero :
    (who b : Bool) (a : Action) (s : System)
    → IsOrderly s
    → can who a s ≡ true
    → is_starting ((perform who a s).party b).phase ≡ true
    → (perform who a s).semaphore b ≡ 0
unfolding perform can
perform-zero who b a s o c e =
    ground (arith, o.zero_ true, o.zero_ false, o.apart true, o.apart false)

perform-apart :
    (who b : Bool) (a : Action) (s : System)
    → IsOrderly s
    → can who a s ≡ true
    → is_starting ((perform who a s).party b).phase ≡ true
    → is_connected ((perform who a s).party (not b)).phase ≡ false
unfolding perform can
perform-apart who b a s o c e =
    ground (arith, o.zero_ true, o.zero_ false, o.apart true, o.apart false)

Reaches-IsOrderly : (s s' : System) → IsOrderly s → Reaches s s' → IsOrderly s'
Reaches-IsOrderly s s' o Reaches.here = o
Reaches-IsOrderly s s' o (Reaches.then_act {s' = s₁} who a r c) =
    let o₁ = Reaches-IsOrderly s s₁ o r in
    record { zero_ = λ b. perform-zero who b a s₁ o₁ c; apart = λ b. perform-apart who b a s₁ o₁ c }

started-IsOrderly : (first second : Text) → IsOrderly (started first second)
started-IsOrderly first second = record { zero_ = λ b e. refl; apart = λ b e. refl }

-- Whatever the order of the steps, a messager is connected only if the other one is no longer in
-- front of its release of the semaphore.
pub connected-released :
    (first second : Text) (b : Bool) (s : System)
    → Reaches (started first second) s
    → is_connected (s.party b).phase ≡ true
    → is_starting (s.party (not b)).phase ≡ false
connected-released first second b s r c =
    let o = Reaches-IsOrderly (started first second) s (started-IsOrderly first second) r in
    ground (arith, o.apart true, o.apart false)

-- A messager that waits for a semaphore which is 0 and which nobody else will raise.
pub record IsStuck (b : Bool) (s : System) : Type 0 where
  pub alone : is_connected (s.party b).phase ≡ false
  pub zero_ : s.semaphore (not b) ≡ 0
  pub over : is_starting (s.party (not b)).phase ≡ false

perform-IsStuck :
    (b who : Bool) (a : Action) (s : System)
    → IsStuck b s
    → can who a s ≡ true
    → (is_connected ((perform who a s).party b).phase ≡ false)
      × ((perform who a s).semaphore (not b) ≡ 0)
      × (is_starting ((perform who a s).party (not b)).phase ≡ false)
unfolding perform can
perform-IsStuck b who a s k c = ground (arith, k.alone, k.zero_, k.over)

Reaches-IsStuck : (b : Bool) (s s' : System) → IsStuck b s → Reaches s s' → IsStuck b s'
Reaches-IsStuck b s s' k Reaches.here = k
Reaches-IsStuck b s s' k (Reaches.then_act {s' = s₁} who a r c) =
    let (x, y, z) = perform-IsStuck b who a s₁ (Reaches-IsStuck b s s₁ k r) c in
    record { alone = x; zero_ = y; over = z }

-- Where both messagers have released their semaphores, one of them can connect and its receiver can
-- take the semaphore that the other one waits for; then, whatever happens, the other one never
-- connects.
pub receiver-takes_connection :
    (b : Bool) (s : System)
    → is_waiting (s.party true).phase ≡ true
    → is_waiting (s.party false).phase ≡ true
    → s.semaphore true ≡ 1
    → s.semaphore false ≡ 1
    → (s' : System) × (run ((not b, Action.connect) ∷ (not b, Action.receive) ∷ []) s ≡ some s')
      × ((s'' : System) → Reaches s' s'' → is_connected (s''.party b).phase ≡ false)
receiver-takes_connection true s w w' e e' =
    let connects : can false Action.connect s ≡ true = unfold can in ground arith in
    let receives : can false Action.receive (perform false Action.connect s) ≡ true =
      unfold can perform in ground arith in
    (
      perform false Action.receive (perform false Action.connect s),
      runs-two false Action.connect Action.receive s connects receives,
      λ s'' r.
          (Reaches-IsStuck true (perform false Action.receive (perform false Action.connect s)) s''
            (record {
              alone = unfold perform in ground arith;
              zero_ = unfold perform in ground arith;
              over = unfold perform in ground arith;
            })
            r).alone,
    )
receiver-takes_connection false s w w' e e' =
    let connects : can true Action.connect s ≡ true = unfold can in ground arith in
    let receives : can true Action.receive (perform true Action.connect s) ≡ true =
      unfold can perform in ground arith in
    (
      perform true Action.receive (perform true Action.connect s),
      runs-two true Action.connect Action.receive s connects receives,
      λ s'' r.
          (Reaches-IsStuck false (perform true Action.receive (perform true Action.connect s)) s''
            (record {
              alone = unfold perform in ground arith;
              zero_ = unfold perform in ground arith;
              over = unfold perform in ground arith;
            })
            r).alone,
    )
