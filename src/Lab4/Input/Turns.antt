-- ===== src/Lab4/Input/Turns.antt =====
-- The children's threads and the manager together: the children print in turn.
use spovm4_labs.Base.Text.{Text}
use spovm4_labs.Base.{
  ◌==◌, Bool-cases, ℕ, zero, suc, ◌≡◌, refl, sym, ap, ◌∙◌, ◌≢◌, inl, inr, true, false, Option, none,
  some, [], ◌∷◌, ◌++◌, arith,
}
use spovm4_labs.Lab4.Child.{Child, take_message, write_letters}
use spovm4_labs.Lab4.Input.{waits, wrote, child_thread, turn}
use spovm4_labs.Lab4.Manager.Live.{IsLive, child_of, child_written, on_signal-passes}
use spovm4_labs.Lab4.Manager.Pausing.{behind_letter, get_data-sent}
use spovm4_labs.Lab4.Manager.{
  Manager, Outcome, ok, Step, Supply, ◌>>=◌, ◌>>◌, and_then, give, send_tm, get_data, on_signal,
  handle, round,
}
use spovm4_labs.Lab4.Ring.{Node}
use spovm4_labs.Pointers.{null, Heap, write, Points, load-done, store-done, Points-write_self}

-- a letter so many times, and with the line's end
abbrev pub letters : ℕ → ℕ → Text
letters name zero = []
letters name (suc n) = name ∷ letters name n

abbrev pub row : ℕ → ℕ → Text
row count name = letters name count ++ 0x0A ∷ []

pub write_letters-all : (name n : ℕ) → write_letters (λ k. false) name n ≡ (letters name n, true)
unfolding write_letters
write_letters-all name zero = refl
write_letters-all name (suc n) = rw (write_letters-all name n)

-- the state in which the thread of the child `c` at `v` has taken its message
abbrev taken : ℕ → Child → Manager → Manager
taken v c s = record s { children = write s.children v (some (record c { message = 0 })) }

taken-IsLive :
    (s : Manager) (v : ℕ) (c : Child) → IsLive s → Points s.children v c → IsLive (taken v c s)
taken-IsLive s v c l at = record {
  ring = l.ring;
  held =
      λ a w e. child_written s.children v w (record c { message = 0 }) at.not_null (l.held a w e);
  pointed = l.pointed;
}

-- A woken child writes its row and sends the signal.
child_thread-writes :
    (count fuel : ℕ) (supply : Supply) (s : Manager) (v : ℕ) (c : Child)
    → Points s.children v c
    → c.message ≡ 1
    → child_thread (λ n. false) count fuel supply v s
      ≡ (send_tm fuel supply b'x' >> give (wrote (row count c.name))) (taken v c s)
unfolding child_thread take_message
child_thread-writes count fuel supply s v c at woken =
    let some_message : (c.message == 0) ≡ false = ground (arith, woken) in
    let wakes : (c.message == 1) ≡ true = ground (arith, woken) in
    let c' : Child = record c { message = 0 } in
    rw (
      load-done s.children v c at,
      some_message,
      store-done s.children v c c' at,
      some_message,
      wakes,
      load-done (write s.children v (some c')) v c' (Points-write_self s.children v c' at.not_null),
      write_letters-all c.name count,
    )

-- Of two steps in a row the first may be shown by its result.
bind_ok :
    {A B : Type 0} (m : Step A) (k : A → Step B) (s : Manager) {a : A} {s' : Manager}
    → m s ≡ ok a s'
    → (m >>= k) s ≡ k a s'
bind_ok m k s e = ap (λ o. and_then o k) e

-- A letter that is sent to an empty queue is handled in the manager's next round.
pub round-sent :
    (fuel : ℕ) (supply : Supply) (letter : ℕ) (s : Manager)
    → (supply.letter == null) ≡ false
    → (supply.queue_element == null) ≡ false
    → s.tm_data ≡ null
    → (send_tm fuel supply letter >> round fuel supply) s
      ≡ handle fuel supply letter (behind_letter supply letter s)
unfolding round
round-sent fuel supply letter s ok_letter ok_element none_sent =
    assoc (send_tm fuel supply letter s)
    ∙ bind_ok (send_tm fuel supply letter >> get_data) _ s
        (get_data-sent fuel supply letter s ok_letter ok_element none_sent)
  where
    assoc :
        (o : Outcome (Unit {0}))
        → and_then o (λ u. round fuel supply)
          ≡ and_then
              (and_then o (λ u. get_data))
              (λ t. elim t [ none ↦ give true | some l ↦ handle fuel supply l ])
    assoc (ok u t) = refl
    assoc Outcome.failed = refl
    assoc Outcome.stuck = refl

-- the child's name at an element of the ring, and the element behind it
abbrev pub child_at : Heap Node → ℕ → ℕ
child_at ring a = elim (ring a) [ none ↦ null | some n ↦ n.value ]

abbrev pub next_at : Heap Node → ℕ → ℕ
next_at ring a = elim (ring a) [ none ↦ null | some n ↦ n.next ]

abbrev pub name_of : Heap Child → ℕ → ℕ
name_of children v = elim (children v) [ none ↦ 0 | some c ↦ c.name ]

pub name_found : (h : Heap Child) (q : ℕ) (d : Child) → h q ≡ some d → name_of h q ≡ d.name
name_found h q d e = ap (λ (o : Option Child). elim o [ none ↦ 0 | some c ↦ c.name ]) e

-- A message does not change a name.
name_of-write :
    (cs : Heap Child) (p : ℕ) (c : Child) (message v : ℕ)
    → cs p ≡ some c
    → name_of (write cs p (some (record c { message = message }))) v ≡ name_of cs v
name_of-write cs p c message v at =
    let h = write cs p (some (record c { message = message })) in
    elim (Bool-cases (v == p)) [
      | inl here ↦
          let e : v ≡ p = ground arith in
          name_found h v (record c { message = message }) (ground arith)
          ∙ sym (ap (name_of cs) e ∙ name_found cs p c at)
      | inr there ↦
          let same : h v ≡ cs v = ground arith in
          ap (λ (o : Option Child). elim o [ none ↦ 0 | some d ↦ d.name ]) same
    ]

-- The current child was woken, no other child has a message, nothing was sent and nothing is paused.
pub record IsWoken (s : Manager) : Type 0 where
  pub live : IsLive s
  pub running : (s.tm_paused == 1) ≡ false
  pub none_sent : s.tm_data ≡ null
  pub node : Node
  pub at_current : s.ring s.current_child ≡ some node
  pub child : Child
  pub held : Points s.children node.value child
  pub woken : child.message ≡ 1
  pub others : (v : ℕ) (c : Child) → v ≢ node.value → s.children v ≡ some c → c.message ≡ 0

module _ (count fuel : ℕ) (supply : Supply) (ok_letter : (supply.letter == null) ≡ false)
    (ok_element : (supply.queue_element == null) ≡ false) where
  turn-sent :
      (s : Manager) (w : IsWoken s)
      → turn count fuel supply w.node.value s
        ≡ (send_tm fuel supply b'x' >> round fuel supply >> give (wrote (row count w.child.name)))
            (taken w.node.value w.child s)
  unfolding turn
  turn-sent s w =
      ap (λ o. and_then o (λ t. round fuel supply >> give t))
        (child_thread-writes count fuel supply s w.node.value w.child w.held w.woken)
      ∙ assoc (send_tm fuel supply b'x' (taken w.node.value w.child s))
    where
      assoc :
          (o : Outcome (Unit {0}))
          → and_then
              (and_then o (λ u. give (wrote (row count w.child.name))))
              (λ t. round fuel supply >> give t)
            ≡ and_then
                (and_then o (λ u. round fuel supply))
                (λ u. give (wrote (row count w.child.name)))
      assoc (ok u t) = refl
      assoc Outcome.failed = refl
      assoc Outcome.stuck = refl

  -- The thread of a child that is not the current one waits, and so does the manager behind it.
  pub turn-waits :
      (s : Manager) (w : IsWoken s) (v : ℕ) (c : Child)
      → v ≢ w.node.value
      → Points s.children v c
      → turn count fuel supply v s ≡ ok waits s
  unfolding turn child_thread take_message round get_data
  turn-waits s w v c ne at =
      let quiet : (c.message == 0) ≡ true = ground (arith, w.others v c ne at.holds) in
      let none_sent : (s.tm_data == null) ≡ true = ground (arith, w.none_sent) in
      rw (load-done s.children v c at, quiet, none_sent) refl

  -- A turn prints the row of the current child and wakes the next one.
  pub turn-passes :
      (s : Manager) (w : IsWoken s)
      → (s' : Manager) × (turn count fuel supply w.node.value s
          ≡ ok (wrote (row count w.child.name)) s')
        × (IsWoken s')
        × (s'.ring ≡ s.ring)
        × (s'.current_child ≡ w.node.next)
        × ((v : ℕ) → name_of s'.children v ≡ name_of s.children v)
        × ((v : ℕ) (c : Child) → Points s.children v c → (d : Child) × Points s'.children v d)
  unfolding handle
  turn-passes s w =
      let s₁ = taken w.node.value w.child s in
      let s₂ = behind_letter supply b'x' s₁ in
      let live₁ = taken-IsLive s w.node.value w.child w.live w.held in
      let live₂ : IsLive s₂ = record {
        ring = live₁.ring;
        held = live₁.held;
        pointed = live₁.pointed;
      } in
      let (m, d, at_next, there, (signals, live₃)) =
        on_signal-passes s₂ w.node live₂ w.at_current w.running in
      let s₃ = record s₂ {
        current_child = w.node.next;
        children = write s₂.children m.value (some (record d { message = 1 }));
      } in
      let handled : handle fuel supply b'x' s₂ ≡ ok true s₃ =
        bind_ok on_signal (λ u. give true) s₂ signals in
      (
        s₃,
        turn-sent s w
            ∙ bind_ok (send_tm fuel supply b'x' >> round fuel supply)
                (λ u. give (wrote (row count w.child.name))) s₁
                (round-sent fuel supply b'x' s₁ ok_letter ok_element w.none_sent ∙ handled),
        record {
          live = live₃;
          running = w.running;
          none_sent = refl;
          node = m;
          at_current = at_next;
          child = record d { message = 1 };
          held = record {
            not_null = (child_of s₃ live₃ w.node.next m at_next).1.not_null;
            holds = ground arith;
          };
          woken = refl;
          others = λ v c ne e. elim (Bool-cases (v == w.node.value)) [
            | inl here ↦ ground (arith, e)
            | inr there ↦ w.others v c (λ q. ground arith) (ground (arith, e))
          ];
        },
        refl,
        refl,
        λ v.
            name_of-write s₂.children m.value d 1 v there
            ∙ name_of-write s.children w.node.value w.child 0 v w.held.holds,
        λ v c at.
            child_written s₂.children m.value v (record d { message = 1 })
              (child_of s₃ live₃ w.node.next m at_next).1.not_null
              (child_written s.children w.node.value v (record w.child { message = 0 })
                w.held.not_null (c, at)),
      )
