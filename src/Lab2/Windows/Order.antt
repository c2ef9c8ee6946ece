-- ===== src/Lab2/Windows/Order.antt =====
-- Only one event is set at a time, so that the children print in turn.
use spovm4_labs.Base.Text.{Text}
use spovm4_labs.Base.{
  length, get_or, ◌==◌, ==_iff, ==_ne, Bool-cases, Option-cases, ℕ, zero, suc, ◌-◌, ◌*◌, ◌<◌, ◌≡◌,
  refl, sym, ap, ◌∙◌, ◌≢◌, inl, inr, true, false, Bool, Option, none, some, List, [], ◌∷◌, ◌++◌,
  arith,
}
use spovm4_labs.Lab2.Windows.Children.{Entry, no_entry, parents}
use spovm4_labs.Lab2.Windows.Managed.{IsManaged, running, number_after, on_child-passes}
use spovm4_labs.Lab2.Windows.Turns.{
  waits, wrote, print_names, child_win, row, manager_round, turn, turns, rows_from, turn_after,
  AreNumbers, IsWait, AreApart, IsAwake,
}
use spovm4_labs.Lab2.Windows.{
  Name, numbered, name_eq, Manager, Supply, put_event, base_handlers, on_event,
}
use spovm4_labs.Stateful.{done}

abbrev watching : List Entry → List Name
watching es = base_handlers ++ parents es

length-parents : (es : List Entry) → length (parents es) ≡ length es
length-parents [] = refl
length-parents (e ∷ es) = ap suc (length-parents es)

parents-get_or :
    (es : List Entry) (i : ℕ)
    → i < length es
    → get_or (parents es) i Name.test ≡ numbered ((get_or es i no_entry).pid * 2)
parents-get_or [] i h = absurd (omega arith)
parents-get_or (e ∷ es) zero h = refl
parents-get_or (e ∷ es) (suc i) h = parents-get_or es i (omega arith)

-- A handle of an event with a number belongs to a child.
numbered_handle :
    (es : List Entry) (k b : ℕ)
    → k < length (watching es)
    → name_eq (get_or (watching es) k Name.test) (numbered b) ≡ true
    → (j : ℕ) × (k ≡ suc (suc (suc (suc j))))
      × (j < length es)
      × ((get_or es j no_entry).pid * 2 ≡ b)
numbered_handle es zero b h e = cc
numbered_handle es (suc zero) b h e = cc
numbered_handle es (suc (suc zero)) b h e = cc
numbered_handle es (suc (suc (suc zero))) b h e = cc
numbered_handle es (suc (suc (suc (suc j)))) b h e =
    let l : j < length es = omega (arith, length-parents es) in
    let q = ap (λ n. name_eq n (numbered b)) (parents-get_or es j l) in
    (j, refl, l, (==_iff ((get_or es j no_entry).pid * 2) b).0 (sym q ∙ e))

module _ (wait : (Name → Bool) → List Name → Option ℕ) (waiting : IsWait wait) (es : List Entry)
    (apart : AreApart es) where
  -- The wait ends with the only event that is set.
  wait-finds :
      (set : Name → Bool) (i : ℕ)
      → i < length es
      → ((n : Name) → set n ≡ name_eq n (numbered ((get_or es i no_entry).pid * 2)))
      → wait set (watching es) ≡ some (suc (suc (suc (suc i))))
  wait-finds set i h only =
      let b = (get_or es i no_entry).pid * 2 in
      elim (Option-cases (wait set (watching es))) [
        | inl quiet ↦
            let unset =
              waiting.missing set (watching es) (suc (suc (suc (suc i)))) quiet
                (omega (arith, length-parents es)) in
            let mine : name_eq (numbered b) (numbered b) ≡ true = ground arith in
            absurd (cc (unset, ap set (parents-get_or es i h), only (numbered b), mine))
        | inr (k, ends) ↦
            let (l, set_there) = waiting.found set (watching es) k ends in
            let (j, place, l', e) =
              numbered_handle es k b l
                (sym (only (get_or (watching es) k Name.test)) ∙ set_there) in
            let same : j ≡ i = apart.different j i l' h (omega arith) in
            ends ∙ ap some (place ∙ ap (λ n. suc (suc (suc (suc n)))) same)
      ]

  -- While a child is awake the wait goes on.
  wait-none :
      (set : Name → Bool) (i : ℕ)
      → i < length es
      → ((n : Name) → set n ≡ name_eq n (numbered (get_or es i no_entry).pid))
      → wait set (watching es) ≡ none
  wait-none set i h only =
      let b = (get_or es i no_entry).pid in
      elim (Option-cases (wait set (watching es))) [
        | inl quiet ↦ quiet
        | inr (k, ends) ↦
            let (l, set_there) = waiting.found set (watching es) k ends in
            let (j, place, l', e) =
              numbered_handle es k b l
                (sym (only (get_or (watching es) k Name.test)) ∙ set_there) in
            absurd (apart.no_double i j h l' (sym e))
      ]

-- the state behind a child that has printed
abbrev rung : ℕ → Manager → Manager
rung pid s = put_event (numbered (pid * 2)) true (put_event (numbered pid) false s)

IsManaged-rung :
    (s : Manager) (es : List Entry) (pid : ℕ) → IsManaged s es → IsManaged (rung pid s) es
IsManaged-rung s es pid m = record {
  stack = m.stack;
  infos = m.infos;
  counted = m.counted;
  watched = m.watched;
}

child_win-writes :
    (name : Text) (pid : ℕ) (s : Manager)
    → s.is_set (numbered pid) ≡ true
    → child_win (λ n. false) name (record { pid = pid }) s ≡ done (wrote (row name)) (rung pid s)
unfolding child_win print_names
child_win-writes name pid s awake = rw awake refl

child_win-waits :
    (name : Text) (pid : ℕ) (s : Manager)
    → s.is_set (numbered pid) ≡ false
    → s.is_set (numbered (pid * 3)) ≡ false
    → child_win (λ n. false) name (record { pid = pid }) s ≡ done waits s
unfolding child_win
child_win-waits name pid s asleep alive = rw (asleep, alive) refl

-- An event that is set in place of another is the only one.
put_event-only :
    (s : Manager) (e f n : Name)
    → ((n : Name) → s.is_set n ≡ name_eq n e)
    → (put_event f true (put_event e false s)).is_set n ≡ name_eq n f
put_event-only s e f n only = elim (Bool-cases (name_eq n f)) [
  | inl new ↦ rw new refl
  | inr other ↦ elim (Bool-cases (name_eq n e)) [
    | inl old ↦ rw (other, old) refl
    | inr neither ↦ rw (other, neither) (only n ∙ neither)
  ]
]

number_after-lt : (count i : ℕ) → i < count → number_after count i < count
number_after-lt count i h = ground arith

module _ (wait : (Name → Bool) → List Name → Option ℕ) (waiting : IsWait wait) (fuel : ℕ)
    (supply : Supply) (name_of : ℕ → Text) (es : List Entry) (apart : AreApart es) where
  manager_round-passes :
      (s : Manager) (i : ℕ)
      → IsManaged s es
      → i < length es
      → ((n : Name) → s.is_set n ≡ name_eq n (numbered ((get_or es i no_entry).pid * 2)))
      → manager_round wait fuel supply s
        ≡ done none (
            running
              (get_or es (number_after (length es) i) no_entry)
              (put_event (numbered ((get_or es i no_entry).pid * 2)) false s))
  unfolding manager_round on_event
  manager_round-passes s i m h only =
      let handles =
        ap (wait s.is_set) m.watched ∙ wait-finds wait waiting es apart s.is_set i h only in
      let (passes, _) = on_child-passes s es i m h in
      let number : suc (suc (suc (suc i))) - 4 ≡ i = omega arith in
      let e₀ : (suc (suc (suc (suc i))) == 0) ≡ false = ground arith in
      let e₁ : (suc (suc (suc (suc i))) == 1) ≡ false = ground arith in
      let e₂ : (suc (suc (suc (suc i))) == 2) ≡ false = ground arith in
      let e₃ : (suc (suc (suc (suc i))) == 3) ≡ false = ground arith in
      rw (handles, e₀, e₁, e₂, e₃, number, passes) refl

  -- The child whose turn it is prints, and the next one is awake.
  turn-passes :
      (s : Manager) (now : ℕ)
      → IsAwake s es now
      → (s' : Manager) × (turn wait fuel supply name_of es now s
          ≡ done (wrote (row (name_of (get_or es now no_entry).pid))) s')
        × IsAwake s' es (number_after (length es) now)
  unfolding turn
  turn-passes s now w =
      let pid = (get_or es now no_entry).pid in
      let next = get_or es (number_after (length es) now) no_entry in
      let s₁ = rung pid s in
      let managed = IsManaged-rung s es pid w.managed in
      let only₁ = λ (n : Name). put_event-only s (numbered pid) (numbered (pid * 2)) n w.only in
      let (_, m') = on_child-passes s₁ es now managed w.within in
      let awake : s.is_set (numbered pid) ≡ true = w.only (numbered pid) ∙ ground arith in
      (
        running next (put_event (numbered (pid * 2)) false s₁),
        rw
            (
              child_win-writes (name_of pid) pid s awake,
              manager_round-passes s₁ now managed w.within only₁,
            )
            refl,
        record {
          managed = m';
          within = number_after-lt (length es) now w.within;
          only = λ n. put_event-only s₁ (numbered (pid * 2)) (numbered next.pid) n only₁;
        },
      )

  -- Any other child waits, and so does the manager.
  turn-waits :
      (s : Manager) (now i : ℕ)
      → IsAwake s es now
      → i < length es
      → i ≢ now
      → turn wait fuel supply name_of es i s ≡ done waits s
  unfolding turn manager_round
  turn-waits s now i w h ne =
      let pid = (get_or es i no_entry).pid in
      let p = (get_or es now no_entry).pid in
      let asleep : s.is_set (numbered pid) ≡ false =
        w.only (numbered pid) ∙ ==_ne pid p (λ e. ne (apart.different i now h w.within e)) in
      let alive : s.is_set (numbered (pid * 3)) ≡ false =
        w.only (numbered (pid * 3))
        ∙ ==_ne (pid * 3) p (λ e. apart.no_triple now i w.within h (sym e)) in
      let quiet =
        ap (wait s.is_set) w.managed.watched
        ∙ wait-none wait waiting es apart s.is_set now w.within w.only in
      rw (child_win-waits (name_of pid) pid s asleep alive, quiet) refl

  -- Where of all events only that which wakes a child on the stack is set, and the process ids of
  -- two children differ and none is the double or the triple of one: whatever the order in which
  -- the children run their rounds, each with a round of the manager behind it, the row of a child
  -- is printed just where it is its turn in the order of the numbers, beginning with that child and
  -- with the top of the stack behind the last, and each row whole; then of all events only that
  -- which wakes the child whose turn it is is set, and the children are as before.
  pub turns-rows_from :
      (is : List ℕ) (now : ℕ) (s : Manager)
      → IsAwake s es now
      → AreNumbers es is
      → (s' : Manager) × (turns wait fuel supply name_of es is s
          ≡ done (rows_from name_of es is now) s')
        × IsAwake s' es (turn_after (length es) is now)
  unfolding turns
  turns-rows_from [] now s w known = (s, refl, w)
  turns-rows_from (i ∷ is) now s w (h, known) = elim (Bool-cases (i == now)) [
    | inl here ↦
        let e : i ≡ now = ground arith in
        let (s₁, turned, w₁) = turn-passes s now w in
        let (s₂, more, w₂) = turns-rows_from is (number_after (length es) now) s₁ w₁ known in
        let turned' : turn wait fuel supply name_of es i s
            ≡ done (wrote (row (name_of (get_or es i no_entry).pid))) s₁ =
          ap (λ a. turn wait fuel supply name_of es a s) e
          ∙ turned
          ∙ ap (λ a. done (wrote (row (name_of (get_or es a no_entry).pid))) s₁) (sym e) in
        (s₂, rw (turned', more, here) refl, rw here w₂)
    | inr there ↦
        let waited = turn-waits s now i w h (λ e. ground arith) in
        let (s₂, more, w₂) = turns-rows_from is now s w known in
        (s₂, rw (waited, more, there) refl, rw there w₂)
  ]
