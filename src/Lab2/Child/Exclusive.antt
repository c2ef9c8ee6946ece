-- ===== src/Lab2/Child/Exclusive.antt =====
-- Which children are between their two calls of semop.
use spovm4_labs.Base.{
  ltb, ◌==◌, if◌then◌else◌, Bool-cases, ℕ, suc, ◌+◌, ◌≡◌, ◌≢◌, refl, sym, ap, ◌∙◌, ◌⊎◌, inl, inr,
  not, Bool, true, false, arith,
}
use spovm4_labs.Lab2.Child.{
  Phase, absent, waiting, printing, ended, Terminal, Event, start, take, print, release, terminate,
  initialized, on_start, on_take, on_print, on_release, on_terminate, kill_handler, step, Reaches,
  here, then_step,
}

abbrev pub is_printing : Phase → Bool
is_printing absent = false
is_printing waiting = false
is_printing (printing k) = true
is_printing ended = false

abbrev pub is_waiting : Phase → Bool
is_waiting absent = false
is_waiting waiting = true
is_waiting (printing k) = false
is_waiting ended = false

-- No child is ended while it waits.
abbrev pub spares_waiting : Event → Terminal → Bool
spares_waiting (start i c) s = true
spares_waiting (take i) s = true
spares_waiting (print i) s = true
spares_waiting (release i) s = true
spares_waiting (terminate i) s = not (is_waiting (s.child i).phase)

-- The semaphore is 1 and nobody prints, or it is 0 and one child prints; no child has an `errno`.
pub record IsFree (s : Terminal) : Type 0 where
  pub open_ : s.semaphore ≡ 1
  pub silent : (i : ℕ) → is_printing (s.child i).phase ≡ false

pub record IsTaken (s : Terminal) : Type 0 where
  pub shut : s.semaphore ≡ 0
  pub who : ℕ
  pub prints : is_printing (s.child who).phase ≡ true
  pub alone : (i : ℕ) → is_printing (s.child i).phase ≡ true → i ≡ who

pub record IsExclusive (s : Terminal) : Type 0 where
  pub errnos : (i : ℕ) → (s.child i).errno ≡ 0
  pub turn : IsFree s ⊎ IsTaken s

step-errnos :
    (event : Event) (s : Terminal) (i : ℕ)
    → ((j : ℕ) → (s.child j).errno ≡ 0)
    → ((step event s).child i).errno ≡ 0
unfolding step
step-errnos (start j c) s i e = ground (arith, e i, e j)
step-errnos (take j) s i e = ground (arith, e i, e j)
step-errnos (print j) s i e = ground (arith, e i, e j)
step-errnos (release j) s i e = ground (arith, e i, e j)
step-errnos (terminate j) s i e = ground (arith, e i, e j)

module _ (s : Terminal) (i : ℕ) where
  -- Setting the phase of one child leaves the others.
  IsFree-set :
      (p : Phase) (n : ℕ)
      → n ≡ 1
      → is_printing p ≡ false
      → ((j : ℕ) → j ≢ i → is_printing (s.child j).phase ≡ false)
      → (t : Terminal) → t.semaphore ≡ n
      → ((j : ℕ) → (t.child j).phase ≡ (if j == i then p else (s.child j).phase))
      → IsFree t
  IsFree-set p n e not_p others t sem phases = record {
    open_ = sem ∙ e;
    silent = λ j. elim (Bool-cases (j == i)) [
      | inl same ↦ ground (arith, phases j, same, not_p)
      | inr other ↦ ground (arith, phases j, other, others j)
    ];
  }

  IsTaken-set :
      (p : Phase) (t : Terminal)
      → t.semaphore ≡ 0
      → is_printing p ≡ true
      → ((j : ℕ) → j ≢ i → is_printing (s.child j).phase ≡ false)
      → ((j : ℕ) → (t.child j).phase ≡ (if j == i then p else (s.child j).phase))
      → IsTaken t
  IsTaken-set p t sem is_p others phases = record {
    shut = sem;
    who = i;
    prints = ground (arith, phases i, is_p);
    alone = λ j pr. elim (Bool-cases (j == i)) [
      | inl same ↦ ground arith
      | inr other ↦ absurd (ground (arith, phases j, others j, pr))
    ];
  }

  -- Where a child prints, the others do not.
  pub others_silent :
      IsFree s ⊎ IsTaken s
      → is_printing (s.child i).phase ≡ true
      → (s.semaphore ≡ 0) × ((j : ℕ) → j ≢ i → is_printing (s.child j).phase ≡ false)
  others_silent (inl f) pr = absurd (ground (arith, f.silent i, pr))
  others_silent (inr t) pr = (t.shut, λ j ne. ground (arith, t.alone j, t.alone i))

  start_turn :
      (p : Phase) (c : ℕ)
      → (s.child i).phase ≡ p
      → IsFree s ⊎ IsTaken s
      → IsFree (on_start p i c s) ⊎ IsTaken (on_start p i c s)
  unfolding on_start
  start_turn absent c e (inl f) = inl (
      IsFree-set waiting 1 refl refl (λ j ne. f.silent j) (on_start absent i c s) f.open_
        (λ j. ground arith))
  start_turn absent c e (inr t) = inr (record {
    shut = t.shut;
    who = t.who;
    prints = ground (arith, t.prints, e);
    alone = λ j pr. ground (arith, t.alone j, e, pr);
  })
  start_turn waiting c e t = t
  start_turn (printing k) c e t = t
  start_turn ended c e t = t

  take_turn :
      (p : Phase)
      → (s.child i).phase ≡ p
      → IsFree s ⊎ IsTaken s
      → IsFree (on_take p i s) ⊎ IsTaken (on_take p i s)
  unfolding on_take
  take_turn waiting e (inl f) =
      inr
        (rw f.open_ (IsTaken-set (printing 0) _ refl refl (λ j ne. f.silent j) (λ j. ground arith)))
  take_turn waiting e (inr t) =
      let shut : ltb 0 s.semaphore ≡ false = ground (arith, t.shut) in inr (rw shut t)
  take_turn absent e t = t
  take_turn (printing k) e t = t
  take_turn ended e t = t

  print_turn :
      (p : Phase)
      → (s.child i).phase ≡ p
      → IsFree s ⊎ IsTaken s
      → IsFree (on_print p i s) ⊎ IsTaken (on_print p i s)
  unfolding on_print
  print_turn (printing k) e t =
      let (shut, others) = others_silent t (ap is_printing e) in
      elim (Bool-cases (ltb k 6)) [
        | inl letter ↦
            inr (rw letter (IsTaken-set (printing (suc k)) _ shut refl others (λ j. ground arith)))
        | inr no_letter ↦ rw no_letter (elim (Bool-cases (k == 6)) [
          | inl line ↦
              inr (rw line (IsTaken-set (printing 7) _ shut refl others (λ j. ground arith)))
          | inr over ↦ rw over t
        ])
      ]
  print_turn absent e t = t
  print_turn waiting e t = t
  print_turn ended e t = t

  release_turn :
      (p : Phase)
      → (s.child i).phase ≡ p
      → IsFree s ⊎ IsTaken s
      → IsFree (on_release p i s) ⊎ IsTaken (on_release p i s)
  unfolding on_release
  release_turn (printing k) e t =
      let (shut, others) = others_silent t (ap is_printing e) in
      elim (Bool-cases (k == 7)) [
        | inl over ↦ inl (
            rw over (
              IsFree-set waiting (s.semaphore + 1) (omega arith) refl others _ refl
                (λ j. ground arith)))
        | inr not_yet ↦ rw not_yet t
      ]
  release_turn absent e t = t
  release_turn waiting e t = t
  release_turn ended e t = t

  terminate_turn :
      (p : Phase)
      → (s.child i).phase ≡ p
      → (s.child i).errno ≡ 0
      → is_waiting p ≡ false
      → IsFree s ⊎ IsTaken s
      → IsFree (on_terminate p i s) ⊎ IsTaken (on_terminate p i s)
  unfolding on_terminate kill_handler
  terminate_turn (printing k) e errno spared t =
      let (shut, others) = others_silent t (ap is_printing e) in
      inl (
        rw errno
          (IsFree-set ended (s.semaphore + 1) (omega arith) refl others _ refl (λ j. ground arith)))
  terminate_turn absent e errno spared t = t
  terminate_turn waiting e errno spared t = cc
  terminate_turn ended e errno spared t = t

step-turn :
    (event : Event) (s : Terminal)
    → spares_waiting event s ≡ true
    → IsExclusive s
    → IsFree (step event s) ⊎ IsTaken (step event s)
unfolding step
step-turn (start i c) s spared x = start_turn s i (s.child i).phase c refl x.turn
step-turn (take i) s spared x = take_turn s i (s.child i).phase refl x.turn
step-turn (print i) s spared x = print_turn s i (s.child i).phase refl x.turn
step-turn (release i) s spared x = release_turn s i (s.child i).phase refl x.turn
step-turn (terminate i) s spared x =
    terminate_turn s i (s.child i).phase refl (x.errnos i) (ground arith) x.turn

pub Reaches-IsExclusive : (s : Terminal) → Reaches spares_waiting initialized s → IsExclusive s
Reaches-IsExclusive s here = record {
  errnos = λ i. refl;
  turn = inl (record { open_ = refl; silent = λ i. refl });
}
Reaches-IsExclusive _ (then_step {s' = s₁} event r spared) =
    let x = Reaches-IsExclusive s₁ r in
    record { errnos = λ i. step-errnos event s₁ i x.errnos; turn = step-turn event s₁ spared x }

-- As long as no child is ended while it waits for the semaphore, two children are never both
-- between their two calls of semop.
pub printing-alone :
    (s : Terminal) (i j : ℕ)
    → Reaches spares_waiting initialized s
    → is_printing (s.child i).phase ≡ true
    → is_printing (s.child j).phase ≡ true
    → i ≡ j
printing-alone s i j r p q = elim (Reaches-IsExclusive s r).turn [
  | inl f ↦ cc (f.silent i)
  | inr t ↦ t.alone i p ∙ sym (t.alone j q)
]

-- A child that is ended while it waits releases the semaphore that another child holds: from a
-- state where one child prints and two wait, the end of one that waits lets the other one print
-- too.
pub terminate-lets_in :
    (s : Terminal) (i j k : ℕ)
    → is_printing (s.child i).phase ≡ true
    → (s.child j).phase ≡ waiting
    → (s.child j).errno ≡ 0
    → (s.child k).phase ≡ waiting
    → (j == k) ≡ false
    → (is_printing ((step (take k) (step (terminate j) s)).child i).phase ≡ true)
      × (is_printing ((step (take k) (step (terminate j) s)).child k).phase ≡ true)
      × (i ≢ k)
unfolding step on_take on_terminate kill_handler
terminate-lets_in s i j k p e errno f apart = ground arith
