-- ===== src/Lab2/Child/Rows.antt =====
-- What the children print together.
use spovm4_labs.Base.{
  ltb, ◌==◌, Bool-cases, ℕ, zero, suc, ◌≤◌, ◌≡◌, ◌≢◌, refl, sym, ap, ◌∙◌, ◌⊎◌, inl, inr, Bool, true,
  false, List, [], ◌∷◌, ◌++◌, append-nil, append_assoc, arith,
}
use spovm4_labs.Base.Text.{Text}
use spovm4_labs.Lab2.Child.Exclusive.{
  is_printing, spares_waiting, IsFree, IsTaken, IsExclusive, others_silent, Reaches-IsExclusive,
}
use spovm4_labs.Lab2.Child.{
  Phase, absent, waiting, printing, ended, Terminal, Event, start, take, print, release, terminate,
  initialized, on_start, on_take, on_print, on_release, step, Reaches, here, then_step,
}

-- No child is ended.
abbrev pub spares_all : Event → Terminal → Bool
spares_all (start i c) s = true
spares_all (take i) s = true
spares_all (print i) s = true
spares_all (release i) s = true
spares_all (terminate i) s = false

-- six times a letter and the line's end
abbrev pub row : ℕ → Text
row c = c ∷ c ∷ c ∷ c ∷ c ∷ c ∷ 0x0A ∷ []

abbrev pub rows : List ℕ → Text
rows [] = []
rows (c ∷ cs) = row c ++ rows cs

-- the first `k` bytes of a row
abbrev front : ℕ → Text → Text
front zero t = []
front (suc k) [] = []
front (suc k) (c ∷ t) = c ∷ front k t

rows-snoc : (cs : List ℕ) (c : ℕ) → rows (cs ++ c ∷ []) ≡ rows cs ++ row c
rows-snoc [] c = refl
rows-snoc (d ∷ cs) c =
    ap (λ t. row d ++ t) (rows-snoc cs c) ∙ sym (append_assoc (row d) (rows cs) (row c))

front-letter : (k c : ℕ) → (ltb k 6) ≡ true → front k (row c) ++ c ∷ [] ≡ front (suc k) (row c)
front-letter zero c h = refl
front-letter (suc zero) c h = refl
front-letter (suc (suc zero)) c h = refl
front-letter (suc (suc (suc zero))) c h = refl
front-letter (suc (suc (suc (suc zero)))) c h = refl
front-letter (suc (suc (suc (suc (suc zero))))) c h = refl
front-letter (suc (suc (suc (suc (suc (suc k)))))) c h = absurd (ground arith)

-- Where nobody prints, all rows are whole; a child that has printed `k` bytes has left so much of its
-- row.
record IsInRows (s : Terminal) : Type 0 where
  shown : ((i : ℕ) → is_printing (s.child i).phase ≡ false) → (cs : List ℕ) × (s.printed ≡ rows cs)
  part :
      (i k : ℕ)
      → (s.child i).phase ≡ printing k
      → (k ≤ 7) × (cs : List ℕ) × (s.printed ≡ rows cs ++ front k (row (s.child i).c))

bytes_of : Phase → ℕ
bytes_of (printing k) = k
bytes_of absent = 0
bytes_of waiting = 0
bytes_of ended = 0

module _ (t : Terminal) (i k : ℕ) (prints : (t.child i).phase ≡ printing k) (le : k ≤ 7) where
  -- One child prints and the others do not.
  IsInRows-one :
      (cs : List ℕ)
      → t.printed ≡ rows cs ++ front k (row (t.child i).c)
      → ((j : ℕ) → j ≢ i → is_printing (t.child j).phase ≡ false)
      → IsInRows t
  unfolding bytes_of
  IsInRows-one cs e others = record {
    shown = λ silent. absurd (ground (arith, silent i, prints));
    part = λ j k' e'. elim (Bool-cases (j == i)) [
      | inl same ↦
          let at : j ≡ i = ground arith in
          let n : k ≡ k' =
            sym (ap bytes_of prints)
            ∙ ap (λ a. bytes_of (t.child a).phase) (sym at)
            ∙ ap bytes_of e' in
          (
            omega (arith, n),
            cs,
            e
                ∙ ap (λ a. rows cs ++ front k (row (t.child a).c)) (sym at)
                ∙ ap (λ m. rows cs ++ front m (row (t.child j).c)) n,
          )
      | inr other ↦ absurd (ground (arith, others j, e'))
    ];
  }

-- Nobody prints.
IsInRows-none :
    (t : Terminal) (cs : List ℕ)
    → t.printed ≡ rows cs
    → ((j : ℕ) → is_printing (t.child j).phase ≡ false)
    → IsInRows t
IsInRows-none t cs e silent = record {
  shown = λ h. (cs, e);
  part = λ i k p. absurd (ground (arith, silent i, p));
}

module _ (s : Terminal) (i : ℕ) (r : IsInRows s) (turn : IsFree s ⊎ IsTaken s) where
  start_rows : (p : Phase) (c : ℕ) → (s.child i).phase ≡ p → IsInRows (on_start p i c s)
  unfolding on_start
  start_rows absent c e = record {
    shown = λ silent. r.shown (λ j. elim (Bool-cases (j == i)) [
      | inl same ↦ ground (arith, e)
      | inr other ↦ ground (arith, silent j, other)
    ]);
    part = λ j k p. elim (Bool-cases (j == i)) [
      | inl same ↦ absurd (ground (arith, same, p))
      | inr other ↦
          let q : (s.child j).phase ≡ printing k = ground (arith, other, p) in
          let (le, cs, shows) = r.part j k q in (le, cs, rw other shows)
    ];
  }
  start_rows waiting c e = r
  start_rows (printing k) c e = r
  start_rows ended c e = r

  take_rows : (p : Phase) → (s.child i).phase ≡ p → IsInRows (on_take p i s)
  unfolding on_take
  take_rows waiting e = by_turn turn
    where
      by_turn : IsFree s ⊎ IsTaken s → IsInRows (on_take waiting i s)
      by_turn (inl f) =
          let open_ : ltb 0 s.semaphore ≡ true = ground (arith, f.open_) in
          let (cs, shows) = r.shown f.silent in
          rw open_ (
            IsInRows-one _ i 0 (ground arith) (omega arith) cs (shows ∙ sym (append-nil (rows cs)))
              (λ j ne. ground (arith, f.silent j)))
      by_turn (inr t) = let shut : ltb 0 s.semaphore ≡ false = ground (arith, t.shut) in rw shut r
  take_rows absent e = r
  take_rows (printing k) e = r
  take_rows ended e = r

  print_rows : (p : Phase) → (s.child i).phase ≡ p → IsInRows (on_print p i s)
  unfolding on_print
  print_rows (printing k) e =
      let (shut, others) = others_silent s i turn (ap is_printing e) in
      let (le, cs, shows) = r.part i k e in
      let c = (s.child i).c in
      elim (Bool-cases (ltb k 6)) [
        | inl letter ↦ rw letter (
            IsInRows-one _ i (suc k) (ground arith) (ground arith) cs
              (ap (λ t. t ++ c ∷ []) shows
                ∙ append_assoc (rows cs) (front k (row c)) (c ∷ [])
                ∙ ap (λ t. rows cs ++ t) (front-letter k c letter)
                ∙ ground arith)
              (λ j ne. ground (arith, others j)))
        | inr no_letter ↦ rw no_letter (elim (Bool-cases (k == 6)) [
          | inl line ↦
              let six : k ≡ 6 = ground arith in
              rw line (
                IsInRows-one _ i 7 (ground arith) (omega arith) cs
                  (ap (λ t. t ++ 0x0A ∷ []) shows
                    ∙ ap (λ m. (rows cs ++ front m (row c)) ++ 0x0A ∷ []) six
                    ∙ append_assoc (rows cs) (front 6 (row c)) (0x0A ∷ [])
                    ∙ ground arith)
                  (λ j ne. ground (arith, others j)))
          | inr over ↦ rw over r
        ])
      ]
  print_rows absent e = r
  print_rows waiting e = r
  print_rows ended e = r

  release_rows : (p : Phase) → (s.child i).phase ≡ p → IsInRows (on_release p i s)
  unfolding on_release
  release_rows (printing k) e =
      let (shut, others) = others_silent s i turn (ap is_printing e) in
      let (le, cs, shows) = r.part i k e in
      let c = (s.child i).c in
      elim (Bool-cases (k == 7)) [
        | inl over ↦
            let seven : k ≡ 7 = ground arith in
            rw over (
              IsInRows-none _ (cs ++ c ∷ [])
                (shows ∙ ap (λ m. rows cs ++ front m (row c)) seven ∙ sym (rows-snoc cs c))
                (λ j. ground (arith, others j)))
        | inr not_yet ↦ rw not_yet r
      ]
  release_rows absent e = r
  release_rows waiting e = r
  release_rows ended e = r

step-IsInRows :
    (event : Event) (s : Terminal)
    → spares_all event s ≡ true
    → IsExclusive s
    → IsInRows s
    → IsInRows (step event s)
unfolding step
step-IsInRows (start i c) s spared x r = start_rows s i r x.turn (s.child i).phase c refl
step-IsInRows (take i) s spared x r = take_rows s i r x.turn (s.child i).phase refl
step-IsInRows (print i) s spared x r = print_rows s i r x.turn (s.child i).phase refl
step-IsInRows (release i) s spared x r = release_rows s i r x.turn (s.child i).phase refl
step-IsInRows (terminate i) s spared x r = cc

-- Where no child is ended, none is ended while it waits.
Reaches-spares :
    (s : Terminal) → Reaches spares_all initialized s → Reaches spares_waiting initialized s
Reaches-spares s here = here
Reaches-spares _ (then_step {s' = s₁} event r spared) =
    then_step event (Reaches-spares s₁ r) (spares event spared)
  where
    spares : (e : Event) → spares_all e s₁ ≡ true → spares_waiting e s₁ ≡ true
    spares (start i c) h = refl
    spares (take i) h = refl
    spares (print i) h = refl
    spares (release i) h = refl
    spares (terminate i) h = cc

Reaches-IsInRows : (s : Terminal) → Reaches spares_all initialized s → IsInRows s
Reaches-IsInRows s here = IsInRows-none initialized [] refl (λ j. refl)
Reaches-IsInRows _ (then_step {s' = s₁} event r spared) =
    step-IsInRows event s₁ spared (Reaches-IsExclusive s₁ (Reaches-spares s₁ r))
      (Reaches-IsInRows s₁ r)

-- As long as no child is ended: whatever the order of the steps, where no child is between its two
-- calls of semop, all that was printed are whole rows, each of six times one letter.
pub printed-rows :
    (s : Terminal)
    → Reaches spares_all initialized s
    → ((i : ℕ) → is_printing (s.child i).phase ≡ false)
    → (cs : List ℕ) × (s.printed ≡ rows cs)
printed-rows s r silent = (Reaches-IsInRows s r).shown silent
