-- ===== src/Lab4/Input/Order.antt =====
-- Many turns of the children: the order in which they print.
use mathlib.Core.Path.{ap₂}
use spovm4_labs.Base.Text.{Text}
use spovm4_labs.Base.{
  ◌==◌, ℕ, ◌≡◌, refl, sym, ap, ◌∙◌, true, false, Option, none, some, List, [], ◌∷◌, ◌++◌,
  Bool-cases, inl, inr, if◌then◌else◌, arith,
}
use spovm4_labs.Lab4.Child.{Child}
use spovm4_labs.Lab4.Input.{Turn, waits, returns, cancelled, wrote, turn}
use spovm4_labs.Lab4.Manager.{Manager, ok, Step, Supply, ◌>>=◌, give}
use spovm4_labs.Lab4.Ring.{Node}
use spovm4_labs.Pointers.{null, Heap, Points}
use spovm4_labs.Lab4.Input.Turns.{
  row, child_at, next_at, name_of, name_found, IsWoken, turn-passes, turn-waits,
}

-- What is printed when the threads of these children run, one after the other: at the element `a`
-- of the ring only its child prints, and then it is the turn of the next element.
abbrev pub rows_from : ℕ → List ℕ → Heap Node → Heap Child → ℕ → Text
rows_from count [] ring children a = []
rows_from count (v ∷ vs) ring children a =
    if v == child_at ring a
    then row count (name_of children v) ++ rows_from count vs ring children (next_at ring a)
    else rows_from count vs ring children a

-- There is a child at each of these addresses.
abbrev pub AreChildren : Heap Child → List ℕ → Type 0
AreChildren children [] = Unit
AreChildren children (v ∷ vs) = ((c : Child) × Points children v c) × AreChildren children vs

abbrev pub printed_in : Turn → Text
printed_in waits = []
printed_in returns = []
printed_in (cancelled t) = t
printed_in (wrote t) = t

-- The turns of these children, one after the other, and what they print.
unfoldable pub turns : ℕ → ℕ → Supply → List ℕ → Step Text
turns count fuel supply [] = give []
turns count fuel supply (v ∷ vs) = do
  t ← turn count fuel supply v
  rest ← turns count fuel supply vs
  give (printed_in t ++ rest)

rows_from-same :
    (count : ℕ) (vs : List ℕ) (ring : Heap Node) (cs ds : Heap Child) (a : ℕ)
    → ((v : ℕ) → name_of cs v ≡ name_of ds v)
    → rows_from count vs ring cs a ≡ rows_from count vs ring ds a
rows_from-same count [] ring cs ds a same = refl
rows_from-same count (v ∷ vs) ring cs ds a same =
    let here = rows_from-same count vs ring cs ds (next_at ring a) same in
    let there = rows_from-same count vs ring cs ds a same in rw (same v, here, there) refl

AreChildren-same :
    (cs ds : Heap Child) (vs : List ℕ)
    → ((v : ℕ) (c : Child) → Points cs v c → (d : Child) × Points ds v d)
    → AreChildren cs vs
    → AreChildren ds vs
AreChildren-same cs ds [] same h = tt
AreChildren-same cs ds (v ∷ vs) same ((c, at), h) = (same v c at, AreChildren-same cs ds vs same h)

-- Where the current child was woken and no other child has a message, nothing is paused, no letter
-- waits, and the memory for a letter is there: whatever the order in which the threads of the
-- children run their rounds, each with a round of the manager behind it, the row of a child is
-- printed just where it is its turn in the order of the ring, beginning with the current child, and
-- each row whole; afterwards, too, the current child was woken and no other child has a message.
pub turns-rows :
    (vs : List ℕ) (count fuel : ℕ) (supply : Supply) (s : Manager)
    → (supply.letter == null) ≡ false
    → (supply.queue_element == null) ≡ false
    → IsWoken s
    → AreChildren s.children vs
    → (s' : Manager) × (turns count fuel supply vs s
        ≡ ok (rows_from count vs s.ring s.children s.current_child) s')
      × IsWoken s'
unfolding turns
turns-rows [] count fuel supply s ok_letter ok_element w known = (s, refl, w)
turns-rows (v ∷ vs) count fuel supply s ok_letter ok_element w ((c, at), known) =
    let value : child_at s.ring s.current_child ≡ w.node.value =
      ap (λ (o : Option Node). elim o [ none ↦ null | some n ↦ n.value ]) w.at_current in
    let next : next_at s.ring s.current_child ≡ w.node.next =
      ap (λ (o : Option Node). elim o [ none ↦ null | some n ↦ n.next ]) w.at_current in
    elim (Bool-cases (v == w.node.value)) [
      | inl here ↦
          let (s₁, turned, w₁, ring, current, names, kept) =
            turn-passes count fuel supply ok_letter ok_element s w in
          let (s₂, more, w₂) =
            turns-rows vs count fuel supply s₁ ok_letter ok_element w₁
              (AreChildren-same s.children s₁.children vs kept known) in
          let e : v ≡ w.node.value = ground arith in
          let first : w.child.name ≡ name_of s.children v =
            sym (
              ap (name_of s.children) e
              ∙ name_found s.children w.node.value w.child w.held.holds) in
          let others : rows_from count vs s₁.ring s₁.children s₁.current_child
              ≡ rows_from count vs s.ring s.children (next_at s.ring s.current_child) =
            rows_from-same count vs s₁.ring s₁.children s.children s₁.current_child names
            ∙ ap₂ (λ r a. rows_from count vs r s.children a) ring (current ∙ sym next) in
          let mine : (v == child_at s.ring s.current_child) ≡ true =
            ap (λ a. v == a) value ∙ here in
          let turned' : turn count fuel supply v s ≡ ok (wrote (row count w.child.name)) s₁ =
            ap (λ a. turn count fuel supply a s) e ∙ turned in
          (
            s₂,
            rw (turned', more, mine) (ap₂ (λ name t. ok (row count name ++ t) s₂) first others),
            w₂,
          )
      | inr there ↦
          let waiting =
            turn-waits count fuel supply ok_letter ok_element s w v c (λ e. ground arith) at in
          let (s₂, more, w₂) = turns-rows vs count fuel supply s ok_letter ok_element w known in
          let mine : (v == child_at s.ring s.current_child) ≡ false =
            ap (λ a. v == a) value ∙ there in
          (s₂, rw (waiting, more, mine) refl, w₂)
    ]
