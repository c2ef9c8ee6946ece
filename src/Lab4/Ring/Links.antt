-- ===== src/Lab4/Ring/Links.antt =====
-- The ring's links, and how the writes of ring.c change them.
use spovm4_labs.Base.{
  ◌==◌, if◌then◌else◌, ==_iff, Bool-cases, Option-cases, ℕ, ◌≡◌, refl, ap, ◌∙◌, ◌⊎◌, inl, inr,
  Option, none, some,
}
use spovm4_labs.Lab4.Ring.{Node}
use spovm4_labs.Pointers.{null, Heap, write}

abbrev pub field : (Node → ℕ) → Option Node → Option ℕ
field f none = none
field f (some n) = some (f n)

unfoldable pub next_of : Heap Node → ℕ → Option ℕ
next_of h p = field (λ n. n.next) (h p)

unfoldable pub previous_of : Heap Node → ℕ → Option ℕ
previous_of h p = field (λ n. n.previous) (h p)

unfoldable pub value_of : Heap Node → ℕ → Option ℕ
value_of h p = field (λ n. n.value) (h p)

-- Every element is its successor's predecessor and its predecessor's successor, so both are
-- elements; none lies at NULL.
pub record IsRing (h : Heap Node) : Type 0 where
  pub no_null : value_of h null ≡ none
  pub ahead : (p q : ℕ) → next_of h p ≡ some q → previous_of h q ≡ some p
  pub behind : (p q : ℕ) → previous_of h q ≡ some p → next_of h p ≡ some q

abbrev pub set_next : Node → ℕ → Node
set_next n x = record n { next = x }

abbrev pub set_previous : Node → ℕ → Node
set_previous n x = record n { previous = x }

module _ (h : Heap Node) (q : ℕ) where
  pub links-new :
      (n : Node) (a : ℕ)
      → (next_of (write h q (some n)) a ≡ (if a == q then some n.next else next_of h a))
        × (previous_of (write h q (some n)) a
            ≡ (if a == q then some n.previous else previous_of h a))
        × (value_of (write h q (some n)) a ≡ (if a == q then some n.value else value_of h a))
  unfolding next_of previous_of value_of
  links-new n a = elim (Bool-cases (a == q)) [
    | inl here ↦ rw here (refl, refl, refl)
    | inr there ↦ rw there (refl, refl, refl)
  ]

  pub links-free :
      (a : ℕ)
      → (next_of (write h q none) a ≡ (if a == q then none else next_of h a))
        × (previous_of (write h q none) a ≡ (if a == q then none else previous_of h a))
        × (value_of (write h q none) a ≡ (if a == q then none else value_of h a))
  unfolding next_of previous_of value_of
  links-free a = elim (Bool-cases (a == q)) [
    | inl here ↦ rw here (refl, refl, refl)
    | inr there ↦ rw there (refl, refl, refl)
  ]

  pub links-set_next :
      (n : Node) (x a : ℕ)
      → h q ≡ some n
      → (next_of (write h q (some (set_next n x))) a ≡ (if a == q then some x else next_of h a))
        × (previous_of (write h q (some (set_next n x))) a ≡ previous_of h a)
        × (value_of (write h q (some (set_next n x))) a ≡ value_of h a)
  unfolding next_of previous_of value_of
  links-set_next n x a e = elim (Bool-cases (a == q)) [
    | inl here ↦
        let e' : h a ≡ some n = ap h ((==_iff a q).0 here) ∙ e in rw (here, e') (refl, refl, refl)
    | inr there ↦ rw there (refl, refl, refl)
  ]

  pub links-set_previous :
      (n : Node) (x a : ℕ)
      → h q ≡ some n
      → (next_of (write h q (some (set_previous n x))) a ≡ next_of h a)
        × (previous_of (write h q (some (set_previous n x))) a
            ≡ (if a == q then some x else previous_of h a))
        × (value_of (write h q (some (set_previous n x))) a ≡ value_of h a)
  unfolding next_of previous_of value_of
  links-set_previous n x a e = elim (Bool-cases (a == q)) [
    | inl here ↦
        let e' : h a ≡ some n = ap h ((==_iff a q).0 here) ∙ e in rw (here, e') (refl, refl, refl)
    | inr there ↦ rw there (refl, refl, refl)
  ]

none_read : (h : Heap Node) (q : ℕ) {p : ℕ} → h q ≡ none → previous_of h q ≡ some p → ⊥
unfolding previous_of
none_read h q e l = cc (ap (field (λ n. n.previous)) e)

none_read_next : (h : Heap Node) (q : ℕ) {p : ℕ} → h q ≡ none → next_of h q ≡ some p → ⊥
unfolding next_of
none_read_next h q e l = cc (ap (field (λ n. n.next)) e)

pub node_at :
    (h : Heap Node) (p q : ℕ)
    → (previous_of h q ≡ some p) ⊎ (next_of h q ≡ some p)
    → (n : Node) × (h q ≡ some n)
node_at h p q e = elim (Option-cases (h q)) [
  | inl e' ↦ elim e [
    | inl l ↦ absurd (none_read h q e' l)
    | inr l ↦ absurd (none_read_next h q e' l)
  ]
  | inr found ↦ found
]

pub links_at :
    (h : Heap Node) (p : ℕ) (n : Node)
    → h p ≡ some n
    → (next_of h p ≡ some n.next)
      × (previous_of h p ≡ some n.previous)
      × (value_of h p ≡ some n.value)
unfolding next_of previous_of value_of
links_at h p n e = rw e (refl, refl, refl)

pub links_none :
    (h : Heap Node) (p : ℕ)
    → h p ≡ none
    → (next_of h p ≡ none) × (previous_of h p ≡ none) × (value_of h p ≡ none)
unfolding next_of previous_of value_of
links_none h p e = rw e (refl, refl, refl)
