-- ===== src/Lab4/Queue/Chain.antt =====
-- What a queue stands for: the addresses and values of its elements, in order.
use spovm4_labs.Base.{
  ◌==◌, ==_iff, Bool-cases, ℕ, ◌≡◌, refl, ap, inl, inr, Bool, false, ◌||◌, Option, none, List, [],
  ◌∷◌, arith,
}
use spovm4_labs.Lab4.Queue.{Element}
use spovm4_labs.Pointers.{null, Heap, write, Points, Points-write_ne}

abbrev pub Cells : Type 0
Cells = List (ℕ × ℕ)

abbrev pub first : Cells → ℕ
first [] = null
first ((p, v) ∷ xs) = p

abbrev pub at : ℕ → Cells → Bool
at a [] = false
at a ((p, v) ∷ xs) = a == p || at a xs

abbrev pub element : ℕ → ℕ → Element
element v q = record { value = v; next = q }

-- The elements `xs` lie in `h`, distinct and each pointing to the one behind it.
abbrev pub IsChain : Heap Element → Cells → Type 0
IsChain h [] = Unit
IsChain h ((p, v) ∷ xs) = Points h p (element v (first xs)) × (at p xs ≡ false) × IsChain h xs

abbrev pub values : Cells → List ℕ
values [] = []
values ((p, v) ∷ xs) = v ∷ values xs

-- the last element alone
abbrev pub keep_last : Cells → Cells
keep_last [] = []
keep_last (x ∷ []) = x ∷ []
keep_last (x ∷ y ∷ xs) = keep_last (y ∷ xs)

pub IsChain-write :
    (h : Heap Element) (xs : Cells) (a : ℕ) (n : Option Element)
    → at a xs ≡ false
    → IsChain h xs
    → IsChain (write h a n) xs
IsChain-write h [] a n out c = tt
IsChain-write h ((p, v) ∷ xs) a n out (e, o, c) = (
  Points-write_ne h p a n (element v (first xs)) (λ q. ground arith) e,
  o,
  IsChain-write h xs a n (ground arith) c,
)

-- An address that holds nothing is none of the chain's.
pub at_unused :
    (h : Heap Element) (xs : Cells) (a : ℕ) → IsChain h xs → h a ≡ none → at a xs ≡ false
at_unused h [] a c e = refl
at_unused h ((p, v) ∷ xs) a (q, o, c) e = elim (Bool-cases (a == p)) [
  | inl here ↦ absurd (cc (q.holds, ap h ((==_iff a p).0 here), e))
  | inr there ↦ rw there (at_unused h xs a c e)
]
