-- ===== src/Lab2/Stack.antt =====
-- lab2/src/stack/stack.c. A function that is given `ZSE** top` returns the new value of `*top`.
use spovm4_labs.Base.{
  ◌==◌, if◌then◌else◌, ℕ, ◌≡◌, refl, ap, ◌∙◌, Bool, false, ◌||◌, Option, none, some, List, [], ◌∷◌,
  arith,
}
use spovm4_labs.Pointers.{
  ◌>>=◌, ◌>>◌, null, Heap, write, done, Cmd, pure, load, fill, free, Points, load-done, free-done,
  fill-done, Points-write_self, Points-write_ne,
}

-- `struct zox_StackElement`
pub record Frame : Type 0 where
  pub content : ℕ
  pub previous : ℕ

-- `fresh` is what `malloc` returns, which the code does not test.
unfoldable pub zox_push : ℕ → ℕ → ℕ → Cmd Frame ℕ
zox_push fresh top content = do
  fill fresh (record { content = content; previous = top })
  pure fresh

-- the data, NULL if the stack is empty, and the new `*top`
unfoldable pub zox_pop : ℕ → Cmd Frame (ℕ × ℕ)
zox_pop top =
    if top == null
    then pure (null, top)
    else do popped ← load top; free top; pure (popped.content, popped.previous)

abbrev pub holds_frame : ℕ → List (ℕ × ℕ) → Bool
holds_frame a [] = false
holds_frame a ((p, v) ∷ xs) = a == p || holds_frame a xs

-- The frames on the stack, the last pushed first, with the addresses at which they lie.
abbrev pub IsStack : Heap Frame → ℕ → List (ℕ × ℕ) → Type 0
IsStack h top [] = top ≡ null
IsStack h top ((p, v) ∷ xs) =
    (top ≡ p)
    × ((q : ℕ) × Points h p (record { content = v; previous = q }) × IsStack h q xs)
    × (holds_frame p xs ≡ false)

pub IsStack-write :
    (h : Heap Frame) (top : ℕ) (xs : List (ℕ × ℕ)) (a : ℕ) (n : Option Frame)
    → holds_frame a xs ≡ false
    → IsStack h top xs
    → IsStack (write h a n) top xs
IsStack-write h top [] a n out s = s
IsStack-write h top ((p, v) ∷ xs) a n out (e, (q, points, s), apart) = (
  e,
  (
    q,
    Points-write_ne h p a n (record { content = v; previous = q }) (λ k. ground arith) points,
    IsStack-write h q xs a n (ground arith) s,
  ),
  apart,
)

-- Pushing puts the new frame, which holds the value, on top of the stack.
pub zox_push-IsStack :
    (h : Heap Frame) (fresh top value : ℕ) (xs : List (ℕ × ℕ))
    → IsStack h top xs
    → (fresh == null) ≡ false
    → holds_frame fresh xs ≡ false
    → (h' : Heap Frame) × (zox_push fresh top value h ≡ done fresh h')
      × IsStack h' fresh ((fresh, value) ∷ xs)
unfolding zox_push
zox_push-IsStack h fresh top value xs s not_null out =
    let f : Frame = record { content = value; previous = top } in
    (
      write h fresh (some f),
      rw (fill-done h fresh f not_null),
      (
        refl,
        (top, Points-write_self h fresh f not_null, IsStack-write h top xs fresh (some f) out s),
        out,
      ),
    )

-- Popping takes the top frame off the stack, frees it and returns what it holds.
pub zox_pop-IsStack :
    (h : Heap Frame) (top p v : ℕ) (xs : List (ℕ × ℕ))
    → IsStack h top ((p, v) ∷ xs)
    → (h' : Heap Frame) × (q : ℕ) × (zox_pop top h ≡ done (v, q) h') × IsStack h' q xs
unfolding zox_pop
zox_pop-IsStack h top p v xs (e, (q, points, s), apart) =
    let f : Frame = record { content = v; previous = q } in
    (
      write h p none,
      q,
      ap (λ t. zox_pop t h) e
          ∙ rw (points.not_null, load-done h p f points, free-done h p f points),
      IsStack-write h q xs p none apart s,
    )
