-- ===== src/Lab4/Queue/Laws.antt =====
-- The operations of the queue on the list of elements that it stands for.
use spovm4_labs.Base.{
  length, ◌==◌, ==_false, ℕ, zero, suc, ◌<◌, ◌≡◌, refl, false, none, some, List, [], ◌∷◌, ◌++◌,
  arith,
}
use spovm4_labs.Lab4.Queue.{Element, walk, offer, poll, drop_loop, erase}
use spovm4_labs.Lab4.Queue.Chain.{
  Cells, first, at, element, IsChain, keep_last, IsChain-write, at_unused,
}
use spovm4_labs.Pointers.{
  null, Heap, write, done, Points, load-done, store-done, free-done, fill-done, Points-write_self,
  Points-write_ne,
}

module _ (h : Heap Element) where
  walk-last :
      (fuel p v : ℕ) (xs : Cells)
      → IsChain h ((p, v) ∷ xs)
      → length xs < fuel
      → (q w : ℕ) × (keep_last ((p, v) ∷ xs) ≡ (q, w) ∷ [])
        × Points h q (element w null)
        × (walk fuel p h ≡ done q h)
        × ((a : ℕ) → at a ((p, v) ∷ xs) ≡ false → (a == q) ≡ false)
  unfolding walk
  walk-last zero p v xs c l = absurd (omega arith)
  walk-last (suc k) p v [] (e, o, c) l =
      (p, v, refl, e, rw (load-done h p (element v null) e), λ a out. ground arith)
  walk-last (suc k) p v ((p', v') ∷ xs) (e, o, c) l =
      let (q, w, last, there, run, apart) = walk-last k p' v' xs c (omega arith) in
      (
        q,
        w,
        last,
        there,
        rw (load-done h p (element v p') e, c.0.not_null) run,
        λ a out. apart a (ground arith),
      )

  -- Offering to an empty queue makes the new element the queue.
  pub offer-nil :
      (fuel fresh value : ℕ)
      → (fresh == null) ≡ false
      → offer fuel fresh null value h ≡ done fresh (write h fresh (some (element value null)))
  unfolding offer
  offer-nil fuel fresh value e = rw (fill-done h fresh (element value null) e)

not_at_single : (q a v : ℕ) → (a == q) ≡ false → at q ((a, v) ∷ []) ≡ false
not_at_single q a v h = ground arith

-- Where the queue is not empty, offer makes it the last element of the old queue with the new one
-- behind: the elements before the last are no longer reached.
pub offer-IsChain :
    (h : Heap Element) (fuel fresh p v value : ℕ) (xs : Cells)
    → IsChain h ((p, v) ∷ xs)
    → length xs < fuel
    → (fresh == null) ≡ false
    → h fresh ≡ none
    → (tail : ℕ) × (h' : Heap Element) × (offer fuel fresh p value h ≡ done tail h')
      × (tail ≡ first (keep_last ((p, v) ∷ xs)))
      × IsChain h' (keep_last ((p, v) ∷ xs) ++ (fresh, value) ∷ [])
unfolding offer
offer-IsChain h fuel fresh p v value xs c l ok unused =
    let out = at_unused h ((p, v) ∷ xs) fresh c unused in
    let new = element value null in
    let h₁ = write h fresh (some new) in
    let c₁ = IsChain-write h ((p, v) ∷ xs) fresh (some new) out c in
    let (q, w, last, there, run, apart) = walk-last h₁ fuel p v xs c₁ l in
    let ne = ==_false fresh q (apart fresh out) in
    let h₂ = write h₁ q (some (element w fresh)) in
    (
      q,
      h₂,
      rw (
        fill-done h fresh new ok,
        c.0.not_null,
        run,
        load-done h₁ q (element w null) there,
        store-done h₁ q (element w null) (element w fresh) there,
      ),
      rw last,
      rw last (
        Points-write_self h₁ q (element w fresh) there.not_null,
        not_at_single q fresh value (apart fresh out),
        (
          Points-write_ne h₁ fresh q (some (element w fresh)) new ne
              (Points-write_self h fresh new ok),
          refl,
          tt,
        ),
      ),
    )

-- On a queue that is not empty poll returns the value of the first element, frees this element, and
-- leaves the others, in their order, as the queue.
pub poll-IsChain :
    (h : Heap Element) (p v : ℕ) (xs : Cells)
    → IsChain h ((p, v) ∷ xs)
    → (poll p h ≡ done (v, first xs) (write h p none)) × IsChain (write h p none) xs
unfolding poll
poll-IsChain h p v xs (e, o, c) =
    let n = element v (first xs) in
    (rw (e.not_null, load-done h p n e, free-done h p n e), IsChain-write h xs p none o c)

-- the values of all elements but the last
abbrev all_but_last : Cells → List ℕ
all_but_last [] = []
all_but_last (x ∷ []) = []
all_but_last ((p, v) ∷ y ∷ xs) = v ∷ all_but_last (y ∷ xs)

drop_loop-IsChain :
    (fuel : ℕ) (h : Heap Element) (p v : ℕ) (xs : Cells)
    → IsChain h ((p, v) ∷ xs)
    → length xs < fuel
    → (h' : Heap Element) × (drop_loop fuel p h
        ≡ done (all_but_last ((p, v) ∷ xs), first (keep_last ((p, v) ∷ xs))) h')
      × IsChain h' (keep_last ((p, v) ∷ xs))
unfolding drop_loop
drop_loop-IsChain zero h p v xs c l = absurd (omega arith)
drop_loop-IsChain (suc k) h p v [] c l = (h, rw (load-done h p (element v null) c.0), c)
drop_loop-IsChain (suc k) h p v ((p', v') ∷ xs) (e, o, c) l =
    let n = element v p' in
    let (h', run, c') =
      drop_loop-IsChain k (write h p none) p' v' xs (IsChain-write h ((p', v') ∷ xs) p none o c)
        (omega arith) in
    (h', rw (load-done h p n e, c.0.not_null, free-done h p n e, run), c')

-- With as much fuel as elements erase ends on a queue that is not empty: it frees the values of all
-- elements but the last, and leaves the last one in the queue.
erase-IsChain :
    (fuel : ℕ) (h : Heap Element) (p v : ℕ) (xs : Cells)
    → IsChain h ((p, v) ∷ xs)
    → length xs < fuel
    → (h' : Heap Element) × (erase fuel p h
        ≡ done (all_but_last ((p, v) ∷ xs), first (keep_last ((p, v) ∷ xs))) h')
      × IsChain h' (keep_last ((p, v) ∷ xs))
unfolding erase
erase-IsChain fuel h p v xs c l = rw c.0.not_null (drop_loop-IsChain fuel h p v xs c l)
