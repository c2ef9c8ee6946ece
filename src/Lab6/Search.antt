-- ===== src/Lab6/Search.antt =====
-- The searches of heap_block.c and of `_zox_malloc` on a heap of blocks.
use mathlib.Core.Path.{subst}
use spovm4_labs.Base.{
  length, length-append, ltb, ◌==◌, if◌then◌else◌, lt→ltb, Bool-cases, word_size, sub_word, ℕ, zero,
  suc, ◌+◌, ◌-◌, ◌≤◌, ◌<◌, ◌≡◌, refl, ap, ◌∙◌, inl, inr, Bool, true, false, not, List, [], ◌∷◌,
  ◌++◌, arith,
}
use spovm4_labs.Base.Text.{starts_with}
use spovm4_labs.Lab6.Block.{
  eob, eob_size, block_overhead, get_block, match_bytes, next_loop, get_next_block, size_loop,
  calculate_block_size, is_block_free,
}
use spovm4_labs.Lab6.Layout.{IsAt, Chunk, is_clean, Holds, extent, is_clean-cons}
use spovm4_labs.Lab6.Memory.{Heap, limit, read}
use spovm4_labs.Stateful.{done}

pub limit_le : (h : Heap) → h.heap_size ≤ limit h
limit_le h = omega arith

-- Comparing bytes is asking for a prefix.
pub match_bytes-starts_with :
    (h : Heap) (t s : List ℕ) (a : ℕ)
    → Holds h.byte a s
    → length t ≤ length s
    → a + length s ≤ limit h
    → match_bytes t a h ≡ done (starts_with s t) h
unfolding match_bytes read
match_bytes-starts_with h [] s a hs l b = refl
match_bytes-starts_with h (e ∷ t) [] a hs l b = absurd (omega arith)
match_bytes-starts_with h (e ∷ t) (x ∷ s) a (q, hs) l b =
    let ih = match_bytes-starts_with h t s (suc a) hs (omega arith) (omega arith) in
    rw (lt→ltb a (limit h) (omega arith), q)
      (elim (Bool-cases (x == e)) [ inl q ↦ rw q ih | inr q ↦ rw q refl ])

module _ (h : Heap) (total : ℕ) (within : total ≤ limit h) (small : total < word_size) where
  next_loop-round :
      (k offset : ℕ) (found : Bool)
      → match_bytes eob (suc offset) h ≡ done found h
      → offset + eob_size < total
      → next_loop (suc k) total offset false h ≡ next_loop k total (suc offset) found h
  unfolding next_loop
  next_loop-round k offset found run room =
      let more : ltb offset (sub_word total eob_size) ≡ true = ground arith in
      let next : offset + 1 ≡ suc offset = omega arith in rw (more, next, run) refl

  next_loop-found : (k offset : ℕ) → next_loop (suc k) total offset true h ≡ done (offset + 1) h
  unfolding next_loop
  next_loop-found k offset = elim (Bool-cases (ltb offset (sub_word total eob_size))) [
    | inl q ↦ rw q refl
    | inr q ↦ rw q refl
  ]

  next_loop-clean :
      (k offset : ℕ) (p : List ℕ)
      → Holds h.byte (suc offset) (p ++ eob)
      → is_clean p ≡ true
      → offset + length p + block_overhead ≤ total
      → length p + 1 < k
      → next_loop k total offset false h ≡ done (offset + length p + 2) h
  next_loop-clean zero offset p hs clean room fuel = absurd (omega arith)
  next_loop-clean (suc zero) offset p hs clean room fuel = absurd (omega arith)
  next_loop-clean (suc (suc k)) offset [] hs clean room fuel =
      let run : match_bytes eob (suc offset) h ≡ done true h =
        match_bytes-starts_with h eob eob (suc offset) hs (omega arith) (omega arith) in
      let e : suc offset + 1 ≡ offset + 0 + 2 = omega arith in
      next_loop-round (suc k) offset true run (omega arith)
      ∙ next_loop-found k (suc offset)
      ∙ ap (λ n. done n h) e
  next_loop-clean (suc (suc k)) offset (b ∷ p) hs clean room fuel =
      let (apart, rest) = is_clean-cons b p clean in
      let run : match_bytes eob (suc offset) h ≡ done false h =
        match_bytes-starts_with h eob ((b ∷ p) ++ eob) (suc offset) hs
          (omega (arith, length-append p eob)) (omega (arith, length-append p eob))
        ∙ ap (λ v. done v h) apart in
      let e : suc offset + length p + 2 ≡ offset + suc (length p) + 2 = omega arith in
      next_loop-round (suc k) offset false run (omega arith)
      ∙ next_loop-clean (suc k) (suc offset) p hs.1 rest (omega arith) (omega arith)
      ∙ ap (λ n. done n h) e

-- In front of a block that lies in the heap, get_next_block finds the end of its data.
pub get_next_block-IsAt :
    (h : Heap) (o : ℕ) (c : Chunk)
    → IsAt h.byte o c
    → o + extent c ≤ h.heap_size
    → h.heap_size < word_size
    → get_next_block (get_block o) h.heap_size h ≡ done (get_block (o + extent c)) h
unfolding get_next_block
get_next_block-IsAt h o c at room small =
    let e : o + length c.payload + 2 + eob_size - 1 ≡ o + extent c = omega arith in
    rw
      (
        next_loop-clean h h.heap_size (limit_le h) small (h.heap_size + 2) o c.payload at.filled
            at.clean (omega arith) (omega arith),
        e,
      )
      refl

module _ (h : Heap) where
  size_loop-round :
      (k start size : ℕ) (found : Bool)
      → match_bytes eob (start + size) h ≡ done found h
      → size_loop (suc k) start size h
        ≡ (if found then done (size + 1) h else size_loop k start (size + 1) h)
  unfolding size_loop
  size_loop-round k start size true run = rw run refl
  size_loop-round k start size false run = rw run refl

  size_loop-clean :
      (k start size : ℕ) (p : List ℕ)
      → Holds h.byte (start + size) (p ++ eob)
      → is_clean p ≡ true
      → start + size + length p + eob_size ≤ limit h
      → length p < k
      → size_loop k start size h ≡ done (size + length p + 1) h
  size_loop-clean zero start size p hs clean room fuel = absurd (omega arith)
  size_loop-clean (suc k) start size [] hs clean room fuel =
      let run : match_bytes eob (start + size) h ≡ done true h =
        match_bytes-starts_with h eob eob (start + size) hs (omega arith) (omega arith) in
      let e : size + 1 ≡ size + 0 + 1 = omega arith in
      size_loop-round k start size true run ∙ ap (λ n. done n h) e
  size_loop-clean (suc k) start size (b ∷ p) hs clean room fuel =
      let (apart, rest) = is_clean-cons b p clean in
      let run : match_bytes eob (start + size) h ≡ done false h =
        match_bytes-starts_with h eob ((b ∷ p) ++ eob) (start + size) hs
          (omega (arith, length-append p eob)) (omega (arith, length-append p eob))
        ∙ ap (λ v. done v h) apart in
      let next : suc (start + size) ≡ start + (size + 1) = omega arith in
      let e : size + 1 + length p + 1 ≡ size + suc (length p) + 1 = omega arith in
      size_loop-round k start size false run
      ∙ size_loop-clean k start (size + 1) p (subst (λ a. Holds h.byte a (p ++ eob)) next hs.1) rest
          (omega arith) (omega arith)
      ∙ ap (λ n. done n h) e

-- calculate_block_size is the length of the data in front of the next EOB and one more.
pub calculate_block_size-Holds :
    (h : Heap) (o : ℕ) (p : List ℕ)
    → Holds h.byte (suc o) (p ++ eob)
    → is_clean p ≡ true
    → o + length p + block_overhead ≤ limit h
    → calculate_block_size (get_block o) h ≡ done (length p + 1) h
unfolding calculate_block_size
calculate_block_size-Holds h o p filled clean room =
    let e : suc o ≡ o + 1 + 0 = omega arith in
    let len : 0 + length p + 1 ≡ length p + 1 = omega arith in
    size_loop-clean h (suc (limit h)) (o + 1) 0 p (subst (λ a. Holds h.byte a (p ++ eob)) e filled)
      clean (omega arith) (omega arith)
    ∙ ap (λ n. done n h) len

pub calculate_block_size-IsAt :
    (h : Heap) (o : ℕ) (c : Chunk)
    → IsAt h.byte o c
    → o + extent c ≤ limit h
    → calculate_block_size (get_block o) h ≡ done (length c.payload + 1) h
calculate_block_size-IsAt h o c at room =
    calculate_block_size-Holds h o c.payload at.filled at.clean (omega arith)

-- The block's mark is free exactly where the block is.
pub is_block_free-IsAt :
    (h : Heap) (o : ℕ) (c : Chunk)
    → IsAt h.byte o c
    → o < limit h
    → is_block_free (get_block o) h ≡ done (not c.is_used) h
unfolding is_block_free read
is_block_free-IsAt h o c at room =
    let e : o + 1 - 1 ≡ o = omega arith in
    rw (e, lt→ltb o (limit h) room, at.marked)
      (elim (Bool-cases c.is_used) [ inl q ↦ rw q refl | inr q ↦ rw q refl ])
