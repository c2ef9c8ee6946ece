-- ===== src/Lab6/Fit.antt =====
-- The loop of `_zox_malloc` against a search in a list of blocks.
use spovm4_labs.Base.{
  length, leb, if◌then◌else◌, lt→ltb, le→ltb, Bool-cases, word_size, add_word, ℕ, zero, suc, ◌+◌,
  ◌≤◌, ◌<◌, ◌≡◌, refl, ap, ◌∙◌, inl, inr, Bool, true, not, ◌&&◌, List, [], ◌∷◌, ◌++◌, arith,
}
use spovm4_labs.Lab6.Allocator.{fits_in, fit_loop}
use spovm4_labs.Lab6.Block.{block_overhead, get_block}
use spovm4_labs.Lab6.Layout.{IsAt, Chunk, extent, Lie, extents, Lie-end, neither_and}
use spovm4_labs.Lab6.Memory.{Heap}
use spovm4_labs.Lab6.Search.{
  limit_le, get_next_block-IsAt, calculate_block_size-IsAt, is_block_free-IsAt,
}
use spovm4_labs.Stateful.{done}

-- A free block whose data and EOB have the room for new data, its EOB and one mark.
abbrev pub is_fit : ℕ → Chunk → Bool
is_fit size c = not c.is_used && leb (size + block_overhead) (length c.payload + 1)

-- the offsets of the first block that fits, or of the end, and of the block before
abbrev pub first_fit : ℕ → ℕ → ℕ → List Chunk → ℕ × ℕ
first_fit size o last [] = (o, last)
first_fit size o last (c ∷ cs) =
    if is_fit size c then (o, last) else first_fit size (o + extent c) o cs

module _ (h : Heap) (small : h.heap_size < word_size) (size : ℕ)
    (no_wrap : size + block_overhead < word_size) where
  fits_in-is_fit :
      (o : ℕ) (c : Chunk)
      → IsAt h.byte o c
      → o + extent c ≤ h.heap_size
      → fits_in size (get_block o) h ≡ done (is_fit size c) h
  unfolding fits_in
  fits_in-is_fit o c at room =
      let wrap : add_word size block_overhead ≡ size + block_overhead = omega arith in
      let run = calculate_block_size-IsAt h o c at (omega (arith, limit_le h)) in
      rw (is_block_free-IsAt h o c at (omega (arith, limit_le h)))
        (elim (Bool-cases (not c.is_used)) [ inl q ↦ rw (q, run, wrap) refl | inr q ↦ rw q refl ])

  fit_loop-round :
      (k o last : ℕ) (c : Chunk)
      → IsAt h.byte o c
      → o + extent c ≤ h.heap_size
      → fit_loop (suc k) size (get_block o) (get_block last) h ≡ (
          if is_fit size c
          then done (get_block o, get_block last) h
          else fit_loop k size (get_block (o + extent c)) (get_block o) h)
  unfolding fit_loop
  fit_loop-round k o last c at room =
      let next = get_next_block-IsAt h o c at room small in
      rw (lt→ltb o h.heap_size (omega arith), fits_in-is_fit o c at room)
        (elim (Bool-cases (is_fit size c)) [ inl q ↦ rw q refl | inr q ↦ rw (q, next) refl ])

  fit_loop-end :
      (k last : ℕ)
      → fit_loop (suc k) size (get_block h.heap_size) (get_block last) h
        ≡ done (get_block h.heap_size, get_block last) h
  unfolding fit_loop
  fit_loop-end k last = rw (le→ltb h.heap_size h.heap_size (omega arith)) refl

  -- On blocks that fill the heap, and with more rounds than blocks, the loop of malloc stops at the
  -- first block that fits, or at the heap's end, where no number wraps.
  pub fit_loop-first_fit :
      (k o last : ℕ) (cs : List Chunk)
      → Lie h.byte o cs h.heap_size
      → length cs < k
      → fit_loop k size (get_block o) (get_block last) h
        ≡ done (get_block (first_fit size o last cs).0, get_block (first_fit size o last cs).1) h
  fit_loop-first_fit zero o last cs lie fuel = absurd (omega arith)
  fit_loop-first_fit (suc k) o last [] lie fuel = rw lie (fit_loop-end k last)
  fit_loop-first_fit (suc k) o last (c ∷ cs) (at, lie) fuel =
      let room : o + extent c ≤ h.heap_size =
        omega (arith, Lie-end h.byte (o + extent c) h.heap_size cs lie) in
      let ih = fit_loop-first_fit k (o + extent c) o cs lie (omega arith) in
      fit_loop-round k o last c at room
      ∙ elim (Bool-cases (is_fit size c)) [ inl q ↦ rw q refl | inr q ↦ rw q ih ]

-- no block among them fits
abbrev pub none_fit : ℕ → List Chunk → Bool
none_fit size [] = true
none_fit size (c ∷ cs) = not (is_fit size c) && none_fit size cs

pub length-extents : (cs : List Chunk) → length cs ≤ extents cs
length-extents [] = omega arith
length-extents (c ∷ cs) = omega (arith, length-extents cs)

abbrev pub last_offset : ℕ → ℕ → List Chunk → ℕ
last_offset o last [] = last
last_offset o last (c ∷ cs) = last_offset (o + extent c) o cs

pub first_fit-none_fit :
    (size o last : ℕ) (cs ds : List Chunk)
    → none_fit size cs ≡ true
    → first_fit size o last (cs ++ ds) ≡ first_fit size (o + extents cs) (last_offset o last cs) ds
first_fit-none_fit size o last [] ds h =
    let e : o ≡ o + 0 = omega arith in ap (λ a. first_fit size a last ds) e
first_fit-none_fit size o last (c ∷ cs) ds h =
    let (no_fit, rest) = neither_and (is_fit size c) (none_fit size cs) h in
    let e : o + extent c + extents cs ≡ o + (extent c + extents cs) = omega arith in
    rw no_fit (
      first_fit-none_fit size (o + extent c) o cs ds rest
      ∙ ap (λ a. first_fit size a (last_offset (o + extent c) o cs) ds) e)
