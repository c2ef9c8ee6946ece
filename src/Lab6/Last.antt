-- ===== src/Lab6/Last.antt =====
-- `_zox_malloc` where no block fits and the last one is free: the heap is cut or extended.
use spovm4_labs.Base.{
  length, le→ltb, leb, Bool-cases, word_size, add_word, ℕ, ◌+◌, ◌≤◌, ◌<◌, ◌≡◌, refl, ◌∙◌, inl, inr,
  true, false, not, List, [], ◌∷◌, ◌++◌, arith,
}
use spovm4_labs.Lab6.Allocator.{fit_loop, malloc_mapped, zox_malloc}
use spovm4_labs.Lab6.Append.{resized, update_heap-resized}
use spovm4_labs.Lab6.Block.{block_overhead, get_block, resize_block, mark_block_used}
use spovm4_labs.Lab6.Fit.{is_fit, fit_loop-first_fit, none_fit, length-extents, first_fit-none_fit}
use spovm4_labs.Lab6.Layout.{IsAt, Chunk, extent, extents, Lie-end}
use spovm4_labs.Lab6.Malloc.{Represents, Represents-split, zox_malloc-mapped}
use spovm4_labs.Lab6.Memory.{Heap, Host}
use spovm4_labs.Lab6.Search.{limit_le, is_block_free-IsAt}
use spovm4_labs.Stateful.{◌>>◌, done, pure}

-- a free block whose data is less than four bytes longer than what is asked for
is_fit-short : (size : ℕ) (d : Chunk) → length d.payload ≤ size + 3 → is_fit size d ≡ false
is_fit-short size d short =
    let e : leb (size + block_overhead) (length d.payload + 1) ≡ false = ground arith in
    rw e (elim (Bool-cases (not d.is_used)) [ inl q ↦ rw q refl | inr q ↦ rw q refl ])

module _ (host : Host) (behind : List ℕ) (opens : host.opens ≡ true)
    (truncates : host.truncates ≡ true) (h : Heap) (size : ℕ) (cs : List Chunk) (d : Chunk)
    (r : Represents h (cs ++ d ∷ [])) (unfit : none_fit size cs ≡ true) (free : d.is_used ≡ false)
    (short : length d.payload ≤ size + 3)
    (no_wrap : h.heap_size + size + block_overhead < word_size) where
  last-IsAt : IsAt h.byte (extents cs) d
  last-IsAt = (Represents-split h cs [] d r).1

  last_end : extents cs + extent d ≡ h.heap_size
  last_end = (Represents-split h cs [] d r).2

  fit_loop-last :
      fit_loop (h.heap_size + 2) size (get_block 0) (get_block 0) h
      ≡ done (get_block h.heap_size, get_block (extents cs)) h
  fit_loop-last =
      let n : 0 + extents cs + extent d ≡ h.heap_size = omega (arith, last_end) in
      let e : 0 + extents cs ≡ extents cs = omega arith in
      let len = length-extents (cs ++ d ∷ []) in
      let end = Lie-end h.byte 0 h.heap_size (cs ++ d ∷ []) r.laid in
      fit_loop-first_fit h r.small size (omega arith) (h.heap_size + 2) 0 0 (cs ++ d ∷ []) r.laid
        (omega arith)
      ∙ rw (first_fit-none_fit size 0 0 cs (d ∷ []) unfit, is_fit-short size d short, n, e) refl

  -- The last block is what malloc resizes and hands out, in a heap of another size.
  pub zox_malloc-resizes :
      zox_malloc host behind size h
      ≡ (resize_block behind (get_block (extents cs)) size
            >> (mark_block_used (get_block (extents cs)) >> pure (extents cs + 1)))
          (resized h (extents cs + size + block_overhead))
  unfolding malloc_mapped
  zox_malloc-resizes =
      let o : ℕ = extents cs in
      let wrap : add_word o (add_word size block_overhead) ≡ o + size + block_overhead =
        omega (arith, last_end, no_wrap) in
      zox_malloc-mapped host behind h size r.mapped
      ∙ rw
          (
            fit_loop-last,
            le→ltb h.heap_size h.heap_size (omega arith),
            is_block_free-IsAt h o d last-IsAt (omega (arith, limit_le h, last_end)),
            free,
            wrap,
            update_heap-resized host h (o + size + block_overhead) opens truncates,
          )
          refl
