-- ===== src/Lab6/Malloc.antt =====
-- `_zox_malloc` on a new heap and on a heap where no block fits.
use mathlib.Core.Path.{subst}
use spovm4_labs.Base.{
  length, le→ltb, word_size, add_word, ℕ, ◌+◌, ◌%◌, ◌≤◌, ◌<◌, ◌≡◌, refl, ◌∙◌, true, false, List, [],
  ◌∷◌, ◌++◌, append_assoc, arith,
}
use spovm4_labs.Lab6.Allocator.{fit_loop, malloc_mapped, zox_malloc}
use spovm4_labs.Lab6.Append.{
  marked_up, new_chunk, markup_block-done, markup_block-fault, mark_block_used-done, new_chunk-IsAt,
  new_chunk-below, page_end, resized, update_heap-resized, resized-out, resized-kept,
}
use spovm4_labs.Lab6.Block.{block_overhead, used_mark, get_block}
use spovm4_labs.Lab6.Fit.{fit_loop-first_fit, none_fit, length-extents, first_fit-none_fit}
use spovm4_labs.Lab6.Layout.{
  IsAt, Chunk, extent, Lie, extents, Lie-end, Lie-agree, Lie-join, Lie-split,
}
use spovm4_labs.Lab6.Memory.{Heap, page_size, write_byte, Host}
use spovm4_labs.Lab6.Search.{limit_le, is_block_free-IsAt}
use spovm4_labs.Lab6.Writes.{length-zeros}
use spovm4_labs.Stateful.{done, fault}

-- A heap whose bytes are the blocks `cs` and nothing else.
pub record Represents (h : Heap) (cs : List Chunk) : Type 0 where
  pub mapped : h.is_mapped ≡ true
  pub laid : Lie h.byte 0 cs h.heap_size
  pub small : h.heap_size < word_size

-- what lies in front of a block, the block, and what lies behind it
pub Represents-split :
    (h : Heap) (cs ds : List Chunk) (c : Chunk)
    → Represents h (cs ++ c ∷ ds)
    → Lie h.byte 0 cs (extents cs)
      × IsAt h.byte (extents cs) c
      × Lie h.byte (extents cs + extent c) ds h.heap_size
Represents-split h cs ds c r =
    let e : 0 + extents cs ≡ extents cs = omega arith in
    let (front, back) = Lie-split h.byte 0 h.heap_size cs (c ∷ ds) r.laid in
    let (at, rest) = subst (λ o. Lie h.byte o (c ∷ ds) h.heap_size) e back in
    (subst (Lie h.byte 0 cs) e front, at, rest)

pub zox_malloc-mapped :
    (host : Host) (behind : List ℕ) (h : Heap) (size : ℕ)
    → h.is_mapped ≡ true
    → zox_malloc host behind size h ≡ malloc_mapped host behind size h
unfolding zox_malloc
zox_malloc-mapped host behind h size e = rw e refl

module _ (host : Host) (behind : List ℕ) (opens : host.opens ≡ true)
    (truncates : host.truncates ≡ true) (h : Heap) (size : ℕ) where
  -- On a heap that is not mapped yet, where the file can be opened and cut and what strcpy copies
  -- behind EOB ends in the last page, malloc returns the data of the first and only block, which is
  -- used and all zeros.
  pub zox_malloc-first :
      h.is_mapped ≡ false
      → h.heap_size ≡ 0
      → size + block_overhead < word_size
      → size + length behind + 6 ≤ page_end (size + block_overhead)
      → (h' : Heap) × (zox_malloc host behind size h ≡ done 1 h')
        × Represents h' (new_chunk size ∷ [])
  unfolding zox_malloc
  zox_malloc-first new empty no_wrap room =
      let n : ℕ = size + block_overhead in
      let wrap : add_word size block_overhead ≡ n = omega arith in
      let h₁ = resized h n in
      let h₂ : Heap = record h₁ { byte = marked_up behind h₁.byte 0 size } in
      let h₃ : Heap = record h₂ { byte = write_byte h₂.byte 0 used_mark } in
      let at = new_chunk-IsAt behind h₁.byte 0 size (λ x l. resized-out h n x (omega arith)) in
      (
        h₃,
        simp new (
            rw
              (
                wrap,
                update_heap-resized host h n opens truncates,
                markup_block-done behind h₁ 0 size (omega arith),
                mark_block_used-done h₂ 0 (record { offset = 0; data_ptr = 1 }) refl (omega arith),
              )
              refl),
        record { mapped = refl; laid = (at, omega (arith, length-zeros size)); small = no_wrap },
      )

  -- On a heap that is not mapped yet, where the file can be opened and cut, malloc faults for every
  -- size that makes the first block end with a page.
  pub zox_malloc-first_fault :
      h.is_mapped ≡ false
      → size + block_overhead < word_size
      → (size + block_overhead) % page_size ≡ 0
      → zox_malloc host behind size h ≡ fault
  unfolding zox_malloc
  zox_malloc-first_fault new no_wrap full =
      let n : ℕ = size + block_overhead in
      let wrap : add_word size block_overhead ≡ n = omega arith in
      simp new (
        rw
          (
            wrap,
            update_heap-resized host h n opens truncates,
            markup_block-fault behind (resized h n) 0 size (omega arith) (omega arith),
          )
          refl)

  module _ (cs : List Chunk) (d : Chunk) (r : Represents h (cs ++ d ∷ []))
      (unfit : none_fit size cs ≡ true) (used : d.is_used ≡ true)
      (no_wrap : h.heap_size + size + block_overhead < word_size) where
    last : IsAt h.byte (extents cs) d
    last = (Represents-split h cs [] d r).1

    below : extents cs < h.heap_size
    below = let back = (Represents-split h cs [] d r).2 in omega (arith, back)

    fit_loop-end_of_heap :
        fit_loop (h.heap_size + 2) size (get_block 0) (get_block 0) h
        ≡ done (get_block h.heap_size, get_block (extents cs)) h
    fit_loop-end_of_heap =
        let n : 0 + extents cs + extent d ≡ h.heap_size =
          let back = (Represents-split h cs [] d r).2 in omega (arith, back) in
        let e : 0 + extents cs ≡ extents cs = omega arith in
        let len = length-extents (cs ++ d ∷ []) in
        let end = Lie-end h.byte 0 h.heap_size (cs ++ d ∷ []) r.laid in
        fit_loop-first_fit h r.small size (omega arith) (h.heap_size + 2) 0 0 (cs ++ d ∷ []) r.laid
          (omega arith)
        ∙ rw (first_fit-none_fit size 0 0 cs (d ∷ []) unfit, used, n, e) refl

    -- In a mapped heap of blocks whose last one is used and none of which fits, where the file can
    -- be opened and cut, where what strcpy copies behind EOB ends in the last page and no number
    -- wraps, malloc returns the data of a new used block of zeros behind the others, which it
    -- keeps.
    pub zox_malloc-append :
        h.heap_size + size + length behind + 6 ≤ page_end (h.heap_size + size + block_overhead)
        → (h' : Heap) × (zox_malloc host behind size h ≡ done (h.heap_size + 1) h')
          × Represents h' (cs ++ d ∷ new_chunk size ∷ [])
    unfolding zox_malloc malloc_mapped
    zox_malloc-append room =
        let o : ℕ = h.heap_size in
        let n : ℕ = o + size + block_overhead in
        let wrap : add_word o (add_word size block_overhead) ≡ n = omega arith in
        let h₁ = resized h n in
        let h₂ : Heap = record h₁ { byte = marked_up behind h₁.byte o size } in
        let h₃ : Heap = record h₂ { byte = write_byte h₂.byte o used_mark } in
        let at = new_chunk-IsAt behind h₁.byte o size (λ x l. resized-out h n x (omega arith)) in
        (
          h₃,
          simp (r.mapped) (
              rw
                (
                  fit_loop-end_of_heap,
                  le→ltb o o (omega arith),
                  is_block_free-IsAt h (extents cs) d last (omega (arith, limit_le h, below)),
                  used,
                  wrap,
                  update_heap-resized host h n opens truncates,
                  markup_block-done behind h₁ o size (omega arith),
                  mark_block_used-done h₂ o (get_block o) (omega arith) (omega arith),
                )
                refl),
          record {
            mapped = refl;
            laid =
                subst (λ l. Lie h₃.byte 0 l n) (append_assoc cs (d ∷ []) (new_chunk size ∷ []))
                  (Lie-join h₃.byte 0 o n (cs ++ d ∷ []) (new_chunk size ∷ [])
                    (Lie-agree h.byte h₃.byte 0 o (cs ++ d ∷ [])
                      (λ x b u.
                        new_chunk-below behind h₁.byte o size x u
                        ∙ resized-kept h n x u (omega arith))
                      r.laid)
                    (at, omega (arith, length-zeros size)));
            small = omega arith;
          },
        )
