-- ===== src/Lab6/Split.antt =====
-- `_zox_malloc` where a free block has the room.
use mathlib.Core.Path.{subst}
use spovm4_labs.Base.{
  length, take, lt→ltb, le→leb, ℕ, suc, ◌+◌, ◌-◌, ◌≤◌, ◌<◌, ◌≡◌, refl, sym, ap, ◌∙◌, inl, inr, true,
  false, List, ◌∷◌, ◌++◌, arith,
}
use spovm4_labs.Base.Cuts.{length-take, length-drop}
use spovm4_labs.Lab6.Allocator.{fit_loop, malloc_mapped, zox_malloc}
use spovm4_labs.Lab6.Append.{mark_block_used-done}
use spovm4_labs.Lab6.Block.{
  eob, eob_size, block_overhead, free_mark, used_mark, get_block, split_block,
}
use spovm4_labs.Lab6.Fit.{
  fit_loop-first_fit, none_fit, length-extents, last_offset, first_fit-none_fit,
}
use spovm4_labs.Lab6.Layout.{
  IsAt, Chunk, is_clean, extent, Lie, extents, Holds-back, Lie-end, Lie-agree, Lie-join,
}
use spovm4_labs.Lab6.Malloc.{Represents, Represents-split, zox_malloc-mapped}
use spovm4_labs.Lab6.Memory.{Heap, limit, write_byte, read, Host}
use spovm4_labs.Lab6.Parts.{
  parted, split, split-kept, used_part, free_part, used_part-IsAt, free_part-IsAt,
}
use spovm4_labs.Lab6.Search.{limit_le}
use spovm4_labs.Lab6.Writes.{put_list, write-done, write_list-done, write_byte-ne, write_byte_self}
use spovm4_labs.Stateful.{done}

-- split_block writes EOB and, behind it, the byte in front of the block's data.
pub split_block-done :
    (h : Heap) (o size m : ℕ)
    → h.byte o ≡ m
    → o + size + block_overhead < limit h
    → split_block (get_block o) size h
      ≡ done tt (record h {
        byte = write_byte (put_list h.byte (o + 1 + size) eob) (o + size + eob_size + 1) m;
      })
unfolding split_block read
split_block-done h o size m marking room =
    let e : o + 1 - 1 ≡ o = omega arith in
    let h₁ : Heap = record h { byte = put_list h.byte (o + 1 + size) eob } in
    rw
      (
        e,
        lt→ltb o (limit h) (omega arith),
        marking,
        write_list-done h (o + 1 + size) eob (omega arith),
        write-done h₁ (o + size + eob_size + 1) m (omega arith),
      )
      refl

module _ (host : Host) (behind : List ℕ) (h : Heap) (size : ℕ) (cs ds : List Chunk) (c : Chunk)
    (r : Represents h (cs ++ c ∷ ds)) (unfit : none_fit size cs ≡ true) (free : c.is_used ≡ false)
    (room : size + eob_size ≤ length c.payload) where
  at : IsAt h.byte (extents cs) c
  at = (Represents-split h cs ds c r).1

  within : extents cs + extent c ≤ h.heap_size
  within =
      let back = (Represents-split h cs ds c r).2 in
      omega (arith, Lie-end h.byte (extents cs + extent c) h.heap_size ds back)

  fit_loop-fits :
      (last : ℕ) × (fit_loop (h.heap_size + 2) size (get_block 0) (get_block 0) h
        ≡ done (get_block (extents cs), get_block last) h)
  fit_loop-fits =
      let e : 0 + extents cs ≡ extents cs = omega arith in
      let len = length-extents (cs ++ c ∷ ds) in
      let end = Lie-end h.byte 0 h.heap_size (cs ++ c ∷ ds) r.laid in
      (
        last_offset 0 0 cs,
        fit_loop-first_fit h r.small size (omega (arith, within, r.small)) (h.heap_size + 2) 0 0
              (cs ++ c ∷ ds) r.laid (omega arith)
            ∙ rw
                (
                  first_fit-none_fit size 0 0 cs (c ∷ ds) unfit,
                  free,
                  le→leb (size + block_overhead) (length c.payload + 1) (omega arith),
                  e,
                )
                refl,
      )

  after : Heap
  after = record h { byte = split h.byte (extents cs) size }

  malloc_mapped-split : malloc_mapped host behind size h ≡ done (extents cs + 1) after
  unfolding malloc_mapped after
  malloc_mapped-split =
      let o : ℕ = extents cs in
      let h₁ : Heap = record h { byte = parted h.byte o size } in
      let marking : h.byte o ≡ free_mark = at.marked ∙ rw free refl in
      let limits : o + size + block_overhead < limit h = omega (arith, within, limit_le h) in
      let (last, run) = fit_loop-fits in
      rw
        (
          run,
          lt→ltb o h.heap_size (omega (arith, within)),
          split_block-done h o size free_mark marking limits,
          mark_block_used-done h₁ o (get_block o) (omega arith) (omega (arith, limits)),
        )
        refl

  -- Where the first block that fits has data for just four bytes more than are asked for, malloc
  -- writes the mark of a free block on the first byte of that block's EOB.
  pub zox_malloc-exact :
      length c.payload ≡ size + eob_size
      → (h' : Heap) × (zox_malloc host behind size h ≡ done (extents cs + 1) h')
        × (h.byte (extents cs + 1 + length c.payload) ≡ 0x1B)
        × (h'.byte (extents cs + 1 + length c.payload) ≡ free_mark)
  unfolding after
  zox_malloc-exact exact =
      let o : ℕ = extents cs in
      let e : o + 1 + length c.payload ≡ o + size + eob_size + 1 = omega arith in
      (
        after,
        zox_malloc-mapped host behind h size r.mapped ∙ malloc_mapped-split,
        (Holds-back h.byte (suc o) (o + 1 + length c.payload) c.payload eob (omega arith)
            at.filled).0,
        write_byte-ne (parted h.byte o size) o used_mark (o + 1 + length c.payload)
              (λ z. omega arith)
            ∙ ap (parted h.byte o size) e
            ∙ write_byte_self (put_list h.byte (o + 1 + size) eob) (o + size + eob_size + 1)
                free_mark,
      )

  -- In a mapped heap of blocks where the first one that fits has data for five bytes more than are
  -- asked for, and the bytes that are handed out with EOB behind them hold no earlier EOB, malloc
  -- returns this block's data and splits the block: a used one of the size that was asked for, and
  -- a free one. All others stay.
  pub zox_malloc-split :
      size + block_overhead ≤ length c.payload
      → is_clean (take size c.payload) ≡ true
      → (h' : Heap) × (zox_malloc host behind size h ≡ done (extents cs + 1) h')
        × Represents h' (cs ++ used_part size c ∷ free_part size c ∷ ds)
  unfolding after
  zox_malloc-split more clean =
      let o : ℕ = extents cs in
      let (front, _, back) = Represents-split h cs ds c r in
      let end = Lie-end h.byte (o + extent c) h.heap_size ds back in
      let len = length-take size c.payload (omega arith) in
      let len' = length-drop (size + block_overhead) c.payload in
      let o' : o + extent (used_part size c) ≡ o + size + block_overhead = omega arith in
      let o'' : o + extent c ≡ o + extent (used_part size c) + extent (free_part size c) =
        omega arith in
      (
        after,
        zox_malloc-mapped host behind h size r.mapped ∙ malloc_mapped-split,
        record {
          mapped = r.mapped;
          laid =
              Lie-join after.byte 0 o h.heap_size cs (used_part size c ∷ free_part size c ∷ ds)
                (Lie-agree h.byte after.byte 0 o cs
                  (λ x b u. split-kept h.byte o size x (λ e. omega arith) (inl (omega arith)))
                  front)
                (
                  used_part-IsAt h.byte o size c at more clean,
                  (
                    subst (λ a. IsAt after.byte a (free_part size c)) (sym o')
                        (free_part-IsAt h.byte o size c at more),
                    subst (λ a. Lie after.byte a ds h.heap_size) o''
                        (Lie-agree h.byte after.byte (o + extent c) h.heap_size ds
                          (λ x b u.
                            split-kept h.byte o size x (λ e. omega arith) (inr (omega arith)))
                          back),
                  ),
                );
          small = r.small;
        },
      )
