-- ===== src/Lab6/Realloc.antt =====
-- `_zox_realloc` where the block has the room already.
use mathlib.Core.Path.{subst}
use spovm4_labs.Base.{
  length, le→leb, add_word, ℕ, suc, ◌+◌, ◌≤◌, ◌<◌, ◌≡◌, refl, sym, ap, ◌∙◌, true, List, [], ◌∷◌,
  ◌++◌, arith,
}
use spovm4_labs.Lab6.Allocator.{zox_realloc}
use spovm4_labs.Lab6.Block.{eob, eob_size, block_overhead}
use spovm4_labs.Lab6.Layout.{
  Chunk, is_clean, Holds, extent, extents, Holds-agree, Holds-join, Lie-end, is_clean-cons,
}
use spovm4_labs.Lab6.Malloc.{Represents, Represents-split}
use spovm4_labs.Lab6.Memory.{Heap, limit, write_byte, Host}
use spovm4_labs.Lab6.Search.{limit_le, calculate_block_size-Holds}
use spovm4_labs.Lab6.Split.{split_block-done}
use spovm4_labs.Lab6.Writes.{put_list, write_byte-ne, write_byte_self, Holds-put_list}
use spovm4_labs.Stateful.{done}

-- Where the data of a block has five bytes more than are asked for, realloc of the pointer that
-- malloc returned for it gives the pointer behind, puts EOB a byte too far, and marks the rest by
-- the first data byte.
pub zox_realloc-shifted :
    (host : Host) (behind : List ℕ) (h : Heap) (cs ds : List Chunk) (c : Chunk) (x : ℕ) (p : List ℕ)
    (n : ℕ)
    → Represents h (cs ++ c ∷ ds)
    → c.payload ≡ x ∷ p
    → n + block_overhead ≤ length c.payload
    → (h' : Heap) × (zox_realloc host behind (extents cs + 1) n h ≡ done (extents cs + 2) h')
      × Holds h'.byte (extents cs + 2 + n) (eob ++ x ∷ [])
unfolding zox_realloc
zox_realloc-shifted host behind h cs ds c x p n r e room =
    let o : ℕ = extents cs in
    let (_, at, back) = Represents-split h cs ds c r in
    let end = Lie-end h.byte (o + extent c) h.heap_size ds back in
    let len : length c.payload ≡ suc (length p) = ap length e in
    let filled : Holds h.byte (suc o) ((x ∷ p) ++ eob) =
      subst (λ l. Holds h.byte (suc o) (l ++ eob)) e at.filled in
    let clean = is_clean-cons x p (subst (λ l. is_clean l ≡ true) e at.clean) in
    let next : suc o ≡ o + 1 = omega arith in
    let limits : o + 1 + n + block_overhead < limit h = omega (arith, end, limit_le h) in
    let size =
      calculate_block_size-Holds h (o + 1) p
        (subst (λ a. Holds h.byte (suc a) (p ++ eob)) next filled.1) clean.1
        (omega (arith, end, limit_le h)) in
    let wrap : add_word n block_overhead ≡ n + block_overhead = omega (arith, end, r.small) in
    let h' : Heap = record h {
      byte = write_byte (put_list h.byte (o + 1 + 1 + n) eob) (o + 1 + n + eob_size + 1) x;
    } in
    let two : o + 1 + 1 ≡ o + 2 = omega arith in
    let m : ℕ = o + 1 + 1 + n in
    let place : m ≡ o + 2 + n = omega arith in
    let last : m + eob_size ≡ o + 1 + n + eob_size + 1 = omega arith in
    (
      h',
      rw
          (
            size,
            wrap,
            le→leb (n + block_overhead) (length p + 1) (omega arith),
            split_block-done h (o + 1) n x (ap h.byte (sym next) ∙ filled.0) limits,
            two,
          )
          refl,
      subst (λ a. Holds h'.byte a (eob ++ x ∷ [])) place
          (Holds-join h'.byte m (m + eob_size) eob (x ∷ []) (omega arith)
            (Holds-agree (put_list h.byte m eob) h'.byte m eob
              (λ y l u.
                write_byte-ne (put_list h.byte m eob) (o + 1 + n + eob_size + 1) x y
                  (λ z. omega arith))
              (Holds-put_list h.byte m eob))
            (
              ap h'.byte last
                  ∙ write_byte_self (put_list h.byte m eob) (o + 1 + n + eob_size + 1) x,
              tt,
            )),
    )
