-- ===== src/Lab6/Free.antt =====
-- The steps of `_zox_free` on a heap of blocks.
use mathlib.Core.Path.{subst}
use spovm4_labs.Base.{
  length-append, if◌then◌else◌, lt→ltb, le→ltb, Bool-cases, ℕ, suc, ◌+◌, ◌-◌, ◌≤◌, ◌≡◌, refl, sym,
  ◌≢◌, inl, inr, Bool, true, false, List, [], ◌∷◌, ◌++◌, arith,
}
use spovm4_labs.Lab6.Allocator.{clear_eob_before, join_next}
use spovm4_labs.Lab6.Block.{eob, eob_size, free_mark, get_block, mark_block_free}
use spovm4_labs.Lab6.Join.{join, Represents-replace, join-IsAt}
use spovm4_labs.Lab6.Layout.{IsAt, Chunk, mark, extent, extents, Holds-agree, Lie-end}
use spovm4_labs.Lab6.Malloc.{Represents, Represents-split}
use spovm4_labs.Lab6.Memory.{Heap, write_byte}
use spovm4_labs.Lab6.Search.{limit_le, get_next_block-IsAt, is_block_free-IsAt}
use spovm4_labs.Lab6.Writes.{
  put_list, write-done, write_list-done, write_byte-ne, write_byte_self, put_list-out,
}
use spovm4_labs.Stateful.{done}

abbrev pub freed : Chunk → Chunk
freed c = record c { is_used = false }

-- a block with the one behind it, if that one is free
abbrev pub with_next : Chunk → List Chunk → List Chunk
with_next c [] = c ∷ []
with_next c (d ∷ ds) = if d.is_used then c ∷ d ∷ ds else join c d ∷ ds

-- A block that becomes free, between the one before and those behind.
abbrev pub release : Chunk → Chunk → List Chunk → List Chunk
release b c ds = if b.is_used then b ∷ with_next (freed c) ds else with_next (join b (freed c)) ds

module _ (h : Heap) (xs ds : List Chunk) (c : Chunk) (r : Represents h (xs ++ c ∷ ds)) where
  pub block_le : extents xs + extent c ≤ h.heap_size
  block_le =
      let back = (Represents-split h xs ds c r).2 in
      omega (arith, Lie-end h.byte (extents xs + extent c) h.heap_size ds back)

  -- Marked as free, a block is free.
  pub mark_block_free-Represents :
      (h' : Heap) × (mark_block_free (get_block (extents xs)) h ≡ done tt h')
      × Represents h' (xs ++ freed c ∷ ds)
  unfolding mark_block_free
  mark_block_free-Represents =
      let o : ℕ = extents xs in
      let at = (Represents-split h xs ds c r).1 in
      let h' : Heap = record h { byte = write_byte h.byte o free_mark } in
      let e : o + 1 - 1 ≡ o = omega arith in
      let same = λ (x : ℕ) (ne : x ≢ o). write_byte-ne h.byte o free_mark x ne in
      (
        h',
        rw e (write-done h o free_mark (omega (arith, block_le, limit_le h))),
        Represents-replace h h' xs (c ∷ []) (freed c ∷ []) ds o (o + extent c) r refl (omega arith)
            refl refl
            (
              record {
                marked = write_byte_self h.byte o free_mark;
                filled =
                    Holds-agree h.byte h'.byte (suc o) (c.payload ++ eob)
                      (λ x l u. same x (λ z. omega arith)) at.filled;
                clean = at.clean;
              },
              refl,
            )
            (λ x z. same x (λ w. omega arith)),
      )

module _ (h : Heap) (xs ds : List Chunk) (b c : Chunk) (r : Represents h (xs ++ b ∷ c ∷ ds)) where
  -- Taking EOB away in front of a block joins it with the one before, and leaves the bytes from it on.
  pub clear_eob_before-Represents :
      (h' : Heap) × (clear_eob_before (get_block (extents xs + extent b)) h ≡ done tt h')
      × Represents h' (xs ++ join b c ∷ ds)
      × ((x : ℕ) → extents xs + extent b ≤ x → h'.byte x ≡ h.byte x)
  unfolding clear_eob_before
  clear_eob_before-Represents =
      let o : ℕ = extents xs in
      let o' : ℕ = o + extent b in
      let m : ℕ = o' + 1 - 1 - eob_size in
      let (front, at, (at', back)) = Represents-split h xs (c ∷ ds) b r in
      let four : List ℕ = 0 ∷ 0 ∷ 0 ∷ 0 ∷ [] in
      let h' : Heap = record h { byte = put_list h.byte m four } in
      let len = length-append b.payload (0 ∷ 0 ∷ 0 ∷ 0 ∷ mark c.is_used ∷ c.payload) in
      (
        h',
        rw (le→ltb (o' + 1 - 1) eob_size (omega arith))
            (write_list-done h m four (omega (arith, block_le h xs (c ∷ ds) b r, limit_le h))),
        Represents-replace h h' xs (b ∷ c ∷ []) (join b c ∷ []) ds o (o + extent b + extent c) r
            refl (omega arith) refl refl
            (join-IsAt h.byte o m b c at at' (omega arith), omega (arith, len))
            (λ x z. put_list-out h.byte m four x (omega arith)),
        λ x l. put_list-out h.byte m four x (inr (omega arith)),
      )

pub if_true : {u : Bool} (x y : List Chunk) → u ≡ true → (if u then x else y) ≡ x
if_true x y e = rw e refl

pub if_false : {u : Bool} (x y : List Chunk) → u ≡ false → (if u then x else y) ≡ y
if_false x y e = rw e refl

pub chosen :
    (h : Heap) (xs : List Chunk) {ys zs : List Chunk}
    → ys ≡ zs
    → Represents h (xs ++ ys)
    → Represents h (xs ++ zs)
chosen h xs e r = subst (λ l. Represents h (xs ++ l)) e r

-- The next block is joined if it is free, also where only the last part of `x` is a block by itself.
pub join_next-Represents :
    (h : Heap) (xs ds : List Chunk) (x y : Chunk) (o : ℕ)
    → Represents h (xs ++ x ∷ ds)
    → IsAt h.byte o y
    → o + extent y ≡ extents xs + extent x
    → (h' : Heap) × (join_next (get_block o) h ≡ done tt h') × Represents h' (xs ++ with_next x ds)
unfolding join_next
join_next-Represents h xs [] x y o r at e =
    let end = (Represents-split h xs [] x r).2 in
    (
      h,
      rw
          (
            get_next_block-IsAt h o y at (omega (arith, end)) r.small,
            le→ltb (o + extent y) h.heap_size (omega (arith, end)),
          )
          refl,
      r,
    )
join_next-Represents h xs (d ∷ ds) x y o r at e =
    let (_, _, (next, rest)) = Represents-split h xs (d ∷ ds) x r in
    let end = Lie-end h.byte (extents xs + extent x + extent d) h.heap_size ds rest in
    let get = get_next_block-IsAt h o y at (omega (arith, end)) r.small in
    let inside = lt→ltb (extents xs + extent x) h.heap_size (omega (arith, end)) in
    let asked =
      is_block_free-IsAt h (extents xs + extent x) d next (omega (arith, end, limit_le h)) in
    let (h', clear, r', _) = clear_eob_before-Represents h xs ds x d r in
    elim (Bool-cases d.is_used) [
      | inl q ↦ (h, rw (get, e, inside, asked, q) refl, chosen h xs (sym (if_true _ _ q)) r)
      | inr q ↦ (h', rw (get, e, inside, asked, q) clear, chosen h' xs (sym (if_false _ _ q)) r')
    ]
