-- ===== src/Lab6/Release.antt =====
-- `_zox_free` gives a block back.
use mathlib.Core.Path.{subst}
use spovm4_labs.Base.{
  length-append, ◌==◌, if◌then◌else◌, lt→ltb, ==_ne, Bool-cases, ℕ, ◌+◌, ◌-◌, ◌≤◌, ◌≡◌, refl, sym,
  ◌∙◌, inl, inr, true, false, not, List, [], ◌∷◌, ◌++◌, append_assoc, arith,
}
use spovm4_labs.Lab6.Allocator.{clear_eob_before, join_previous, join_next, zox_free}
use spovm4_labs.Lab6.Block.{
  eob, free_mark, get_block, get_previous_block, mark_block_free, is_block_free,
}
use spovm4_labs.Lab6.Free.{
  release, freed, with_next, block_le, mark_block_free-Represents, clear_eob_before-Represents,
  if_true, if_false, chosen, join_next-Represents,
}
use spovm4_labs.Lab6.Join.{join}
use spovm4_labs.Lab6.Layout.{IsAt, Chunk, mark, Holds, extent, extents, Lie-end, IsAt-agree}
use spovm4_labs.Lab6.Malloc.{Represents, Represents-split}
use spovm4_labs.Lab6.Memory.{Heap, limit}
use spovm4_labs.Lab6.Previous.{get_previous_block-first, get_previous_block-IsAt}
use spovm4_labs.Lab6.Search.{limit_le, is_block_free-IsAt}
use spovm4_labs.Stateful.{◌>>◌, done}

extents-snoc : (xs : List Chunk) (b : Chunk) → extents (xs ++ b ∷ []) ≡ extents xs + extent b
extents-snoc [] b = omega arith
extents-snoc (x ∷ xs) b = omega (arith, extents-snoc xs b)

-- The block before is found where two blocks or more lie in front.
get_previous_block-Represents :
    (h : Heap) (cs ds : List Chunk) (a b : Chunk)
    → Represents h ((cs ++ a ∷ []) ++ b ∷ ds)
    → get_previous_block (get_block (extents (cs ++ a ∷ []) + extent b)) h
      ≡ done (get_block (extents (cs ++ a ∷ []))) h
get_previous_block-Represents h cs ds a b r =
    let assoc = append_assoc cs (a ∷ []) (b ∷ ds) in
    let (_, at, (at', rest)) = Represents-split h cs (b ∷ ds) a (subst (Represents h) assoc r) in
    let end = Lie-end h.byte (extents cs + extent a + extent b) h.heap_size ds rest in
    let e : extents cs + extent a ≡ extents (cs ++ a ∷ []) = sym (extents-snoc cs a) in
    subst (λ o. get_previous_block (get_block (o + extent b)) h ≡ done (get_block o) h) e
      (get_previous_block-IsAt h (extents cs) a b at at' (omega (arith, end, limit_le h)))

module _ (h : Heap) (cs ds : List Chunk) (a b c : Chunk)
    (r : Represents h ((cs ++ a ∷ []) ++ b ∷ c ∷ ds)) where
  asked : is_block_free (get_block (extents (cs ++ a ∷ []))) h ≡ done (not b.is_used) h
  asked =
      is_block_free-IsAt h (extents (cs ++ a ∷ [])) b
        (Represents-split h (cs ++ a ∷ []) (c ∷ ds) b r).1
        (omega (arith, block_le h (cs ++ a ∷ []) (c ∷ ds) b r, limit_le h))

  -- A used block before is left alone.
  join_previous-used :
      b.is_used ≡ true → join_previous (get_block (extents (cs ++ a ∷ []) + extent b)) h ≡ done tt h
  unfolding join_previous
  join_previous-used used = rw (get_previous_block-Represents h cs (c ∷ ds) a b r, asked, used) refl

  join_previous-free :
      b.is_used ≡ false
      → join_previous (get_block (extents (cs ++ a ∷ []) + extent b)) h
        ≡ clear_eob_before (get_block (extents (cs ++ a ∷ []) + extent b)) h
  unfolding join_previous
  join_previous-free free =
      let o : ℕ = extents (cs ++ a ∷ []) in
      let apart : (o == o + extent b) ≡ false = ==_ne o (o + extent b) (λ e. omega arith) in
      rw (get_previous_block-Represents h cs (c ∷ ds) a b r, asked, free, apart) refl

  -- The two joins of free on a block that is free by now.
  joins-Represents :
      (h' : Heap) × ((join_previous (get_block (extents (cs ++ a ∷ []) + extent b))
            >> join_next (get_block (extents (cs ++ a ∷ []) + extent b)))
          h
        ≡ done tt h')
      × Represents h'
          ((cs ++ a ∷ []) ++ (if b.is_used then b ∷ with_next c ds else with_next (join b c) ds))
  joins-Represents =
      let o : ℕ = extents (cs ++ a ∷ []) in
      let (_, _, (at, _)) = Represents-split h (cs ++ a ∷ []) (c ∷ ds) b r in
      let snoc = extents-snoc (cs ++ a ∷ []) b in
      let assoc = append_assoc (cs ++ a ∷ []) (b ∷ []) in
      elim (Bool-cases b.is_used) [
        | inl q ↦
            let (h', run, r') =
              join_next-Represents h ((cs ++ a ∷ []) ++ b ∷ []) ds c c (o + extent b)
                (subst (Represents h) (sym (assoc (c ∷ ds))) r) at (omega (arith, snoc)) in
            (
              h',
              rw (join_previous-used q) run,
              chosen h' (cs ++ a ∷ []) (sym (if_true _ _ q))
                  (subst (Represents h') (assoc (with_next c ds)) r'),
            )
        | inr q ↦
            let (h₁, clear, r₁, same) = clear_eob_before-Represents h (cs ++ a ∷ []) ds b c r in
            let at₁ = IsAt-agree h.byte h₁.byte (o + extent b) c (λ x l u. same x l) at in
            let (h', run, r') =
              join_next-Represents h₁ (cs ++ a ∷ []) ds (join b c) c (o + extent b) r₁ at₁ (
                omega
                  (arith, length-append b.payload (0 ∷ 0 ∷ 0 ∷ 0 ∷ mark c.is_used ∷ c.payload))) in
            (
              h',
              rw (join_previous-free q, clear) run,
              chosen h' (cs ++ a ∷ []) (sym (if_false _ _ q)) r',
            )
      ]

zox_free-joins :
    (h h₁ h' : Heap) (o : ℕ)
    → mark_block_free (get_block o) h ≡ done tt h₁
    → (join_previous (get_block o) >> join_next (get_block o)) h₁ ≡ done tt h'
    → zox_free (o + 1) h ≡ done tt h'
unfolding zox_free
zox_free-joins h h₁ h' o run joins =
    let e : o + 1 - 1 ≡ o = omega arith in
    let some_ : (o + 1 == 0) ≡ false = ==_ne (o + 1) 0 (λ z. omega arith) in
    rw (some_, e, run) joins

-- In a mapped heap of blocks, where two or more lie in front of a block, free gives the block back:
-- it becomes free, is joined with the one before if that is free, and with the one behind if that
-- is free; all others stay.
pub zox_free-Represents :
    (h : Heap) (cs ds : List Chunk) (a b c : Chunk)
    → Represents h ((cs ++ a ∷ []) ++ b ∷ c ∷ ds)
    → (h' : Heap) × (zox_free (extents (cs ++ a ∷ []) + extent b + 1) h ≡ done tt h')
      × Represents h' ((cs ++ a ∷ []) ++ release b c ds)
zox_free-Represents h cs ds a b c r =
    let o : ℕ = extents (cs ++ a ∷ []) + extent b in
    let ys : List Chunk = (cs ++ a ∷ []) ++ b ∷ [] in
    let assoc = append_assoc (cs ++ a ∷ []) (b ∷ []) in
    let (h₁, run, r₁) =
      mark_block_free-Represents h ys ds c (subst (Represents h) (sym (assoc (c ∷ ds))) r) in
    let run₁ : mark_block_free (get_block o) h ≡ done tt h₁ =
      subst (λ n. mark_block_free (get_block n) h ≡ done tt h₁) (extents-snoc (cs ++ a ∷ []) b)
        run in
    let (h', run', r') =
      joins-Represents h₁ cs ds a b (freed c) (subst (Represents h₁) (assoc (freed c ∷ ds)) r₁) in
    (h', zox_free-joins h h₁ h' o run₁ run', r')

first_byte : (f : ℕ → ℕ) (b : Chunk) (m : ℕ) (p : List ℕ) → IsAt f 0 b → b.payload ≡ m ∷ p → f 1 ≡ m
first_byte f b m p at e = (subst (λ l. Holds f 1 (l ++ eob)) e at.filled).0

join_previous-second :
    (h : Heap) (b : Chunk) (p : List ℕ)
    → IsAt h.byte 0 b
    → extent b ≤ limit h
    → b.payload ≡ free_mark ∷ p
    → join_previous (get_block (extent b)) h ≡ clear_eob_before (get_block (extent b)) h
unfolding join_previous is_block_free spovm4_labs.Lab6.Memory.read
join_previous-second h b p at room first =
    let apart : (1 == extent b) ≡ false = ==_ne 1 (extent b) (λ e. omega arith) in
    rw
      (
        get_previous_block-first h b at room,
        lt→ltb 1 (limit h) (omega arith),
        first_byte h.byte b free_mark p at first,
        apart,
      )
      refl

-- Where the data of the first block starts with the mark of a free block and the third block is
-- used, free of the second block takes away the EOB between the first two, so that they become one
-- block, whether the first one is used or not.
pub zox_free-second :
    (h : Heap) (b c d : Chunk) (p : List ℕ) (ds : List Chunk)
    → Represents h (b ∷ c ∷ d ∷ ds)
    → b.payload ≡ free_mark ∷ p
    → d.is_used ≡ true
    → (h' : Heap) × (zox_free (extent b + 1) h ≡ done tt h')
      × Represents h' (join b (freed c) ∷ d ∷ ds)
zox_free-second h b c d p ds r first used =
    let o : ℕ = 0 + extent b in
    let e : 0 + extent b ≡ extent b = omega arith in
    let room = Lie-end h.byte 0 h.heap_size (b ∷ c ∷ d ∷ ds) r.laid in
    let (h₁, run, r₁) = mark_block_free-Represents h (b ∷ []) (d ∷ ds) c r in
    let (at, (at', _)) = r₁.laid in
    let (h₂, clear, r₂, same) = clear_eob_before-Represents h₁ [] (d ∷ ds) b (freed c) r₁ in
    let (h', run', r') =
      join_next-Represents h₂ [] (d ∷ ds) (join b (freed c)) (freed c) o r₂
        (IsAt-agree h₁.byte h₂.byte o (freed c) (λ x l u. same x l) at')
        (omega (arith, length-append b.payload (0 ∷ 0 ∷ 0 ∷ 0 ∷ free_mark ∷ c.payload))) in
    let previous : join_previous (get_block (extent b)) h₁ ≡ done tt h₂ =
      join_previous-second h₁ b p at (omega (arith, run_room h₁ r₁)) first
      ∙ subst (λ n. clear_eob_before (get_block n) h₁ ≡ done tt h₂) e clear in
    let marking : mark_block_free (get_block (extent b)) h ≡ done tt h₁ =
      subst (λ n. mark_block_free (get_block n) h ≡ done tt h₁) e' run in
    let next : join_next (get_block (extent b)) h₂ ≡ done tt h' =
      subst (λ n. join_next (get_block n) h₂ ≡ done tt h') e run' in
    let both_ : (join_previous (get_block (extent b)) >> join_next (get_block (extent b))) h₁
        ≡ done tt h' =
      rw previous next in
    (h', zox_free-joins h h₁ h' (extent b) marking both_, chosen h' [] (if_true _ _ used) r')
  where
    e' : extents (b ∷ []) ≡ extent b
    e' = omega arith

    run_room : (h₁ : Heap) → Represents h₁ (b ∷ freed c ∷ d ∷ ds) → extent b ≤ limit h₁
    run_room h₁ r₁ =
        omega (arith, Lie-end h₁.byte 0 h₁.heap_size (b ∷ freed c ∷ d ∷ ds) r₁.laid, limit_le h₁)
