-- ===== src/Lab6/Grow.antt =====
-- `resize_block` on a free last block, behind which the heap was extended.
use mathlib.Core.Path.{subst}
use spovm4_labs.Base.{
  length, length-append, word_size, ℕ, zero, suc, ◌+◌, ◌-◌, ◌≤◌, ◌<◌, ◌≡◌, refl, ◌∙◌, ◌≢◌, inl, inr,
  true, false, List, [], ◌∷◌, ◌++◌, append-nil, arith, ◌==◌, sym, Bool-cases,
}
use spovm4_labs.Lab6.Allocator.{zox_malloc}
use spovm4_labs.Lab6.Append.{
  marked_up, tail, markup_block-done, mark_block_used-done, page_end, resized, resized-kept,
  resized-out,
}
use spovm4_labs.Lab6.Block.{eob, block_overhead, free_mark, used_mark, get_block, resize_block}
use spovm4_labs.Lab6.Fit.{none_fit}
use spovm4_labs.Lab6.Join.{is_clean-gap}
use spovm4_labs.Lab6.Last.{zox_malloc-resizes}
use spovm4_labs.Lab6.Layout.{
  IsAt, Chunk, is_clean, Holds, extent, extents, Holds-agree, Holds-join, Holds-front, IsAt-agree,
  Lie-agree, Lie-join,
}
use spovm4_labs.Lab6.Malloc.{Represents, Represents-split}
use spovm4_labs.Lab6.Memory.{Heap, limit, write_byte, Host}
use spovm4_labs.Lab6.Search.{limit_le, calculate_block_size-IsAt}
use spovm4_labs.Lab6.Writes.{
  zeros, put_list, write_list-done, write_byte-ne, write_byte_self, put_list-out, Holds-put_list,
  length-zeros, zeros-is_clean, Holds-zeros,
}
use spovm4_labs.Stateful.{done}

-- a used block of the size that is asked for, with the old data in front
abbrev pub grown : ℕ → Chunk → Chunk
grown size c = record { is_used = true; payload = c.payload ++ zeros (size - length c.payload) }

grown-is_clean : (n : ℕ) (p : List ℕ) → is_clean p ≡ true → is_clean (p ++ zeros n) ≡ true
grown-is_clean zero p clean = subst (λ q. is_clean q ≡ true) (sym (append-nil p)) clean
grown-is_clean (suc n) p clean = is_clean-gap p (zeros n) clean (zeros-is_clean (suc n))

put_list-zeros_kept : (f : ℕ → ℕ) (a n x : ℕ) → f x ≡ 0 → put_list f a (zeros n) x ≡ 0
put_list-zeros_kept f a zero x e = e
put_list-zeros_kept f a (suc n) x e =
    put_list-zeros_kept (write_byte f a 0) (suc a) n x
      (elim (Bool-cases (x == a)) [ inl q ↦ rw q refl | inr q ↦ rw q e ])

-- zeros written from `a` on make every byte zero that they reach or that was zero before
put_list-zeros :
    (f : ℕ → ℕ) (a n x : ℕ) → a ≤ x → (a + n ≤ x → f x ≡ 0) → put_list f a (zeros n) x ≡ 0
put_list-zeros f a zero x l out = out (omega arith)
put_list-zeros f a (suc n) x l out = elim (Bool-cases (x == a)) [
  | inl q ↦ put_list-zeros_kept (write_byte f a 0) (suc a) n x (rw q refl)
  | inr q ↦
      put_list-zeros (write_byte f a 0) (suc a) n x (ground arith) (λ b. rw q (out (omega arith)))
]

module _ (behind : List ℕ) (h : Heap) (o size : ℕ) (d : Chunk) where
  -- the bytes that resize_block and mark_block_used leave
  abbrev grown_bytes : ℕ → ℕ
  grown_bytes =
      write_byte (marked_up behind (put_list h.byte (o + (length d.payload + 1)) (zeros 4)) o size)
        o used_mark

  grown_bytes-over :
      (x : ℕ)
      → x ≢ o
      → x ≤ o + size
      → grown_bytes x ≡ put_list h.byte (o + (length d.payload + 1)) (zeros 4) x
  grown_bytes-over x ne u =
      let f = put_list h.byte (o + (length d.payload + 1)) (zeros 4) in
      write_byte-ne (marked_up behind f o size) o used_mark x ne
      ∙ put_list-out (write_byte f o free_mark) (o + size + 1) (tail behind) x (inl (omega arith))
      ∙ write_byte-ne f o free_mark x ne

  grown_bytes-below : (x : ℕ) → x < o → grown_bytes x ≡ h.byte x
  grown_bytes-below x l =
      grown_bytes-over x (λ e. omega arith) (omega arith)
      ∙ put_list-out h.byte (o + (length d.payload + 1)) (zeros 4) x (inl (omega arith))

  grown_bytes-eob : Holds grown_bytes (o + size + 1) eob
  grown_bytes-eob =
      let f = put_list h.byte (o + (length d.payload + 1)) (zeros 4) in
      Holds-agree (marked_up behind f o size) grown_bytes (o + size + 1) eob
        (λ x l u. write_byte-ne (marked_up behind f o size) o used_mark x (λ e. omega arith))
        (Holds-front (marked_up behind f o size) (o + size + 1) eob (behind ++ 0 ∷ [])
          (Holds-put_list (write_byte f o free_mark) (o + size + 1) (tail behind)))

  -- A block with zeros behind it grows over them.
  grown-IsAt :
      IsAt h.byte o d
      → length d.payload ≤ size
      → ((x : ℕ) → o + extent d ≤ x → h.byte x ≡ 0)
      → IsAt grown_bytes o (grown size d)
  grown-IsAt at long zero_ =
      let n : ℕ = length d.payload in
      let len = length-zeros (size - n) in
      let len' = length-append d.payload (zeros (size - n)) in
      record {
        marked =
            write_byte_self (marked_up behind (put_list h.byte (o + (n + 1)) (zeros 4)) o size) o
              used_mark;
        filled =
            Holds-join grown_bytes (suc o) (o + size + 1) (d.payload ++ zeros (size - n)) eob
              (omega arith)
              (Holds-join grown_bytes (suc o) (o + (n + 1)) d.payload (zeros (size - n))
                (omega arith)
                (Holds-agree h.byte grown_bytes (suc o) d.payload
                  (λ x l u.
                    grown_bytes-over x (λ e. omega arith) (omega arith)
                    ∙ put_list-out h.byte (o + (n + 1)) (zeros 4) x (inl (omega arith)))
                  (Holds-front h.byte (suc o) d.payload eob at.filled))
                (Holds-zeros grown_bytes (o + (n + 1)) (size - n) (λ x l u.
                  grown_bytes-over x (λ e. omega arith) (omega arith)
                  ∙ put_list-zeros h.byte (o + (n + 1)) 4 x l (λ b. zero_ x (omega arith)))))
              grown_bytes-eob;
        clean = grown-is_clean (size - n) d.payload at.clean;
      }

  resize_block-done :
      IsAt h.byte o d
      → o + extent d ≤ limit h
      → o + size + length behind + 6 ≤ limit h
      → resize_block behind (get_block o) size h
        ≡ done tt (record h {
          byte = marked_up behind (put_list h.byte (o + (length d.payload + 1)) (zeros 4)) o size;
        })
  unfolding resize_block
  resize_block-done at within room =
      let h₁ : Heap = record h { byte = put_list h.byte (o + (length d.payload + 1)) (zeros 4) } in
      rw
        (
          calculate_block_size-IsAt h o d at within,
          write_list-done h (o + (length d.payload + 1)) (zeros 4) (omega arith),
          markup_block-done behind h₁ o size room,
        )
        refl

module _ (host : Host) (behind : List ℕ) (opens : host.opens ≡ true)
    (truncates : host.truncates ≡ true) (h : Heap) (size : ℕ) (cs : List Chunk) (d : Chunk)
    (r : Represents h (cs ++ d ∷ [])) (unfit : none_fit size cs ≡ true)
    (free : d.is_used ≡ false) where
  -- In a mapped heap of blocks whose last one is free and holds at most as much data as is asked
  -- for, where no other block fits, the file can be opened and cut, what strcpy copies behind EOB
  -- ends in the last page and no number wraps, malloc returns the data of the last block: this
  -- block becomes used, keeps its data and grows by zeros to the size that was asked for. All
  -- others stay.
  pub zox_malloc-grow :
      length d.payload ≤ size
      → h.heap_size + size + block_overhead < word_size
      → extents cs + size + length behind + 6 ≤ page_end (extents cs + size + block_overhead)
      → (h' : Heap) × (zox_malloc host behind size h ≡ done (extents cs + 1) h')
        × Represents h' (cs ++ grown size d ∷ [])
  zox_malloc-grow long no_wrap room =
      let o : ℕ = extents cs in
      let n : ℕ = o + size + block_overhead in
      let (front, at, end) = Represents-split h cs [] d r in
      let h₁ = resized h n in
      let kept = λ (x : ℕ) (u : x < h.heap_size). resized-kept h n x u (omega (arith, end)) in
      let at₁ = IsAt-agree h.byte h₁.byte o d (λ x l u. kept x (omega (arith, end))) at in
      let bytes = grown_bytes behind h₁ o size d in
      let h₂ : Heap = record h₁ {
        byte = marked_up behind (put_list h₁.byte (o + (length d.payload + 1)) (zeros 4)) o size;
      } in
      (
        record h₁ { byte = bytes },
        zox_malloc-resizes host behind opens truncates h size cs d r unfit free (omega arith)
              no_wrap
            ∙ rw
                (
                  resize_block-done behind h₁ o size d at₁ (omega (arith, end, limit_le h₁)) room,
                  mark_block_used-done h₂ o (get_block o) (omega arith) (omega arith),
                )
                refl,
        record {
          mapped = refl;
          laid =
              Lie-join bytes 0 o n cs (grown size d ∷ [])
                (Lie-agree h.byte bytes 0 o cs
                  (λ x l u. grown_bytes-below behind h₁ o size d x u ∙ kept x (omega (arith, end)))
                  front)
                (
                  grown-IsAt behind h₁ o size d at₁ long
                      (λ x l. resized-out h n x (omega (arith, end))),
                  omega (
                    arith,
                    length-append d.payload (zeros (size - length d.payload)),
                    length-zeros (size - length d.payload),
                  ),
                );
          small = omega (arith, end);
        },
      )
