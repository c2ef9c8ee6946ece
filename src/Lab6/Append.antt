-- ===== src/Lab6/Append.antt =====
-- A new block behind those that fill the heap, and the first block of a new heap.
use spovm4_labs.Base.{
  length, length-append, ltb, if◌then◌else◌, lt→ltb, le→ltb, Bool-cases, ℕ, suc, ◌+◌, ◌-◌, ◌*◌, ◌/◌,
  ◌≤◌, ◌<◌, ◌≡◌, refl, ◌∙◌, inl, inr, true, ◌&&◌, List, [], ◌∷◌, ◌++◌, arith,
}
use spovm4_labs.Lab6.Block.{
  Block, eob, block_overhead, free_mark, used_mark, markup_block, mark_block_used,
}
use spovm4_labs.Lab6.Layout.{IsAt, Chunk, Holds-agree, Holds-join, Holds-front}
use spovm4_labs.Lab6.Memory.{Heap, page_size, limit, write_byte, Host, update_heap}
use spovm4_labs.Lab6.Writes.{
  zeros, put_list, write-done, write_list-done, write_list-fault, write_byte-ne, write_byte_self,
  put_list-out, Holds-put_list, length-zeros, zeros-is_clean, Holds-zeros,
}
use spovm4_labs.Stateful.{done, fault}

abbrev pub tail : List ℕ → List ℕ
tail behind = eob ++ (behind ++ 0 ∷ [])

length-tail : (behind : List ℕ) → length (tail behind) ≡ length behind + block_overhead
length-tail behind = omega (arith, length-append behind (0 ∷ []))

-- the bytes that markup_block leaves
abbrev pub marked_up : List ℕ → (ℕ → ℕ) → ℕ → ℕ → ℕ → ℕ
marked_up behind f o size = put_list (write_byte f o free_mark) (o + size + 1) (tail behind)

abbrev pub new_chunk : ℕ → Chunk
new_chunk size = record { is_used = true; payload = zeros size }

module _ (behind : List ℕ) (h : Heap) (o size : ℕ) where
  pub markup_block-done :
      o + size + length behind + 6 ≤ limit h
      → markup_block behind o size h
        ≡ done
            (record { offset = o; data_ptr = 1 })
            (record h { byte = marked_up behind h.byte o size })
  unfolding markup_block
  markup_block-done room =
      rw
        (
          write-done h o free_mark (omega arith),
          write_list-done (record h { byte = write_byte h.byte o free_mark }) (o + size + 1)
              (tail behind) (omega (arith, length-tail behind)),
        )
        refl

  pub markup_block-fault :
      o + size + 1 ≤ limit h
      → limit h < o + size + length behind + 6
      → markup_block behind o size h ≡ fault
  unfolding markup_block
  markup_block-fault room past =
      rw
        (
          write-done h o free_mark (omega arith),
          write_list-fault (record h { byte = write_byte h.byte o free_mark }) (o + size + 1)
              (tail behind) room (omega (arith, length-tail behind)),
        )
        refl

pub mark_block_used-done :
    (h : Heap) (o : ℕ) (block : Block)
    → block.data_ptr ≡ suc o
    → o < limit h
    → mark_block_used block h ≡ done tt (record h { byte = write_byte h.byte o used_mark })
unfolding mark_block_used
mark_block_used-done h o block e l =
    let d : block.data_ptr - 1 ≡ o = omega arith in rw d (write-done h o used_mark l)

-- Marked up on zeros and used, the bytes are a block of zeros.
pub new_chunk-IsAt :
    (behind : List ℕ) (f : ℕ → ℕ) (o size : ℕ)
    → ((x : ℕ) → o < x → f x ≡ 0)
    → IsAt (write_byte (marked_up behind f o size) o used_mark) o (new_chunk size)
new_chunk-IsAt behind f o size zero_ = record {
  marked = write_byte_self (marked_up behind f o size) o used_mark;
  filled =
      Holds-join _ (suc o) (o + size + 1) (zeros size) eob (omega (arith, length-zeros size))
        (Holds-zeros _ (suc o) size (λ x l u.
          kept x (omega arith)
          ∙ put_list-out (write_byte f o free_mark) (o + size + 1) (tail behind) x
              (inl (omega arith))
          ∙ write_byte-ne f o free_mark x (λ e. omega arith)
          ∙ zero_ x (omega arith)))
        (Holds-agree (marked_up behind f o size) _ (o + size + 1) eob
          (λ x l u. kept x (omega arith))
          (Holds-front _ (o + size + 1) eob (behind ++ 0 ∷ [])
            (Holds-put_list (write_byte f o free_mark) (o + size + 1) (tail behind))));
  clean = zeros-is_clean size;
}
  where
    kept :
        (x : ℕ)
        → o < x
        → write_byte (marked_up behind f o size) o used_mark x ≡ marked_up behind f o size x
    kept x l = write_byte-ne (marked_up behind f o size) o used_mark x (λ e. omega arith)

-- below the new block nothing changes
pub new_chunk-below :
    (behind : List ℕ) (f : ℕ → ℕ) (o size x : ℕ)
    → x < o
    → write_byte (marked_up behind f o size) o used_mark x ≡ f x
new_chunk-below behind f o size x l =
    write_byte-ne (marked_up behind f o size) o used_mark x (λ e. omega arith)
    ∙ put_list-out (write_byte f o free_mark) (o + size + 1) (tail behind) x (inl (omega arith))
    ∙ write_byte-ne f o free_mark x (λ e. omega arith)

-- the end of the pages that a heap of so many bytes is mapped to
abbrev pub page_end : ℕ → ℕ
page_end n = (n + (page_size - 1)) / page_size * page_size

abbrev pub resized : Heap → ℕ → Heap
resized h n = record {
  is_mapped = true;
  heap_size = n;
  byte = λ a. if ltb a h.heap_size && ltb a n then h.byte a else 0;
}

pub update_heap-resized :
    (host : Host) (h : Heap) (n : ℕ)
    → host.opens ≡ true
    → host.truncates ≡ true
    → update_heap host n h ≡ done tt (resized h n)
unfolding update_heap
update_heap-resized host h n opens truncates =
    rw (opens, truncates) (elim (Bool-cases h.is_mapped) [ inl q ↦ rw q refl | inr q ↦ rw q refl ])

pub resized-out : (h : Heap) (n x : ℕ) → h.heap_size ≤ x → (resized h n).byte x ≡ 0
resized-out h n x l = rw (le→ltb x h.heap_size l) refl

pub resized-kept : (h : Heap) (n x : ℕ) → x < h.heap_size → x < n → (resized h n).byte x ≡ h.byte x
resized-kept h n x l m = rw (lt→ltb x h.heap_size l, lt→ltb x n m) refl
