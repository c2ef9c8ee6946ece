-- ===== src/Lab6/Cut.antt =====
-- `resize_block` on a free last block whose EOB the new heap has lost.
use mathlib.Core.Path.{subst}
use spovm4_labs.Base.{
  length, length-append, ltb, ◌==◌, le→ltb, Bool-cases, word_size, ℕ, zero, suc, ◌+◌, ◌≤◌, ◌<◌, ◌≡◌,
  refl, sym, ◌∙◌, inl, inr, ◌⊎◌, true, false, List, [], ◌∷◌, ◌++◌, arith,
}
use spovm4_labs.Base.Text.{starts_with}
use spovm4_labs.Lab6.Allocator.{zox_malloc}
use spovm4_labs.Lab6.Append.{resized, resized-kept}
use spovm4_labs.Lab6.Block.{
  eob, block_overhead, get_block, match_bytes, size_loop, calculate_block_size, resize_block,
}
use spovm4_labs.Lab6.Fit.{none_fit}
use spovm4_labs.Lab6.Last.{zox_malloc-resizes}
use spovm4_labs.Lab6.Layout.{IsAt, Chunk, is_clean, Holds, extent, extents, is_clean-cons}
use spovm4_labs.Lab6.Malloc.{Represents, Represents-split}
use spovm4_labs.Lab6.Memory.{Heap, limit, read, Host}
use spovm4_labs.Lab6.Search.{limit_le}
use spovm4_labs.Stateful.{done, fault}

module _ (h : Heap) where
  -- where other bytes stand, the comparison ends with a difference or behind the mapping
  match_bytes-other :
      (t : List ℕ) (x : ℕ)
      → ¬ Holds h.byte x t
      → (match_bytes t x h ≡ done false h) ⊎ (match_bytes t x h ≡ fault)
  unfolding match_bytes read
  match_bytes-other [] x others = absurd (others tt)
  match_bytes-other (e ∷ t) x others = elim (Bool-cases (ltb x (limit h))) [
    | inl q ↦ elim (Bool-cases (h.byte x == e)) [
      | inl p ↦ rw (q, p) (match_bytes-other t (suc x) (λ hs. others (ground arith, hs)))
      | inr p ↦ inl (rw (q, p) refl)
    ]
    | inr q ↦ inr (rw q refl)
  ]

  match_bytes-fault : (x : ℕ) → limit h ≤ x → match_bytes eob x h ≡ fault
  unfolding match_bytes read
  match_bytes-fault x l = rw (le→ltb x (limit h) l) refl

  -- without EOB the loop of calculate_block_size leaves the mapping
  size_loop-fault :
      (k start size : ℕ)
      → ((x : ℕ) → start ≤ x → ¬ Holds h.byte x eob)
      → start + size ≤ limit h
      → limit h < k + (start + size)
      → size_loop k start size h ≡ fault
  unfolding size_loop
  size_loop-fault zero start size others within fuel = absurd (omega arith)
  size_loop-fault (suc k) start size others within fuel =
      elim (Bool-cases (ltb (start + size) (limit h))) [
        | inl q ↦
            elim (match_bytes-other eob (start + size) (others (start + size) (omega arith))) [
              | inl run ↦
                  rw run (size_loop-fault k start (size + 1) others (ground arith) (omega arith))
              | inr run ↦ rw run refl
            ]
        | inr q ↦ rw (match_bytes-fault (start + size) (ground arith)) refl
      ]

starts_with-Holds :
    (f : ℕ → ℕ) (a : ℕ) (s t : List ℕ)
    → Holds f a s
    → Holds f a t
    → length t ≤ length s
    → starts_with s t ≡ true
starts_with-Holds f a s [] hs ht l = refl
starts_with-Holds f a [] (e ∷ t) hs ht l = absurd (omega arith)
starts_with-Holds f a (b ∷ s) (e ∷ t) (q, hs) (p, ht) l =
    let same : b ≡ e = sym q ∙ p in
    ground (arith, starts_with-Holds f (suc a) s t hs ht (omega arith))

-- in a block's data no EOB begins
is_clean-none :
    (f : ℕ → ℕ) (a : ℕ) (p : List ℕ) (x : ℕ)
    → Holds f a (p ++ eob)
    → is_clean p ≡ true
    → a ≤ x
    → x < a + length p
    → ¬ Holds f x eob
is_clean-none f a [] x hs clean l u at = absurd (omega arith)
is_clean-none f a (b ∷ p) x hs clean l u at =
    let (apart, rest) = is_clean-cons b p clean in
    elim (Bool-cases (x == a)) [
      | inl q ↦
          let here : x ≡ a = ground arith in
          let prefix =
            starts_with-Holds f a ((b ∷ p) ++ eob) eob hs (subst (λ y. Holds f y eob) here at)
              (omega (arith, length-append p eob)) in
          cc
      | inr q ↦ is_clean-none f (suc a) p x hs.1 rest (ground arith) (omega arith) at
    ]

resized-cut : (h : Heap) (n x : ℕ) → n ≤ x → (resized h n).byte x ≡ 0
resized-cut h n x l =
    rw (le→ltb x n l)
      (elim (Bool-cases (ltb x h.heap_size)) [ inl q ↦ rw q refl | inr q ↦ rw q refl ])

module _ (h : Heap) (o size : ℕ) (d : Chunk) (at : IsAt h.byte o d)
    (end : o + extent d ≡ h.heap_size) (cut : size < length d.payload) where
  -- In the heap that ends before the block's EOB does, no EOB begins behind the block's mark.
  resized-none : (x : ℕ) → suc o ≤ x → ¬ Holds (resized h (o + size + block_overhead)).byte x eob
  resized-none x l (e₀, (e₁, (e₂, (e₃, u)))) =
      let n : ℕ = o + size + block_overhead in
      elim (Bool-cases (ltb (suc (suc (suc x))) n)) [
        | inl q ↦
            let inside : x + 3 < n = ground arith in
            let kept =
              λ (y : ℕ) (b : y ≤ x + 3). sym (resized-kept h n y (omega arith) (omega arith)) in
            is_clean-none h.byte (suc o) d.payload x at.filled at.clean l (omega arith) (
              kept x (omega arith) ∙ e₀,
              (
                kept (suc x) (omega arith) ∙ e₁,
                (
                  kept (suc (suc x)) (omega arith) ∙ e₂,
                  (kept (suc (suc (suc x))) (omega arith) ∙ e₃, tt),
                ),
              ),
            )
        | inr q ↦
            let gone = resized-cut h n (suc (suc (suc x))) (ground arith) in absurd (omega arith)
      ]

  resize_block-fault :
      (behind : List ℕ)
      → resize_block behind (get_block o) size (resized h (o + size + block_overhead)) ≡ fault
  unfolding resize_block calculate_block_size
  resize_block-fault behind =
      let h₁ = resized h (o + size + block_overhead) in
      rw
        (size_loop-fault h₁ (suc (limit h₁)) (o + 1) 0 (λ x l. resized-none x (omega arith))
          (omega (arith, limit_le h₁)) (omega arith))
        refl

module _ (host : Host) (behind : List ℕ) (opens : host.opens ≡ true)
    (truncates : host.truncates ≡ true) (h : Heap) (size : ℕ) (cs : List Chunk) (d : Chunk)
    (r : Represents h (cs ++ d ∷ [])) (unfit : none_fit size cs ≡ true)
    (free : d.is_used ≡ false) where
  -- In a mapped heap of blocks whose last one is free and holds one to three bytes more than are
  -- asked for, where no other block fits, the file can be opened and cut and no number wraps,
  -- malloc faults: the heap is cut within EOB of the block that resize_block measures next.
  pub zox_malloc-cut :
      size < length d.payload
      → length d.payload ≤ size + 3
      → h.heap_size + size + block_overhead < word_size
      → zox_malloc host behind size h ≡ fault
  zox_malloc-cut cut short no_wrap =
      let (_, at, end) = Represents-split h cs [] d r in
      zox_malloc-resizes host behind opens truncates h size cs d r unfit free short no_wrap
      ∙ rw (resize_block-fault h (extents cs) size d at end cut behind) refl
