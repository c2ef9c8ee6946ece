-- ===== src/Lab6/Join.antt =====
-- Blocks joined by taking away the EOB between them.
use mathlib.Core.Path.{subst}
use spovm4_labs.Base.{
  length, Bool-cases, word_size, ℕ, suc, ◌+◌, ◌≤◌, ◌<◌, ◌≡◌, refl, sym, ap, ◌∙◌, ◌⊎◌, inl, inr,
  Bool, true, false, not, ◌&&◌, List, [], ◌∷◌, ◌++◌, append_assoc, arith,
}
use spovm4_labs.Base.Text.{starts_with}
use spovm4_labs.Lab6.Block.{eob}
use spovm4_labs.Lab6.Layout.{
  IsAt, Chunk, mark, is_clean, Holds, extent, Lie, extents, Holds-agree, Holds-join, Holds-front,
  Lie-agree, Lie-join, Lie-split, is_clean-cons,
}
use spovm4_labs.Lab6.Malloc.{Represents}
use spovm4_labs.Lab6.Memory.{Heap}
use spovm4_labs.Lab6.Previous.{Differs}
use spovm4_labs.Lab6.Writes.{put_list, put_list-out, Holds-put_list}

-- What the bytes of two blocks are without the EOB of the first: one block, in whose data the
-- second one's mark stands.
abbrev pub join : Chunk → Chunk → Chunk
join b c = record {
  is_used = b.is_used;
  payload = b.payload ++ 0 ∷ 0 ∷ 0 ∷ 0 ∷ mark c.is_used ∷ c.payload;
}

starts_with-gap :
    (p s x t : List ℕ)
    → Differs 0 t
    → starts_with (p ++ 0 ∷ s) t ≡ true
    → starts_with (p ++ x) t ≡ true
starts_with-gap [] s [] [] d h = refl
starts_with-gap [] s (y ∷ x) [] d h = refl
starts_with-gap [] s x (e ∷ t) (ne, d) h = absurd (ne (ground arith))
starts_with-gap (b ∷ p) s x [] d h = refl
starts_with-gap (b ∷ p) s x (e ∷ t) (ne, d) h = ground (arith, starts_with-gap p s x t d)

both : (a b : Bool) → a ≡ false → b ≡ true → (not a && b) ≡ true
both a b h k = rw (h, k) refl

contradiction : ◌≡◌ {A = Bool} true false → ⊥
contradiction h = cc

mark_zero : Differs 0 eob
mark_zero =
    ((λ z. omega arith), ((λ z. omega arith), ((λ z. omega arith), ((λ z. omega arith), tt))))

pub is_clean-gap :
    (p r : List ℕ) → is_clean p ≡ true → is_clean (0 ∷ r) ≡ true → is_clean (p ++ 0 ∷ r) ≡ true
is_clean-gap [] r h k = k
is_clean-gap (b ∷ p) r h k =
    let (apart, rest) = is_clean-cons b p h in
    let assoc : ((b ∷ p) ++ 0 ∷ r) ++ eob ≡ (b ∷ p) ++ 0 ∷ (r ++ eob) =
      append_assoc (b ∷ p) (0 ∷ r) eob in
    let still : starts_with (((b ∷ p) ++ 0 ∷ r) ++ eob) eob ≡ false =
      elim (Bool-cases (starts_with ((b ∷ p) ++ 0 ∷ (r ++ eob)) eob)) [
        | inl q ↦
            absurd (
              contradiction
                (sym (starts_with-gap (b ∷ p) (r ++ eob) eob eob (mark_zero) q) ∙ apart))
        | inr q ↦ ap (λ l. starts_with l eob) assoc ∙ q
      ] in
    both (starts_with (((b ∷ p) ++ 0 ∷ r) ++ eob) eob) (is_clean (p ++ 0 ∷ r)) still
      (is_clean-gap p r rest k)

-- The blocks between `a` and `e` are replaced by others in the same place.
pub Represents-replace :
    (h h' : Heap) (xs ys zs ds : List Chunk) (o e : ℕ)
    → Represents h (xs ++ (ys ++ ds))
    → o ≡ extents xs
    → e ≡ o + extents ys
    → h'.is_mapped ≡ h.is_mapped
    → h'.heap_size ≡ h.heap_size
    → Lie h'.byte o zs e
    → ((x : ℕ) → (x < o) ⊎ (e ≤ x) → h'.byte x ≡ h.byte x)
    → Represents h' (xs ++ (zs ++ ds))
Represents-replace h h' xs ys zs ds o e r q q' mapped sized lie same =
    let zero_ : 0 + extents xs ≡ o = omega arith in
    let (front, back) = Lie-split h.byte 0 h.heap_size xs (ys ++ ds) r.laid in
    let (middle, rest) = Lie-split h.byte (0 + extents xs) h.heap_size ys ds back in
    let e' : 0 + extents xs + extents ys ≡ e = omega arith in
    record {
      mapped = mapped ∙ r.mapped;
      laid =
          Lie-join h'.byte 0 o h'.heap_size xs (zs ++ ds)
            (Lie-agree h.byte h'.byte 0 o xs (λ x l u. same x (inl u))
              (subst (Lie h.byte 0 xs) zero_ front))
            (Lie-join h'.byte o e h'.heap_size zs ds lie (
              subst (Lie h'.byte e ds) (sym sized) (
                Lie-agree h.byte h'.byte e h.heap_size ds (λ x l u. same x (inr l))
                  (subst (λ a. Lie h.byte a ds h.heap_size) e' rest))));
      small = subst (λ n. n < word_size) (sym sized) r.small;
    }

zeros_clean :
    (u : Bool) (p : List ℕ) → is_clean p ≡ true → is_clean (0 ∷ 0 ∷ 0 ∷ 0 ∷ mark u ∷ p) ≡ true
zeros_clean true p h = h
zeros_clean false p h = h

-- The bytes of two blocks, without the EOB between them, are one block.
pub join-IsAt :
    (f : ℕ → ℕ) (o m : ℕ) (b c : Chunk)
    → IsAt f o b
    → IsAt f (o + extent b) c
    → m ≡ o + length b.payload + 1
    → IsAt (put_list f m (0 ∷ 0 ∷ 0 ∷ 0 ∷ [])) o (join b c)
join-IsAt f o m b c at at' q =
    let g = put_list f m (0 ∷ 0 ∷ 0 ∷ 0 ∷ []) in
    let four : List ℕ = 0 ∷ 0 ∷ 0 ∷ 0 ∷ [] in
    let e : m + 4 ≡ o + extent b = omega arith in
    let out = λ (x : ℕ) (z : (x < m) ⊎ (m + 4 ≤ x)). put_list-out f m four x z in
    let assoc = append_assoc b.payload (0 ∷ 0 ∷ 0 ∷ 0 ∷ mark c.is_used ∷ c.payload) eob in
    record {
      marked = out o (inl (omega arith)) ∙ at.marked;
      filled = subst (Holds g (suc o)) (sym assoc) (
          Holds-join g (suc o) m b.payload (0 ∷ 0 ∷ 0 ∷ 0 ∷ mark c.is_used ∷ (c.payload ++ eob))
            (omega arith)
            (Holds-agree f g (suc o) b.payload (λ x l u. out x (inl (omega arith)))
              (Holds-front f (suc o) b.payload eob at.filled))
            (Holds-join g m (m + 4) four (mark c.is_used ∷ (c.payload ++ eob)) (omega arith)
              (Holds-put_list f m four)
              (
                out (m + 4) (inr (omega arith)) ∙ ap f e ∙ at'.marked,
                Holds-agree f g (suc (m + 4)) (c.payload ++ eob)
                    (λ x l u. out x (inr (omega arith)))
                    (subst (λ a. Holds f (suc a) (c.payload ++ eob)) (sym e) at'.filled),
              )));
      clean =
          is_clean-gap b.payload (0 ∷ 0 ∷ 0 ∷ mark c.is_used ∷ c.payload) at.clean
            (zeros_clean c.is_used c.payload at'.clean);
    }
