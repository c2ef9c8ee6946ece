-- ===== src/Lab6/Parts.antt =====
-- The two blocks that splitting a block leaves.
use mathlib.Core.Path.{subst}
use spovm4_labs.Base.{
  length, take, drop, length-append, take-append-drop, ℕ, zero, suc, ◌+◌, ◌≤◌, ◌<◌, ◌≡◌, refl, sym,
  ap, ◌∙◌, ◌≢◌, ◌⊎◌, inl, inr, true, false, List, [], ◌∷◌, ◌++◌, arith,
}
use spovm4_labs.Base.Cuts.{length-take}
use spovm4_labs.Lab6.Block.{eob, eob_size, block_overhead, free_mark, used_mark}
use spovm4_labs.Lab6.Layout.{
  IsAt, Chunk, is_clean, Holds, Holds-agree, Holds-join, Holds-front, Holds-back, is_clean-cons,
}
use spovm4_labs.Lab6.Memory.{write_byte}
use spovm4_labs.Lab6.Writes.{put_list, write_byte-ne, write_byte_self, put_list-out, Holds-put_list}

-- the bytes behind split_block, and behind mark_block_used, on a free block
abbrev pub parted : (ℕ → ℕ) → ℕ → ℕ → ℕ → ℕ
parted f o size = write_byte (put_list f (o + 1 + size) eob) (o + size + eob_size + 1) free_mark

abbrev pub split : (ℕ → ℕ) → ℕ → ℕ → ℕ → ℕ
split f o size = write_byte (parted f o size) o used_mark

pub split-kept :
    (f : ℕ → ℕ) (o size x : ℕ)
    → x ≢ o
    → (x < o + 1 + size) ⊎ (o + size + block_overhead < x)
    → split f o size x ≡ f x
split-kept f o size x ne out =
    write_byte-ne (parted f o size) o used_mark x ne
    ∙ write_byte-ne (put_list f (o + 1 + size) eob) (o + size + eob_size + 1) free_mark x
        (λ e. omega arith)
    ∙ put_list-out f (o + 1 + size) eob x (ground arith)

abbrev pub used_part : ℕ → Chunk → Chunk
used_part size c = record { is_used = true; payload = take size c.payload }

abbrev pub free_part : ℕ → Chunk → Chunk
free_part size c = record { is_used = false; payload = drop (size + block_overhead) c.payload }

is_clean-drop : (n : ℕ) (p : List ℕ) → is_clean p ≡ true → is_clean (drop n p) ≡ true
is_clean-drop zero p h = h
is_clean-drop (suc n) [] h = refl
is_clean-drop (suc n) (b ∷ p) h = is_clean-drop n p (is_clean-cons b p h).1

drop-append : (n : ℕ) (p q : List ℕ) → n ≤ length p → drop n (p ++ q) ≡ drop n p ++ q
drop-append zero p q l = refl
drop-append (suc n) [] q l = absurd (omega arith)
drop-append (suc n) (b ∷ p) q l = drop-append n p q (omega arith)

Holds-take : (f : ℕ → ℕ) (a n : ℕ) (p : List ℕ) → Holds f a p → Holds f a (take n p)
Holds-take f a n p h =
    Holds-front f a (take n p) (drop n p) (subst (Holds f a) (sym (take-append-drop n p)) h)

Holds-drop :
    (f : ℕ → ℕ) (a n : ℕ) (p : List ℕ) → n ≤ length p → Holds f a p → Holds f (a + n) (drop n p)
Holds-drop f a n p l h =
    Holds-back f a (a + n) (take n p) (drop n p) (omega (arith, length-take n p l))
      (subst (Holds f a) (sym (take-append-drop n p)) h)

module _ (f : ℕ → ℕ) (o size : ℕ) (c : Chunk) (at : IsAt f o c)
    (room : size + block_overhead ≤ length c.payload) where
  pub used_part-IsAt :
      is_clean (take size c.payload) ≡ true → IsAt (split f o size) o (used_part size c)
  used_part-IsAt clean = record {
    marked = write_byte_self (parted f o size) o used_mark;
    filled =
        Holds-join (split f o size) (suc o) (o + 1 + size) (take size c.payload) eob
          (omega (arith, length-take size c.payload (omega arith)))
          (Holds-agree f (split f o size) (suc o) (take size c.payload)
            (λ x l u.
              split-kept f o size x (λ e. omega arith)
                (inl (omega (arith, length-take size c.payload (omega arith)))))
            (Holds-take f (suc o) size c.payload (Holds-front f (suc o) c.payload eob at.filled)))
          (Holds-agree (put_list f (o + 1 + size) eob) (split f o size) (o + 1 + size) eob
            (λ x l u.
              write_byte-ne (parted f o size) o used_mark x (λ e. omega arith)
              ∙ write_byte-ne (put_list f (o + 1 + size) eob) (o + size + eob_size + 1) free_mark x
                  (λ e. omega arith))
            (Holds-put_list f (o + 1 + size) eob));
    clean = clean;
  }

  pub free_part-IsAt : IsAt (split f o size) (o + size + block_overhead) (free_part size c)
  free_part-IsAt =
      let n : ℕ = size + block_overhead in
      let e : suc o + n ≡ suc (o + size + block_overhead) = omega arith in
      let q : o + size + block_overhead ≡ o + size + eob_size + 1 = omega arith in
      record {
        marked =
            write_byte-ne (parted f o size) o used_mark (o + size + block_overhead)
              (λ z. omega arith)
            ∙ ap (write_byte (put_list f (o + 1 + size) eob) (o + size + eob_size + 1) free_mark) q
            ∙ write_byte_self (put_list f (o + 1 + size) eob) (o + size + eob_size + 1) free_mark;
        filled =
            Holds-agree f (split f o size) (suc (o + size + block_overhead))
              (drop n c.payload ++ eob)
              (λ x l u. split-kept f o size x (λ z. omega arith) (inr (omega arith)))
              (subst (λ a. Holds f a (drop n c.payload ++ eob)) e
                (subst (Holds f (suc o + n)) (drop-append n c.payload eob room) (
                  Holds-drop f (suc o) n (c.payload ++ eob)
                    (omega (arith, length-append c.payload eob)) at.filled)));
        clean = is_clean-drop n c.payload at.clean;
      }
