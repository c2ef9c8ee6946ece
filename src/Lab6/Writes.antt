-- ===== src/Lab6/Writes.antt =====
-- What writing bytes does to the blocks of the heap.
use spovm4_labs.Base.{
  length, ltb, ltb→lt, lt→ltb, ==_refl, ==_ne, Bool-cases, ℕ, zero, suc, ◌+◌, ◌≤◌, ◌<◌, ◌≡◌, refl,
  ap, ◌∙◌, ◌≢◌, ◌⊎◌, inl, inr, true, List, [], ◌∷◌, arith,
}
use spovm4_labs.Lab6.Layout.{is_clean, Holds}
use spovm4_labs.Lab6.Memory.{Heap, limit, write_byte, write, write_list}
use spovm4_labs.Stateful.{done, fault}

abbrev pub put_list : (ℕ → ℕ) → ℕ → List ℕ → ℕ → ℕ
put_list f a [] = f
put_list f a (b ∷ bs) = put_list (write_byte f a b) (suc a) bs

pub write-done :
    (h : Heap) (a v : ℕ)
    → a < limit h
    → write a v h ≡ done tt (record h { byte = write_byte h.byte a v })
unfolding write
write-done h a v l = rw (lt→ltb a (limit h) l) refl

pub write_list-done :
    (h : Heap) (a : ℕ) (bs : List ℕ)
    → a + length bs ≤ limit h
    → write_list a bs h ≡ done tt (record h { byte = put_list h.byte a bs })
unfolding write_list
write_list-done h a [] l = refl
write_list-done h a (b ∷ bs) l =
    rw (write-done h a b (omega arith))
      (write_list-done (record h { byte = write_byte h.byte a b }) (suc a) bs (omega arith))

-- where the end of the bytes is past the mapping
pub write_list-fault :
    (h : Heap) (a : ℕ) (bs : List ℕ)
    → a ≤ limit h
    → limit h < a + length bs
    → write_list a bs h ≡ fault
unfolding write_list write
write_list-fault h a [] l past = absurd (omega arith)
write_list-fault h a (b ∷ bs) l past = elim (Bool-cases (ltb a (limit h))) [
  | inl q ↦
      let room = ltb→lt a (limit h) q in
      rw q
        (write_list-fault (record h { byte = write_byte h.byte a b }) (suc a) bs room (omega arith))
  | inr q ↦ rw q refl
]

pub write_byte-ne : (f : ℕ → ℕ) (a v x : ℕ) → x ≢ a → write_byte f a v x ≡ f x
write_byte-ne f a v x ne = rw (==_ne x a ne) refl

pub write_byte_self : (f : ℕ → ℕ) (a v : ℕ) → write_byte f a v a ≡ v
write_byte_self f a v = rw (==_refl a) refl

pub put_list-out :
    (f : ℕ → ℕ) (a : ℕ) (bs : List ℕ) (x : ℕ)
    → (x < a) ⊎ (a + length bs ≤ x)
    → put_list f a bs x ≡ f x
put_list-out f a [] x out = refl
put_list-out f a (b ∷ bs) x out =
    put_list-out (write_byte f a b) (suc a) bs x (ground arith)
    ∙ write_byte-ne f a b x (λ e. omega arith)

pub Holds-put_list : (f : ℕ → ℕ) (a : ℕ) (bs : List ℕ) → Holds (put_list f a bs) a bs
Holds-put_list f a [] = tt
Holds-put_list f a (b ∷ bs) = (
  put_list-out (write_byte f a b) (suc a) bs a (inl (omega arith)) ∙ write_byte_self f a b,
  Holds-put_list (write_byte f a b) (suc a) bs,
)

abbrev pub zeros : ℕ → List ℕ
zeros zero = []
zeros (suc n) = 0 ∷ zeros n

pub length-zeros : (n : ℕ) → length (zeros n) ≡ n
length-zeros zero = refl
length-zeros (suc n) = ap suc (length-zeros n)

pub zeros-is_clean : (n : ℕ) → is_clean (zeros n) ≡ true
zeros-is_clean zero = refl
zeros-is_clean (suc n) = zeros-is_clean n

pub Holds-zeros :
    (f : ℕ → ℕ) (a n : ℕ) → ((x : ℕ) → a ≤ x → x < a + n → f x ≡ 0) → Holds f a (zeros n)
Holds-zeros f a zero z = tt
Holds-zeros f a (suc n) z = (
  z a (omega arith) (omega arith),
  Holds-zeros f (suc a) n (λ x l u. z x (omega arith) (omega arith)),
)
