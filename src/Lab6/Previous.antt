-- ===== src/Lab6/Previous.antt =====
-- `get_previous_block` on a heap of blocks.
use mathlib.Core.Path.{subst}
use spovm4_labs.Base.{
  length, length-append, leb, ◌==◌, if◌then◌else◌, lt→ltb, le→ltb, ==_iff, ==_false, Bool-cases, ℕ,
  zero, suc, ◌+◌, ◌-◌, ◌≤◌, ◌<◌, ◌≡◌, refl, sym, ap, ◌∙◌, ◌≢◌, inl, inr, Bool, true, false, List,
  [], ◌∷◌, ◌++◌, arith,
}
use spovm4_labs.Lab6.Block.{
  eob, eob_size, get_block, match_bytes, match_back, previous_loop, get_previous_block,
}
use spovm4_labs.Lab6.Layout.{IsAt, Chunk, mark, is_clean, Holds, extent, Holds-back, is_clean-cons}
use spovm4_labs.Lab6.Memory.{Heap, limit, read}
use spovm4_labs.Lab6.Search.{match_bytes-starts_with}
use spovm4_labs.Stateful.{and_then, done, pure}

-- a byte that is none of these
abbrev pub Differs : ℕ → List ℕ → Type 0
Differs b [] = Unit
Differs b (e ∷ t) = (b ≢ e) × Differs b t

-- An address among those compared holds none of the bytes: they do not match.
match_back-ne :
    (h : Heap) (t : List ℕ) (a y : ℕ)
    → y < a
    → a ≤ y + length t
    → a ≤ limit h
    → Differs (h.byte y) t
    → match_back t a h ≡ done false h
unfolding match_back read
match_back-ne h [] a y lt le room d = absurd (omega arith)
match_back-ne h (e ∷ t) zero y lt le room d = absurd (omega arith)
match_back-ne h (e ∷ t) (suc a) y lt le room (ne, d) =
    rw (lt→ltb a (limit h) (omega arith)) (elim (Bool-cases (h.byte a == e)) [
      | inl q ↦ rw q (match_back-ne h t a y (before q) (omega arith) (omega arith) d)
      | inr q ↦ rw q refl
    ])
  where
    before : (h.byte a == e) ≡ true → y < a
    before q = elim (Bool-cases (y == a)) [
      | inl same ↦ absurd (ne (ap h.byte ((==_iff y a).0 same) ∙ (==_iff (h.byte a) e).0 q))
      | inr other ↦ omega (arith, ==_false y a other)
    ]

module _ (h : Heap) (e : ℕ) (t : List ℕ) (a : ℕ) (l : a < limit h) where
  match_back-round :
      match_back (e ∷ t) (suc a) h ≡ (if h.byte a == e then match_back t a h else done false h)
  unfolding match_back read
  match_back-round =
      rw (lt→ltb a (limit h) l)
        (elim (Bool-cases (h.byte a == e)) [ inl q ↦ rw q refl | inr q ↦ rw q refl ])

  match_bytes-round :
      match_bytes (e ∷ t) a h ≡ (if h.byte a == e then match_bytes t (suc a) h else done false h)
  unfolding match_bytes read
  match_bytes-round =
      rw (lt→ltb a (limit h) l)
        (elim (Bool-cases (h.byte a == e)) [ inl q ↦ rw q refl | inr q ↦ rw q refl ])

nested_if :
    {A : Type 0} (a b c d : Bool) (x y : A)
    → (if d then (if c then (if b then (if a then x else y) else y) else y) else y)
      ≡ (if a then (if b then (if c then (if d then x else y) else y) else y) else y)
nested_if true true true true x y = refl
nested_if true true true false x y = refl
nested_if true true false true x y = refl
nested_if true true false false x y = refl
nested_if true false true true x y = refl
nested_if true false true false x y = refl
nested_if true false false true x y = refl
nested_if true false false false x y = refl
nested_if false b c d x y = ground arith

-- EOB reads the same from its end.
match_back-eob :
    (h : Heap) (a : ℕ)
    → a + eob_size ≤ limit h
    → match_back eob (suc (suc (suc (suc a)))) h ≡ match_bytes eob a h
unfolding match_back match_bytes
match_back-eob h a room =
    let b = suc a in
    let c = suc b in
    let d = suc c in
    rw
      (
        match_back-round h 0x1B (0x7C ∷ 0x7C ∷ 0x1B ∷ []) d (omega arith),
        match_back-round h 0x7C (0x7C ∷ 0x1B ∷ []) c (omega arith),
        match_back-round h 0x7C (0x1B ∷ []) b (omega arith),
        match_back-round h 0x1B [] a (omega arith),
        match_bytes-round h 0x1B (0x7C ∷ 0x7C ∷ 0x1B ∷ []) a (omega arith),
        match_bytes-round h 0x7C (0x7C ∷ 0x1B ∷ []) b (omega arith),
        match_bytes-round h 0x7C (0x1B ∷ []) c (omega arith),
        match_bytes-round h 0x1B [] d (omega arith),
      )
      (nested_if (h.byte a == 0x1B) (h.byte b == 0x7C) (h.byte c == 0x7C) (h.byte d == 0x1B)
        (done true h) (done false h))

-- In the data of a block no place matches.
match_bytes-inside :
    (h : Heap) (a x : ℕ) (p : List ℕ)
    → Holds h.byte a (p ++ eob)
    → is_clean p ≡ true
    → a + length p + eob_size ≤ limit h
    → a ≤ x
    → x < a + length p
    → match_bytes eob x h ≡ done false h
match_bytes-inside h a x [] hs clean room l u = absurd (omega arith)
match_bytes-inside h a x (b ∷ p) hs clean room l u =
    let (apart, rest) = is_clean-cons b p clean in
    elim (Bool-cases (x == a)) [
      | inl q ↦
          ap (λ y. match_bytes eob y h) ((==_iff x a).0 q)
          ∙ match_bytes-starts_with h eob ((b ∷ p) ++ eob) a hs (omega (arith, length-append p eob))
              (omega (arith, length-append p eob))
          ∙ ap (λ v. done v h) apart
      | inr q ↦
          match_bytes-inside h (suc a) x p hs.1 rest (omega arith) (omega (arith, ==_false x a q))
            (omega arith)
    ]

mark-Differs : (u : Bool) → Differs (mark u) eob
mark-Differs true =
    ((λ z. omega arith), ((λ z. omega arith), ((λ z. omega arith), ((λ z. omega arith), tt))))
mark-Differs false =
    ((λ z. omega arith), ((λ z. omega arith), ((λ z. omega arith), ((λ z. omega arith), tt))))

module _ (h : Heap) (o : ℕ) (c : Chunk) (at : IsAt h.byte o c) (room : o + extent c ≤ limit h) where
  -- from the block's EOB back to its mark nothing is found
  match_back-inside :
      (a : ℕ) → o < a → a ≤ o + length c.payload + 1 → match_back eob a h ≡ done false h
  match_back-inside a l u = elim (Bool-cases (leb (o + 5) a)) [
    | inl q ↦
        let e : suc (suc (suc (suc (a - 4)))) ≡ a = ground arith in
        rw⁻¹ e (
          match_back-eob h (a - 4) (ground arith)
          ∙ match_bytes-inside h (suc o) (a - 4) c.payload at.filled at.clean (ground arith)
              (ground arith) (ground arith))
    | inr q ↦
        match_back-ne h eob a o l (ground arith) (ground arith)
          (subst (λ b. Differs b eob) (sym at.marked) (mark-Differs c.is_used))
  ]

  previous_loop-round :
      (a : ℕ)
      → o ≤ a
      → a ≤ o + length c.payload
      → previous_loop (suc a) false h ≡ previous_loop a false h
  unfolding previous_loop
  previous_loop-round a l u = rw (match_back-inside (suc a) (omega arith) (omega arith)) refl

  previous_loop-inside :
      (n : ℕ) → n ≤ length c.payload + 1 → previous_loop (n + o) false h ≡ previous_loop o false h
  previous_loop-inside zero l = let e : 0 + o ≡ o = omega arith in rw e refl
  previous_loop-inside (suc n) l =
      let e : suc n + o ≡ suc (n + o) = omega arith in
      rw e (
        previous_loop-round (n + o) (omega arith) (omega arith)
        ∙ previous_loop-inside n (omega arith))

  -- the search from the block behind, at what it finds at the block's mark
  pub get_previous_block-loop :
      get_previous_block (get_block (o + extent c)) h
      ≡ and_then (previous_loop o false h) (λ a. pure (get_block (a + 1)))
  unfolding get_previous_block
  get_previous_block-loop =
      let e : o + extent c - eob_size ≡ length c.payload + 1 + o = omega arith in
      rw
        (
          le→ltb (o + extent c) eob_size (omega arith),
          e,
          previous_loop-inside (length c.payload + 1) (omega arith),
        )
        refl

previous_loop-true : (n : ℕ) (h : Heap) → previous_loop n true h ≡ done n h
unfolding previous_loop
previous_loop-true zero h = refl
previous_loop-true (suc n) h = refl

previous_loop-match :
    (h : Heap) (a : ℕ)
    → match_back eob (suc a) h ≡ done true h
    → previous_loop (suc a) false h ≡ done a h
unfolding previous_loop
previous_loop-match h a run = rw run (previous_loop-true a h)

-- Behind the first block, get_previous_block does not find that block, but its first data byte.
pub get_previous_block-first :
    (h : Heap) (c : Chunk)
    → IsAt h.byte 0 c
    → extent c ≤ limit h
    → get_previous_block (get_block (extent c)) h ≡ done (get_block 1) h
unfolding previous_loop
get_previous_block-first h c at room =
    let e : 0 + extent c ≡ extent c = omega arith in
    subst (λ n. get_previous_block (get_block n) h ≡ done (get_block 1) h) e
      (get_previous_block-loop h 0 c at (omega arith))

-- Behind any other block, get_previous_block finds that block.
pub get_previous_block-IsAt :
    (h : Heap) (o : ℕ) (b c : Chunk)
    → IsAt h.byte o b
    → IsAt h.byte (o + extent b) c
    → o + extent b + extent c ≤ limit h
    → get_previous_block (get_block (o + extent b + extent c)) h ≡ done (get_block (o + extent b)) h
get_previous_block-IsAt h o b c at at' room =
    let a : ℕ = o + length b.payload + 1 in
    let four : suc (suc (suc (suc a))) ≡ o + extent b = omega arith in
    let e : suc (suc (suc a)) + 1 ≡ o + extent b = omega arith in
    let run : match_back eob (suc (suc (suc (suc a)))) h ≡ done true h =
      match_back-eob h a (omega arith)
      ∙ match_bytes-starts_with h eob eob a
          (Holds-back h.byte (suc o) a b.payload eob (omega arith) at.filled) (omega arith)
          (omega arith) in
    get_previous_block-loop h (o + extent b) c at' room
    ∙ ap (λ n. and_then (previous_loop n false h) (λ a. pure (get_block (a + 1)))) (sym four)
    ∙ ap (λ r. and_then r (λ a. pure (get_block (a + 1))))
        (previous_loop-match h (suc (suc (suc a))) run)
    ∙ ap (λ n. done (get_block n) h) e
