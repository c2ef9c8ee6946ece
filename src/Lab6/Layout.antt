-- ===== src/Lab6/Layout.antt =====
-- What the bytes of the heap stand for: blocks that lie one behind the other.
use mathlib.Core.Path.{subst}
use spovm4_labs.Base.{
  length, length-append, if◌then◌else◌, ℕ, suc, ◌+◌, ◌≤◌, ◌<◌, ◌≡◌, refl, sym, ◌∙◌, Bool, true,
  false, not, ◌&&◌, List, [], ◌∷◌, ◌++◌, arith,
}
use spovm4_labs.Base.Text.{starts_with}
use spovm4_labs.Lab6.Block.{eob, block_overhead, free_mark, used_mark}

-- A block's data is a list; used or free, it ends with EOB.
pub record Chunk : Type 0 where
  pub is_used : Bool
  pub payload : List ℕ

abbrev pub mark : Bool → ℕ
mark u = if u then used_mark else free_mark

-- EOB stands nowhere in the data, nor across its end.
abbrev pub is_clean : List ℕ → Bool
is_clean [] = true
is_clean (b ∷ p) = not (starts_with ((b ∷ p) ++ eob) eob) && is_clean p

abbrev pub Holds : (ℕ → ℕ) → ℕ → List ℕ → Type 0
Holds f a [] = Unit
Holds f a (b ∷ bs) = (f a ≡ b) × Holds f (suc a) bs

abbrev pub extent : Chunk → ℕ
extent c = length c.payload + block_overhead

pub record IsAt (f : ℕ → ℕ) (o : ℕ) (c : Chunk) : Type 0 where
  pub marked : f o ≡ mark c.is_used
  pub filled : Holds f (suc o) (c.payload ++ eob)
  pub clean : is_clean c.payload ≡ true

-- The blocks `cs` lie one behind the other from `o` to `e`.
abbrev pub Lie : (ℕ → ℕ) → ℕ → List Chunk → ℕ → Type 0
Lie f o [] e = o ≡ e
Lie f o (c ∷ cs) e = IsAt f o c × Lie f (o + extent c) cs e

abbrev pub extents : List Chunk → ℕ
extents [] = 0
extents (c ∷ cs) = extent c + extents cs

pub Holds-agree :
    (f g : ℕ → ℕ) (a : ℕ) (bs : List ℕ)
    → ((x : ℕ) → a ≤ x → x < a + length bs → g x ≡ f x)
    → Holds f a bs
    → Holds g a bs
Holds-agree f g a [] same h = tt
Holds-agree f g a (b ∷ bs) same (e, h) = (
  same a (omega arith) (omega arith) ∙ e,
  Holds-agree f g (suc a) bs (λ x l u. same x (omega arith) (omega arith)) h,
)

pub Holds-join :
    (f : ℕ → ℕ) (a m : ℕ) (bs cs : List ℕ)
    → m ≡ a + length bs
    → Holds f a bs
    → Holds f m cs
    → Holds f a (bs ++ cs)
Holds-join f a m [] cs e h k = subst (λ n. Holds f n cs) (omega arith) k
Holds-join f a m (b ∷ bs) cs e (h, hs) k = (h, Holds-join f (suc a) m bs cs (omega arith) hs k)

pub Holds-front : (f : ℕ → ℕ) (a : ℕ) (bs cs : List ℕ) → Holds f a (bs ++ cs) → Holds f a bs
Holds-front f a [] cs h = tt
Holds-front f a (b ∷ bs) cs (h, hs) = (h, Holds-front f (suc a) bs cs hs)

pub Holds-back :
    (f : ℕ → ℕ) (a m : ℕ) (bs cs : List ℕ) → m ≡ a + length bs → Holds f a (bs ++ cs) → Holds f m cs
Holds-back f a m [] cs e h = subst (λ n. Holds f n cs) (omega arith) h
Holds-back f a m (b ∷ bs) cs e (h, hs) = Holds-back f (suc a) m bs cs (omega arith) hs

pub Lie-end : (f : ℕ → ℕ) (o e : ℕ) (cs : List Chunk) → Lie f o cs e → e ≡ o + extents cs
Lie-end f o e [] l = omega arith
Lie-end f o e (c ∷ cs) (c', l) = omega (arith, Lie-end f (o + extent c) e cs l)

pub IsAt-agree :
    (f g : ℕ → ℕ) (o : ℕ) (c : Chunk)
    → ((x : ℕ) → o ≤ x → x < o + extent c → g x ≡ f x)
    → IsAt f o c
    → IsAt g o c
IsAt-agree f g o c same h = record {
  marked = same o (omega arith) (omega arith) ∙ h.marked;
  filled =
      Holds-agree f g (suc o) (c.payload ++ eob)
        (λ x l u. same x (omega arith) (omega (arith, length-append c.payload eob))) h.filled;
  clean = h.clean;
}

pub Lie-agree :
    (f g : ℕ → ℕ) (o e : ℕ) (cs : List Chunk)
    → ((x : ℕ) → o ≤ x → x < e → g x ≡ f x)
    → Lie f o cs e
    → Lie g o cs e
Lie-agree f g o e [] same h = h
Lie-agree f g o e (c ∷ cs) same (h, l) =
    let size = Lie-end f (o + extent c) e cs l in
    (
      IsAt-agree f g o c (λ x b u. same x b (omega arith)) h,
      Lie-agree f g (o + extent c) e cs (λ x b u. same x (omega arith) u) l,
    )

-- blocks in front of others
pub Lie-join :
    (f : ℕ → ℕ) (o m e : ℕ) (cs ds : List Chunk)
    → Lie f o cs m
    → Lie f m ds e
    → Lie f o (cs ++ ds) e
Lie-join f o m e [] ds l k = subst (λ n. Lie f n ds e) (sym l) k
Lie-join f o m e (c ∷ cs) ds (h, l) k = (h, Lie-join f (o + extent c) m e cs ds l k)

pub Lie-split :
    (f : ℕ → ℕ) (o e : ℕ) (cs ds : List Chunk)
    → Lie f o (cs ++ ds) e
    → Lie f o cs (o + extents cs) × Lie f (o + extents cs) ds e
Lie-split f o e [] ds l = (omega arith, subst (λ n. Lie f n ds e) (omega arith) l)
Lie-split f o e (c ∷ cs) ds (h, l) =
    let (front, back) = Lie-split f (o + extent c) e cs ds l in
    let q : o + extent c + extents cs ≡ o + (extent c + extents cs) = omega arith in
    ((h, subst (λ n. Lie f (o + extent c) cs n) q front), subst (λ n. Lie f n ds e) q back)

pub neither_and : (a b : Bool) → (not a && b) ≡ true → (a ≡ false) × (b ≡ true)
neither_and true b h = cc
neither_and false b h = (refl, h)

pub is_clean-cons :
    (b : ℕ) (p : List ℕ)
    → is_clean (b ∷ p) ≡ true
    → (starts_with ((b ∷ p) ++ eob) eob ≡ false) × (is_clean p ≡ true)
is_clean-cons b p h = neither_and (starts_with ((b ∷ p) ++ eob) eob) (is_clean p) h
