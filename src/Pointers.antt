-- ===== src/Pointers.antt =====
-- C objects reached by pointers: an object lies at an address, NULL is 0, and an access through
-- NULL or to an object that was freed is a fault. A loop that does not end is cut by fuel.
use spovm4_labs.Base.{◌==◌, if◌then◌else◌, ℕ, ◌≡◌, ◌≢◌, false, Option, none, some, arith}

abbrev pub null : ℕ
null = 0

abbrev pub Heap : Type 0 → Type 0
Heap N = ℕ → Option N

abbrev pub write : {N : Type 0} → Heap N → ℕ → Option N → Heap N
write h p n a = if a == p then n else h a

pub data Run (N A : Type 0) : Type 0 where
  done : A → Heap N → Run N A
  fault : Run N A
  out_of_fuel : Run N A

abbrev pub Cmd : Type 0 → Type 0 → Type 0
Cmd N A = Heap N → Run N A

abbrev pub pure : {N A : Type 0} → A → Cmd N A
pure = done

module _ {N A B : Type 0} where
  abbrev pub and_then : Run N A → (A → Cmd N B) → Run N B
  and_then (done a h) k = k a h
  and_then fault k = fault
  and_then out_of_fuel k = out_of_fuel

  infixl 5 ◌>>=◌ ◌>>◌
  abbrev pub ◌>>=◌ : Cmd N A → (A → Cmd N B) → Cmd N B
  m >>= k = λ h. and_then (m h) k

  abbrev pub ◌>>◌ : Cmd N A → Cmd N B → Cmd N B
  m >> n = m >>= λ _. n

module _ {N : Type 0} where
  -- `*p`
  unfoldable pub load : ℕ → Cmd N N
  load p h = if p == null then fault else elim (h p) [ none ↦ fault | some n ↦ done n h ]

  -- `*p = n` where `p` points to an object
  unfoldable pub store : ℕ → N → Cmd N (Unit {0})
  unfolding load
  store p n = do load p; λ h. done tt (write h p (some n))

  -- the object that `malloc` has returned at `p`, filled; a fault if it returned NULL
  unfoldable pub fill : ℕ → N → Cmd N (Unit {0})
  fill p n h = if p == null then fault else done tt (write h p (some n))

  unfoldable pub free : ℕ → Cmd N (Unit {0})
  unfolding load
  free p = do load p; λ h. done tt (write h p none)

  -- `p` points to the object `n`.
  pub record Points (h : Heap N) (p : ℕ) (n : N) : Type 0 where
    pub not_null : (p == null) ≡ false
    pub holds : h p ≡ some n

  pub load-done : (h : Heap N) (p : ℕ) (n : N) → Points h p n → load p h ≡ done n h
  unfolding load
  load-done h p n e = rw (e.not_null, e.holds)

  pub store-done :
      (h : Heap N) (p : ℕ) (n m : N) → Points h p n → store p m h ≡ done tt (write h p (some m))
  unfolding store
  store-done h p n m e = rw (e.not_null, e.holds)

  pub free-done : (h : Heap N) (p : ℕ) (n : N) → Points h p n → free p h ≡ done tt (write h p none)
  unfolding free
  free-done h p n e = rw (e.not_null, e.holds)

  pub fill-done :
      (h : Heap N) (p : ℕ) (n : N) → (p == null) ≡ false → fill p n h ≡ done tt (write h p (some n))
  unfolding fill
  fill-done h p n e = rw e

  pub Points-write_self :
      (h : Heap N) (p : ℕ) (n : N) → (p == null) ≡ false → Points (write h p (some n)) p n
  Points-write_self h p n e = record { not_null = e; holds = ground arith }

  pub Points-write_ne :
      (h : Heap N) (p q : ℕ) (m : Option N) (n : N)
      → p ≢ q
      → Points h p n
      → Points (write h q m) p n
  Points-write_ne h p q m n ne e = record { not_null = e.not_null; holds = ground arith }
