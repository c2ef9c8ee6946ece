-- ===== src/ZoxFs/Bytes.antt =====
-- The bytes of a cluster's union (lab7/include/zox-fs/cluster.h): a memory is a function of the
-- address, its bytes are read modulo 256, and a `long` takes eight of them, lowest first.
use spovm4_labs.Base.{
  ℕ, zero, suc, ◌+◌, ◌*◌, ◌/◌, ◌%◌, ◌^◌, ◌≤◌, ◌<◌, ◌≡◌, refl, ◌⊎◌, inl, List, [], ◌∷◌, ap, arith,
  ◌==◌, if◌then◌else◌, length,
}
use native.Mathlib.Nat.{pow-suc}

abbrev pub Memory : Type 0
Memory = ℕ → ℕ

-- the memory after the byte `b` is written at `o`
abbrev pub poke : Memory → ℕ → ℕ → Memory
poke m o b a = if a == o then b else m a

-- the number in the `k` bytes from `o` on
unfoldable pub load : ℕ → Memory → ℕ → ℕ
load zero m o = 0
load (suc k) m o = m o % 256 + 256 * load k m (suc o)

-- the memory after `v` is written into the `k` bytes from `o` on
unfoldable pub store : ℕ → Memory → ℕ → ℕ → Memory
store zero m o v = m
store (suc k) m o v = store k (poke m o (v % 256)) (suc o) (v / 256)

-- `n` bytes from `o` on
unfoldable pub read_bytes : Memory → ℕ → ℕ → List ℕ
read_bytes m o zero = []
read_bytes m o (suc n) = m o % 256 ∷ read_bytes m (suc o) n

unfoldable pub write_bytes : Memory → ℕ → List ℕ → Memory
write_bytes m o [] = m
write_bytes m o (b ∷ bs) = write_bytes (poke m o b) (suc o) bs

poke_self : (m : Memory) (o b : ℕ) → poke m o b o ≡ b
poke_self m o b = ground arith

pub store-outside : (k : ℕ) (m : Memory) (o v a : ℕ) → (a < o) ⊎ (o + k ≤ a) → store k m o v a ≡ m a
unfolding store
store-outside zero m o v a h = refl
store-outside (suc k) m o v a h =
    ground (arith, store-outside k (poke m o (v % 256)) (suc o) (v / 256) a)

pub load-store : (k : ℕ) (m : Memory) (o v : ℕ) → v < 256 ^ k → load k (store k m o v) o ≡ v
unfolding load store
load-store zero m o v h = omega arith
load-store (suc k) m o v h =
    let m' = poke m o (v % 256) in
    let below : v / 256 < 256 ^ k = omega (arith, pow-suc 256 k) in
    omega (
      arith,
      load-store k m' (suc o) (v / 256) below,
      store-outside k m' (suc o) (v / 256) o (inl (omega arith)),
      poke_self m o (v % 256),
    )

pub load-lt : (k : ℕ) (m : Memory) (o : ℕ) → load k m o < 256 ^ k
unfolding load
load-lt zero m o = omega arith
load-lt (suc k) m o = omega (arith, pow-suc 256 k, load-lt k m (suc o))

-- A number is read from its own bytes only.
pub load-same :
    (k : ℕ) (m n : Memory) (o : ℕ)
    → ((a : ℕ) → o ≤ a → a < o + k → m a ≡ n a)
    → load k m o ≡ load k n o
unfolding load
load-same zero m n o h = refl
load-same (suc k) m n o h = omega (
  arith,
  h o (omega arith) (omega arith),
  load-same k m n (suc o) (λ a p q. h a (omega arith) (omega arith)),
)

-- A number is not changed by a write beside it.
pub load-store_apart :
    (k j : ℕ) (m : Memory) (o p v : ℕ)
    → (o + k ≤ p) ⊎ (p + j ≤ o)
    → load k (store j m p v) o ≡ load k m o
load-store_apart k j m o p v h =
    load-same k (store j m p v) m o (λ a l u. store-outside j m p v a (ground arith))

pub write_bytes-outside :
    (bs : List ℕ) (m : Memory) (o a : ℕ)
    → (a < o) ⊎ (o + length bs ≤ a)
    → write_bytes m o bs a ≡ m a
unfolding write_bytes
write_bytes-outside [] m o a h = refl
write_bytes-outside (b ∷ bs) m o a h = ground (arith, write_bytes-outside bs (poke m o b) (suc o) a)

pub read_bytes-same :
    (k : ℕ) (m n : Memory) (o : ℕ)
    → ((a : ℕ) → o ≤ a → a < o + k → m a ≡ n a)
    → read_bytes m o k ≡ read_bytes n o k
unfolding read_bytes
read_bytes-same zero m n o h = refl
read_bytes-same (suc k) m n o h = rw (
  h o (omega arith) (omega arith),
  read_bytes-same k m n (suc o) (λ a p q. h a (omega arith) (omega arith)),
)

-- every element is a byte
abbrev pub AreBytes : List ℕ → Type 0
AreBytes [] = Unit
AreBytes (b ∷ bs) = (b < 256) × AreBytes bs

pub read_bytes-write_bytes :
    (bs : List ℕ) (m : Memory) (o : ℕ)
    → AreBytes bs
    → read_bytes (write_bytes m o bs) o (length bs) ≡ bs
unfolding read_bytes write_bytes
read_bytes-write_bytes [] m o h = refl
read_bytes-write_bytes (b ∷ bs) m o h = rw (read_bytes-write_bytes bs (poke m o b) (suc o) h.1) (
    ap (λ c. c ∷ bs)
      (omega (
        arith,
        write_bytes-outside bs (poke m o b) (suc o) o (inl (omega arith)),
        poke_self m o b,
        h.0,
      )))
