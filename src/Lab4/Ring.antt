-- ===== src/Lab4/Ring.antt =====
-- lab4/src/ring/ring.c: a doubly linked ring. A function that is given `ZRE* current` returns the
-- new value of `*current`.
pub mod Links
pub mod Laws
pub mod Removal
pub mod RoundTrip
use spovm4_labs.Base.{◌==◌, if◌then◌else◌, ℕ}
use spovm4_labs.Pointers.{null, Cmd, pure, ◌>>=◌, ◌>>◌, load, store, fill, free}

-- `struct zox_ring_element`
pub record Node : Type 0 where
  pub value : ℕ
  pub next : ℕ
  pub previous : ℕ

-- `fresh` is what `malloc` returns.
unfoldable pub add : ℕ → ℕ → ℕ → Cmd Node ℕ
add fresh current value =
    if fresh == null
    then pure current
    else if current == null
    then (do fill fresh (record { value = value; next = fresh; previous = fresh }); pure fresh)
    else (do
      c ← load current
      fill fresh (record { value = value; next = c.next; previous = current })
      store current (record c { next = fresh })
      n ← load c.next
      store c.next (record n { previous = fresh })
      pure fresh)

-- the value, NULL if the ring is empty, and the new `*current`
unfoldable pub remove : ℕ → Cmd Node (ℕ × ℕ)
remove current = if current == null then pure (null, current) else do
  c ← load current
  if c.next == current then (do free current; pure (c.value, null)) else (do
    n ← load c.next
    store c.next (record n { previous = c.previous })
    p ← load c.previous
    store c.previous (record p { next = c.next })
    free current
    pure (c.value, c.previous))

unfoldable pub next : ℕ → Cmd Node ℕ
next current = if current == null then pure current else do c ← load current; pure c.next

unfoldable pub previous : ℕ → Cmd Node ℕ
previous current = if current == null then pure current else do c ← load current; pure c.previous

unfoldable pub data_of : ℕ → Cmd Node ℕ
data_of current = if current == null then pure null else do c ← load current; pure c.value
