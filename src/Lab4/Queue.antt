-- ===== src/Lab4/Queue.antt =====
-- lab4/src/queue/queue.c: a linked queue. A function that is given `ZQE* tail` returns the new
-- value of `*tail`, the end from which `poll` takes.
pub mod Chain
pub mod Laws
use spovm4_labs.Base.{◌==◌, if◌then◌else◌, ℕ, zero, suc, List, [], ◌∷◌}
use spovm4_labs.Pointers.{null, out_of_fuel, Cmd, pure, ◌>>=◌, ◌>>◌, load, store, fill, free}

-- `struct zox_queue_element`
pub record Element : Type 0 where
  pub value : ℕ
  pub next : ℕ

-- `while((*tail)->next != NULL) *tail = (*tail)->next`
unfoldable pub walk : ℕ → ℕ → Cmd Element ℕ
walk zero tail = λ _. out_of_fuel
walk (suc k) tail = do n ← load tail; if n.next == null then pure tail else walk k n.next

-- `fresh` is what `malloc` returns.
unfoldable pub offer : ℕ → ℕ → ℕ → ℕ → Cmd Element ℕ
unfolding walk
offer fuel fresh tail value = do
  fill fresh (record { value = value; next = null })
  if tail == null then pure fresh else do
    last ← walk fuel tail
    n ← load last
    store last (record n { next = fresh })
    pure last

-- the value, NULL if the queue is empty, and the new `*tail`
unfoldable pub poll : ℕ → Cmd Element (ℕ × ℕ)
poll tail =
    if tail == null
    then pure (null, tail)
    else do popped ← load tail; free tail; pure (popped.value, popped.next)

-- The loops of `erase` and `empty`: the values of the elements that are freed, in order, and the
-- new `*tail`. `erase` frees these values too.
unfoldable pub drop_loop : ℕ → ℕ → Cmd Element (List ℕ × ℕ)
drop_loop zero tail = λ _. out_of_fuel
drop_loop (suc k) tail = do
  t ← load tail
  if t.next == null
      then pure ([], tail)
      else do free tail; (values, last) ← drop_loop k t.next; pure (t.value ∷ values, last)

-- the values that are freed, and the new `*tail`
unfoldable pub erase : ℕ → ℕ → Cmd Element (List ℕ × ℕ)
erase fuel tail = if tail == null then pure ([], tail) else drop_loop fuel tail

unfoldable pub empty : ℕ → ℕ → Cmd Element ℕ
empty fuel tail = if tail == null then pure tail else do (_, last) ← drop_loop fuel tail; pure last
