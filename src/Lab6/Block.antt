-- ===== src/Lab6/Block.antt =====
-- lab6/src/zox-mem/heap_block.c: blocks of the heap. A block is a byte that says whether it is used,
-- its data, and the mark EOB at its end.
use spovm4_labs.Base.{
  ltb, ◌==◌, if◌then◌else◌, sub_word, ℕ, zero, suc, ◌+◌, ◌-◌, Bool, true, false, not, ◌&&◌, List,
  [], ◌∷◌, ◌++◌,
}
use spovm4_labs.Lab6.Memory.{Heap, limit, read, write, write_list}
use spovm4_labs.Stateful.{◌>>=◌, ◌>>◌, out_of_fuel, pure, Program, failing}

-- `heap_block_t`, whose `heap` is always `_heap_ptr`
pub record Block : Type 0 where
  pub offset : ℕ
  pub data_ptr : ℕ

-- the bytes of EOB
abbrev pub eob : List ℕ
eob = 0x1B ∷ 0x7C ∷ 0x7C ∷ 0x1B ∷ []

abbrev pub eob_size : ℕ
eob_size = 4

-- BLOCK_OVERHEAD
abbrev pub block_overhead : ℕ
block_overhead = 5

abbrev pub free_mark : ℕ
free_mark = b'f'

abbrev pub used_mark : ℕ
used_mark = b'u'

-- `behind` is the C string that follows EOB in the program's memory: `strcpy` copies it too, since
-- EOB holds no NUL.
unfoldable pub markup_block : List ℕ → ℕ → ℕ → Program Heap Block
markup_block behind offset size = do
  write offset free_mark
  write_list (offset + size + 1) (eob ++ (behind ++ 0 ∷ []))
  pure (record { offset = offset; data_ptr = 1 })

abbrev pub get_block : ℕ → Block
get_block offset = record { offset = offset; data_ptr = offset + 1 }

-- `for(; i < sizeof(EOB); i++) if (heap[a+i] != EOB.as_char[i]) break`, and whether all were equal
unfoldable pub match_bytes : List ℕ → ℕ → Program Heap Bool
match_bytes [] a = pure true
match_bytes (e ∷ es) a = do b ← read a; if b == e then match_bytes es (suc a) else pure false

-- The loop of `get_next_block`. The offset goes up with every test, the last one too. A round more
-- than `total_size` is enough.
unfoldable pub next_loop : ℕ → ℕ → ℕ → Bool → Program Heap ℕ
next_loop zero total_size offset found = λ _. out_of_fuel
next_loop (suc k) total_size offset found =
    if ltb offset (sub_word total_size eob_size) && not found
    then (do found ← match_bytes eob (offset + 1); next_loop k total_size (offset + 1) found)
    else pure (offset + 1)

unfoldable pub get_next_block : Block → ℕ → Program Heap Block
get_next_block previous_block total_size = do
  offset ← next_loop (total_size + 2) total_size previous_block.offset false
  pure (get_block (offset + eob_size - 1))

-- the same comparison from the last byte to the first, the one before `a` first; before the heap
-- an access faults
unfoldable pub match_back : List ℕ → ℕ → Program Heap Bool
match_back [] a = pure true
match_back (e ∷ es) zero = failing
match_back (e ∷ es) (suc a) = do b ← read a; if b == e then match_back es a else pure false

unfoldable pub previous_loop : ℕ → Bool → Program Heap ℕ
previous_loop zero found = pure zero
previous_loop (suc offset) found =
    if found
    then pure (suc offset)
    else do found ← match_back eob (suc offset); previous_loop offset found

unfoldable pub get_previous_block : Block → Program Heap Block
get_previous_block block =
    if ltb block.offset eob_size
    then pure (get_block 0)
    else do offset ← previous_loop (block.offset - eob_size) false; pure (get_block (offset + 1))

-- The loop of `calculate_block_size`. It ends at the end of the mapping at the latest.
unfoldable pub size_loop : ℕ → ℕ → ℕ → Program Heap ℕ
size_loop zero start size = λ _. out_of_fuel
size_loop (suc k) start size = do
  found ← match_bytes eob (start + size)
  if found then pure (size + 1) else size_loop k start (size + 1)

unfoldable pub calculate_block_size : Block → Program Heap ℕ
calculate_block_size block h = size_loop (suc (limit h)) block.data_ptr 0 h

unfoldable pub resize_block : List ℕ → Block → ℕ → Program Heap (Unit {0})
resize_block behind block size = do
  block_size ← calculate_block_size block
  write_list (block.offset + block_size) (0 ∷ 0 ∷ 0 ∷ 0 ∷ [])
  markup_block behind block.offset size
  pure tt

unfoldable pub mark_block_used : Block → Program Heap (Unit {0})
mark_block_used block = write (block.data_ptr - 1) used_mark

unfoldable pub mark_block_free : Block → Program Heap (Unit {0})
mark_block_free block = write (block.data_ptr - 1) free_mark

unfoldable pub is_block_free : Block → Program Heap Bool
is_block_free block = do b ← read (block.data_ptr - 1); pure (b == free_mark)

unfoldable pub split_block : Block → ℕ → Program Heap (Unit {0})
split_block block size = do
  was_used ← read (block.data_ptr - 1)
  write_list (block.offset + 1 + size) eob
  write (block.offset + size + eob_size + 1) was_used

-- `for (int i = 0; i < n; i++) heap[move_to + i] = heap[from + i]`
unfoldable pub copy_bytes : ℕ → ℕ → ℕ → Program Heap (Unit {0})
copy_bytes zero from move_to = pure tt
copy_bytes (suc n) from move_to = do
  b ← read from
  write move_to b
  copy_bytes n (suc from) (suc move_to)

unfoldable pub hard_block_move : Block → ℕ → Program Heap (Unit {0})
hard_block_move block move_to = do
  block_size ← calculate_block_size block
  copy_bytes (block_size + eob_size) block.offset move_to
