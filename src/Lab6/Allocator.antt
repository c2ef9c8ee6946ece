-- ===== src/Lab6/Allocator.antt =====
-- lab6/src/zox-mem/zox-mem.c: allocation. A pointer that is returned is an offset from `_heap_ptr`.
use spovm4_labs.Base.{
  ltb, leb, ◌==◌, if◌then◌else◌, add_word, ℕ, zero, suc, ◌+◌, ◌-◌, Bool, false, not, ◌&&◌, List, [],
  ◌∷◌,
}
use spovm4_labs.Lab6.Block.{
  Block, eob_size, block_overhead, markup_block, get_block, get_next_block, get_previous_block,
  calculate_block_size, resize_block, mark_block_used, mark_block_free, is_block_free, split_block,
  hard_block_move,
}
use spovm4_labs.Lab6.Memory.{Heap, write_list, Host, update_heap}
use spovm4_labs.Stateful.{◌>>=◌, ◌>>◌, state, out_of_fuel, pure, Program, failing}

-- whether a block is free and has the room, tested in this order
unfoldable pub fits_in : ℕ → Block → Program Heap Bool
fits_in size block = do
  free ← is_block_free block
  if free
      then (do
        block_size ← calculate_block_size block
        pure (leb (add_word size block_overhead) block_size))
      else pure false

-- whether the next block is there and the two have the room together
unfoldable pub room_with : ℕ → Block → ℕ → Heap → Program Heap Bool
room_with new_size next_block current_size h =
    if ltb next_block.offset h.heap_size
    then (do
      next_size ← calculate_block_size next_block
      pure (leb new_size (next_size + block_overhead + current_size)))
    else pure false

-- the `while` of `_zox_malloc`: the block it stops at, and the one before
unfoldable pub fit_loop : ℕ → ℕ → Block → Block → Program Heap (Block × Block)
fit_loop zero size block last = λ _. out_of_fuel
fit_loop (suc k) size block last = do
  h ← state
  if ltb block.offset h.heap_size
      then (do
        fits ← fits_in size block
        if fits
            then pure (block, last)
            else do next ← get_next_block block h.heap_size; fit_loop k size next block)
      else pure (block, last)

-- EOB is taken away from in front of a block.
unfoldable pub clear_eob_before : Block → Program Heap (Unit {0})
clear_eob_before block =
    if ltb (block.data_ptr - 1) eob_size
    then failing
    else write_list (block.data_ptr - 1 - eob_size) (0 ∷ 0 ∷ 0 ∷ 0 ∷ [])

-- the part of `_zox_free` that joins the block with the one before
unfoldable pub join_previous : Block → Program Heap (Unit {0})
join_previous block = do
  previous ← get_previous_block block
  previous_free ← is_block_free previous
  if previous_free && not (previous.offset == block.offset) then clear_eob_before block else pure tt

-- the part that joins it with the one behind
unfoldable pub join_next : Block → Program Heap (Unit {0})
join_next block = do
  h ← state
  next ← get_next_block block h.heap_size
  if ltb next.offset h.heap_size
      then (do next_free ← is_block_free next; if next_free then clear_eob_before next else pure tt)
      else pure tt

unfoldable pub zox_free : ℕ → Program Heap (Unit {0})
zox_free free_ptr = if free_ptr == 0 then failing else do
  let block = get_block (free_ptr - 1)
  mark_block_free block
  join_previous block
  join_next block

module _ (host : Host) (behind : List ℕ) where
  -- from the first block on; every round goes on by a byte at least
  unfoldable pub malloc_mapped : ℕ → Program Heap ℕ
  malloc_mapped size = do
    h ← state
    (block, last) ← fit_loop (h.heap_size + 2) size (get_block 0) (get_block 0)
    if ltb block.offset h.heap_size
        then (do split_block block size; mark_block_used block; pure block.data_ptr)
        else (do
          free ← is_block_free last
          if free
              then (do
                update_heap host (add_word last.offset (add_word size block_overhead))
                resize_block behind last size
                mark_block_used last
                pure last.data_ptr)
              else (do
                update_heap host (add_word block.offset (add_word size block_overhead))
                markup_block behind block.offset size
                mark_block_used block
                pure block.data_ptr))

  unfoldable pub zox_malloc : ℕ → Program Heap ℕ
  zox_malloc size = do
    h ← state
    if h.is_mapped then malloc_mapped size else (do
      update_heap host (add_word size block_overhead)
      block ← markup_block behind 0 size
      mark_block_used block
      pure block.data_ptr)

  unfoldable pub zox_realloc : ℕ → ℕ → Program Heap ℕ
  zox_realloc pointer new_size = do
    let old_block = get_block pointer
    current_size ← calculate_block_size old_block
    if leb (add_word new_size block_overhead) current_size
        then (do split_block old_block new_size; pure old_block.data_ptr)
        else (do
          h ← state
          next_block ← get_next_block old_block h.heap_size
          room ← room_with new_size next_block current_size h
          if room
              then (do
                clear_eob_before next_block
                split_block old_block new_size
                pure old_block.data_ptr)
              else (do zox_free pointer; zox_malloc new_size))

-- The `while` of `_zox_defrag`, which gives the offset that the file is cut at afterwards.
unfoldable pub defrag_loop : ℕ → ℕ → Block → Program Heap ℕ
defrag_loop zero used_offset block = λ _. out_of_fuel
defrag_loop (suc k) used_offset block = do
  h ← state
  if ltb block.offset h.heap_size
      then (do
        next_block ← get_next_block block h.heap_size
        free ← is_block_free block
        used_offset ←
            (if free then pure used_offset else do
              (if block.offset == used_offset
                  then pure tt
                  else do hard_block_move block used_offset; mark_block_free block)
              used ← get_next_block (get_block used_offset) h.heap_size
              pure used.offset)
        defrag_loop k used_offset next_block)
      else pure used_offset
