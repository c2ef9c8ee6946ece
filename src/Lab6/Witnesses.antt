-- ===== src/Lab6/Witnesses.antt =====
-- The theorems on the allocator applied to small heaps.
use spovm4_labs.Base.{length, get_or, ℕ, ◌≡◌, refl, true, false, List, [], ◌∷◌, ◌++◌, arith}
use spovm4_labs.Lab6.Allocator.{fit_loop, zox_free, zox_malloc, zox_realloc}
use spovm4_labs.Lab6.Append.{new_chunk}
use spovm4_labs.Lab6.Block.{eob, free_mark, get_block}
use spovm4_labs.Lab6.Cut.{zox_malloc-cut}
use spovm4_labs.Lab6.Fit.{fit_loop-first_fit}
use spovm4_labs.Lab6.Free.{freed}
use spovm4_labs.Lab6.Grow.{grown, zox_malloc-grow}
use spovm4_labs.Lab6.Join.{join}
use spovm4_labs.Lab6.Layout.{IsAt, Chunk, mark, Holds}
use spovm4_labs.Lab6.Malloc.{Represents, zox_malloc-append}
use spovm4_labs.Lab6.Memory.{Heap, Host}
use spovm4_labs.Lab6.Realloc.{zox_realloc-shifted}
use spovm4_labs.Lab6.Release.{zox_free-Represents, zox_free-second}
use spovm4_labs.Lab6.Split.{zox_malloc-exact, zox_malloc-split}
use spovm4_labs.Lab6.Writes.{zeros}
use spovm4_labs.Stateful.{done, fault}

abbrev allowing : Host
allowing = record { opens = true; truncates = true }

abbrev empty_heap : Heap
empty_heap = record { is_mapped = false; heap_size = 0; byte = λ a. 0 }

abbrev chunk_bytes : Chunk → List ℕ
chunk_bytes c = mark c.is_used ∷ (c.payload ++ eob)

abbrev bytes_of : List Chunk → List ℕ
bytes_of [] = []
bytes_of (c ∷ cs) = chunk_bytes c ++ bytes_of cs

abbrev heap_of : List Chunk → Heap
heap_of cs = record {
  is_mapped = true;
  heap_size = length (bytes_of cs);
  byte = λ a. get_or (bytes_of cs) a 0;
}

abbrev used_chunk : List ℕ → Chunk
used_chunk p = record { is_used = true; payload = p }

abbrev free_chunk : List ℕ → Chunk
free_chunk p = record { is_used = false; payload = p }

abbrev two : Chunk
two = used_chunk (7 ∷ 8 ∷ [])

abbrev seven : Chunk
seven = free_chunk (1 ∷ 2 ∷ 3 ∷ 4 ∷ 5 ∷ 6 ∷ 7 ∷ [])

abbrev effs : Chunk
effs = used_chunk (b'f' ∷ 9 ∷ [])

abbrev with_room : Heap
with_room = heap_of (two ∷ seven ∷ two ∷ [])

abbrev four_blocks : Heap
four_blocks = heap_of (two ∷ seven ∷ two ∷ seven ∷ [])

abbrev eff_first : Heap
eff_first = heap_of (effs ∷ two ∷ two ∷ [])

abbrev used_seven : Chunk
used_seven = used_chunk (1 ∷ 2 ∷ 3 ∷ 4 ∷ 5 ∷ 6 ∷ 7 ∷ [])

abbrev with_seven : Heap
with_seven = heap_of (two ∷ used_seven ∷ two ∷ [])

with_seven-Represents : Represents with_seven (two ∷ used_seven ∷ two ∷ [])
with_seven-Represents = record {
  mapped = refl;
  laid = (
    record { marked = refl; filled = omega arith; clean = refl },
    (
      record { marked = refl; filled = omega arith; clean = refl },
      (record { marked = refl; filled = omega arith; clean = refl }, refl),
    ),
  );
  small = omega arith;
}

two-IsAt : IsAt with_room.byte 0 two
two-IsAt = record { marked = refl; filled = omega arith; clean = refl }

with_room-Represents : Represents with_room (two ∷ seven ∷ two ∷ [])
with_room-Represents = record {
  mapped = refl;
  laid = (
    two-IsAt,
    (
      record { marked = refl; filled = omega arith; clean = refl },
      (record { marked = refl; filled = omega arith; clean = refl }, refl),
    ),
  );
  small = omega arith;
}

four_blocks-Represents : Represents four_blocks (two ∷ seven ∷ two ∷ seven ∷ [])
four_blocks-Represents = record {
  mapped = refl;
  laid = (
    record { marked = refl; filled = omega arith; clean = refl },
    (
      record { marked = refl; filled = omega arith; clean = refl },
      (
        record { marked = refl; filled = omega arith; clean = refl },
        (record { marked = refl; filled = omega arith; clean = refl }, refl),
      ),
    ),
  );
  small = omega arith;
}

eff_first-Represents : Represents eff_first (effs ∷ two ∷ two ∷ [])
eff_first-Represents = record {
  mapped = refl;
  laid = (
    record { marked = refl; filled = omega arith; clean = refl },
    (
      record { marked = refl; filled = omega arith; clean = refl },
      (record { marked = refl; filled = omega arith; clean = refl }, refl),
    ),
  );
  small = omega arith;
}

zox_malloc-append_example :
    (h' : Heap) × (zox_malloc allowing [] 20 with_room ≡ done 27 h')
    × Represents h' (two ∷ seven ∷ two ∷ new_chunk 20 ∷ [])
zox_malloc-append_example =
    zox_malloc-append allowing [] refl refl with_room 20 (two ∷ seven ∷ []) two with_room-Represents
      refl refl (omega arith) (omega arith)

zox_malloc-split_example :
    (h' : Heap) × (zox_malloc allowing [] 2 with_room ≡ done 8 h')
    × Represents h' (two ∷ used_chunk (1 ∷ 2 ∷ []) ∷ free_chunk [] ∷ two ∷ [])
zox_malloc-split_example =
    zox_malloc-split allowing [] with_room 2 (two ∷ []) (two ∷ []) seven with_room-Represents refl
      refl (omega arith) (omega arith) refl

zox_malloc-exact_example :
    (h' : Heap) × (zox_malloc allowing [] 3 with_room ≡ done 8 h')
    × (with_room.byte 15 ≡ 0x1B)
    × (h'.byte 15 ≡ free_mark)
zox_malloc-exact_example =
    zox_malloc-exact allowing [] with_room 3 (two ∷ []) (two ∷ []) seven with_room-Represents refl
      refl (omega arith) refl

fit_loop-first_fit_example :
    fit_loop 4 2 (get_block 0) (get_block 0) with_room ≡ done (get_block 7, get_block 0) with_room
fit_loop-first_fit_example =
    fit_loop-first_fit with_room (omega arith) 2 (omega arith) 4 0 0 (two ∷ seven ∷ two ∷ [])
      with_room-Represents.laid (omega arith)

zox_free-Represents_example :
    (h' : Heap) × (zox_free 20 four_blocks ≡ done tt h')
    × Represents h' (two ∷ join (join seven (freed two)) seven ∷ [])
zox_free-Represents_example =
    zox_free-Represents four_blocks [] (seven ∷ []) two seven two four_blocks-Represents

zox_free-second_example :
    (h' : Heap) × (zox_free 8 eff_first ≡ done tt h')
    × Represents h' (join effs (freed two) ∷ two ∷ [])
zox_free-second_example =
    zox_free-second eff_first effs two two (9 ∷ []) [] eff_first-Represents refl refl

zox_realloc-shifted_example :
    (h' : Heap) × (zox_realloc allowing [] 8 1 with_seven ≡ done 9 h')
    × Holds h'.byte 10 (eob ++ 1 ∷ [])
zox_realloc-shifted_example =
    zox_realloc-shifted allowing [] with_seven (two ∷ []) (two ∷ []) used_seven 1
      (2 ∷ 3 ∷ 4 ∷ 5 ∷ 6 ∷ 7 ∷ []) 1 with_seven-Represents refl (omega arith)

zox_malloc-grow_example :
    (h' : Heap) × (zox_malloc allowing [] 9 four_blocks ≡ done 27 h')
    × Represents h' (two ∷ seven ∷ two ∷ grown 9 seven ∷ [])
zox_malloc-grow_example =
    zox_malloc-grow allowing [] refl refl four_blocks 9 (two ∷ seven ∷ two ∷ []) seven
      four_blocks-Represents refl refl (omega arith) (omega arith) (omega arith)

-- after malloc of ten bytes and free
abbrev one_free : Heap
one_free = heap_of (free_chunk (zeros 10) ∷ [])

one_free-Represents : Represents one_free (free_chunk (zeros 10) ∷ [])
one_free-Represents = record {
  mapped = refl;
  laid = (record { marked = refl; filled = omega arith; clean = refl }, refl);
  small = omega arith;
}

zox_malloc-cut_example : zox_malloc allowing [] 9 one_free ≡ fault
zox_malloc-cut_example =
    zox_malloc-cut allowing [] refl refl one_free 9 [] (free_chunk (zeros 10)) one_free-Represents
      refl refl (omega arith) (omega arith) (omega arith)
