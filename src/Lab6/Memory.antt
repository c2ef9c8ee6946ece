-- ===== src/Lab6/Memory.antt =====
-- The mapped file of lab6/src/zox-mem/zox-mem.c as the bytes that the program can reach. Pointers
-- into the heap are offsets from `_heap_ptr`; `mmap` is taken to put the mapping where it was.
use spovm4_labs.Base.{
  ltb, ◌==◌, if◌then◌else◌, ℕ, suc, ◌+◌, ◌-◌, ◌*◌, ◌/◌, Bool, true, not, ◌&&◌, List, [], ◌∷◌,
}
use spovm4_labs.Stateful.{◌>>◌, done, fault, pure, Program}

-- `_heap_ptr != NULL`, `_heap_size`, and the bytes of the mapping
pub record Heap : Type 0 where
  pub is_mapped : Bool
  pub heap_size : ℕ
  pub byte : ℕ → ℕ

abbrev pub page_size : ℕ
page_size = 4096

-- A mapping ends with a page; behind it an access faults.
abbrev pub limit : Heap → ℕ
limit h = (h.heap_size + (page_size - 1)) / page_size * page_size

abbrev pub write_byte : (ℕ → ℕ) → ℕ → ℕ → ℕ → ℕ
write_byte f a v x = if x == a then v else f x

unfoldable pub read : ℕ → Program Heap ℕ
read a h = if ltb a (limit h) then done (h.byte a) h else fault

unfoldable pub write : ℕ → ℕ → Program Heap (Unit {0})
write a v h = if ltb a (limit h) then done tt (record h { byte = write_byte h.byte a v }) else fault

-- bytes written in order from an offset on
unfoldable pub write_list : ℕ → List ℕ → Program Heap (Unit {0})
write_list a [] = pure tt
write_list a (b ∷ bs) = do write a b; write_list (suc a) bs

-- What `open` and `ftruncate` do; a failure of `mmap` is not modelled.
pub record Host : Type 0 where
  pub opens : Bool
  pub truncates : Bool

-- The file is cut or extended by zeros. What the program wrote behind the file's end is lost.
unfoldable pub update_heap : Host → ℕ → Program Heap (Unit {0})
update_heap host new_heap_size h =
    if not h.is_mapped && not host.opens
    then done tt h
    else if not host.truncates
    then done tt h
    else done tt (record {
      is_mapped = true;
      heap_size = new_heap_size;
      byte = λ a. if ltb a h.heap_size && ltb a new_heap_size then h.byte a else 0;
    })
