-- ===== src/Base/Words.antt =====
-- 64-bit words: `long`, `size_t` and pointers' offsets as bit patterns.
use Prim.Native.Nat.{ℕ, ◌+◌, ◌-◌, ◌%◌}
use spovm4_labs.Base.Tests.{ltb, if◌then◌else◌}

-- 2 ^ 64
abbrev pub word_size : ℕ
word_size = 0x1_0000_0000_0000_0000

-- -1 as a `long`
abbrev pub minus_one : ℕ
minus_one = 0xffff_ffff_ffff_ffff

abbrev pub add_word : ℕ → ℕ → ℕ
add_word a b = (a + b) % word_size

abbrev pub sub_word : ℕ → ℕ → ℕ
sub_word a b = (a + word_size - b) % word_size

-- How often `for (i = 0; i < n; i++)` runs at a signed `n`: not at all where `n` is negative.
abbrev pub rounds : ℕ → ℕ
rounds n = if ltb n 0x8000_0000_0000_0000 then n else 0
