-- ===== src/Prelude/Arith.antt =====
-- Machine words: a w-bit word is a number below `2 ^ w`; a `usize` has 64 bits.
use Prim.Native.Nat.{ℕ, ◌^◌}

abbrev pub u32_mod : ℕ
u32_mod = 2 ^ 32

abbrev pub u64_mod : ℕ
u64_mod = 2 ^ 64
