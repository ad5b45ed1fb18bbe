-- ===== src/Prelude/Words.antt =====
-- Machine words: u16, u32 and u64 are numbers below a power of two. usize is 64 bits wide.
use Prim.Native.Nat.{ℕ, ◌+◌, ◌*◌, min}

abbrev pub u16_max : ℕ
u16_max = 0xffff

abbrev pub u32_max : ℕ
u32_max = 0xffff_ffff

abbrev pub u64_max : ℕ
u64_max = 0xffff_ffff_ffff_ffff

abbrev pub usize_max : ℕ
usize_max = u64_max

-- `saturating_add` and `saturating_mul` of u64 and usize. `saturating_sub` is `-` on ℕ.
abbrev pub saturating_add : ℕ → ℕ → ℕ
saturating_add a b = min (a + b) u64_max

abbrev pub saturating_mul : ℕ → ℕ → ℕ
saturating_mul a b = min (a * b) u64_max
