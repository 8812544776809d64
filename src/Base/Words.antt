-- ===== src/Base/Words.antt =====
-- uint32_t, int and size_t as the numbers of their bit patterns.
use Prim.Native.Nat.{ℕ, ◌+◌, ◌-◌, ◌*◌, ◌%◌, ◌^◌, bit_and}
use mathlib.Core.Bool.{Bool, not, ◌&&◌}
use tcp_fsm.Base.Tests.{ltb, ◌==◌, if◌then◌else◌}

abbrev pub u32 : ℕ → ℕ
u32 n = n % 2 ^ 32

abbrev pub add32 : ℕ → ℕ → ℕ
add32 a b = (a + b) % 2 ^ 32

abbrev pub sub32 : ℕ → ℕ → ℕ
sub32 a b = (a + 2 ^ 32 - b) % 2 ^ 32

abbrev pub mul32 : ℕ → ℕ → ℕ
mul32 a b = (a * b) % 2 ^ 32

-- The conversion of an int to size_t, which has 64 bits.
abbrev pub to_size_t : ℕ → ℕ
to_size_t n = if ltb n (2 ^ 31) then n else n + 2 ^ 64 - 2 ^ 32

-- `a < b` between an int a that is not negative and any int b.
abbrev pub lt_int : ℕ → ℕ → Bool
lt_int a b = ltb b (2 ^ 31) && ltb a b

-- `if( flags & bit )`
abbrev pub has_flag : ℕ → ℕ → Bool
has_flag flags bit = not (bit_and flags bit == 0)
