-- ===== src/Prelude/Words.antt =====
-- The machine words of cpmlib/portab.h as bit patterns: a LONG is a number below 2 ^ 32, a WORD
-- one below 2 ^ 16, and a BYTE one below 2 ^ 8, in two's complement. Sums wrap.
use Prim.Native.Nat.{ℕ, ◌+◌, ◌-◌, ◌/◌, ◌%◌, ◌^◌}
use mathlib.Core.Bool.{Bool}
use libgloss_cpm68k.Prelude.Tests.{ltb, if◌then◌else◌}

-- -1 as a LONG, and as a WORD (`FAILURE`)
abbrev pub long_minus_one : ℕ
long_minus_one = 2 ^ 32 - 1

abbrev pub word_minus_one : ℕ
word_minus_one = 2 ^ 16 - 1

abbrev pub add_long : ℕ → ℕ → ℕ
add_long a b = (a + b) % 2 ^ 32

abbrev pub sub_long : ℕ → ℕ → ℕ
sub_long a b = (a + 2 ^ 32 - b) % 2 ^ 32

-- the signed `a < b` on LONGs, WORDs and BYTEs
abbrev pub lt_long : ℕ → ℕ → Bool
lt_long a b = ltb ((a + 2 ^ 31) % 2 ^ 32) ((b + 2 ^ 31) % 2 ^ 32)

abbrev pub lt_word : ℕ → ℕ → Bool
lt_word a b = ltb ((a + 2 ^ 15) % 2 ^ 16) ((b + 2 ^ 15) % 2 ^ 16)

abbrev pub lt_byte : ℕ → ℕ → Bool
lt_byte a b = ltb ((a + 2 ^ 7) % 2 ^ 8) ((b + 2 ^ 7) % 2 ^ 8)

-- `a >> 7` on a LONG: the arithmetic shift
abbrev pub sector_of : ℕ → ℕ
sector_of a = if ltb a (2 ^ 31) then a / 128 else a / 128 + (2 ^ 32 - 2 ^ 25)

-- `a & ~(SECSIZ-1)`
abbrev pub align_down : ℕ → ℕ
align_down a = a - a % 128
