-- ===== src/Elf2Cpm/Field.antt =====
-- The big-endian fields of tools/elf2cpm68k.c. A byte is a number below 256.
use libgloss_cpm68k.Prelude.{
  ℕ, ◌+◌, ◌*◌, ◌/◌, ◌%◌, ◌^◌, ◌<◌, ◌≡◌, zero, suc, List, [], ◌∷◌, ◌++◌, get_or, take, drop, arith,
}

-- `READ16` and `READ32` of the field at offset `i` of a structure
unfoldable pub read16 : List ℕ → ℕ → ℕ
read16 s i = get_or s i 0 * 2 ^ 8 + get_or s (i + 1) 0

unfoldable pub read32 : List ℕ → ℕ → ℕ
read32 s i =
    get_or s i 0 * 2 ^ 24
    + get_or s (i + 1) 0 * 2 ^ 16
    + get_or s (i + 2) 0 * 2 ^ 8
    + get_or s (i + 3) 0

-- `WRITE16` and `WRITE32`
unfoldable pub write16 : ℕ → List ℕ
write16 v = (v / 2 ^ 8 % 256) ∷ (v % 256) ∷ []

unfoldable pub write32 : ℕ → List ℕ
write32 v = (v / 2 ^ 24 % 256) ∷ (v / 2 ^ 16 % 256) ∷ (v / 2 ^ 8 % 256) ∷ (v % 256) ∷ []

pub read16-write16 : (v : ℕ) (s : List ℕ) → v < 2 ^ 16 → read16 (write16 v ++ s) 0 ≡ v
unfolding read16 write16
read16-write16 v s h = omega arith

pub read32-write32 : (v : ℕ) (s : List ℕ) → v < 2 ^ 32 → read32 (write32 v ++ s) 0 ≡ v
unfolding read32 write32
read32-write32 v s h = omega arith

-- every element is a byte
abbrev pub IsBytes : List ℕ → Type 0
IsBytes [] = Unit
IsBytes (b ∷ bs) = (b < 256) × IsBytes bs

pub IsBytes-take : (n : ℕ) (s : List ℕ) → IsBytes s → IsBytes (take n s)
IsBytes-take zero s h = tt
IsBytes-take (suc n) [] h = tt
IsBytes-take (suc n) (b ∷ s) (p, h) = (p, IsBytes-take n s h)

pub IsBytes-drop : (n : ℕ) (s : List ℕ) → IsBytes s → IsBytes (drop n s)
IsBytes-drop zero s h = h
IsBytes-drop (suc n) [] h = tt
IsBytes-drop (suc n) (b ∷ s) (p, h) = IsBytes-drop n s h

get_or-lt : (s : List ℕ) (i : ℕ) → IsBytes s → get_or s i 0 < 256
get_or-lt [] i h = omega arith
get_or-lt (b ∷ s) zero (p, h) = p
get_or-lt (b ∷ s) (suc i) (p, h) = get_or-lt s i h

pub read32-lt : (s : List ℕ) (i : ℕ) → IsBytes s → read32 s i < 2 ^ 32
unfolding read32
read32-lt s i h =
    omega
      (arith, get_or-lt s i h, get_or-lt s (i + 1) h, get_or-lt s (i + 2) h, get_or-lt s (i + 3) h)
