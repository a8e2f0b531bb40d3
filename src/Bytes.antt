-- ===== src/Bytes.antt =====
-- The characters that the C library's <ctype.h> and <string.h> classify, in the C locale, as the
-- library uses them, and NUL-terminated strings: a list of bytes whose end is the NUL.
use libgloss_cpm68k.Prelude.{
  ℕ, ◌-◌, ◌≡◌, Bool, true, false, List, [], ◌∷◌, ◌&&◌, ◌||◌, leb, ◌==◌, if◌then◌else◌, arith,
}

unfoldable pub is_digit : ℕ → Bool
is_digit c = leb b'0' c && leb c b'9'

unfoldable pub to_upper : ℕ → ℕ
to_upper c = if leb b'a' c && leb c b'z' then c - 32 else c

-- `isspace`: blank, and \t \n \v \f \r
unfoldable pub is_space : ℕ → Bool
is_space c = c == 0x20 || (leb 0x09 c && leb c 0x0d)

-- `*s`
abbrev pub peek : List ℕ → ℕ
peek [] = 0
peek (c ∷ s) = c

-- `s + 1`, read only where `*s` is not NUL
abbrev pub advance : List ℕ → List ℕ
advance [] = []
advance (c ∷ s) = s

-- `strcasecmp(s, t) == 0`
unfoldable pub same_ignoring_case : List ℕ → List ℕ → Bool
same_ignoring_case [] [] = true
same_ignoring_case [] (d ∷ t) = false
same_ignoring_case (c ∷ s) [] = false
same_ignoring_case (c ∷ s) (d ∷ t) = to_upper c == to_upper d && same_ignoring_case s t

pub to_upper-to_upper : (c : ℕ) → to_upper (to_upper c) ≡ to_upper c
unfolding to_upper
to_upper-to_upper c = ground arith

pub is_digit-to_upper : (c : ℕ) → is_digit (to_upper c) ≡ is_digit c
unfolding is_digit to_upper
is_digit-to_upper c = ground arith
