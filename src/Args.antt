-- ===== src/Args.antt =====
-- `parse_args` of cpmlib/_main.c: the command tail as an argument vector. The characters are below
-- 128; `add_arg` appends to the vector, and its `realloc` is taken to succeed.
pub mod Quoting
pub mod Start
pub mod Rounds
use libgloss_cpm68k.Prelude.{
  ℕ, zero, suc, ◌<◌, Bool, true, false, ◌||◌, Option, none, some, List, [], ◌∷◌, ◌==◌,
  if◌then◌else◌, take, length, min,
}
use libgloss_cpm68k.Bytes.{is_space, advance}

-- the string up to its NUL
unfoldable pub until_nul : List ℕ → List ℕ
until_nul [] = []
until_nul (c ∷ s) = let rest = until_nul s in if c == 0 then [] else c ∷ rest

abbrev pub is_quote : ℕ → Bool
is_quote c = c == b'"' || c == 0x27

-- the characters in front of the first that `stop` takes, and the string from there on
unfoldable pub split : (ℕ → Bool) → List ℕ → List ℕ × List ℕ
split stop [] = ([], [])
split stop (c ∷ s) =
    let (word, rest) = split stop s in if stop c then ([], c ∷ s) else (c ∷ word, rest)

abbrev pub add_arg : List ℕ → Option (List (List ℕ)) → Option (List (List ℕ))
add_arg a none = none
add_arg a (some args) = some (a ∷ args)

-- the loop of `parse_args`; none where it calls `err`
unfoldable pub parse_loop : ℕ → List ℕ → Option (List (List ℕ))
parse_loop zero s = some []
parse_loop (suc fuel) [] = some []
parse_loop (suc fuel) (c ∷ s) =
    let (quoted, closing) = split (λ d. d == c) s in
    let (word, rest) = split is_space s in
    let behind_space = parse_loop fuel s in
    let behind_quote = parse_loop fuel (advance closing) in
    let behind_word = parse_loop fuel (advance rest) in
    if is_space c
    then behind_space
    else if is_quote c
    then (if length closing == 0 then none else add_arg quoted behind_quote)
    else add_arg (c ∷ word) behind_word

-- "program"
abbrev pub program_name : List ℕ
program_name = b'p' ∷ b'r' ∷ b'o' ∷ b'g' ∷ b'r' ∷ b'a' ∷ b'm' ∷ []

-- `parse_args` of the tail's length byte and the bytes behind it; each round of the loop takes at
-- least one character, so as many rounds as there are characters are enough
unfoldable pub parse_args : ℕ → List ℕ → Option (List (List ℕ))
parse_args len tail =
    let s = until_nul (take (min len 0x7e) tail) in add_arg program_name (parse_loop (length s) s)
