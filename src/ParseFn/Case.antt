-- ===== src/ParseFn/Case.antt =====
-- File names are read without regard to case.
use libgloss_cpm68k.Prelude.{
  ℕ, zero, suc, ◌+◌, ◌-◌, ◌*◌, ◌%◌, inl, inr, Bool-cases, leb, ◌&&◌, ◌||◌, ◌≡◌, refl, Bool, true,
  false, List, [], ◌∷◌, map, arith, ◌==◌, if◌then◌else◌,
}
use libgloss_cpm68k.Bdos.{Fcb}
use libgloss_cpm68k.Bytes.{is_digit, to_upper, peek, advance, to_upper-to_upper, is_digit-to_upper}
use libgloss_cpm68k.Channel.{blank_fcb}
use libgloss_cpm68k.ParseFn.{
  is_delim, get_token, copy_upper, stuff_user, stuff_letter, stuff_drive, at_end, parse_password,
  parse_type, parse_name, parsefn,
}

is_delim-to_upper : (c : ℕ) → is_delim (to_upper c) ≡ is_delim c
unfolding is_delim to_upper
is_delim-to_upper c = ground arith

zero-to_upper : (c : ℕ) → (to_upper c == 0) ≡ (c == 0)
unfolding to_upper
zero-to_upper c = ground arith

get_token-to_upper :
    (s : List ℕ) (n : ℕ)
    → get_token (map to_upper s) n
      ≡ (map to_upper (get_token s n).0, map to_upper (get_token s n).1)
unfolding get_token
get_token-to_upper s zero = refl
get_token-to_upper [] (suc n) = refl
get_token-to_upper (c ∷ s) (suc n) =
    rw (zero-to_upper c, is_delim-to_upper c, get_token-to_upper s n) (ground arith)

copy_upper-to_upper : (s d : List ℕ) (n : ℕ) → copy_upper (map to_upper s) d n ≡ copy_upper s d n
unfolding copy_upper
copy_upper-to_upper s d zero = refl
copy_upper-to_upper [] d (suc n) = refl
copy_upper-to_upper (x ∷ s) [] (suc n) = refl
copy_upper-to_upper (x ∷ s) (y ∷ d) (suc n) =
    rw (zero-to_upper x, to_upper-to_upper x, copy_upper-to_upper s d n)

peek-to_upper : (s : List ℕ) → peek (map to_upper s) ≡ to_upper (peek s)
unfolding to_upper
peek-to_upper [] = refl
peek-to_upper (c ∷ s) = refl

advance-to_upper : (s : List ℕ) → advance (map to_upper s) ≡ map to_upper (advance s)
advance-to_upper [] = refl
advance-to_upper (c ∷ s) = refl

digit-to_upper : (c : ℕ) → is_digit c ≡ true → to_upper c ≡ c
unfolding is_digit to_upper
digit-to_upper c h = ground arith

stuff_user-to_upper :
    (i u : ℕ) (s : List ℕ)
    → stuff_user i u (map to_upper s) ≡ ((stuff_user i u s).0, map to_upper (stuff_user i u s).1)
unfolding stuff_user
stuff_user-to_upper i u [] = refl
stuff_user-to_upper i u (c ∷ s) = elim (Bool-cases (is_digit c)) [
  | inl d ↦
      rw (digit-to_upper c d, d)
        (stuff_user-to_upper ((i * 10 + (c - 48)) % 65536) (((i * 10 + (c - 48)) % 65536 + 1) % 256)
          s)
  | inr d ↦ rw (is_digit-to_upper c, d) refl
]

-- a test of the next character against one that is no letter
peek_test :
    (s : List ℕ) (k : ℕ)
    → (leb b'A' k && leb k b'Z') || (leb b'a' k && leb k b'z') ≡ false
    → (peek (map to_upper s) == k) ≡ (peek s == k)
peek_test [] k h = refl
peek_test (c ∷ s) k h = unfold to_upper in ground arith

stuff_letter-to_upper :
    (f : Fcb) (u : ℕ) (s : List ℕ) → stuff_letter f u (map to_upper s) ≡ stuff_letter f u s
unfolding stuff_letter
stuff_letter-to_upper f u [] = refl
stuff_letter-to_upper f u (c ∷ s) =
    rw (to_upper-to_upper c) (ground (arith, zero-to_upper c, peek_test s 0 refl))

stuff_drive-to_upper : (f : Fcb) (s : List ℕ) → stuff_drive f (map to_upper s) ≡ stuff_drive f s
unfolding stuff_drive
stuff_drive-to_upper f s = rw (stuff_user-to_upper 0 f.fuser s) (stuff_letter-to_upper f _ _)

at_end-to_upper : (s : List ℕ) → at_end (map to_upper s) ≡ at_end s
at_end-to_upper s = rw (peek_test s 0 refl, peek_test s 0x0a refl, peek_test s 0x0d refl)

parse_password-to_upper :
    (f : Fcb) (s : List ℕ) → parse_password f (map to_upper s) ≡ parse_password f s
unfolding parse_password
parse_password-to_upper f s =
    let (token, rest) = get_token (advance s) 32 in
    rw (
      peek_test s b';' refl,
      at_end-to_upper s,
      advance-to_upper s,
      get_token-to_upper (advance s) 32,
      copy_upper-to_upper token f.fpasswd 8,
      at_end-to_upper rest,
    )

if-advance :
    (b : Bool) (s : List ℕ)
    → (if b then advance (map to_upper s) else map to_upper s)
      ≡ map to_upper (if b then advance s else s)
if-advance true s = advance-to_upper s
if-advance false s = refl

parse_type-to_upper : (f : Fcb) (s : List ℕ) → parse_type f (map to_upper s) ≡ parse_type f s
unfolding parse_type
parse_type-to_upper f s =
    let (token, rest) = get_token (advance s) 32 in
    rw (
      peek_test s b'.' refl,
      parse_password-to_upper f s,
      advance-to_upper s,
      get_token-to_upper (advance s) 32,
      peek_test rest b'*' refl,
      copy_upper-to_upper token _ 3,
      if-advance (peek rest == b'*') rest,
      parse_password-to_upper _ _,
    )

parse_name-to_upper :
    (f : Fcb) (t s : List ℕ) → parse_name f (map to_upper t) (map to_upper s) ≡ parse_name f t s
unfolding parse_name
parse_name-to_upper f t s = rw (
  peek_test s b'*' refl,
  copy_upper-to_upper t _ 8,
  if-advance (peek s == b'*') s,
  parse_type-to_upper _ _,
)

-- A name parses as its upper-case form does: the same verdict and the same FCB, whatever the name.
pub parsefn-to_upper : (s : List ℕ) (f : Fcb) → parsefn (map to_upper s) f ≡ parsefn s f
unfolding parsefn
parsefn-to_upper s f =
    let (token, rest) = get_token s 32 in
    let (name, rest') = get_token (advance rest) 32 in
    rw (
      get_token-to_upper s 32,
      peek_test rest b':' refl,
      stuff_drive-to_upper (blank_fcb f) token,
      advance-to_upper rest,
      get_token-to_upper (advance rest) 32,
      parse_name-to_upper _ name rest',
      parse_name-to_upper _ token rest,
    )
