-- ===== src/ParseFn/Names.antt =====
-- File names that `_parsefn` takes, and the FCBs that it makes of them.
use libgloss_cpm68k.Prelude.{
  ℕ, zero, suc, ◌+◌, ◌-◌, ◌≤◌, ◌<◌, ◌≡◌, ◌≢◌, ◌⊎◌, ap, refl, true, false, Option, none, some, List,
  [], ◌∷◌, ◌++◌, append-nil, map, arith, ltb, ◌==◌, if◌then◌else◌, inl, inr, length, take,
  replicate,
}
use libgloss_cpm68k.Bdos.{Fcb}
use libgloss_cpm68k.Channel.{blank_fcb}
use libgloss_cpm68k.Bytes.{is_digit, to_upper, peek}
use libgloss_cpm68k.ParseFn.{
  is_delim, get_token, copy_upper, stuff_user, stuff_letter, stuff_drive, parse_password,
  parse_type, parse_name, parsefn,
}

-- a character that ends no token
abbrev pub Plain : ℕ → Type 0
Plain c = (c ≢ 0) × (is_delim c ≡ false)

abbrev pub AllPlain : List ℕ → Type 0
AllPlain [] = Unit
AllPlain (c ∷ s) = Plain c × AllPlain s

-- a field of `n` bytes: the first `n` characters in upper case, filled up with `fill`
abbrev pub field : ℕ → ℕ → List ℕ → List ℕ
field n fill s = take n (map to_upper s) ++ replicate (n - length s) fill

-- the user number and the drive in front of the colon
pub data Prefix : Type 0 where
  bare : Prefix
  on_drive : ℕ → Prefix
  of_user : ℕ → Prefix
  of_user_on : ℕ → ℕ → Prefix

abbrev pub digits : ℕ → List ℕ
digits u = if ltb u 10 then (b'0' + u) ∷ [] else b'1' ∷ (b'0' + (u - 10)) ∷ []

abbrev pub letter : ℕ → ℕ
letter d = b'A' - 1 + d

-- the text in front of the colon
abbrev pub prefix_text : Prefix → List ℕ
prefix_text bare = []
prefix_text (on_drive d) = letter d ∷ []
prefix_text (of_user u) = digits u
prefix_text (of_user_on u d) = digits u ++ (letter d ∷ [])

abbrev pub show_prefix : Prefix → List ℕ → List ℕ
show_prefix bare s = s
show_prefix p s = prefix_text p ++ (b':' ∷ s)

-- users 0 to 15, drives A to O
abbrev pub InRange : Prefix → Type 0
InRange bare = Unit
InRange (on_drive d) = (0 < d) × (d < 16)
InRange (of_user u) = u < 16
InRange (of_user_on u d) = (u < 16) × (0 < d) × (d < 16)

abbrev pub with_prefix : Prefix → Fcb → Fcb
with_prefix bare f = f
with_prefix (on_drive d) f = record f { drive = d }
with_prefix (of_user u) f = record f { fuser = u + 1 }
with_prefix (of_user_on u d) f = record f { fuser = u + 1; drive = d }

abbrev pub show_type : Option (List ℕ) → List ℕ
show_type none = []
show_type (some e) = b'.' ∷ e

abbrev pub with_type : Option (List ℕ) → Fcb → Fcb
with_type none f = f
with_type (some e) f = record f { ftype = field 3 0x20 e }

abbrev pub TypeFits : Option (List ℕ) → Type 0
TypeFits none = Unit
TypeFits (some e) = AllPlain e × (length e < 32)

copy_upper_fill :
    (s : List ℕ) (n fill : ℕ) → AllPlain s → copy_upper s (replicate n fill) n ≡ field n fill s
unfolding copy_upper
copy_upper_fill s zero fill h = let e : 0 - length s ≡ 0 = omega arith in rw e
copy_upper_fill [] (suc n) fill h = let e : suc n - 0 ≡ suc n = omega arith in rw e
copy_upper_fill (x ∷ s) (suc n) fill (p, h) = ground (arith, p.0, copy_upper_fill s n fill h)

-- a token is read up to its delimiter
get_token_plain :
    (s rest : List ℕ) (n : ℕ)
    → AllPlain s
    → length s ≤ n
    → (rest ≡ []) ⊎ (is_delim (peek rest) ≡ true)
    → get_token (s ++ rest) n ≡ (s, rest)
unfolding get_token
get_token_plain [] rest zero h le e = refl
get_token_plain [] [] (suc n) h le e = refl
get_token_plain [] (c ∷ rest) (suc n) h le (inl e) = cc
get_token_plain [] (c ∷ rest) (suc n) h le (inr e) = ground arith
get_token_plain (c ∷ s) rest zero h le e = elim le [ ]
get_token_plain (c ∷ s) rest (suc n) (p, h) le e =
    ground (arith, p.0, p.1, get_token_plain s rest n h (omega arith) e)

stuff_user-digits :
    (u : ℕ) (rest : List ℕ)
    → u < 16
    → is_digit (peek rest) ≡ false
    → stuff_user 0 0 (digits u ++ rest) ≡ (u + 1, rest)
unfolding stuff_user is_digit
stuff_user-digits u [] h e = ground arith
stuff_user-digits u (c ∷ rest) h e = ground arith

stuff_letter_none :
    (f : Fcb) (u : ℕ)
    → u < 16
    → f.drive ≡ 0
    → stuff_letter f (u + 1) [] ≡ (true, record f { fuser = u + 1 })
unfolding stuff_letter
stuff_letter_none f u h e = ground arith

stuff_letter_drive :
    (f : Fcb) (u d : ℕ)
    → u ≤ 16
    → 0 < d
    → d < 16
    → stuff_letter f u (letter d ∷ []) ≡ (true, record f { fuser = u; drive = d })
unfolding stuff_letter to_upper
stuff_letter_drive f u d h lo hi = ground arith

stuff_drive_prefix :
    (f : Fcb) (p : Prefix)
    → InRange p
    → stuff_drive (blank_fcb f) (prefix_text p) ≡ (true, with_prefix p (blank_fcb f))
unfolding stuff_drive is_digit
stuff_drive_prefix f bare h = unfold stuff_user stuff_letter in refl
stuff_drive_prefix f (on_drive d) (lo, hi) =
    let e : is_digit (letter d) ≡ false = ground arith in
    unfold stuff_user in rw e (stuff_letter_drive (blank_fcb f) 0 d (omega arith) lo hi)
stuff_drive_prefix f (of_user u) h =
    rw (← append-nil (digits u), stuff_user-digits u [] h refl)
      (stuff_letter_none (blank_fcb f) u h refl)
stuff_drive_prefix f (of_user_on u d) (hu, lo, hi) =
    let e : is_digit (letter d) ≡ false = ground arith in
    rw (stuff_user-digits u (letter d ∷ []) hu e)
      (stuff_letter_drive (blank_fcb f) (u + 1) d (omega arith) lo hi)

prefix_text-AllPlain :
    (p : Prefix) → InRange p → AllPlain (prefix_text p) × (length (prefix_text p) ≤ 32)
unfolding is_delim
prefix_text-AllPlain bare h = (tt, omega arith)
prefix_text-AllPlain (on_drive d) h = ground arith
prefix_text-AllPlain (of_user u) h = ground arith
prefix_text-AllPlain (of_user_on u d) h = ground arith

parse_type_lem :
    (t : Option (List ℕ)) (f : Fcb)
    → TypeFits t
    → f.ftype ≡ replicate 3 0x20
    → parse_type f (show_type t) ≡ (true, with_type t f)
unfolding parse_type parse_password
parse_type_lem none f h e = refl
parse_type_lem (some s) f (plain, short) e =
    let r : get_token s 32 ≡ (s, []) =
      rw append-nil at (get_token_plain s [] 32 plain (omega arith) (inl refl)) in
    rw (r, e)
      (ap (λ (t : List ℕ). let g : Fcb = record f { ftype = t } in (true, g))
        (copy_upper_fill s 3 0x20 plain))

parse_name_lem :
    (base : List ℕ) (t : Option (List ℕ)) (f : Fcb)
    → AllPlain base
    → TypeFits t
    → f.fname ≡ replicate 8 0x20
    → f.ftype ≡ replicate 3 0x20
    → parse_name f base (show_type t) ≡ (true, with_type t (record f { fname = field 8 0x20 base }))
unfolding parse_name
parse_name_lem base none f plain fits e e' =
    rw (e, copy_upper_fill base 8 0x20 plain) (parse_type_lem none _ fits e')
parse_name_lem base (some s) f plain fits e e' =
    rw (e, copy_upper_fill base 8 0x20 plain) (parse_type_lem (some s) _ fits e')

-- what may follow a base name
starts_type : (t : Option (List ℕ)) → (show_type t ≡ []) ⊎ (is_delim (peek (show_type t)) ≡ true)
starts_type none = inl refl
starts_type (some e) = inr (unfold is_delim in refl)

no_colon : (t : Option (List ℕ)) → (peek (show_type t) == b':') ≡ false
no_colon none = refl
no_colon (some e) = refl

pub show_file : Prefix → List ℕ → Option (List ℕ) → List ℕ
show_file p base t = show_prefix p (base ++ show_type t)

parsefn_prefixed :
    (p : Prefix) (base : List ℕ) (t : Option (List ℕ)) (f : Fcb)
    → InRange p
    → AllPlain base
    → length base < 32
    → TypeFits t
    → parsefn (prefix_text p ++ (b':' ∷ (base ++ show_type t))) f
      ≡ (true, with_type t (record (with_prefix p (blank_fcb f)) { fname = field 8 0x20 base }))
unfolding parsefn
parsefn_prefixed p base t f range plain short fits =
    let colon : is_delim b':' ≡ true = unfold is_delim in refl in
    rw
      (
        get_token_plain (prefix_text p) (b':' ∷ (base ++ show_type t)) 32
            (prefix_text-AllPlain p range).0 (prefix_text-AllPlain p range).1 (inr colon),
        stuff_drive_prefix f p range,
        get_token_plain base (show_type t) 32 plain (omega arith) (starts_type t),
      )
      (named p)
  where
    named :
        (q : Prefix)
        → parse_name (with_prefix q (blank_fcb f)) base (show_type t)
          ≡ (true, with_type t (record (with_prefix q (blank_fcb f)) { fname = field 8 0x20 base }))
    named bare = parse_name_lem base t _ plain fits refl refl
    named (on_drive d) = parse_name_lem base t _ plain fits refl refl
    named (of_user u) = parse_name_lem base t _ plain fits refl refl
    named (of_user_on u d) = parse_name_lem base t _ plain fits refl refl

-- A name with a user number from 0 to 15 or none, a drive letter from A to O or none, a base and
-- an optional type of fewer than 32 plain characters each is accepted. The FCB then has the user
-- number plus 1 and the drive's number (0 where none is given), the first 8 characters of the base
-- and the first 3 of the type in upper case and filled with blanks, and is blank elsewhere.
pub parsefn-show_file :
    (p : Prefix) (base : List ℕ) (t : Option (List ℕ)) (f : Fcb)
    → InRange p
    → AllPlain base
    → length base < 32
    → TypeFits t
    → parsefn (show_file p base t) f
      ≡ (true, with_type t (record (with_prefix p (blank_fcb f)) { fname = field 8 0x20 base }))
unfolding show_file
parsefn-show_file bare base t f range plain short fits =
    unfold parsefn in
    rw (get_token_plain base (show_type t) 32 plain (omega arith) (starts_type t), no_colon t)
      (parse_name_lem base t (blank_fcb f) plain fits refl refl)
parsefn-show_file (on_drive d) base t f range plain short fits =
    parsefn_prefixed (on_drive d) base t f range plain short fits
parsefn-show_file (of_user u) base t f range plain short fits =
    parsefn_prefixed (of_user u) base t f range plain short fits
parsefn-show_file (of_user_on u d) base t f range plain short fits =
    parsefn_prefixed (of_user_on u d) base t f range plain short fits
