-- ===== src/ParseFn.antt =====
-- cpmlib/parsefn.c: a file name `#d:filename.typ;passwd` into an FCB.
pub mod Names
pub mod Case
use libgloss_cpm68k.Prelude.{
  ℕ, zero, suc, ◌+◌, ◌-◌, ◌*◌, ◌%◌, ◌^◌, Bool, true, false, not, List, [], ◌∷◌, ◌&&◌, ◌||◌, ltb,
  leb, ◌==◌, if◌then◌else◌, replicate,
}
use libgloss_cpm68k.Prelude.Words.{lt_byte}
use libgloss_cpm68k.Bdos.{Fcb}
use libgloss_cpm68k.Channel.{blank_fcb}
use libgloss_cpm68k.Bytes.{is_digit, to_upper, peek, advance}

-- membership in `_delim`, "<>.,=:|[]*\n\r"
unfoldable pub is_delim : ℕ → Bool
is_delim c =
    c == b'<'
    || c == b'>'
    || c == b'.'
    || c == b','
    || c == b'='
    || c == b':'
    || c == b'|'
    || c == b'['
    || c == b']'
    || c == b'*'
    || c == 0x0a
    || c == 0x0d

-- `get_token`: the token, and the string from its delimiter on. The NUL that the function puts
-- behind the token is the end of the list; behind a token of `len` characters C stores it one byte
-- past the area, which is not modelled.
unfoldable pub get_token : List ℕ → ℕ → List ℕ × List ℕ
get_token src zero = ([], src)
get_token [] (suc len) = ([], [])
get_token (c ∷ src) (suc len) =
    let (token, rest) = get_token src len in
    if c == 0 || is_delim c then ([], c ∷ src) else (c ∷ token, rest)

-- `_strcpy`: at most `c` characters of `s`, in upper case, over the start of `d`
unfoldable pub copy_upper : List ℕ → List ℕ → ℕ → List ℕ
copy_upper s d zero = d
copy_upper [] d (suc c) = d
copy_upper (x ∷ s) [] (suc c) = []
copy_upper (x ∷ s) (y ∷ d) (suc c) = if x == 0 then y ∷ d else to_upper x ∷ copy_upper s d c

-- the digits of `stuff_drive`: the WORD `i`, the BYTE `fuser`, and what is left of the string
unfoldable pub stuff_user : ℕ → ℕ → List ℕ → ℕ × List ℕ
stuff_user i fuser [] = (fuser, [])
stuff_user i fuser (c ∷ src) =
    let i' = (i * 10 + (c - b'0')) % 2 ^ 16 in
    let more = stuff_user i' ((i' + 1) % 2 ^ 8) src in if is_digit c then more else (fuser, c ∷ src)

-- the drive letter and the checks of `stuff_drive`, behind the user number
unfoldable pub stuff_letter : Fcb → ℕ → List ℕ → Bool × Fcb
stuff_letter f fuser src =
    let drive =
      if peek src == 0 then f.drive else (to_upper (peek src) + 2 ^ 8 - b'A' + 1) % 2 ^ 8 in
    let rest = if peek src == 0 then src else advance src in
    (
      not (not (peek rest == 0) || lt_byte 16 fuser || lt_byte 15 drive),
      record f { fuser = fuser; drive = drive },
    )

-- `stuff_drive`: whether the string is a user number and a drive letter, and the FCB with them
unfoldable pub stuff_drive : Fcb → List ℕ → Bool × Fcb
stuff_drive f src = let (fuser, rest) = stuff_user 0 f.fuser src in stuff_letter f fuser rest

-- the `switch` at the end: whether the string was parsed to its end
abbrev pub at_end : List ℕ → Bool
at_end s = peek s == 0 || peek s == 0x0a || peek s == 0x0d

-- the part from `;` on
unfoldable pub parse_password : Fcb → List ℕ → Bool × Fcb
parse_password f s =
    if peek s == b';'
    then (let (token, rest) = get_token (advance s) 32 in
        (at_end rest, record f { fpasswd = copy_upper token f.fpasswd 8 }))
    else (at_end s, f)

-- the part from `.` on
unfoldable pub parse_type : Fcb → List ℕ → Bool × Fcb
parse_type f s =
    if peek s == b'.'
    then (let (token, rest) = get_token (advance s) 32 in
        let star = peek rest == b'*' in
        let area = if star then replicate 3 b'?' else f.ftype in
        parse_password (record f { ftype = copy_upper token area 3 })
          (if star then advance rest else rest))
    else parse_password f s

-- the part from the file name on, with its token
unfoldable pub parse_name : Fcb → List ℕ → List ℕ → Bool × Fcb
parse_name f token s =
    let star = peek s == b'*' in
    let area = if star then replicate 8 b'?' else f.fname in
    parse_type (record f { fname = copy_upper token area 8 }) (if star then advance s else s)

-- `_parsefn`: true for NULL, false for FAILPTR
unfoldable pub parsefn : List ℕ → Fcb → Bool × Fcb
parsefn filnam fcb =
    let f = blank_fcb fcb in
    let (token, s) = get_token filnam 32 in
    if peek s == b':'
    then (let (fine, f') = stuff_drive f token in
        if fine
        then (let (name, s') = get_token (advance s) 32 in parse_name f' name s')
        else (false, f'))
    else parse_name f token s
