-- ===== src/TtyIn.antt =====
-- cpmlib/ttyin.c and ttyinraw.c: reads from the console; cpmlib/sgtty.c: its modes.
pub mod Info
pub mod Waiting
pub mod Line
use libgloss_cpm68k.Prelude.{
  ℕ, zero, suc, ◌+◌, ◌-◌, ◌*◌, ◌/◌, ◌%◌, ◌^◌, Bool, true, false, not, ◌&&◌, Option, none, some,
  List, [], ◌∷◌, ◌++◌, ltb, leb, ◌==◌, if◌then◌else◌, length, take, drop, get_or,
}
use libgloss_cpm68k.Bdos.{Bdos, Fcb, conin, conout, conio, conbuf, c_stat}
use libgloss_cpm68k.State.{World, Ccb, ebadf, enotty, failure, getccb, putccb}
use libgloss_cpm68k.Bytes.{peek, advance}
use libgloss_cpm68k.Channel.{chkc}
use libgloss_cpm68k.Console.{sg_flags}
use libgloss_cpm68k.Handle.{Handle, mark_eof, update_fp}
use libgloss_cpm68k.ReadBin.{ReadOut}
use libgloss_cpm68k.ReadAsc.{ends}

-- the bits of `sg_flags` that are read
unfoldable pub has_mode : ℕ → Fcb → Bool
has_mode k f = sg_flags f / 2 ^ k % 2 == 1

abbrev pub raw : ℕ
raw = 5

abbrev pub crmod : ℕ
crmod = 4

abbrev pub echo : ℕ
echo = 3

abbrev pub lcase : ℕ
lcase = 2

abbrev pub cbreak : ℕ
cbreak = 1

-- `sg_kill`, byte 3 of the block
abbrev pub sg_kill : Fcb → ℕ
sg_kill f = get_or f.fname 2 0

-- the copy of a console line: what is copied, the count left of the request, and whether the
-- EOFCHAR was met
pub record Copied : Type 0 where
  pub out : List ℕ
  pub left : ℕ
  pub ended : Bool

unfoldable pub copy_line : ℕ → ℕ → List ℕ → Copied
copy_line bytes zero p = record { out = []; left = bytes; ended = false }
copy_line zero (suc xbytes) p = record { out = []; left = 0; ended = false }
copy_line (suc bytes) (suc xbytes) p =
    let rest = copy_line bytes xbytes (advance p) in
    if peek p == 0x1a
    then record { out = []; left = suc bytes; ended = true }
    else record rest { out = peek p ∷ rest.out }

module _ {Os : Type 0} (bdos : Bdos Os) where
  -- the loop of `_ttyinraw`: `fuel` polls of the console; none if no key came
  unfoldable pub poll : ℕ → Os → Option (ℕ × Os)
  poll zero os = none
  poll (suc fuel) os =
      let (reply, os1) = bdos (conio 0xff) os in
      let more = poll fuel os1 in if reply.result == 0 then more else some (reply.result, os1)

  -- `ttyinraw`: kinds 0 and 2 poll once, 3 asks for the status, 1 and all others wait
  unfoldable pub ttyinraw : ℕ → ℕ → Os → Option (ℕ × Os)
  ttyinraw fuel chktype os =
      let (reply, os1) = bdos (conio 0xff) os in
      let (status, os2) = bdos c_stat os in
      let waited = poll fuel os in
      if chktype == 0
      then some (reply.result, os1)
      else if chktype == 2
      then some (reply.result, os1)
      else if chktype == 3
      then some (status.result, os2)
      else waited

  -- the character of a CBREAK read, in lower case where that is wanted
  abbrev pub folded : Fcb → ℕ → ℕ
  folded f c = if has_mode lcase f && leb b'A' c && leb c b'Z' then c + 32 else c

  abbrev pub echoed : Fcb → ℕ → Os → Os
  echoed f c os = if has_mode echo f then (bdos (conio c) os).1 else os

  -- the CBREAK branch of `_ttyin`; none where it calls `exit`
  unfoldable pub read_cbreak : List ℕ → Handle Os → Option (ReadOut Os)
  read_cbreak buff h =
      let f = h.fp.fcb in
      let (reply, os1) = bdos (conio 0xff) h.os in
      let c = reply.result % 2 ^ 8 in
      let c' = folded f c in
      let return = has_mode crmod f && c' == 0x0d in
      let c'' = if return then 0x0a else c' in
      let os2 = if return then echoed f c' os1 else os1 in
      if c == sg_kill f
      then none
      else some (ends 1 (c'' ∷ []) buff (record h { os = echoed f c'' os2 }))

  -- the line that is read: its characters with their count in front
  abbrev pub read_line : ℕ → Os → List ℕ × Os
  read_line nbs os =
      let (char, os1) = bdos conin os in
      let c = char.result % 2 ^ 8 in
      let (line, os2) = bdos (conbuf nbs) os in
      if nbs == 1 then ((if c == 0x0d then 0 else 1) ∷ c ∷ [], os1) else (line.memory, os2)

  -- the rest of `_ttyin`, which reads a line
  unfoldable pub read_cooked : List ℕ → ℕ → Handle Os → ReadOut Os
  read_cooked buff bytes h =
      let nbs = if ltb bytes 0xff then bytes else 0xff in
      let (line, os1) = read_line nbs h.os in
      let xbytes = peek line % 2 ^ 8 in
      let os2 = if ltb xbytes nbs then (bdos (conout 0x0a) os1).1 else os1 in
      let h1 = record h { os = os2 } in
      let l = copy_line bytes xbytes (advance line) in
      if l.ended
      then ends (length l.out) l.out buff (update_fp (mark_eof true) h1)
      else if ltb 0 l.left
      then ends (length l.out + 1) (l.out ++ (0x0a ∷ [])) buff h1
      else ends (length l.out) l.out buff h1

  -- `_ttyin`
  unfoldable pub ttyin : List ℕ → ℕ → Handle Os → Option (ReadOut Os)
  ttyin buff bytes h =
      let (reply, os1) = bdos (conio 0xff) h.os in
      if h.fp.flags.is_sptty && has_mode raw h.fp.fcb
      then some (ends 1 (reply.result % 2 ^ 8 ∷ []) buff (record h { os = os1 }))
      else if h.fp.flags.is_sptty && has_mode cbreak h.fp.fcb
      then read_cbreak buff h
      else some (read_cooked buff bytes h)

-- the first 8 bytes of the block, where `struct sgttyb` is kept
abbrev pub tty_info : Fcb → List ℕ
tty_info f = f.drive ∷ take 7 f.fname

abbrev pub with_tty_info : List ℕ → Fcb → Fcb
with_tty_info s f = record f { drive = peek s; fname = take 7 (advance s) ++ drop 7 f.fname }

module _ {Os : Type 0} where
  -- `stty`: the result, the caller's structure and the library's state
  unfoldable pub stty : ℕ → List ℕ → World Os → ℕ × List ℕ × World Os
  stty fd argp w =
      let (found, w1) = chkc fd w in
      elim found [
        | none ↦ (failure, argp, record w1 { errno = ebadf })
        | some c ↦
            if c.flags.is_tty
            then (0, tty_info c.fcb, w1)
            else (failure, argp, record w1 { errno = enotty })
      ]

  -- `gtty`
  unfoldable pub gtty : ℕ → List ℕ → World Os → ℕ × List ℕ × World Os
  gtty fd argp w =
      let (found, w1) = chkc fd w in
      elim found [
        | none ↦ (failure, argp, record w1 { errno = ebadf })
        | some c ↦
            if c.flags.is_tty
            then (0, argp, putccb w1 fd (record c { fcb = with_tty_info argp c.fcb }))
            else (failure, argp, record w1 { errno = enotty })
      ]
