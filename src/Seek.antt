-- ===== src/Seek.antt =====
-- cpmlib/filesz.c, lseek.c, fstat.c and isatty.c: the size of a file, and the position in it.
pub mod Position
use libgloss_cpm68k.Prelude.{
  ℕ, zero, suc, ◌+◌, ◌*◌, ◌-◌, ◌/◌, ◌%◌, ◌^◌, Bool, true, false, not, ◌||◌, Option, none, some,
  List, [], ◌∷◌, ◌==◌, if◌then◌else◌,
}
use libgloss_cpm68k.Prelude.Words.{add_long, sub_long, lt_long, long_minus_one}
use libgloss_cpm68k.Bdos.{Bdos, filsiz, secsiz}
use libgloss_cpm68k.State.{
  World, Ccb, Errno, ebadf, einval, eio, enotty, failure, getccb, putccb, reterr,
}
use libgloss_cpm68k.User.{chkuser, uchkuser, word_of_byte}
use libgloss_cpm68k.BlkIo.{reading}
use libgloss_cpm68k.Channel.{chkc}
use libgloss_cpm68k.Handle.{Handle, buffer_io, clean, load, mark_eof, update_fp, fails, on_channel}

-- the index of the first EOFCHAR, or the length
unfoldable pub eof_index : List ℕ → ℕ
eof_index [] = 0
eof_index (c ∷ s) = let rest = eof_index s in if c == 0x1a then 0 else suc rest

-- the last statements of `_filesz`
abbrev pub at_end_of_file : Ccb → Ccb
at_end_of_file c = mark_eof true (record c { hiwater = c.offset })

abbrev pub seek_to : ℕ → Ccb → Ccb
seek_to offset c = record c { offset = offset }

abbrev pub label : ℕ → Ccb → Ccb
label n c = record c { sector = n }

-- the statements of `lseek` behind its `switch`
abbrev pub settle : Ccb → Ccb
settle c =
    mark_eof false (record c { offset = if lt_long c.offset 0 then long_minus_one else c.offset })

module _ {Os : Type 0} where
  abbrev pub settled : ℕ → World Os → ℕ × World Os
  settled fd w = let c = settle (getccb w fd) in (c.offset, putccb w fd c)

module _ {Os : Type 0} (bdos : Bdos Os) where
  -- the call of function 35 for the channel's user; `fcb.record &= 0xFFFFFF`
  unfoldable pub ask_size : Handle Os → Handle Os
  ask_size h =
      let u = word_of_byte h.fp.user in
      let (xuser, os1) = chkuser bdos u h.os in
      let (reply, os2) = bdos (filsiz h.fp.fcb) os1 in
      record h {
        fp = record (h.fp) { fcb = record (reply.fcb) { recno = reply.fcb.recno % 2 ^ 24 } };
        os = uchkuser bdos u xuser os2;
      }

  -- the EOFCHAR scan of the sector that is in the buffer
  abbrev pub scan_eof : ℕ → Handle Os → ℕ × Handle Os
  scan_eof xsector h =
      let end = add_long (xsector * 128 % 2 ^ 32) (eof_index h.fp.buffer) in
      (end, update_fp (λ c. at_end_of_file (seek_to end (label xsector c))) h)

  -- an ASCII file whose last sector is `xsector`
  unfoldable pub ascii_size : ℕ → Handle Os → ℕ × Handle Os
  ascii_size xsector h =
      let (loaded, h1) = load bdos xsector h in
      if lt_long xsector 0
      then (0, update_fp (λ c. at_end_of_file (seek_to 0 c)) h)
      else if xsector == h.fp.sector
      then scan_eof xsector h
      else if loaded
      then scan_eof xsector h1
      else fails failure eio h1

  -- `_filesz` behind its call of `_chkc`
  unfoldable pub file_size : Handle Os → ℕ × Handle Os
  file_size h =
      let h1 = ask_size h in
      let xsector = sub_long h1.fp.fcb.recno 1 in
      let end = add_long xsector 1 * 128 % 2 ^ 32 in
      if h.fp.flags.is_tty || h.fp.flags.is_lpt
      then (0, h)
      else if h.fp.flags.dirty
      then (h.fp.hiwater, update_fp (λ c. at_end_of_file (seek_to c.hiwater c)) h)
      else if h.fp.flags.is_ascii
      then ascii_size xsector h1
      else (end, update_fp (λ c. at_end_of_file (seek_to end c)) h1)

  -- `_filesz`
  unfoldable pub filesz : ℕ → World Os → ℕ × World Os
  filesz fd w =
      let (found, w1) = chkc fd w in
      elim found [ none ↦ (failure, w1) | some c ↦ on_channel fd file_size w1 ]

  -- `lseek` on an open channel
  unfoldable pub seek : ℕ → ℕ → ℕ → World Os → ℕ × World Os
  seek fd offs sense w =
      let c = getccb w fd in
      let (size, w2) = filesz fd w in
      let ended = record (getccb w2 fd) { hiwater = size; offset = add_long size offs } in
      if sense == 0
      then settled fd (putccb w fd (record c { offset = offs }))
      else if sense == 1
      then settled fd (putccb w fd (record c { offset = add_long c.offset offs }))
      else if sense == 2
      then settled fd (putccb w2 fd ended)
      else reterr failure einval w

  -- `lseek`
  unfoldable pub lseek : ℕ → ℕ → ℕ → World Os → ℕ × World Os
  lseek fd offs sense w =
      let (found, w1) = chkc fd w in
      elim found [ none ↦ reterr failure ebadf w1 | some c ↦ seek fd offs sense w1 ]

-- the fields of `struct stat` that `fstat` sets: whether it is a character device, and for a file
-- its size and blocks
pub record Stat : Type 0 where
  pub is_chr : Bool
  pub size : ℕ
  pub blocks : ℕ
  pub blksize : ℕ

module _ {Os : Type 0} (bdos : Bdos Os) where
  -- `fstat` on an open channel; `st_size + SECSIZ - 1` is taken modulo 2 ^ 32, and the quotient of
  -- a negative size is not used
  unfoldable pub stat_channel : ℕ → World Os → Stat × World Os
  stat_channel fd w =
      let c = getccb w fd in
      let (size, w1) = filesz bdos fd w in
      if c.flags.is_tty || c.flags.is_lpt || c.flags.is_aux
      then (record { is_chr = true; size = 0; blocks = 0; blksize = 0 }, w)
      else (
        record {
          is_chr = false;
          size = size;
          blocks = add_long size 127 / secsiz;
          blksize = secsiz;
        },
        putccb w1 fd (record (getccb w1 fd) { offset = c.offset }),
      )

  -- `fstat`: the result, and the structure where it was filled in
  unfoldable pub fstat : ℕ → World Os → ℕ × Option Stat × World Os
  fstat fd w =
      let (found, w1) = chkc fd w in
      let (stat, w2) = stat_channel fd w1 in
      elim found [
        | none ↦ (failure, none, record w1 { errno = ebadf })
        | some c ↦ (0, some stat, w2)
      ]

module _ {Os : Type 0} where
  -- `isatty`
  unfoldable pub isatty : ℕ → World Os → ℕ × World Os
  isatty fd w =
      let (found, w1) = chkc fd w in
      elim found [
        | none ↦ reterr 0 ebadf w1
        | some c ↦ if c.flags.is_tty then (1, w1) else reterr 0 enotty w1
      ]
