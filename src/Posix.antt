-- ===== src/Posix.antt =====
-- cpmlib/open.c (`open`), unlink.c and rename.c, and `_init` of _main.c: operations on named files
-- and the standard channels.
use libgloss_cpm68k.Prelude.{ℕ, Bool, true, false, not, ◌&&◌, ◌||◌, List, ◌==◌, if◌then◌else◌}
use libgloss_cpm68k.Prelude.Words.{lt_long}
use libgloss_cpm68k.Bdos.{Bdos, Fcb, f_rename}
use libgloss_cpm68k.State.{World, Errno, einval, enoent, eexist, success, failure, reterr}
use libgloss_cpm68k.Channel.{allocc, freec, chinit_one, chinit}
use libgloss_cpm68k.ParseFn.{parsefn}
use libgloss_cpm68k.User.{chkuser, uchkuser, word_of_byte}
use libgloss_cpm68k.Seek.{lseek}
use libgloss_cpm68k.Files.{deleting, open_fcb, tname, mode_read, mode_write, open_file_on, creat}
use libgloss_cpm68k.Close.{close}

-- the bits of `oflags` that `open` tests
pub record OpenFlags : Type 0 where
  pub o_wronly : Bool
  pub o_rdwr : Bool
  pub o_append : Bool
  pub o_creat : Bool
  pub o_excl : Bool
  pub o_binary : Bool

abbrev pub is_enoent : Errno → Bool
is_enoent Errno.ebadf = false
is_enoent Errno.enoent = true
is_enoent _ = false

module _ {Os : Type 0} (bdos : Bdos Os) where
  -- the end of `open`
  abbrev pub append_mode : OpenFlags → ℕ × World Os → ℕ × World Os
  append_mode o (ret, w) =
      (ret, if not (ret == failure) && o.o_append then (lseek bdos ret 0 2 w).1 else w)

  -- `open`
  unfoldable pub open_posix : List ℕ → OpenFlags → World Os → ℕ × World Os
  open_posix fname o w =
      let rdonly = not (o.o_wronly || o.o_rdwr) in
      let mode = if rdonly then mode_read else 0 in
      let xtype = if o.o_binary then 1 else 0 in
      let (ret, w1) = open_file_on bdos fname mode xtype w in
      let created = creat bdos fname xtype w1 in
      if not o.o_creat
      then append_mode o (ret, w1)
      else if ret == failure && is_enoent w1.errno
      then (if rdonly then reterr failure einval w1 else append_mode o created)
      else if o.o_excl
      then reterr failure eexist (close bdos ret w1).1
      else append_mode o (ret, w1)

  -- `unlink`
  unfoldable pub unlink : List ℕ → World Os → ℕ × World Os
  unlink filename w =
      let (ch, w1) = allocc w in
      let (ret, w2) = open_fcb bdos ch filename deleting (chinit_one ch w1) in
      if lt_long ch 0 then (failure, w1) else (ret, (freec ch w2).1)

  -- `rename`: the FCB of the old name, and that of the new one behind its first 16 bytes
  unfoldable pub rename : Fcb → Fcb → List ℕ → List ℕ → World Os → ℕ × World Os
  rename area area' from to w =
      let (from_parsed, f) = parsefn from area in
      let (to_parsed, f') = parsefn to area' in
      let nuser = word_of_byte (if f'.fuser == 0 then f.fuser else f'.fuser) in
      let (xuser, os1) = chkuser bdos nuser w.os in
      let (reply, os2) = bdos (f_rename f f') os1 in
      let w2 = record w { os = uchkuser bdos nuser xuser os2 } in
      if not from_parsed
      then reterr failure einval w
      else if not to_parsed
      then reterr failure einval w
      else if not (f'.fuser == 0) && (not (f.fuser == 0) && not (f.fuser == f'.fuser))
      then reterr failure einval w
      else if reply.result == 0
      then (success, w2)
      else reterr failure enoent w2

  -- `_init`: the three standard channels
  unfoldable pub init : World Os → World Os
  init w =
      let w1 = chinit w in
      let w2 = (open_file_on bdos tname mode_read 0 w1).1 in
      let w3 = (open_file_on bdos tname mode_write 0 w2).1 in
      (open_file_on bdos tname mode_write 0 w3).1
