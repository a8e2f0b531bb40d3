-- ===== src/Files.antt =====
-- cpmlib/__open.c, open.c (`_open`) and creat.c: how a channel is opened.
pub mod Channels
pub mod Opening
pub mod Closing
pub mod Posix
pub mod Standard
use libgloss_cpm68k.Prelude.{
  ℕ, ◌+◌, ◌-◌, ◌*◌, ◌/◌, ◌%◌, ◌^◌, Bool, true, false, not, ◌&&◌, ◌||◌, Option, none, some, List, [],
  ◌∷◌, ◌++◌, ltb, ◌==◌, if◌then◌else◌, set, get_or,
}
use libgloss_cpm68k.Prelude.Words.{lt_long, lt_word}
use libgloss_cpm68k.Bdos.{
  Bdos, Fcb, Request, Reply, open_file, close_file, search_first, search_next, delete, create,
  f_rename,
}
use libgloss_cpm68k.State.{
  World, Ccb, Flags, Errno, ebadf, einval, enoent, enospc, eio, eexist, success, failure, getccb,
  putccb, reterr,
}
use libgloss_cpm68k.Bytes.{same_ignoring_case}
use libgloss_cpm68k.Channel.{allocc, freec, chinit_one, chinit, chkc}
use libgloss_cpm68k.ParseFn.{parsefn}
use libgloss_cpm68k.User.{chkuser, uchkuser, word_of_byte}
use libgloss_cpm68k.BlkIo.{writing}
use libgloss_cpm68k.Handle.{Handle, buffer_io, fails, on_channel}
use libgloss_cpm68k.Seek.{lseek}
use libgloss_cpm68k.Io.{write}

-- the functions that `__open` is called with
pub data OpenFn : Type 0 where
  opening creating deleting searching searching_next : OpenFn

abbrev pub open_request : OpenFn → Fcb → Request
open_request opening f = open_file f
open_request creating f = create f
open_request deleting f = delete f
open_request searching f = search_first f
open_request searching_next f = search_next f

abbrev pub is_creating : OpenFn → Bool
is_creating creating = true
is_creating _ = false

abbrev pub is_opening : OpenFn → Bool
is_opening creating = false
is_opening opening = true
is_opening _ = false

abbrev pub is_searching : OpenFn → Bool
is_searching creating = false
is_searching searching = true
is_searching searching_next = true
is_searching _ = false

-- `index(s, '?')`: whether a `?` stands in front of the first NUL
unfoldable pub has_wild : List ℕ → Bool
has_wild [] = false
has_wild (c ∷ s) = not (c == 0) && (c == b'?' || has_wild s)

-- the F6' attribute bit, `fname[5] |= HIBIT`
abbrev pub read_only_fcb : Fcb → Fcb
read_only_fcb f = record f {
  fname =
      set f.fname 5
        (if ltb (get_or f.fname 5 0) 128 then get_or f.fname 5 0 + 128 else get_or f.fname 5 0);
}

-- "CON:" and "LST:"
abbrev pub tname : List ℕ
tname = b'C' ∷ b'O' ∷ b'N' ∷ b':' ∷ []

abbrev pub lname : List ℕ
lname = b'L' ∷ b'S' ∷ b'T' ∷ b':' ∷ []

module _ {Os : Type 0} (bdos : Bdos Os) where
  -- the BDOS calls of `__open` for user `u`: the result, the FCB and the machine
  unfoldable pub open_calls : OpenFn → Bool → ℕ → Fcb → Os → ℕ × Fcb × Os
  open_calls fn readonly u f os =
      let (xuser, os1) = chkuser bdos u os in
      let (gone, os2) = bdos (delete f) os1 in
      let f2 = if is_creating fn then gone.fcb else f in
      let os3 = if is_creating fn then os2 else os1 in
      let f3 = if is_opening fn && readonly then read_only_fcb f2 else f2 in
      let (reply, os4) = bdos (open_request fn f3) os3 in
      (reply.result, reply.fcb, uchkuser bdos u xuser os4)

  -- `__open` on the block of its channel
  unfoldable pub open_handle : List ℕ → OpenFn → Handle Os → ℕ × Handle Os
  open_handle filnam fn h =
      let (parsed, f) = parsefn filnam h.fp.fcb in
      let c = record (h.fp) { fcb = f; user = if f.fuser == 0 then h.fp.user else f.fuser } in
      let (rv, f2, os2) = open_calls fn h.fp.flags.is_read (word_of_byte c.user) f h.os in
      let h2 = record h { fp = record c { fcb = f2 }; os = os2 } in
      if not parsed
      then fails failure einval (record h { fp = record (h.fp) { fcb = f } })
      else if is_creating fn && has_wild (f.fname ++ f.ftype)
      then fails failure einval (record h { fp = c })
      else if is_searching fn
      then (rv, h2)
      else (if lt_word 3 rv then failure else success, h2)

  -- `__open`; the WORD that it returns is SUCCESS, FAILURE or a directory code
  unfoldable pub open_fcb : ℕ → List ℕ → OpenFn → World Os → ℕ × World Os
  open_fcb ch filnam fn w = on_channel ch (open_handle filnam fn) w

module _ {Os : Type 0} where
  -- `ch -> flags |= …` on the block of a channel
  abbrev pub set_flags : (Flags → Flags) → ℕ → World Os → World Os
  set_flags f i w = let c = getccb w i in putccb w i (record c { flags = f c.flags })

-- the devices that are named as files
pub data Device : Type 0 where
  terminal printer disk : Device

unfoldable pub device_of : List ℕ → Device
device_of fname =
    if same_ignoring_case fname tname
    then terminal
    else if same_ignoring_case fname lname
    then printer
    else disk

-- the value for the device at hand
abbrev pub on_device {ℓ} : {A : Type ℓ} → Device → A → A → A → A
on_device terminal a b c = a
on_device printer a b c = b
on_device disk a b c = c

abbrev pub mark_tty : Flags → Flags
mark_tty f = record f { is_tty = true; opened = true }

abbrev pub mark_lpt : Flags → Flags
mark_lpt f = record f { is_lpt = true; opened = true }

abbrev pub mark_opened : Flags → Flags
mark_opened f = record f { opened = true }

abbrev pub mark_kind : Bool → Bool → Flags → Flags
mark_kind readonly ascii f = record f {
  is_read = readonly || f.is_read;
  is_ascii = ascii || f.is_ascii;
}

-- READ and WRITE, the modes of `_open`
abbrev pub mode_read : ℕ
mode_read = 0

abbrev pub mode_write : ℕ
mode_write = 1

module _ {Os : Type 0} (bdos : Bdos Os) where
  -- the two seeks at the end of `_open`
  unfoldable pub find_hiwater : ℕ → World Os → World Os
  find_hiwater ich w =
      let chan = (getccb w ich).chan in (lseek bdos chan 0 0 (lseek bdos chan 0 2 w).1).1

  -- `_open` of a disk file, on the initialised channel `ich`
  unfoldable pub open_disk : ℕ → List ℕ → World Os → ℕ × World Os
  open_disk ich fname w =
      let (ret, w1) = open_fcb bdos ich fname opening w in
      if ret == 0
      then (ich, find_hiwater ich (set_flags mark_opened ich w1))
      else reterr failure enoent (freec ich w1).1

  -- `_open` behind `_allocc`, on channel `ich`
  unfoldable pub open_on : ℕ → List ℕ → ℕ → ℕ → World Os → ℕ × World Os
  open_on ich fname mode xtype w =
      let w1 = set_flags (mark_kind (mode == mode_read) (xtype == 0)) ich (chinit_one ich w) in
      on_device (device_of fname) (ich, set_flags mark_tty ich w1) (ich, set_flags mark_lpt ich w1)
        (open_disk ich fname w1)

  -- `_open`
  unfoldable pub open_file_on : List ℕ → ℕ → ℕ → World Os → ℕ × World Os
  open_file_on fname mode xtype w =
      let (ich, w1) = allocc w in
      if ich == failure then (failure, w1) else open_on ich fname mode xtype w1

  -- `_creat` of a disk file, on the initialised channel `ich`
  unfoldable pub creat_disk : ℕ → List ℕ → World Os → ℕ × World Os
  creat_disk ich fname w =
      let (ret, w1) = open_fcb bdos ich fname creating w in
      if ret == 0 then (ich, set_flags mark_opened ich w1) else reterr failure enospc w1

  -- `_creat` behind `_allocc`, on channel `ich`
  unfoldable pub creat_on : ℕ → List ℕ → ℕ → World Os → ℕ × World Os
  creat_on ich fname xtype w =
      let w1 = set_flags (mark_kind false (xtype == 0)) ich (chinit_one ich w) in
      on_device (device_of fname) (ich, set_flags mark_tty ich w1) (ich, set_flags mark_lpt ich w1)
        (creat_disk ich fname w1)

  -- `_creat`
  unfoldable pub creat : List ℕ → ℕ → World Os → ℕ × World Os
  creat fname xtype w =
      let (ich, w1) = allocc w in
      if ich == failure then (failure, w1) else creat_on ich fname xtype w1

  -- `opena` and `openb`, `creata` and `creatb`
  unfoldable pub opena : List ℕ → ℕ → World Os → ℕ × World Os
  opena fname mode w = open_file_on fname mode 0 w

  unfoldable pub openb : List ℕ → ℕ → World Os → ℕ × World Os
  openb fname mode w = open_file_on fname mode 1 w

  unfoldable pub creata : List ℕ → World Os → ℕ × World Os
  creata fname w = creat fname 0 w

  unfoldable pub creatb : List ℕ → World Os → ℕ × World Os
  creatb fname w = creat fname 1 w
