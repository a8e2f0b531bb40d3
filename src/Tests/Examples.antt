-- ===== src/Tests/Examples.antt =====
-- The theorems at concrete inputs.
use libgloss_cpm68k.Prelude.{
  ◌<◌, ◌+◌, ◌/◌, ◌%◌, ℕ, ◌≡◌, ◌⊎◌, refl, true, false, none, some, List, [], ◌∷◌, ◌++◌, ◌==◌,
  if◌then◌else◌, length, replicate, take, drop, arith, map,
}
use libgloss_cpm68k.Prelude.Bits.{test_bit}
use libgloss_cpm68k.Prelude.Words.{long_minus_one}
use libgloss_cpm68k.State.{World, Ccb, no_error, ebadf, no_flags, maxccbs, failure, getccb, putccb}
use libgloss_cpm68k.Bytes.{to_upper, same_ignoring_case}
use libgloss_cpm68k.Channel.{allocc, chinit_one}
use libgloss_cpm68k.User.{chkuser}
use libgloss_cpm68k.User.Restore.{effective}
use libgloss_cpm68k.BlkIo.{reading, writing, blkio}
use libgloss_cpm68k.BlkIo.Transfer.{IsRead, blkio-IsRead}
use libgloss_cpm68k.BlkIo.Store.{IsWrite, blkio-IsWrite}
use libgloss_cpm68k.ParseFn.{is_delim, get_token, parse_name, parse_type, parse_password, parsefn}
use libgloss_cpm68k.ParseFn.Case.{parsefn-to_upper}
use libgloss_cpm68k.ParseFn.Names.{
  of_user_on, field, with_prefix, with_type, show_file, parsefn-show_file,
}
use libgloss_cpm68k.Channel.{blank_fcb}
use libgloss_cpm68k.Handle.{Handle}
use libgloss_cpm68k.Console.{wrtchr}
use libgloss_cpm68k.Console.Fits.{fits_local}
use libgloss_cpm68k.Console.Newlines.{crlf, wrtchr_console, wrtchr_printer}
use libgloss_cpm68k.Seek.{fstat}
use libgloss_cpm68k.ReadBin.{rdbin}
use libgloss_cpm68k.ReadBin.Contents.{content}
use libgloss_cpm68k.ReadBin.Fetch.{Delivers}
use libgloss_cpm68k.ReadBin.Refine.{Missing, rdbin-Delivers}
use libgloss_cpm68k.ReadAsc.{rdasc}
use libgloss_cpm68k.ReadAsc.Round.{rest_of, Reads, IsReadAt}
use libgloss_cpm68k.ReadAsc.Refine.{rdasc-Reads}
use libgloss_cpm68k.ReadAsc.Text.{text}
use libgloss_cpm68k.TtyIn.{stty, gtty}
use libgloss_cpm68k.TtyIn.Info.{stty-gtty}
use libgloss_cpm68k.Io.{read, write}
use libgloss_cpm68k.Io.Fstat.{read-fstat}
use libgloss_cpm68k.Files.Standard.{IsStandard, init_lem}
use libgloss_cpm68k.Posix.{init, OpenFlags, open_posix}
use libgloss_cpm68k.Files.{
  open_on, open_disk, open_fcb, open_handle, open_calls, device_of, open_file_on, creat,
}
use libgloss_cpm68k.Close.{close}
use libgloss_cpm68k.Files.Opening.{
  Opened, NotOpened, NoneFree, Leaked, open_file_on_cases, creat_cases,
}
use libgloss_cpm68k.Files.Closing.{IsClosed, close-open_file_on}
use libgloss_cpm68k.Files.Posix.{write-open_posix}
use libgloss_cpm68k.Bytes.{is_space}
use libgloss_cpm68k.Args.{program_name, parse_args}
use libgloss_cpm68k.Args.Quoting.{Arg, bare, within, value, show_args, parse_args-show_args}
use libgloss_cpm68k.Heap.{Heap, sbrk}
use libgloss_cpm68k.Heap.Growth.{Granted, Denied, sbrk_cases}
use libgloss_cpm68k.Tests.Machine.{
  at, Machine, bdos, current, blank, user_laws, file_laws, device_laws,
}

abbrev letters : List ℕ
letters = replicate 128 0x41

-- a file of one sector, that can be opened but not created
abbrev start : Machine
start = record {
  number = 0;
  disk = λ i. if i == 0 then some letters else none;
  records = 1;
  found = true;
  room = false;
  screen = [];
  paper = [];
}

abbrev closed_block : Ccb
closed_block = record {
  flags = no_flags;
  user = 0;
  chan = 0;
  offset = 0;
  sector = long_minus_one;
  hiwater = 0;
  fcb = blank;
  buffer = letters;
}

abbrev disk_block : Ccb
disk_block = record closed_block { flags = record no_flags { opened = true }; user = 3 }

abbrev tty_block : Ccb
tty_block = record closed_block { flags = record no_flags { opened = true; is_tty = true } }

abbrev lpt_block : Ccb
lpt_block = record closed_block { flags = record no_flags { opened = true; is_lpt = true } }

-- channel 0 is a disk file and channel 1 the terminal; storage outside of the table looks open
abbrev world : World Machine
world = record {
  chvec = 3;
  fds = disk_block ∷ tty_block ∷ replicate 14 closed_block;
  outside = disk_block;
  errno = no_error;
  os = start;
}

abbrev handle : Ccb → Handle Machine
handle c = record { fp = c; errno = no_error; os = start }

-- "A\nB", "a.b"
abbrev lines : List ℕ
lines = 0x41 ∷ 0x0a ∷ 0x42 ∷ []

abbrev name : List ℕ
name = b'a' ∷ b'.' ∷ b'b' ∷ []

-- the channel inside the file's only sector
abbrev inside : Handle Machine
inside = handle (record disk_block { offset = 100 })

rdbin-Delivers_example :
    Delivers bdos current user_laws file_laws
      (take 50 (drop (100 % 128) (content (at start) (100 / 128) ((100 % 128 + 50) / 128 + 1))))
      50
      0
      inside
      (rdbin bdos [] 50 inside)
    ⊎ Missing bdos current user_laws file_laws inside (rdbin bdos [] 50 inside)
rdbin-Delivers_example =
    rdbin-Delivers bdos current user_laws file_laws [] 50 inside (omega arith)
      (λ e. absurd (omega (arith, e))) (record { tidy = refl; few = omega arith; names = tt })

inside-IsReadAt : IsReadAt bdos current user_laws file_laws 1 inside
inside-IsReadAt = record {
  ready = record { tidy = refl; few = omega arith; names = tt };
  size = omega arith;
  held = λ e. absurd (omega (arith, e));
  last_lt = omega arith;
  end = refl;
  inside = omega arith;
}

rdasc-Reads_example :
    Reads bdos current user_laws file_laws
      (at start)
      (take 50 (text (rest_of (at start) 1 100)))
      []
      []
      50
      (rdasc bdos [] 50 inside)
rdasc-Reads_example = rdasc-Reads bdos current user_laws file_laws 1 [] 50 inside inside-IsReadAt

blkio-IsRead_example :
    IsRead bdos current user_laws file_laws
      (effective bdos current user_laws 3 start)
      0
      2
      []
      start
      (blkio bdos reading disk_block 0 [] 2 start)
blkio-IsRead_example =
    blkio-IsRead bdos current user_laws file_laws disk_block 0 2 [] start (omega arith)
      (omega arith) tt

blkio-IsWrite_example :
    IsWrite bdos current user_laws file_laws
      (effective bdos current user_laws 3 start)
      4
      1
      letters
      start
      (blkio bdos writing disk_block 4 letters 1 start)
blkio-IsWrite_example =
    blkio-IsWrite bdos current user_laws file_laws disk_block 4 1 letters start (omega arith)
      (omega arith) (omega arith) tt

open_file_on_cases_example :
    Opened true world (open_file_on bdos name 0 1 world)
    ⊎ NotOpened world (open_file_on bdos name 0 1 world)
open_file_on_cases_example = open_file_on_cases bdos name 0 1 world refl

creat_cases_example :
    Opened false world (creat bdos name 1 world)
    ⊎ NoneFree world (creat bdos name 1 world)
    ⊎ Leaked world (allocc world).0 (creat bdos name 1 world)
creat_cases_example = creat_cases bdos name 1 world refl

console_opens : (open_file_on bdos (b'c' ∷ b'o' ∷ b'n' ∷ b':' ∷ []) 1 0 world).0 ≡ 2
unfolding open_file_on open_on allocc device_of same_ignoring_case test_bit to_upper
console_opens = refl

close-open_file_on_example :
    let r = open_file_on bdos (b'c' ∷ b'o' ∷ b'n' ∷ b':' ∷ []) 1 0 world in
    let s = close bdos r.0 r.1 in
    IsClosed r.0 r.1 s
    × (s.1.chvec ≡ world.chvec)
    × (close bdos r.0 s.1 ≡ (failure, record (s.1) { errno = ebadf }))
close-open_file_on_example =
    close-open_file_on bdos (b'c' ∷ b'o' ∷ b'n' ∷ b':' ∷ []) 1 0 world refl
      (λ e. absurd (omega (arith, e, console_opens)))

abbrev for_writing : OpenFlags
for_writing = record {
  o_wronly = true;
  o_rdwr = false;
  o_append = false;
  o_creat = false;
  o_excl = false;
  o_binary = true;
}

file_opens : (open_posix bdos name for_writing world).0 ≡ 2
unfolding open_posix open_file_on open_on open_disk open_fcb open_handle open_calls allocc device_of
    same_ignoring_case parsefn test_bit to_upper get_token is_delim parse_name parse_type
    parse_password chkuser getccb putccb chinit_one
file_opens = refl

write-open_posix_example :
    let r = open_posix bdos name for_writing world in
    write bdos r.0 letters 128 r.1 ≡ (failure, record (r.1) { errno = ebadf })
write-open_posix_example =
    write-open_posix bdos name for_writing world letters 127 refl refl
      (λ e. absurd (omega (arith, e, file_opens)))

read-fstat_example :
    let w1 = (fstat bdos 0 world).2 in
    ((fstat bdos 0 world).0 ≡ 0)
    × ((getccb w1 0).offset ≡ (getccb world 0).offset)
    × (read bdos 0 letters 128 w1 ≡ some (0, letters, w1))
unfolding getccb
read-fstat_example = read-fstat bdos 0 letters 128 world refl (omega arith) refl refl refl refl refl

parsefn-show_file_example :
    parsefn (show_file (of_user_on 12 3) (b'a' ∷ []) (some (b'b' ∷ []))) blank ≡ (
      true,
      with_type (some (b'b' ∷ [])) (record (with_prefix (of_user_on 12 3) (blank_fcb blank)) {
        fname = field 8 0x20 (b'a' ∷ []);
      }),
    )
unfolding is_delim
parsefn-show_file_example =
    parsefn-show_file (of_user_on 12 3) (b'a' ∷ []) (some (b'b' ∷ [])) blank
      (omega arith, omega arith, omega arith) (ground arith) (omega arith) (ground arith)

parsefn-to_upper_example : parsefn (map to_upper name) blank ≡ parsefn name blank
parsefn-to_upper_example = parsefn-to_upper name blank

wrtchr_console_example :
    ((wrtchr bdos lines 3 (handle tty_block)).0 ≡ 3)
    × ((wrtchr bdos lines 3 (handle tty_block)).1.os.screen ≡ [] ++ crlf (take 3 lines))
    × (fits_local 7 false 0 lines 3 ≡ true)
unfolding crlf
wrtchr_console_example =
    wrtchr_console bdos device_laws lines 3 (handle tty_block) refl refl (omega arith) (omega arith)
      (omega arith)

wrtchr_printer_example :
    ((wrtchr bdos lines 3 (handle lpt_block)).0 ≡ 3)
    × ((wrtchr bdos lines 3 (handle lpt_block)).1.os.paper ≡ [] ++ crlf (take 3 lines))
wrtchr_printer_example =
    wrtchr_printer bdos device_laws lines 3 (handle lpt_block) refl refl refl (omega arith)
      (omega arith)

stty-gtty_example :
    let w1 = (gtty 1 (1 ∷ replicate 7 0) world).2 in
    ((gtty 1 (1 ∷ replicate 7 0) world).0 ≡ 0)
    × ((gtty 1 (1 ∷ replicate 7 0) world).1 ≡ 1 ∷ replicate 7 0)
    × (stty 1 [] w1 ≡ (0, 1 ∷ replicate 7 0, w1))
unfolding getccb
stty-gtty_example = stty-gtty 1 1 (replicate 7 0) [] world refl (omega arith) refl refl refl

abbrev typed : List Arg
typed = bare b'a' (b'b' ∷ []) ∷ within b'"' (b'c' ∷ 0x20 ∷ []) ∷ []

parse_args-show_args_example :
    parse_args (length (show_args typed)) (show_args typed ++ (0x41 ∷ []))
    ≡ some (program_name ∷ map value typed)
unfolding is_space
parse_args-show_args_example = parse_args-show_args typed (0x41 ∷ []) (ground arith) (omega arith)

abbrev heap : Heap
heap = record { end_address = 0x8000; errno = no_error }

sbrk_cases_example :
    Granted 0xfff0 100 heap (sbrk 0xfff0 100 heap) ⊎ Denied 0xfff0 100 heap (sbrk 0xfff0 100 heap)
sbrk_cases_example =
    sbrk_cases 0xfff0 100 heap (omega arith) (omega arith)
      (record { gap = omega arith; aligned = refl })

abbrev unused : World Machine
unused = record world { chvec = 0 }

init_lem_example :
    IsStandard (init bdos unused)
    × ((j : ℕ) → 2 < j → j < maxccbs → (getccb (init bdos unused) j).flags ≡ no_flags)
init_lem_example = init_lem bdos unused refl refl
