-- ===== src/Calls.antt =====
-- The library as a whole: the calls of it that a program makes, in any order, on the channels of
-- cpmlib/channels.c. The headline statement is in Calls/Invariant.antt. A call for which C stores
-- outside of an array is none of them: what follows it depends on what stands there.
pub mod Transfers
pub mod Sound
pub mod Reading
pub mod Writing
pub mod Operations
pub mod Opening
pub mod Invariant
use libgloss_cpm68k.Prelude.{ℕ, ◌+◌, ◌^◌, ◌<◌, ◌≡◌, Bool, true, ◌&&◌, Option, some, List, length}
use libgloss_cpm68k.Bdos.{Bdos, Fcb}
use libgloss_cpm68k.State.{World, getccb}
use libgloss_cpm68k.Console.{expands_tabs}
use libgloss_cpm68k.Console.Fits.{fits_local}
use libgloss_cpm68k.Seek.{filesz, lseek, fstat, isatty}
use libgloss_cpm68k.TtyIn.{stty, gtty}
use libgloss_cpm68k.Io.{read, write}
use libgloss_cpm68k.Files.{open_file_on, creat}
use libgloss_cpm68k.Posix.{OpenFlags, open_posix, unlink, rename}
use libgloss_cpm68k.Close.{close}

-- the tokens of a file name fit in the `tokbuf` of `_parsefn`, with their NUL
abbrev pub IsShortName : List ℕ → Type 0
IsShortName name = length name < 32

-- a write stays in its arrays: the counts of `_wrtbin` do not wrap, which would let the rest of the
-- bytes run over the channel's buffer; and on a console the `$` of `_ttyout` stays in the local buffer
pub record StaysInside {Os : Type 0} (fd : ℕ) (buff : List ℕ) (bytes : ℕ) (w : World Os)
    : Type 0 where
  pub few : bytes < 2 ^ 16
  pub console :
      (getccb w fd).flags.is_tty ≡ true
      → let tabs = (getccb w fd).flags.is_sptty && expands_tabs (getccb w fd).fcb in
        fits_local (length buff + bytes + 1) tabs 0 buff bytes ≡ true

module _ {Os : Type 0} (bdos : Bdos Os) where
  -- a call takes the library's state from the one to the other; a read that ends the program is none
  pub data Call : World Os → World Os → Type 0 where
    opens :
        (name : List ℕ) (f : OpenFlags) {w v : World Os}
        → IsShortName name
        → (open_posix bdos name f w).1 ≡ v
        → Call w v
    opens_on :
        (name : List ℕ) (mode xtype : ℕ) {w v : World Os}
        → IsShortName name
        → (open_file_on bdos name mode xtype w).1 ≡ v
        → Call w v
    creates :
        (name : List ℕ) (xtype : ℕ) {w v : World Os}
        → IsShortName name
        → (creat bdos name xtype w).1 ≡ v
        → Call w v
    closes : (fd : ℕ) {w v : World Os} → (close bdos fd w).1 ≡ v → Call w v
    reads :
        (fd : ℕ) (buff : List ℕ) (bytes : ℕ) {w : World Os} {r : ℕ × List ℕ × World Os}
        → read bdos fd buff bytes w ≡ some r
        → Call w r.2
    writes :
        (fd : ℕ) (buff : List ℕ) (bytes : ℕ) {w v : World Os}
        → StaysInside fd buff bytes w
        → (write bdos fd buff bytes w).1 ≡ v
        → Call w v
    seeks : (fd offs sense : ℕ) {w v : World Os} → (lseek bdos fd offs sense w).1 ≡ v → Call w v
    asks_size : (fd : ℕ) {w v : World Os} → (filesz bdos fd w).1 ≡ v → Call w v
    asks_stat : (fd : ℕ) {w v : World Os} → (fstat bdos fd w).2 ≡ v → Call w v
    asks_tty : (fd : ℕ) {w v : World Os} → (isatty fd w).1 ≡ v → Call w v
    calls_stty : (fd : ℕ) (argp : List ℕ) {w v : World Os} → (stty fd argp w).2 ≡ v → Call w v
    calls_gtty : (fd : ℕ) (argp : List ℕ) {w v : World Os} → (gtty fd argp w).2 ≡ v → Call w v
    unlinks :
        (name : List ℕ) {w v : World Os} → IsShortName name → (unlink bdos name w).1 ≡ v → Call w v
    renames :
        (area area' : Fcb) (from to : List ℕ) {w v : World Os}
        → IsShortName from
        → IsShortName to
        → (rename bdos area area' from to w).1 ≡ v
        → Call w v

  -- a sequence of calls
  pub data Reach (u : World Os) : World Os → Type 0 where
    here : Reach u u
    next : {v w : World Os} → Reach u v → Call v w → Reach u w
