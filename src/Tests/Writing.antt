-- ===== src/Tests/Writing.antt =====
-- The theorems on writes at a file of one sector.
use libgloss_cpm68k.Prelude.{
  ℕ, ◌≡◌, ◌≢◌, ◌⊎◌, refl, sym, true, false, none, some, List, [], ◌∷◌, ◌++◌, ◌==◌, if◌then◌else◌,
  replicate, length, drop, take, arith,
}
use libgloss_cpm68k.Prelude.Words.{long_minus_one}
use libgloss_cpm68k.State.{failure, no_error, no_flags}
use libgloss_cpm68k.Handle.{Handle, clean, buffer_io}
use libgloss_cpm68k.User.{chkuser, uchkuser}
use libgloss_cpm68k.BlkIo.{blkio}
use libgloss_cpm68k.ReadBin.{rdbin}
use libgloss_cpm68k.WriteBin.RoundTrip.{rdbin-wrtbin}
use libgloss_cpm68k.ReadAsc.{rdasc}
use libgloss_cpm68k.ReadAsc.Text.{text}
use libgloss_cpm68k.ReadAsc.Round.{IsReadAt}
use libgloss_cpm68k.WriteAsc.{fill, fetch, wrtasc_loop, wrtasc}
use libgloss_cpm68k.WriteAsc.Newlines.{stored_as}
use libgloss_cpm68k.WriteAsc.Stages.{Outcome}
use libgloss_cpm68k.WriteAsc.Refine.{wrtasc-Outcome}
use libgloss_cpm68k.WriteAsc.RoundTrip.{rdasc-wrtasc}
use libgloss_cpm68k.WriteBin.{
  make_current, write_sectors, write_tail, wrtbin, make_current, write_buffered, write_sectors,
  write_tail, overlay,
}
use libgloss_cpm68k.WriteBin.Buffer.{view, IsOpen, some-injective}
use libgloss_cpm68k.WriteBin.Stages.{Wrote, Fails}
use libgloss_cpm68k.WriteBin.Sectors.{IsBelow}
use libgloss_cpm68k.WriteBin.Current.{IsCoherent}
use libgloss_cpm68k.WriteBin.Refine.{wrtbin-Wrote}
use libgloss_cpm68k.WriteBin.Stale.{wrtbin-stale}
use libgloss_cpm68k.Tests.Machine.{at, Machine, bdos, current, blank, user_laws, file_laws}

abbrev letters : List ℕ
letters = replicate 128 0x41

abbrev others : List ℕ
others = replicate 128 0x42

abbrev start : Machine
start = record {
  number = 0;
  disk = λ i. if i == 0 then some letters else none;
  records = 1;
  found = true;
  room = false;
  screen = [];
  paper = [];
}

-- a channel for user 3, 100 bytes into the file
abbrev inside : Handle Machine
inside = record {
  fp = record {
    flags = record no_flags { opened = true };
    user = 3;
    chan = 0;
    offset = 100;
    sector = long_minus_one;
    hiwater = 128;
    fcb = blank;
    buffer = replicate 128 0;
  };
  errno = no_error;
  os = start;
}

inside-IsOpen : IsOpen bdos current user_laws file_laws inside
inside-IsOpen = record { few = omega arith; names = tt; size = omega arith }

inside-IsBelow : IsBelow bdos current user_laws file_laws 0 inside
inside-IsBelow = record { small = omega arith; beyond = λ m _ end. ground arith }

inside-IsCoherent : IsCoherent bdos current user_laws file_laws inside
inside-IsCoherent = record { held = λ s _ e. cc; label_lt = λ d. cc }

wrtbin-Wrote_example :
    Wrote bdos current user_laws file_laws
      (take 50 others)
      0
      inside
      (wrtbin bdos (take 50 others) inside)
    ⊎ Fails bdos current user_laws file_laws (wrtbin bdos (take 50 others) inside)
wrtbin-Wrote_example =
    wrtbin-Wrote bdos current user_laws file_laws (take 50 others) inside (omega arith)
      (omega arith) inside-IsOpen inside-IsBelow inside-IsCoherent (λ d _. cc)

-- the first sector is in the buffer and dirty
abbrev dirty : Handle Machine
dirty = record inside {
  fp = record (inside.fp) {
    flags = record no_flags { opened = true; dirty = true };
    offset = 0;
    sector = 0;
    buffer = letters;
  };
}

dirty-IsOpen : IsOpen bdos current user_laws file_laws dirty
dirty-IsOpen = record { few = omega arith; names = tt; size = omega arith }

dirty_saved : (clean bdos (wrtbin bdos others dirty).1).0 ≡ true
unfolding clean wrtbin make_current write_sectors blkio write_tail buffer_io
dirty_saved = refl

wrtbin-stale_example :
    let out = (wrtbin bdos others dirty).1 in
    (view at out 0 ≡ some (take 128 letters))
    × (at (clean bdos out).1.os 0 ≡ some (take 128 letters))
wrtbin-stale_example =
    wrtbin-stale bdos current user_laws file_laws others dirty dirty-IsOpen refl refl refl
      (omega arith) (omega arith) (omega arith) refl dirty_saved

-- the sector is in the buffer
abbrev loaded : Handle Machine
loaded = record inside { fp = record (inside.fp) { sector = 0; buffer = letters } }

loaded-IsCoherent : IsCoherent bdos current user_laws file_laws loaded
loaded-IsCoherent = record { held = λ s _ e. some-injective (sym e); label_lt = λ d. cc }

loaded-IsOpen : IsOpen bdos current user_laws file_laws loaded
loaded-IsOpen = record { few = omega arith; names = tt; size = omega arith }

loaded-IsBelow : IsBelow bdos current user_laws file_laws 0 loaded
loaded-IsBelow = record { small = omega arith; beyond = λ m _ end. ground arith }

abbrev two_bytes : List ℕ
two_bytes = 0x43 ∷ 0x44 ∷ []

wrtbin_runs : (wrtbin bdos two_bytes loaded).0 ≡ 2
unfolding wrtbin make_current write_buffered write_sectors write_tail
wrtbin_runs = refl

abbrev after_write : ℕ × Handle Machine
after_write = wrtbin bdos two_bytes loaded

saved : (clean bdos after_write.1).0 ≡ true
unfolding wrtbin make_current write_buffered write_sectors write_tail clean buffer_io blkio chkuser
    uchkuser overlay
saved = refl

went : after_write.0 ≢ failure
went e = absurd (omega (arith, wrtbin_runs, e))

-- another channel to the file
abbrev reader : Handle Machine
reader = record loaded {
  fp = record (loaded.fp) { sector = long_minus_one };
  os = (clean bdos after_write.1).1.os;
}

rdbin-wrtbin_example :
    let r = rdbin bdos [] 2 reader in
    (r.ret ≡ 2) × ((rest : List ℕ) × (r.memory ≡ two_bytes ++ rest))
rdbin-wrtbin_example =
    rdbin-wrtbin bdos current user_laws file_laws two_bytes [] loaded reader (omega arith)
      (omega arith) (omega arith) loaded-IsOpen loaded-IsBelow loaded-IsCoherent (λ d _. cc) went
      saved refl refl (λ e. absurd (omega (arith, e)))
      (record { tidy = refl; few = omega arith; names = tt })

-- a letter and a newline
abbrev line : List ℕ
line = 0x61 ∷ 0x0a ∷ []

wrtasc-Outcome_example :
    Outcome bdos current user_laws file_laws 2 (stored_as 0 line) loaded (wrtasc bdos line loaded)
unfolding stored_as
wrtasc-Outcome_example =
    wrtasc-Outcome bdos current user_laws file_laws line loaded (omega arith) (omega arith)
      loaded-IsOpen loaded-IsBelow loaded-IsCoherent

line_runs : (wrtasc bdos line loaded).0 ≡ 2
unfolding wrtasc wrtasc_loop fetch fill
line_runs = refl

abbrev after_line : ℕ × Handle Machine
after_line = wrtasc bdos line loaded

line_saved : (clean bdos after_line.1).0 ≡ true
unfolding wrtasc wrtasc_loop fetch fill clean buffer_io blkio chkuser uchkuser overlay
line_saved = refl

line_end : at (clean bdos after_line.1).1.os 1 ≡ none
unfolding wrtasc wrtasc_loop fetch fill clean buffer_io blkio chkuser uchkuser overlay
line_end = refl

abbrev text_reader : Handle Machine
text_reader = record reader { os = (clean bdos after_line.1).1.os }

text_reader-IsReadAt : IsReadAt bdos current user_laws file_laws 1 text_reader
text_reader-IsReadAt = record {
  ready = record { tidy = refl; few = omega arith; names = tt };
  size = omega arith;
  held = λ e. absurd (omega (arith, e));
  last_lt = omega arith;
  end = line_end;
  inside = omega arith;
}

rdasc-wrtasc_example :
    let r = rdasc bdos [] (length (text line)) text_reader in
    (r.ret ≡ length (text line)) × (r.memory ≡ text line ++ drop (length (text line)) [])
unfolding stored_as
rdasc-wrtasc_example =
    rdasc-wrtasc bdos current user_laws file_laws line [] 1 loaded text_reader (omega arith)
      (omega arith) loaded-IsOpen loaded-IsBelow loaded-IsCoherent line_runs line_saved refl refl
      text_reader-IsReadAt
