-- ===== src/Tests/Terminal.antt =====
-- Tab expansion, at a terminal that has it on.
use libgloss_cpm68k.Prelude.{
  ℕ, ◌≡◌, refl, ap, length, true, none, List, [], ◌∷◌, ◌++◌, replicate, arith,
}
use libgloss_cpm68k.Prelude.Words.{long_minus_one}
use libgloss_cpm68k.State.{no_error, no_flags}
use libgloss_cpm68k.Handle.{Handle}
use libgloss_cpm68k.Console.{wrtchr, expands_tabs, sg_flags}
use libgloss_cpm68k.Console.Fits.{fits_local}
use libgloss_cpm68k.Console.Tabs.{countable, expanded}
use libgloss_cpm68k.Console.Tabs.Shown.{wrtchr_tabs}
use libgloss_cpm68k.Tests.Machine.{Machine, bdos, blank, device_laws}

-- the terminal's information stands where a file's FCB would: XTABS is 0x0c00
abbrev terminal : Handle Machine
terminal = record {
  fp = record {
    flags = record no_flags { opened = true; is_tty = true; is_sptty = true };
    user = 0;
    chan = 0;
    offset = 0;
    sector = long_minus_one;
    hiwater = 0;
    fcb = record blank { fname = 0 ∷ 0 ∷ 0 ∷ 0 ∷ 0 ∷ 0x0c ∷ 0 ∷ 0 ∷ [] };
    buffer = replicate 128 0;
  };
  errno = no_error;
  os = record {
    number = 0;
    disk = λ i. none;
    records = 0;
    found = true;
    room = true;
    screen = [];
    paper = [];
  };
}

-- "A<TAB>B", and what stands behind it in memory
abbrev memory : List ℕ
memory = 0x41 ∷ 0x09 ∷ 0x42 ∷ 0x43 ∷ []

shown_for_memory : expanded 0 3 memory ≡ 0x41 ∷ (replicate 7 0x20 ++ (0x42 ∷ 0x43 ∷ []))
unfolding expanded
shown_for_memory = refl

wrtchr_tabs_example :
    ((wrtchr bdos memory 3 terminal).0 ≡ 3)
    × ((wrtchr bdos memory 3 terminal).1.os.screen ≡ [] ++ expanded 0 3 memory)
    × (fits_local 8 true 0 memory 3 ≡ true)
unfolding countable sg_flags expands_tabs
wrtchr_tabs_example =
    wrtchr_tabs bdos device_laws memory 3 terminal refl refl (omega arith) (omega arith)
      (omega (arith, ap length shown_for_memory))
