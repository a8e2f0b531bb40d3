-- ===== src/Tests/Calling.antt =====
-- The theorems on sequences of calls, at a short sequence.
use libgloss_cpm68k.Prelude.{ℕ, ◌<◌, ◌≡◌, refl, true, false, none, List, [], ◌∷◌, replicate, arith}
use libgloss_cpm68k.Prelude.Bits.{test_bit, set_bit, clear_bit}
use libgloss_cpm68k.Prelude.Words.{long_minus_one}
use libgloss_cpm68k.State.{World, Ccb, no_error, no_flags, maxccbs, failure, getccb, putccb}
use libgloss_cpm68k.Bytes.{to_upper, same_ignoring_case}
use libgloss_cpm68k.Channel.{allocc, freec, chkc, chinit_one, chinit}
use libgloss_cpm68k.Files.{device_of, open_on, open_file_on, tname}
use libgloss_cpm68k.Console.{fill_line, expands_tabs}
use libgloss_cpm68k.Console.Fits.{fits_local}
use libgloss_cpm68k.Io.{write}
use libgloss_cpm68k.Close.{close_text, close_channel, close}
use libgloss_cpm68k.Posix.{init}
use libgloss_cpm68k.Calls.{StaysInside, closes, writes, Reach, here, next}
use libgloss_cpm68k.Calls.Sound.{IsSound}
use libgloss_cpm68k.Calls.Invariant.{Reach-IsSound, Reach-fresh}
use libgloss_cpm68k.Tests.Machine.{Machine, bdos, blank}

abbrev letters : List ℕ
letters = replicate 128 0x41

abbrev block : Ccb
block = record {
  flags = no_flags;
  user = 0;
  chan = 0;
  offset = 0;
  sector = long_minus_one;
  hiwater = 0;
  fcb = blank;
  buffer = letters;
}

abbrev machine : Machine
machine = record {
  number = 0;
  disk = λ i. none;
  records = 0;
  found = true;
  room = true;
  screen = [];
  paper = [];
}

abbrev loaded : World Machine
loaded = record {
  chvec = 0;
  fds = replicate 16 block;
  outside = block;
  errno = no_error;
  os = machine;
}

-- a write to a number that is no channel's, and the closing of the standard output
abbrev used : World Machine
used = (close bdos 1 (write bdos failure (0x41 ∷ []) 1 (init bdos loaded)).1).1

one_inside : StaysInside failure (0x41 ∷ []) 1 (init bdos loaded)
unfolding fits_local fill_line expands_tabs init
one_inside = record { few = omega arith; console = λ e. refl }

used_reached : Reach bdos (init bdos loaded) used
used_reached = next (next here (writes failure (0x41 ∷ []) 1 one_inside refl)) (closes 1 refl)

Reach-IsSound_example : IsSound loaded.outside used
Reach-IsSound_example = Reach-IsSound bdos loaded used refl refl used_reached

used_opens : (open_file_on bdos tname 0 0 used).0 ≡ 1
unfolding open_file_on open_on allocc device_of same_ignoring_case test_bit to_upper close
    close_channel close_text chkc init chinit chinit_one write getccb putccb freec set_bit clear_bit
used_opens = refl

Reach-fresh_example :
    let r = open_file_on bdos tname 0 0 used in
    (r.0 < maxccbs)
    × ((getccb used r.0).flags.opened ≡ false)
    × ((getccb r.1 r.0).flags.opened ≡ true)
    × ((getccb r.1 r.0).chan ≡ r.0)
Reach-fresh_example =
    Reach-fresh bdos loaded used tname 0 0 refl refl used_reached (omega arith)
      (λ e. absurd (omega (arith, e, used_opens)))
