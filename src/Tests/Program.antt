-- ===== src/Tests/Program.antt =====
-- The theorems on the command line and the start of a program.
use libgloss_cpm68k.Prelude.{
  ℕ, ◌≡◌, refl, true, none, List, [], ◌∷◌, ◌++◌, replicate, length, arith,
}
use libgloss_cpm68k.Prelude.Words.{long_minus_one}
use libgloss_cpm68k.Bdos.Laws.{until_dollar}
use libgloss_cpm68k.State.{World, Ccb, no_error, no_flags}
use libgloss_cpm68k.Bytes.{is_space}
use libgloss_cpm68k.Posix.{init}
use libgloss_cpm68k.Args.Quoting.{Arg, bare, within, show_before}
use libgloss_cpm68k.Args.Start.{unterminated, exit_now, run_main, run_main-unterminated}
use libgloss_cpm68k.Tests.Machine.{Machine, bdos, blank, device_laws}

abbrev block : Ccb
block = record {
  flags = no_flags;
  user = 0;
  chan = 0;
  offset = 0;
  sector = long_minus_one;
  hiwater = 0;
  fcb = blank;
  buffer = replicate 128 0;
}

abbrev loaded : World Machine
loaded = record {
  chvec = 0;
  fds = replicate 16 block;
  outside = block;
  errno = no_error;
  os = record {
    number = 0;
    disk = λ i. none;
    records = 0;
    found = true;
    room = true;
    screen = [];
    paper = [];
  };
}

-- a program that returns the number of its arguments
abbrev counting : List (List ℕ) → World Machine → ℕ × World Machine
counting argv w = (length argv, w)

abbrev exit : (World Machine → World Machine) → ℕ → World Machine → World Machine
exit exit_back code w = exit_back w

abbrev typed : List Arg
typed = bare b'a' (b'b' ∷ []) ∷ within b'"' (b'c' ∷ 0x20 ∷ []) ∷ []

run_main-unterminated_example :
    (os : Machine) × (run_main bdos
        (init bdos)
        counting
        exit
        (length (show_before typed (0x27 ∷ b'd' ∷ []))
          ∷ (show_before typed (0x27 ∷ b'd' ∷ []) ++ []))
        loaded
      ≡ exit (exit_now bdos) 1 (record (init bdos loaded) { os = os }))
    × (os.screen ≡ (init bdos loaded).os.screen ++ until_dollar unterminated)
unfolding is_space
run_main-unterminated_example =
    run_main-unterminated bdos (init bdos) counting exit typed 0x27 (b'd' ∷ []) [] loaded
      device_laws (ground arith) refl (ground arith) (omega arith)
