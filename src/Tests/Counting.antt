-- ===== src/Tests/Counting.antt =====
-- The loop of main.c, at a file of one record.
use libgloss_cpm68k.Prelude.{
  ◌≡◌, refl, ap, true, none, some, [], ◌∷◌, replicate, arith, if◌then◌else◌, ◌==◌,
}
use libgloss_cpm68k.Prelude.Words.{long_minus_one}
use libgloss_cpm68k.State.{World, Ccb, no_error, no_flags, getccb}
use libgloss_cpm68k.TestProgram.{count_loop}
use libgloss_cpm68k.TestProgram.Count.{IsReading, count_loop-records}
use libgloss_cpm68k.Tests.Machine.{Machine, bdos, blank, current, at, user_laws, file_laws}

abbrev machine : Machine
machine = record {
  number = 0;
  disk = λ i. if i == 0 then some (replicate 128 0x41) else none;
  records = 1;
  found = true;
  room = true;
  screen = [];
  paper = [];
}

abbrev block : Ccb
block = record {
  flags = record no_flags { opened = true };
  user = 0;
  chan = 0;
  offset = 0;
  sector = long_minus_one;
  hiwater = 128;
  fcb = blank;
  buffer = replicate 128 0;
}

abbrev loaded : World Machine
loaded = record {
  chvec = 1;
  fds = replicate 16 block;
  outside = block;
  errno = no_error;
  os = machine;
}

loaded-IsReading : IsReading bdos current user_laws file_laws (at machine) 0 0 loaded
unfolding getccb
loaded-IsReading = record {
  in_range = omega arith;
  table = refl;
  opened = refl;
  is_tty = refl;
  is_lpt = refl;
  is_ascii = refl;
  place = record {
    ready = record { tidy = refl; few = omega arith; names = tt };
    offset = refl;
    same = refl;
    size = refl;
    inside = λ p. absurd (omega (arith, p));
    fresh = refl;
  };
}

count_loop-records_example :
    (v : World Machine) × (count_loop bdos 129 0 (0 ∷ []) 0 loaded ≡ some (128, v))
    × ((getccb v 0).offset ≡ 128)
count_loop-records_example =
    count_loop-records bdos current user_laws file_laws (at machine) 1 129 0 (0 ∷ []) loaded
      (λ i lt. let z : i ≡ 0 = omega (arith, lt) in (replicate 128 0x41, ap (at machine) z)) refl
      (omega arith) (omega arith) loaded-IsReading
