-- ===== src/Tests/Keyboard.antt =====
-- The theorems on terminal input, at a small keyboard.
use libgloss_cpm68k.Prelude.{ℕ, refl, List, [], ◌∷◌, length, take, replicate, arith, true}
use libgloss_cpm68k.Prelude.Words.{long_minus_one}
use libgloss_cpm68k.Bdos.{conio, conbuf, Bdos}
use libgloss_cpm68k.State.{no_error, no_flags}
use libgloss_cpm68k.Handle.{Handle}
use libgloss_cpm68k.TtyIn.{read_cooked}
use libgloss_cpm68k.TtyIn.Line.{entered, meets_eof, Enters, read_cooked-Enters}
use libgloss_cpm68k.Tests.Machine.{blank}

-- what the next polls give, and a line
abbrev keyboard : Bdos (List ℕ)
keyboard (conio c) [] = (record { result = 0; fcb = blank; memory = [] }, [])
keyboard (conio c) (k ∷ keys) = (record { result = k; fcb = blank; memory = [] }, keys)
keyboard (conbuf n) keys = (record { result = 0; fcb = blank; memory = length keys ∷ keys }, [])
keyboard _ keys = (record { result = 0; fcb = blank; memory = [] }, keys)

abbrev late : List ℕ
late = 0 ∷ 0 ∷ 0x41 ∷ []

abbrev console : Handle (List ℕ)
console = record {
  fp = record {
    flags = record no_flags { opened = true; is_tty = true };
    user = 0;
    chan = 0;
    offset = 0;
    sector = long_minus_one;
    hiwater = 0;
    fcb = blank;
    buffer = replicate 128 0;
  };
  errno = no_error;
  os = 0x61 ∷ 0x62 ∷ 0x1a ∷ 0x63 ∷ [];
}

read_cooked-Enters_example :
    Enters keyboard
      (take 80 (entered (0x61 ∷ 0x62 ∷ 0x1a ∷ 0x63 ∷ [])))
      []
      (meets_eof (0x61 ∷ 0x62 ∷ 0x1a ∷ 0x63 ∷ []) 80)
      console
      (read_cooked keyboard [] 80 console)
read_cooked-Enters_example =
    read_cooked-Enters keyboard (0x61 ∷ 0x62 ∷ 0x1a ∷ 0x63 ∷ []) [] [] 80 console (omega arith)
      (omega arith) refl
