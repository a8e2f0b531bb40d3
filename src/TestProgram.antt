-- ===== src/TestProgram.antt =====
-- main.c, the program that tries the library out: its loop that counts the bytes of a file.
pub mod Byte
pub mod Count
use libgloss_cpm68k.Prelude.{ℕ, zero, suc, Option, none, some, List, ◌==◌, if◌then◌else◌}
use libgloss_cpm68k.Prelude.Words.{add_long}
use libgloss_cpm68k.Bdos.{Bdos}
use libgloss_cpm68k.State.{World}
use libgloss_cpm68k.Io.{read}

module _ {Os : Type 0} (bdos : Bdos Os) where
  -- `while (read(fd, &c, 1) == 1) count++;` with `c` the byte of memory that is read into. None if the rounds are not enough, or a read ends the
  -- program
  unfoldable pub count_loop : ℕ → ℕ → List ℕ → ℕ → World Os → Option (ℕ × World Os)
  count_loop zero fd c count w = none
  count_loop (suc fuel) fd c count w = elim (read bdos fd c 1 w) [
    | none ↦ none
    | some (ret, memory, w1) ↦
        let rest = count_loop fuel fd memory (add_long count 1) w1 in
        if ret == 1 then rest else some (count, w1)
  ]
