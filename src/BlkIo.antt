-- ===== src/BlkIo.antt =====
-- cpmlib/blkio.c: the transfer of consecutive sectors between a file and memory.
pub mod Transfer
pub mod Store
use libgloss_cpm68k.Prelude.{
  ℕ, zero, suc, ◌+◌, ◌*◌, Bool, true, false, List, [], ◌∷◌, ◌++◌, ◌==◌, if◌then◌else◌, take, drop,
}
use libgloss_cpm68k.Prelude.Words.{add_long}
use libgloss_cpm68k.Bdos.{Bdos, Fcb, Request, b_read, b_write, secsiz}
use libgloss_cpm68k.State.{Ccb}
use libgloss_cpm68k.User.{chkuser, uchkuser, word_of_byte}

-- which of the two functions a transfer calls
pub data Direction : Type 0 where
  reading writing : Direction

abbrev pub request : Direction → Fcb → List ℕ → Request
request reading = b_read
request writing = b_write

-- what a transfer leaves: the number of sectors done, the FCB, the memory and the machine
pub record Moved (Os : Type 0) : Type 0 where
  pub done : ℕ
  pub fcb : Fcb
  pub memory : List ℕ
  pub os : Os

-- one more sector done, in front of those of `m`
abbrev pub after_sector : {Os : Type 0} → List ℕ → Moved Os → Moved Os
after_sector s m = record m { done = m.done + 1; memory = s ++ m.memory }

module _ {Os : Type 0} (bdos : Bdos Os) where
  -- the `while` loop of `_blkio`; `count` is LONG and positive in every call, so it is a number
  pub transfer : Direction → ℕ → Fcb → ℕ → List ℕ → Os → Moved Os
  transfer d zero f sector memory os = record { done = 0; fcb = f; memory = memory; os = os }
  transfer d (suc count) f sector memory os =
      let (reply, os1) = bdos (request d (record f { recno = sector }) (take secsiz memory)) os in
      let rest = transfer d count reply.fcb (add_long sector 1) (drop secsiz memory) os1 in
      let failed : Moved Os = record {
        done = 0;
        fcb = reply.fcb;
        memory = reply.memory ++ drop secsiz memory;
        os = os1;
      } in
      if reply.result == 0 then after_sector reply.memory rest else failed

  -- `_blkio`
  unfoldable pub blkio : Direction → Ccb → ℕ → List ℕ → ℕ → Os → Moved Os
  unfolding transfer
  blkio d c sector memory count os =
      let u = word_of_byte c.user in
      let (xuser, os1) = chkuser bdos u os in
      let m = transfer d count c.fcb sector memory os1 in
      record m { os = uchkuser bdos u xuser m.os }
