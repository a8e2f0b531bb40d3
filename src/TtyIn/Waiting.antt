-- ===== src/TtyIn/Waiting.antt =====
-- `ttyinraw`: how long it waits for a key, and what it returns.
use libgloss_cpm68k.Prelude.{ℕ, zero, suc}
use libgloss_cpm68k.Bdos.{Bdos, conio}

module _ {Os : Type 0} (bdos : Bdos Os) where
  -- what a poll of the console returns, and the machine behind `n` polls
  abbrev pub key : Os → ℕ
  key os = (bdos (conio 0xff) os).0.result

  unfoldable pub behind_polls : ℕ → Os → Os
  behind_polls zero os = os
  behind_polls (suc n) os = behind_polls n (bdos (conio 0xff) os).1
