-- ===== src/User.antt =====
-- cpmlib/chkuser.c: the user number of a channel is set for the time of one BDOS call.
pub mod Restore
use libgloss_cpm68k.Prelude.{ℕ, ◌+◌, ◌-◌, ◌%◌, ◌^◌, ◌==◌, ltb, if◌then◌else◌}
use libgloss_cpm68k.Bdos.{Bdos, user}

-- a BYTE passed as a WORD
abbrev pub word_of_byte : ℕ → ℕ
word_of_byte b = if ltb b 128 then b else b + (2 ^ 16 - 2 ^ 8)

-- `n - 1` of a WORD, as the argument of function 32
abbrev pub pred_word : ℕ → ℕ
pred_word n = (n + (2 ^ 16 - 1)) % 2 ^ 16

module _ {Os : Type 0} (bdos : Bdos Os) where
  -- `_chkuser`: the previous user number plus 1, or 0 where the default user is wanted
  unfoldable pub chkuser : ℕ → Os → ℕ × Os
  chkuser newu os =
      if newu == 0
      then (0, os)
      else let (reply, os1) = bdos (user 0xff) os in
        let prevu = (reply.result + 1) % 2 ^ 16 in
        if newu == prevu then (prevu, os1) else (prevu, (bdos (user (pred_word newu)) os1).1)

  -- `_uchkuser`
  unfoldable pub uchkuser : ℕ → ℕ → Os → Os
  uchkuser newu prevu os =
      if newu == 0 then os else if newu == prevu then os else (bdos (user (pred_word prevu)) os).1
