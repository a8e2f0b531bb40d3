-- ===== src/Io.antt =====
-- cpmlib/read.c and write.c: the operations that choose by the kind of channel.
pub mod Fstat
use libgloss_cpm68k.Prelude.{
  ℕ, Bool, true, false, ◌||◌, Option, none, some, List, ◌==◌, if◌then◌else◌, take,
}
use libgloss_cpm68k.Bdos.{Bdos}
use libgloss_cpm68k.State.{World, Ccb, ebadf, failure, getccb, putccb, reterr}
use libgloss_cpm68k.Channel.{chkc}
use libgloss_cpm68k.Handle.{Handle, on_channel}
use libgloss_cpm68k.Console.{wrtchr}
use libgloss_cpm68k.ReadBin.{ReadOut, rdbin}
use libgloss_cpm68k.ReadAsc.{rdasc}
use libgloss_cpm68k.TtyIn.{ttyin}
use libgloss_cpm68k.WriteBin.{wrtbin}
use libgloss_cpm68k.WriteAsc.{wrtasc}

module _ {Os : Type 0} (bdos : Bdos Os) where
  -- the reading function of a channel that may be read; none where the program exits
  abbrev pub read_handle : List ℕ → ℕ → Handle Os → Option (ReadOut Os)
  read_handle buff bytes h =
      if h.fp.flags.is_tty
      then ttyin bdos buff bytes h
      else if h.fp.flags.is_ascii
      then some (rdasc bdos buff bytes h)
      else some (rdbin bdos buff bytes h)

  -- the state after a read on channel `fd`
  abbrev pub stored_back : ℕ → World Os → ReadOut Os → ℕ × List ℕ × World Os
  stored_back fd w r = (
    r.ret,
    r.memory,
    putccb (record w { errno = r.handle.errno; os = r.handle.os }) fd r.handle.fp,
  )

  -- `read`: the result, the caller's buffer and the state; none where the program exits
  unfoldable pub read : ℕ → List ℕ → ℕ → World Os → Option (ℕ × List ℕ × World Os)
  read fd buff bytes w =
      let (found, w1) = chkc fd w in
      let out =
        read_handle buff bytes (record { fp = getccb w1 fd; errno = w1.errno; os = w1.os }) in
      elim found [
        | none ↦ some (failure, buff, w1)
        | some c ↦
            if c.flags.at_eof
            then some (0, buff, w1)
            else if c.flags.is_lpt
            then some (failure, buff, record w1 { errno = ebadf })
            else elim out [ none ↦ none | some r ↦ some (stored_back fd w1 r) ]
      ]

  -- the writing function of a channel that may be written
  abbrev pub write_handle : List ℕ → ℕ → Handle Os → ℕ × Handle Os
  write_handle buff bytes h =
      if h.fp.flags.is_tty || h.fp.flags.is_lpt || h.fp.flags.is_que
      then wrtchr bdos buff bytes h
      else if h.fp.flags.is_ascii
      then wrtasc bdos (take bytes buff) h
      else wrtbin bdos (take bytes buff) h

  -- `write` on an open channel
  unfoldable pub write_channel : ℕ → List ℕ → ℕ → World Os → ℕ × World Os
  write_channel fd buff bytes w =
      if bytes == 0
      then (0, w)
      else if (getccb w fd).flags.is_read
      then reterr failure ebadf w
      else on_channel fd (write_handle buff bytes) w

  -- `write`
  unfoldable pub write : ℕ → List ℕ → ℕ → World Os → ℕ × World Os
  write fd buff bytes w =
      let (found, w1) = chkc fd w in
      elim found [ none ↦ (failure, w1) | some c ↦ write_channel fd buff bytes w1 ]
