-- ===== src/Close.antt =====
-- cpmlib/close.c: the end of a channel.
use libgloss_cpm68k.Prelude.{
  ℕ, ◌%◌, ◌^◌, Bool, not, ◌&&◌, ◌||◌, none, some, [], ◌∷◌, ◌==◌, if◌then◌else◌,
}
use libgloss_cpm68k.Prelude.Words.{lt_long}
use libgloss_cpm68k.Bdos.{Bdos, close_file}
use libgloss_cpm68k.State.{World, ebadf, eio, success, failure, getccb, reterr}
use libgloss_cpm68k.Channel.{freec, chinit_one, chkc}
use libgloss_cpm68k.User.{chkuser, uchkuser, word_of_byte}
use libgloss_cpm68k.BlkIo.{writing}
use libgloss_cpm68k.Handle.{Handle, buffer_io, on_channel}
use libgloss_cpm68k.Seek.{lseek}
use libgloss_cpm68k.Io.{write}

module _ {Os : Type 0} (bdos : Bdos Os) where
  -- the end of an ASCII file that may be written: a seek to its end, and the EOFCHAR
  unfoldable pub close_text : ℕ → World Os → World Os
  close_text fd w =
      let c = getccb w fd in
      let w1 = if lt_long c.offset c.hiwater then (lseek bdos fd 0 2 w).1 else w in
      if c.flags.is_ascii && not c.flags.is_read then (write bdos fd (0x1a ∷ []) 1 w1).1 else w

  -- the last transfer and the closing of the FCB: whether both succeeded
  unfoldable pub close_fcb : Handle Os → Bool × Handle Os
  close_fcb h =
      let (wrote, h1) = buffer_io bdos writing h.fp.sector h in
      let h2 = if h.fp.flags.dirty then h1 else h in
      let u = word_of_byte h2.fp.user in
      let (xuser, os1) = chkuser bdos u h2.os in
      let (reply, os2) = bdos (close_file h2.fp.fcb) os1 in
      (
        not (h.fp.flags.dirty && not wrote) && not (reply.result % 2 ^ 8 == 0xff),
        record h2 { fp = record (h2.fp) { fcb = reply.fcb }; os = uchkuser bdos u xuser os2 },
      )

  -- `close` on an open channel
  unfoldable pub close_channel : ℕ → World Os → ℕ × World Os
  close_channel fd w =
      let flags = (getccb w fd).flags in
      let (closed, w1) = on_channel fd close_fcb (close_text fd w) in
      let device = flags.is_tty || flags.is_lpt in
      let w2 = (freec fd (chinit_one fd (if device then w else w1))).1 in
      if device || closed then (success, w2) else reterr failure eio w2

  -- `close`
  unfoldable pub close : ℕ → World Os → ℕ × World Os
  close fd w =
      let (found, w1) = chkc fd w in
      elim found [ none ↦ reterr failure ebadf w1 | some c ↦ close_channel fd w1 ]
