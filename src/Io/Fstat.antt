-- ===== src/Io/Fstat.antt =====
-- `fstat` and then `read`: the end-of-file mark that the first leaves for the second.
use libgloss_cpm68k.Prelude.{
  ℕ, ◌<◌, ◌≡◌, refl, ap, ◌∙◌, true, false, some, List, arith, if_ind, length,
}
use libgloss_cpm68k.Bdos.{Bdos}
use libgloss_cpm68k.State.{World, getccb, putccb, maxccbs}
use libgloss_cpm68k.Channel.Laws.{getccb-putccb_self}
use libgloss_cpm68k.Handle.{Handle, on_channel}
use libgloss_cpm68k.Seek.{file_size, filesz, stat_channel, fstat}
use libgloss_cpm68k.Kind.{on_channel-Keeps, file_size-SameKind}
use libgloss_cpm68k.Io.{read}
use libgloss_cpm68k.Files.Closing.{chkc-opened}
use libgloss_cpm68k.Files.Channels.{getccb-on_channel}

module _ {Os : Type 0} (bdos : Bdos Os) where
  at_eof-file_size :
      (h : Handle Os)
      → h.fp.flags.is_tty ≡ false
      → h.fp.flags.is_lpt ≡ false
      → h.fp.flags.is_ascii ≡ false
      → (file_size bdos h).1.fp.flags.at_eof ≡ true
  unfolding file_size
  at_eof-file_size h tty lpt ascii =
      simp (tty, lpt, ascii, file_size)
        (if_ind (λ (r : ℕ × Handle Os). r.1.fp.flags.at_eof ≡ true) h.fp.flags.dirty refl refl)

  -- the state of `fstat` on a disk channel
  abbrev after_fstat : ℕ → World Os → World Os
  after_fstat fd w =
      let w1 = (on_channel fd (file_size bdos) w).1 in
      putccb w1 fd (record (getccb w1 fd) { offset = (getccb w fd).offset })

  fstat_disk :
      (fd : ℕ) (w : World Os)
      → fd < maxccbs
      → (getccb w fd).flags.opened ≡ true
      → (getccb w fd).flags.is_tty ≡ false
      → (getccb w fd).flags.is_lpt ≡ false
      → (getccb w fd).flags.is_aux ≡ false
      → ((fstat bdos fd w).0 ≡ 0) × ((fstat bdos fd w).2 ≡ after_fstat fd w)
  unfolding fstat stat_channel filesz
  fstat_disk fd w lt is_open tty lpt aux =
      simp (chkc-opened fd w lt is_open, tty, lpt, aux, fstat, stat_channel, filesz) (refl, refl)

  read_at_eof :
      (fd : ℕ) (buff : List ℕ) (bytes : ℕ) (w : World Os)
      → fd < maxccbs
      → (getccb w fd).flags.opened ≡ true
      → (getccb w fd).flags.at_eof ≡ true
      → read bdos fd buff bytes w ≡ some (0, buff, w)
  unfolding read
  read_at_eof fd buff bytes w lt is_open eof = simp (chkc-opened fd w lt is_open, eof, read) refl

  -- `fstat` of a binary file on a disk succeeds and leaves the offset, but also the mark that the
  -- channel is at its end: the next `read` returns 0 and reads nothing, wherever the channel
  -- stands. The channel is open, no auxiliary device, and one of the 16 of the table.
  pub read-fstat :
      (fd : ℕ) (buff : List ℕ) (bytes : ℕ) (w : World Os)
      → length w.fds ≡ maxccbs
      → fd < maxccbs
      → (getccb w fd).flags.opened ≡ true
      → (getccb w fd).flags.is_tty ≡ false
      → (getccb w fd).flags.is_lpt ≡ false
      → (getccb w fd).flags.is_aux ≡ false
      → (getccb w fd).flags.is_ascii ≡ false
      → let (ret, stat, w1) = fstat bdos fd w in
        (ret ≡ 0)
        × ((getccb w1 fd).offset ≡ (getccb w fd).offset)
        × (read bdos fd buff bytes w1 ≡ some (0, buff, w1))
  read-fstat fd buff bytes w size lt is_open tty lpt aux ascii =
      let run = file_size bdos in
      let w1 = (on_channel fd run w).1 in
      let below : fd < length w.fds = omega (arith, size) in
      let here = getccb-on_channel fd run w below in
      let kept = (on_channel-Keeps w fd run below (file_size-SameKind bdos)) in
      let c = record (getccb w1 fd) { offset = (getccb w fd).offset } in
      let got : getccb (after_fstat fd w) fd ≡ c =
        getccb-putccb_self w1 fd c (omega (arith, size, kept.size)) in
      let (ret, after) = fstat_disk fd w lt is_open tty lpt aux in
      rw after (
        ret,
        ap (λ c. c.offset) got,
        read_at_eof fd buff bytes (after_fstat fd w) lt
            (ap (λ c. c.flags.opened) got ∙ (kept.kind fd below).opened ∙ is_open)
            (ap (λ c. c.flags.at_eof) got
              ∙ ap (λ c. c.flags.at_eof) here
              ∙ at_eof-file_size _ tty lpt ascii),
      )
