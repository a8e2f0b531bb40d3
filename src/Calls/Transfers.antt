-- ===== src/Calls/Transfers.antt =====
-- The kind of a channel, through transfers of its buffer.
use libgloss_cpm68k.Prelude.{ℕ, ◌≡◌, refl, ◌∙◌, Bool, false, if_ind, ◌||◌, ◌==◌}
use libgloss_cpm68k.Prelude.Words.{sub_long, lt_long}
use libgloss_cpm68k.Seek.{ask_size, ascii_size, file_size}
use libgloss_cpm68k.Bdos.{Bdos}
use libgloss_cpm68k.State.{Ccb, Flags}
use libgloss_cpm68k.BlkIo.{Direction, reading, writing}
use libgloss_cpm68k.Handle.{Handle, buffer_io, clean, load}

-- what transfers leave of a block: all flags but ATEOF and DIRTY, the number and the user
abbrev pub kind_of : Ccb → Flags × ℕ × ℕ
kind_of c = (record (c.flags) { at_eof = false; dirty = false }, c.chan, c.user)

module _ {Os : Type 0} (bdos : Bdos Os) where
  pub kind-buffer_io :
      (d : Direction) (n : ℕ) (h : Handle Os) → kind_of (buffer_io bdos d n h).1.fp ≡ kind_of h.fp
  unfolding buffer_io
  kind-buffer_io d n h = refl

  pub kind-clean : (h : Handle Os) → kind_of (clean bdos h).1.fp ≡ kind_of h.fp
  unfolding clean
  kind-clean h =
      let wrote = kind-buffer_io writing h.fp.sector h in
      let P : Bool × Handle Os → Type 0 = λ r. kind_of r.1.fp ≡ kind_of h.fp in
      if_ind P h.fp.flags.dirty (if_ind P (buffer_io bdos writing h.fp.sector h).0 wrote wrote) refl

  pub kind-load : (n : ℕ) (h : Handle Os) → kind_of (load bdos n h).1.fp ≡ kind_of h.fp
  unfolding load
  kind-load n h =
      let P : Bool × Handle Os → Type 0 = λ r. kind_of r.1.fp ≡ kind_of h.fp in
      if_ind P (clean bdos h).0 (kind-buffer_io reading n (clean bdos h).1 ∙ kind-clean h)
        (kind-clean h)

  kind-ask_size : (h : Handle Os) → kind_of (ask_size bdos h).fp ≡ kind_of h.fp
  unfolding ask_size
  kind-ask_size h = refl

  kind-ascii_size : (n : ℕ) (h : Handle Os) → kind_of (ascii_size bdos n h).1.fp ≡ kind_of h.fp
  unfolding ascii_size
  kind-ascii_size n h =
      let P : ℕ × Handle Os → Type 0 = λ r. kind_of r.1.fp ≡ kind_of h.fp in
      if_ind P (lt_long n 0) refl (
        if_ind P (n == h.fp.sector) refl
          (if_ind P (load bdos n h).0 (kind-load n h) (kind-load n h)))

  pub kind-file_size : (h : Handle Os) → kind_of (file_size bdos h).1.fp ≡ kind_of h.fp
  unfolding file_size
  kind-file_size h =
      let h1 = ask_size bdos h in
      let asked = kind-ask_size h in
      let P : ℕ × Handle Os → Type 0 = λ r. kind_of r.1.fp ≡ kind_of h.fp in
      if_ind P (h.fp.flags.is_tty || h.fp.flags.is_lpt) refl (
        if_ind P h.fp.flags.dirty refl (
          if_ind P h.fp.flags.is_ascii (kind-ascii_size (sub_long h1.fp.fcb.recno 1) h1 ∙ asked)
            asked))
