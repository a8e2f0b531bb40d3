-- ===== src/Handle.antt =====
-- A channel while one of its operations runs: the control block that `fp` points to, `errno` and
-- the machine; and the transfers of its one-sector buffer, which cpmlib/readbin.c, readasc.c,
-- writebin.c, writeasc.c, filesz.c and close.c have in common.
use libgloss_cpm68k.Prelude.{ℕ, Bool, true, false, ◌==◌, if◌then◌else◌}
use libgloss_cpm68k.Prelude.Words.{lt_long}
use libgloss_cpm68k.Bdos.{Bdos}
use libgloss_cpm68k.State.{World, Ccb, Errno, getccb, putccb}
use libgloss_cpm68k.BlkIo.{Direction, reading, writing, blkio}

pub record Handle (Os : Type 0) : Type 0 where
  pub fp : Ccb
  pub errno : Errno
  pub os : Os

abbrev pub mark_dirty : Bool → Ccb → Ccb
mark_dirty b c = record c { flags = record (c.flags) { dirty = b } }

abbrev pub mark_eof : Bool → Ccb → Ccb
mark_eof b c = record c { flags = record (c.flags) { at_eof = b } }

-- if(fp->offset > fp->hiwater) fp->hiwater = fp->offset;
abbrev pub raise_hiwater : Ccb → Ccb
raise_hiwater c = record c { hiwater = if lt_long c.hiwater c.offset then c.offset else c.hiwater }

module _ {Os : Type 0} where
  abbrev pub update_fp : (Ccb → Ccb) → Handle Os → Handle Os
  update_fp f h = record h { fp = f h.fp }

  -- RETERR on a channel
  abbrev pub fails : ℕ → Errno → Handle Os → ℕ × Handle Os
  fails val err h = (val, record h { errno = err })

  -- an operation on channel `fd` of the library's state
  abbrev pub on_channel : {A : Type 0} → ℕ → (Handle Os → A × Handle Os) → World Os → A × World Os
  on_channel fd run w =
      let (a, h) = run (record { fp = getccb w fd; errno = w.errno; os = w.os }) in
      (a, putccb (record w { errno = h.errno; os = h.os }) fd h.fp)

module _ {Os : Type 0} (bdos : Bdos Os) where
  -- `_blkio(fp, sector, fp->buffer, 1L, …)`, and whether it returned 1
  unfoldable pub buffer_io : Direction → ℕ → Handle Os → Bool × Handle Os
  buffer_io d sector h =
      let m = blkio bdos d h.fp sector h.fp.buffer 1 h.os in
      (m.done == 1, record h { fp = record (h.fp) { fcb = m.fcb; buffer = m.memory }; os = m.os })

  -- a dirty buffer is written to its sector and marked clean; false if it could not be
  unfoldable pub clean : Handle Os → Bool × Handle Os
  clean h =
      let (wrote, h1) = buffer_io writing h.fp.sector h in
      if h.fp.flags.dirty
      then (if wrote then (true, update_fp (mark_dirty false) h1) else (false, h1))
      else (true, h)

  -- a dirty buffer is written, and then sector `n` is read over it
  unfoldable pub load : ℕ → Handle Os → Bool × Handle Os
  load n h = let (cleaned, h1) = clean h in if cleaned then buffer_io reading n h1 else (false, h1)
