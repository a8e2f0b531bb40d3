-- ===== src/WriteBin.antt =====
-- cpmlib/writebin.c: writes to a binary file. The caller's buffer with its byte count is the list
-- of the bytes to write.
pub mod Stored
pub mod Buffer
pub mod Stages
pub mod Sectors
pub mod Current
pub mod Refine
pub mod Stale
pub mod RoundTrip
use libgloss_cpm68k.Prelude.{
  ℕ, ◌+◌, ◌*◌, ◌-◌, ◌/◌, ◌%◌, ◌^◌, Bool, true, false, not, ◌&&◌, List, ◌++◌, ltb, ◌==◌,
  if◌then◌else◌, take, drop, length, replicate,
}
use libgloss_cpm68k.Prelude.Words.{sub_long, lt_long, sector_of, align_down, long_minus_one}
use libgloss_cpm68k.Bdos.{Bdos, secsiz}
use libgloss_cpm68k.State.{Ccb, eio, failure}
use libgloss_cpm68k.BlkIo.{reading, writing, blkio}
use libgloss_cpm68k.Handle.{Handle, buffer_io, mark_dirty, raise_hiwater, update_fp, fails}
use libgloss_cpm68k.Seek.{label}
use libgloss_cpm68k.ReadBin.{move_offset}

-- OFFSECT > HIWSECT
abbrev pub past_hiwater : Ccb → Bool
past_hiwater c = lt_long (align_down (sub_long c.hiwater 1)) (align_down c.offset)

-- `blkmove(fp->buffer + pos, src, …)`, for what fits in the buffer. A longer list stands for bytes
-- that C stores over the blocks behind it, which are not modelled; it arises from writes of 65536
-- bytes and more alone, which the theorems on the bytes of a write leave out.
unfoldable pub overlay : ℕ → List ℕ → List ℕ → List ℕ
overlay pos src buffer = take pos buffer ++ (src ++ drop (pos + length src) buffer)

abbrev pub with_buffer : List ℕ → Ccb → Ccb
with_buffer b c = record c { buffer = b }

module _ {Os : Type 0} (bdos : Bdos Os) where
  -- the buffer for sector `n`: zeros beyond the high water mark, else the sector; false if it
  -- could not be read
  unfoldable pub prepare : ℕ → Handle Os → Bool × Handle Os
  prepare n h =
      if past_hiwater h.fp
      then (true, update_fp (with_buffer (replicate secsiz 0)) h)
      else buffer_io bdos reading n h

  -- the first part of `_wrtbin`: the buffer holds sector `xsector`
  unfoldable pub make_current : ℕ → Handle Os → Bool × Handle Os
  make_current xsector h =
      let (wrote, h1) = buffer_io bdos writing h.fp.sector h in
      let h2 = if h.fp.flags.dirty then h1 else h in
      let (prepared, h3) = prepare xsector h2 in
      if xsector == h.fp.sector
      then (true, h)
      else if h.fp.flags.dirty && not wrote
      then (false, h1)
      else if prepared
      then (true, update_fp (λ c. mark_dirty false (label xsector c)) h3)
      else (false, h3)

  -- the last part: the bytes that make up no whole sector, where the counts did not wrap
  unfoldable pub write_tail : ℕ → List ℕ → ℕ → Handle Os → ℕ × Handle Os
  write_tail xsector src written h =
      let (prepared, h1) = prepare xsector h in
      let stored = overlay 0 src h1.fp.buffer in
      if length src == 0
      then (written, update_fp raise_hiwater h)
      else if prepared
      then (
        (written + length src) % 2 ^ 16,
        update_fp
            (λ c.
              raise_hiwater
                (move_offset (length src) (label xsector (mark_dirty true (with_buffer stored c)))))
            h1,
      )
      else fails failure eio h1

  -- the middle part: the whole sectors. `nsector`, `nbs` and `written` are UWORDs.
  unfoldable pub write_sectors : ℕ → List ℕ → ℕ → Handle Os → ℕ × Handle Os
  write_sectors xsector src written h =
      let nsector = length src / secsiz % 2 ^ 16 in
      let nbs = nsector * secsiz % 2 ^ 16 in
      let m = blkio bdos writing h.fp xsector src nsector h.os in
      let h1 = record h { fp = record (h.fp) { fcb = m.fcb }; os = m.os } in
      if ltb (length src) secsiz
      then write_tail xsector src written h
      else if m.done == nsector
      then write_tail ((xsector + nsector) % 2 ^ 16) (drop nbs src) ((written + nbs) % 2 ^ 16)
          (update_fp (move_offset nbs) h1)
      else fails failure eio h1

  -- the part that goes into the buffer at the offset
  unfoldable pub write_buffered : ℕ → List ℕ → ℕ → Handle Os → ℕ × Handle Os
  write_buffered xsector src nbs h =
      let pos = h.fp.offset % secsiz in
      let stored = overlay pos (take nbs src) h.fp.buffer in
      let h1 = update_fp (λ c. move_offset nbs (with_buffer stored c)) h in
      let (wrote, h2) = buffer_io bdos writing xsector h1 in
      if not (pos + nbs == secsiz)
      then write_sectors xsector (drop nbs src) nbs
          (update_fp (λ c. mark_dirty true (label xsector c)) h1)
      else if wrote
      then write_sectors ((xsector + 1) % 2 ^ 16) (drop nbs src) nbs
          (update_fp (λ c. mark_dirty false (label long_minus_one c)) h2)
      else fails failure eio h2

  -- `_wrtbin`; `xsector` is a UWORD
  unfoldable pub wrtbin : List ℕ → Handle Os → ℕ × Handle Os
  wrtbin src h =
      let xsector = sector_of h.fp.offset % 2 ^ 16 in
      let (current, h1) = make_current xsector h in
      let room = secsiz - h.fp.offset % secsiz in
      let nbs = if ltb (length src) room then length src else if room == secsiz then 0 else room in
      if not current
      then fails failure eio h1
      else if ltb 0 nbs
      then write_buffered xsector src nbs h1
      else write_sectors xsector src 0 h1
