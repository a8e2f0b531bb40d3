-- ===== src/ReadBin.antt =====
-- cpmlib/readbin.c: reads of a binary file.
pub mod Contents
pub mod Fetch
pub mod Sectors
pub mod Refine
use libgloss_cpm68k.Prelude.{
  ℕ, ◌+◌, ◌*◌, ◌-◌, ◌/◌, ◌%◌, true, not, List, ◌++◌, ltb, ◌==◌, if◌then◌else◌, take, drop, min,
}
use libgloss_cpm68k.Prelude.Words.{add_long, sector_of}
use libgloss_cpm68k.Bdos.{Bdos, secsiz}
use libgloss_cpm68k.State.{Ccb, eio, failure}
use libgloss_cpm68k.BlkIo.{reading, blkio}
use libgloss_cpm68k.Handle.{Handle, buffer_io, clean, load, mark_eof, raise_hiwater, update_fp}
use libgloss_cpm68k.Seek.{label}

-- what a read leaves: its result, the caller's buffer, and the channel
pub record ReadOut (Os : Type 0) : Type 0 where
  pub ret : ℕ
  pub memory : List ℕ
  pub handle : Handle Os

abbrev pub move_offset : ℕ → Ccb → Ccb
move_offset n c = record c { offset = add_long c.offset n }

module _ {Os : Type 0} where
  abbrev pub read_fails : List ℕ → Handle Os → ReadOut Os
  read_fails memory h = record { ret = failure; memory = memory; handle = record h { errno = eio } }

  -- `pre` stands in the buffer before what `out` left there
  abbrev pub behind : List ℕ → ReadOut Os → ReadOut Os
  behind pre out = record out { memory = pre ++ out.memory }

module _ {Os : Type 0} (bdos : Bdos Os) where
  -- the last sector, of which `bytes` bytes are wanted; `done` of them came before
  unfoldable pub read_rest : ℕ → List ℕ → ℕ → ℕ → Handle Os → ReadOut Os
  read_rest xsector buff bytes done h =
      let (cleaned, h1) = clean bdos h in
      let (got, h2) = buffer_io bdos reading xsector h1 in
      if not cleaned
      then read_fails buff h1
      else if not got
      then record { ret = done; memory = buff; handle = update_fp (mark_eof true) h2 }
      else record {
        ret = done + bytes;
        memory = take bytes h2.fp.buffer ++ drop bytes buff;
        handle = update_fp (λ c. raise_hiwater (move_offset bytes (label xsector c))) h2;
      }

  -- behind the multi-sector transfer, which read `i` of `nsector` sectors
  unfoldable pub read_swept : ℕ → ℕ → List ℕ → ℕ → ℕ → ℕ → Handle Os → ReadOut Os
  read_swept xsector nsector memory bytes done i h =
      let h1 = update_fp (λ c. raise_hiwater (move_offset (i * secsiz) c)) h in
      let left = bytes - i * secsiz in
      if not (i == nsector)
      then record {
        ret = done + i * secsiz;
        memory = memory;
        handle = update_fp (mark_eof true) h1;
      }
      else if left == 0
      then record { ret = done + bytes; memory = memory; handle = h1 }
      else behind (take (i * secsiz) memory)
          (read_rest (add_long xsector i) (drop (i * secsiz) memory) left (done + i * secsiz) h1)

  -- from the multi-sector transfer on, with `done` bytes read before it
  unfoldable pub read_sectors : ℕ → List ℕ → ℕ → ℕ → Handle Os → ReadOut Os
  read_sectors xsector buff bytes done h =
      let nsector = bytes / secsiz in
      let m = blkio bdos reading h.fp xsector buff nsector h.os in
      if ltb 0 nsector
      then read_swept xsector nsector m.memory bytes done m.done
          (record h { fp = record (h.fp) { fcb = m.fcb }; os = m.os })
      else read_swept xsector nsector buff bytes done 0 h

  -- from the copy out of the buffer on, where the offset is inside sector `xsector` and that is
  -- in the buffer
  unfoldable pub read_partial : ℕ → List ℕ → ℕ → Handle Os → ReadOut Os
  read_partial xsector buff bytes h =
      let pos = h.fp.offset % secsiz in
      let n = min bytes (secsiz - pos) in
      let pre = take n (drop pos h.fp.buffer) in
      let h1 = update_fp (move_offset n) h in
      if bytes - n == 0
      then record { ret = bytes; memory = pre ++ drop n buff; handle = update_fp raise_hiwater h1 }
      else behind pre (read_sectors (add_long xsector 1) (drop n buff) (bytes - n) n h1)

  -- `_rdbin`
  unfoldable pub rdbin : List ℕ → ℕ → Handle Os → ReadOut Os
  rdbin buff bytes h =
      let xsector = sector_of h.fp.offset in
      let (loaded, h1) = load bdos xsector h in
      if h.fp.offset % secsiz == 0
      then read_sectors xsector buff bytes 0 h
      else if h.fp.sector == xsector
      then read_partial xsector buff bytes h
      else if loaded
      then read_partial xsector buff bytes (update_fp (label xsector) h1)
      else read_fails buff h1
