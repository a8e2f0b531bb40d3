-- ===== src/ReadAsc.antt =====
-- cpmlib/readasc.c: reads of an ASCII file, to its EOFCHAR and without carriage returns.
pub mod Text
pub mod Stream
pub mod Round
pub mod Refine
use libgloss_cpm68k.Prelude.{
  ℕ, zero, suc, ◌+◌, ◌*◌, ◌-◌, ◌/◌, ◌%◌, ◌^◌, Bool, true, false, not, List, [], ◌∷◌, ◌++◌, ltb,
  ◌==◌, if◌then◌else◌, take, drop, length,
}
use libgloss_cpm68k.Prelude.Words.{add_long, sector_of}
use libgloss_cpm68k.Bdos.{Bdos, secsiz}
use libgloss_cpm68k.State.{Ccb, Errno, eio, failure}
use libgloss_cpm68k.BlkIo.{reading}
use libgloss_cpm68k.Handle.{Handle, buffer_io, clean, mark_eof, raise_hiwater, update_fp}
use libgloss_cpm68k.Seek.{label}
use libgloss_cpm68k.ReadBin.{ReadOut, move_offset, read_fails}

-- what the inner loop does to a sector: the characters it hands on, the bytes it passes over, and
-- whether it met the EOFCHAR
pub record Scan : Type 0 where
  pub out : List ℕ
  pub passed : ℕ
  pub ended : Bool

abbrev pub scan_done : Bool → Scan
scan_done b = record { out = []; passed = 0; ended = b }

abbrev pub skip : Scan → Scan
skip s = record s { passed = suc s.passed }

abbrev pub hand_on : ℕ → Scan → Scan
hand_on c s = record s { out = c ∷ s.out; passed = suc s.passed }

-- the inner loop of `_rdasc`, on the bytes from `p1` on
unfoldable pub scan : List ℕ → ℕ → Scan
scan [] bytes = scan_done false
scan (c ∷ s) zero = scan_done false
scan (c ∷ s) (suc bytes) =
    let skipped = scan s (suc bytes) in
    let taken = scan s bytes in
    if c == 0x1a then scan_done true else if c == 0x0d then skip skipped else hand_on c taken

module _ {Os : Type 0} where
  -- a read that ends with `data` in front of the caller's buffer
  abbrev pub ends : ℕ → List ℕ → List ℕ → Handle Os → ReadOut Os
  ends ret got buff h = record { ret = ret; memory = got ++ drop (length got) buff; handle = h }

module _ {Os : Type 0} (bdos : Bdos Os) where
  -- the outer loop of `_rdasc`, a round for each sector: `got` has been read, `bytes` are wanted
  unfoldable pub rdasc_loop : ℕ → List ℕ → List ℕ → ℕ → Handle Os → ReadOut Os
  rdasc_loop zero got buff bytes h = ends failure got buff h
  rdasc_loop (suc fuel) got buff bytes h =
      let xsector = sector_of h.fp.offset in
      let (cleaned, h1) = clean bdos h in
      let (found, h2) = buffer_io bdos reading xsector h1 in
      let hit = xsector == h.fp.sector in
      let h3 = if hit then h else update_fp (label xsector) h2 in
      let s = scan (drop (h3.fp.offset % secsiz) h3.fp.buffer) bytes in
      let got' = got ++ s.out in
      let h4 = update_fp (move_offset s.passed) h3 in
      let ended =
        ends (length got') got' buff (update_fp (λ c. raise_hiwater (mark_eof true c)) h4) in
      let next = rdasc_loop fuel got' buff (bytes - length s.out) h4 in
      if bytes == 0
      then ends (length got) got buff (update_fp raise_hiwater h)
      else if not hit
      then (if not cleaned
          then ends failure got buff (record h1 { errno = eio })
          else if not found
          then ends (length got) got buff (update_fp (mark_eof true) h2)
          else if s.ended
          then ended
          else next)
      else if s.ended
      then ended
      else next

  -- `_rdasc`; a round reads one sector, so 2 ^ 25 rounds meet every sector of a LONG offset
  unfoldable pub rdasc : List ℕ → ℕ → Handle Os → ReadOut Os
  rdasc buff bytes h = rdasc_loop (2 ^ 25) [] buff bytes h
