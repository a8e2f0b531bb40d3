-- ===== src/WriteAsc.antt =====
-- cpmlib/writeasc.c: writes to an ASCII file, with a carriage return put before each newline.
pub mod Newlines
pub mod Fetch
pub mod Stages
pub mod Refine
pub mod RoundTrip
use libgloss_cpm68k.Prelude.{
  ℕ, zero, suc, ◌+◌, ◌*◌, ◌-◌, ◌/◌, ◌%◌, ◌^◌, Bool, true, false, not, ◌&&◌, List, [], ◌∷◌, ◌++◌,
  ltb, ◌==◌, if◌then◌else◌, take, drop, length,
}
use libgloss_cpm68k.Prelude.Words.{sub_long, sector_of}
use libgloss_cpm68k.Bdos.{Bdos, secsiz}
use libgloss_cpm68k.State.{Ccb, eio, failure}
use libgloss_cpm68k.BlkIo.{reading, writing}
use libgloss_cpm68k.Handle.{Handle, buffer_io, clean, mark_dirty, raise_hiwater, update_fp, fails}
use libgloss_cpm68k.Seek.{label}
use libgloss_cpm68k.ReadBin.{move_offset}
use libgloss_cpm68k.WriteBin.{past_hiwater, overlay, with_buffer}

-- what the inner loop does: the characters put in the buffer, the last of them (`cc`), and the
-- bytes that are left
pub record Fill : Type 0 where
  pub out : List ℕ
  pub last : ℕ
  pub left : List ℕ

abbrev pub put : ℕ → Fill → Fill
put c f = record f { out = c ∷ f.out }

-- the inner loop of `_wrtasc`, with `room` places in the buffer
unfoldable pub fill : ℕ → ℕ → List ℕ → Fill
fill zero cc src = record { out = []; last = cc; left = src }
fill (suc room) cc [] = record { out = []; last = cc; left = [] }
fill (suc room) cc (c ∷ src) =
    let returned = fill room 0x0d (c ∷ src) in
    let plain = fill room c src in
    if c == 0x0a && not (cc == 0x0d) then put 0x0d returned else put c plain

module _ {Os : Type 0} (bdos : Bdos Os) where
  -- the sector at the offset is put in the buffer, unless it lies beyond the high water mark;
  -- false if a transfer failed
  unfoldable pub fetch : ℕ → Handle Os → Bool × Handle Os
  fetch xsector h =
      let (cleaned, h1) = clean bdos h in
      let (found, h2) = buffer_io bdos reading xsector h1 in
      if xsector == h.fp.sector
      then (true, h)
      else if not cleaned
      then (false, h1)
      else if past_hiwater h1.fp
      then (true, update_fp (label xsector) h1)
      else if found
      then (true, update_fp (label xsector) h2)
      else (false, h2)

  -- the outer loop of `_wrtasc`, a round for each sector
  unfoldable pub wrtasc_loop : ℕ → ℕ → ℕ → List ℕ → Handle Os → ℕ × Handle Os
  wrtasc_loop zero written cc src h = (failure, h)
  wrtasc_loop (suc fuel) written cc src h =
      let xsector = sector_of h.fp.offset in
      let (fetched, h1) = fetch xsector h in
      let pos = h.fp.offset % secsiz in
      let f = fill (secsiz - pos) cc src in
      let h2 =
        update_fp (λ c. move_offset (length f.out) (with_buffer (overlay pos f.out c.buffer) c))
          h1 in
      let (wrote, h3) = buffer_io bdos writing xsector h2 in
      let full = not (ltb (pos + length f.out) secsiz) in
      let h4 = if full then h3 else update_fp (mark_dirty true) h2 in
      let next = wrtasc_loop fuel written f.last f.left h4 in
      if length src == 0
      then (written, h)
      else if not fetched
      then fails failure eio h1
      else if full && not wrote
      then (sub_long written (length src), h3)
      else if length f.left == 0
      then (written, update_fp raise_hiwater h4)
      else next

  -- `_wrtasc`; each round puts at least one character, and a byte makes at most two
  unfoldable pub wrtasc : List ℕ → Handle Os → ℕ × Handle Os
  wrtasc src h = wrtasc_loop (2 * length src + 1) (length src) 0 src h
