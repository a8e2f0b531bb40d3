-- ===== src/WriteBin/Stale.antt =====
-- `_wrtbin` of whole sectors over a dirty buffer of the first of them.
use libgloss_cpm68k.Prelude.{
  ℕ, ◌*◌, ◌-◌, ◌/◌, ◌%◌, ◌^◌, ◌≤◌, ◌<◌, ◌≡◌, refl, sym, ◌∙◌, inl, inr, some, Option, List, true,
  false, length, take, drop, length-drop, arith, Bool-cases, ◌==◌, ltb,
}
use libgloss_cpm68k.Prelude.Words.{sector_of}
use libgloss_cpm68k.Bdos.{Bdos, Fcb, secsiz}
use libgloss_cpm68k.Bdos.Laws.{UserLaws, FileLaws}
use libgloss_cpm68k.User.{word_of_byte}
use libgloss_cpm68k.User.Restore.{effective}
use libgloss_cpm68k.BlkIo.Store.{blkio-IsWrite}
use libgloss_cpm68k.BlkIo.{writing, blkio}
use libgloss_cpm68k.Handle.{Handle, clean}
use libgloss_cpm68k.WriteBin.{write_tail, write_sectors, make_current, wrtbin}
use libgloss_cpm68k.WriteBin.Stored.{Records}
use libgloss_cpm68k.WriteBin.Buffer.{view, IsOpen}
use libgloss_cpm68k.WriteBin.RoundTrip.{at-clean}

module _ {Os : Type 0} (bdos : Bdos Os) (at : Os → Records) where
  sectors_stale :
      (n : ℕ) (src : List ℕ) (h : Handle Os)
      → h.fp.flags.dirty ≡ true
      → n ≡ h.fp.sector
      → secsiz ≤ length src
      → length src < 2 ^ 16
      → length src % secsiz ≡ 0
      → view at (write_sectors bdos n src 0 h).1 n ≡ some (take secsiz h.fp.buffer)
  unfolding write_sectors write_tail
  sectors_stale n src h dirty here big small whole =
      let k = length src / secsiz in
      let r = blkio bdos writing h.fp n src k h.os in
      let e : ltb (length src) secsiz ≡ false = ground arith in
      let wrap : length src / secsiz % 2 ^ 16 ≡ k = omega arith in
      let bytes : k * secsiz % 2 ^ 16 ≡ length src = omega arith in
      let z : (length (drop (length src) src) == 0) ≡ true =
        ground (arith, length-drop (length src) src) in
      let same : (n == h.fp.sector) ≡ true = ground arith in
      elim (Bool-cases (r.done == k)) [
        | inl f ↦ simp (e, wrap, bytes, f, z, dirty, same, write_sectors) refl
        | inr f ↦ simp (e, wrap, bytes, f, dirty, same, write_sectors) refl
      ]

  -- what the channel goes on to see in the sector
  view-wrtbin :
      (src : List ℕ) (h : Handle Os)
      → h.fp.flags.dirty ≡ true
      → h.fp.sector ≡ h.fp.offset / secsiz
      → h.fp.offset % secsiz ≡ 0
      → h.fp.offset < 2 ^ 23
      → secsiz ≤ length src
      → length src < 2 ^ 16
      → length src % secsiz ≡ 0
      → view at (wrtbin bdos src h).1 (h.fp.offset / secsiz) ≡ some (take secsiz h.fp.buffer)
  unfolding wrtbin make_current
  view-wrtbin src h dirty same aligned room big small whole =
      let n = h.fp.offset / secsiz in
      let here : sector_of h.fp.offset % 2 ^ 16 ≡ n = ground arith in
      let hit : (n == h.fp.sector) ≡ true = ground arith in
      let more : ltb (length src) (secsiz - h.fp.offset % secsiz) ≡ false = ground arith in
      let all : (secsiz - h.fp.offset % secsiz == secsiz) ≡ true = ground arith in
      simp (here, hit, more, all, wrtbin, make_current)
        (sectors_stale n src h dirty (sym same) big small whole)

module _ {Os : Type 0} (bdos : Bdos Os) (current : Os → ℕ) (L : UserLaws bdos current)
    {Names : ℕ → Fcb → Type 0} {at : Os → ℕ → Option (List ℕ)}
    (F : FileLaws bdos current Names at) where
  -- the channel behind such a write
  sectors_kept :
      (n : ℕ) (src : List ℕ) (h : Handle Os)
      → IsOpen bdos current L F h
      → n < 2 ^ 16
      → secsiz ≤ length src
      → length src < 2 ^ 16
      → length src % secsiz ≡ 0
      → let out = (write_sectors bdos n src 0 h).1 in
        IsOpen bdos current L F out × (out.fp.sector ≡ h.fp.sector)
  unfolding write_sectors write_tail
  sectors_kept n src h o room big small whole =
      let k = length src / secsiz in
      let r = blkio bdos writing h.fp n src k h.os in
      let m =
        blkio-IsWrite bdos current L F h.fp n k src h.os (omega arith) (omega arith) o.few
          o.names in
      let e : ltb (length src) secsiz ≡ false = ground arith in
      let wrap : length src / secsiz % 2 ^ 16 ≡ k = omega arith in
      let bytes : k * secsiz % 2 ^ 16 ≡ length src = omega arith in
      let z : (length (drop (length src) src) == 0) ≡ true =
        ground (arith, length-drop (length src) src) in
      let named : Names (effective bdos current L (word_of_byte h.fp.user) r.os) r.fcb =
        rw m.user_same m.names in
      elim (Bool-cases (r.done == k)) [
        | inl f ↦
            simp (e, wrap, bytes, f, z, write_sectors)
              (record { few = o.few; names = named; size = o.size }, refl)
        | inr f ↦
            simp (e, wrap, bytes, f, write_sectors)
              (record { few = o.few; names = named; size = o.size }, refl)
      ]

  wrtbin_kept :
      (src : List ℕ) (h : Handle Os)
      → IsOpen bdos current L F h
      → h.fp.sector ≡ h.fp.offset / secsiz
      → h.fp.offset % secsiz ≡ 0
      → h.fp.offset < 2 ^ 23
      → secsiz ≤ length src
      → length src < 2 ^ 16
      → length src % secsiz ≡ 0
      → let out = (wrtbin bdos src h).1 in
        IsOpen bdos current L F out × (out.fp.sector ≡ h.fp.sector)
  unfolding wrtbin make_current
  wrtbin_kept src h o same aligned room big small whole =
      let n = h.fp.offset / secsiz in
      let here : sector_of h.fp.offset % 2 ^ 16 ≡ n = ground arith in
      let hit : (n == h.fp.sector) ≡ true = ground arith in
      let more : ltb (length src) (secsiz - h.fp.offset % secsiz) ≡ false = ground arith in
      let all : (secsiz - h.fp.offset % secsiz == secsiz) ≡ true = ground arith in
      simp (here, hit, more, all, wrtbin, make_current)
        (sectors_kept n src h o (omega arith) big small whole)

  -- A write of whole sectors, at least one, from the start of a sector that is in the buffer and
  -- dirty is lost in this sector: through its buffer the channel goes on to see the bytes of before
  -- the write, and where the buffer is then written with success, they are what the file has. The
  -- offset is below 2 ^ 23 and the count below 2 ^ 16; the FCB names the file for the channel's user,
  -- whose byte is at most 16; and the buffer has at least a sector.
  pub wrtbin-stale :
      (src : List ℕ) (h : Handle Os)
      → let out = (wrtbin bdos src h).1 in
        let n = h.fp.offset / secsiz in
        IsOpen bdos current L F h
        → h.fp.flags.dirty ≡ true
        → h.fp.sector ≡ n
        → h.fp.offset % secsiz ≡ 0
        → h.fp.offset < 2 ^ 23
        → secsiz ≤ length src
        → length src < 2 ^ 16
        → length src % secsiz ≡ 0
        → (clean bdos out).0 ≡ true
        → (view at out n ≡ some (take secsiz h.fp.buffer))
          × (at (clean bdos out).1.os n ≡ some (take secsiz h.fp.buffer))
  wrtbin-stale src h o dirty same aligned room big small whole saved =
      let seen = view-wrtbin bdos at src h dirty same aligned room big small whole in
      let (sound, place) = wrtbin_kept src h o same aligned room big small whole in
      (
        seen,
        at-clean bdos current L F (wrtbin bdos src h).1 sound
              (λ _. omega (arith, place, same, room)) saved (h.fp.offset / secsiz)
            ∙ seen,
      )
