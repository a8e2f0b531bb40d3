-- ===== src/Calls/Writing.antt =====
-- The kind of a channel through a write to it: cpmlib/writebin.c, writeasc.c and wrtchr.c.
use libgloss_cpm68k.Prelude.{
  ℕ, zero, suc, ◌+◌, ◌-◌, ◌*◌, ◌/◌, ◌%◌, ◌^◌, ◌≡◌, refl, ◌∙◌, true, false, not, ◌&&◌, ◌||◌, List,
  ◌==◌, if_ind, if◌then◌else◌, take, drop, length, ltb, inl, inr, Bool-cases,
}
use libgloss_cpm68k.Prelude.Words.{sector_of, long_minus_one}
use libgloss_cpm68k.Bdos.{Bdos, secsiz}
use libgloss_cpm68k.BlkIo.{reading, writing, blkio}
use libgloss_cpm68k.Handle.{Handle, buffer_io, clean, update_fp, mark_dirty}
use libgloss_cpm68k.Seek.{label}
use libgloss_cpm68k.ReadBin.{move_offset}
use libgloss_cpm68k.Console.{wrtchr}
use libgloss_cpm68k.WriteBin.{
  past_hiwater, with_buffer, overlay, prepare, make_current, write_tail, write_sectors,
  write_buffered, wrtbin,
}
use libgloss_cpm68k.WriteAsc.{fill, fetch, wrtasc_loop, wrtasc}
use libgloss_cpm68k.Io.{write_handle}
use libgloss_cpm68k.Calls.Transfers.{kind_of, kind-buffer_io, kind-clean}

module _ {Os : Type 0} (bdos : Bdos Os) where
  -- a step that leaves the kind of the channel
  abbrev Kept {ℓ} : {A : Type ℓ} → Handle Os → A × Handle Os → Type 0
  Kept h r = kind_of r.1.fp ≡ kind_of h.fp

  kind-prepare : (n : ℕ) (h : Handle Os) → Kept h (prepare bdos n h)
  unfolding prepare
  kind-prepare n h = if_ind (Kept h) (past_hiwater h.fp) refl (kind-buffer_io bdos reading n h)

  kind-make_current : (n : ℕ) (h : Handle Os) → Kept h (make_current bdos n h)
  unfolding make_current
  kind-make_current n h =
      let r = buffer_io bdos writing h.fp.sector h in
      let h2 = if h.fp.flags.dirty then r.1 else h in
      let wrote = kind-buffer_io bdos writing h.fp.sector h in
      let ready : kind_of h2.fp ≡ kind_of h.fp =
        if_ind (λ (g : Handle Os). kind_of g.fp ≡ kind_of h.fp) h.fp.flags.dirty wrote refl in
      let done = kind-prepare n h2 ∙ ready in
      if_ind (Kept h) (n == h.fp.sector) refl (
        if_ind (Kept h) (h.fp.flags.dirty && not r.0) wrote
          (if_ind (Kept h) (prepare bdos n h2).0 done done))

  kind-write_tail :
      (n : ℕ) (src : List ℕ) (written : ℕ) (h : Handle Os)
      → Kept h (write_tail bdos n src written h)
  unfolding write_tail
  kind-write_tail n src written h =
      let done = kind-prepare n h in
      if_ind (Kept h) (length src == 0) refl (if_ind (Kept h) (prepare bdos n h).0 done done)

  kind-write_sectors :
      (n : ℕ) (src : List ℕ) (written : ℕ) (h : Handle Os)
      → Kept h (write_sectors bdos n src written h)
  unfolding write_sectors
  kind-write_sectors n src written h =
      let k = length src / secsiz % 2 ^ 16 in
      let nbs = k * secsiz % 2 ^ 16 in
      let m = blkio bdos writing h.fp n src k h.os in
      let h1 : Handle Os = record h { fp = record (h.fp) { fcb = m.fcb }; os = m.os } in
      if_ind (Kept h) (ltb (length src) secsiz) (kind-write_tail n src written h) (
        if_ind (Kept h) (m.done == k)
          (kind-write_tail ((n + k) % 2 ^ 16) (drop nbs src) ((written + nbs) % 2 ^ 16)
            (update_fp (move_offset nbs) h1))
          refl)

  kind-write_buffered :
      (n : ℕ) (src : List ℕ) (nbs : ℕ) (h : Handle Os) → Kept h (write_buffered bdos n src nbs h)
  unfolding write_buffered
  kind-write_buffered n src nbs h =
      let pos = h.fp.offset % secsiz in
      let stored = overlay pos (take nbs src) h.fp.buffer in
      let h1 : Handle Os = update_fp (λ c. move_offset nbs (with_buffer stored c)) h in
      let h2 = (buffer_io bdos writing n h1).1 in
      let wrote = kind-buffer_io bdos writing n h1 in
      if_ind (Kept h) (not (pos + nbs == secsiz))
        (kind-write_sectors n (drop nbs src) nbs (update_fp (λ c. mark_dirty true (label n c)) h1))
        (if_ind (Kept h) (buffer_io bdos writing n h1).0
          (kind-write_sectors ((n + 1) % 2 ^ 16) (drop nbs src) nbs
              (update_fp (λ c. mark_dirty false (label long_minus_one c)) h2)
            ∙ wrote)
          wrote)

  kind-wrtbin : (src : List ℕ) (h : Handle Os) → Kept h (wrtbin bdos src h)
  unfolding wrtbin
  kind-wrtbin src h =
      let n = sector_of h.fp.offset % 2 ^ 16 in
      let h1 = (make_current bdos n h).1 in
      let ready = kind-make_current n h in
      let room = secsiz - h.fp.offset % secsiz in
      let nbs = if ltb (length src) room then length src else if room == secsiz then 0 else room in
      if_ind (Kept h) (not (make_current bdos n h).0) ready (
        if_ind (Kept h) (ltb 0 nbs) (kind-write_buffered n src nbs h1 ∙ ready)
          (kind-write_sectors n src 0 h1 ∙ ready))

  kind-fetch : (n : ℕ) (h : Handle Os) → Kept h (fetch bdos n h)
  unfolding fetch
  kind-fetch n h =
      let h1 = (clean bdos h).1 in
      let cleaned = kind-clean bdos h in
      let read = kind-buffer_io bdos reading n h1 ∙ cleaned in
      if_ind (Kept h) (n == h.fp.sector) refl (
        if_ind (Kept h) (not (clean bdos h).0) cleaned (
          if_ind (Kept h) (past_hiwater h1.fp) cleaned
            (if_ind (Kept h) (buffer_io bdos reading n h1).0 read read)))

  kind-wrtasc_loop :
      (fuel written cc : ℕ) (src : List ℕ) (h : Handle Os)
      → Kept h (wrtasc_loop bdos fuel written cc src h)
  unfolding wrtasc_loop
  kind-wrtasc_loop zero written cc src h = refl
  kind-wrtasc_loop (suc fuel) written cc src h =
      let n = sector_of h.fp.offset in
      let h1 = (fetch bdos n h).1 in
      let ready = kind-fetch n h in
      let pos = h.fp.offset % secsiz in
      let f = fill (secsiz - pos) cc src in
      let h2 : Handle Os =
        update_fp (λ c. move_offset (length f.out) (with_buffer (overlay pos f.out c.buffer) c))
          h1 in
      let h3 = (buffer_io bdos writing n h2).1 in
      let wrote : kind_of h3.fp ≡ kind_of h.fp = kind-buffer_io bdos writing n h2 ∙ ready in
      let next : (g : Handle Os)
          → kind_of (wrtasc_loop bdos fuel written f.last f.left g).1.fp ≡ kind_of g.fp =
        λ g. kind-wrtasc_loop fuel written f.last f.left g in
      elim (Bool-cases (length src == 0)) [
        | inl z ↦ simp (z, wrtasc_loop) refl
        | inr z ↦ elim (Bool-cases (fetch bdos n h).0) [
          | inr x ↦ simp (z, x, wrtasc_loop) ready
          | inl x ↦ elim (Bool-cases (ltb (pos + length f.out) secsiz)) [
            | inl part ↦ elim (Bool-cases (length f.left == 0)) [
              | inl y ↦ simp (z, x, part, y, wrtasc_loop) ready
              | inr y ↦
                  simp (z, x, part, y, wrtasc_loop) (next (update_fp (mark_dirty true) h2) ∙ ready)
            ]
            | inr full ↦ elim (Bool-cases (buffer_io bdos writing n h2).0) [
              | inr w ↦ simp (z, x, full, w, wrtasc_loop) wrote
              | inl w ↦ elim (Bool-cases (length f.left == 0)) [
                | inl y ↦ simp (z, x, full, w, y, wrtasc_loop) wrote
                | inr y ↦ simp (z, x, full, w, y, wrtasc_loop) (next h3 ∙ wrote)
              ]
            ]
          ]
        ]
      ]

  -- a write of any kind keeps the channel's kind
  pub kind-write_handle :
      (buff : List ℕ) (bytes : ℕ) (h : Handle Os) → Kept h (write_handle bdos buff bytes h)
  unfolding wrtchr wrtasc
  kind-write_handle buff bytes h =
      let s = take bytes buff in
      if_ind (Kept h) (h.fp.flags.is_tty || h.fp.flags.is_lpt || h.fp.flags.is_que)
        (if_ind (Kept h) h.fp.flags.is_tty refl (if_ind (Kept h) h.fp.flags.is_lpt refl refl))
        (if_ind (Kept h) h.fp.flags.is_ascii (kind-wrtasc_loop (2 * length s + 1) (length s) 0 s h)
          (kind-wrtbin s h))
