-- ===== src/Calls/Reading.antt =====
-- The kind of a channel through a read of it: cpmlib/readbin.c, readasc.c and ttyin.c.
use libgloss_cpm68k.Prelude.{
  ℕ, zero, suc, ◌+◌, ◌-◌, ◌*◌, ◌/◌, ◌%◌, ◌≡◌, refl, ◌∙◌, sym, ap, ◌^◌, ◌&&◌, Option, some, List, [],
  ◌++◌, ◌==◌, if_ind, length, not, ltb, min, drop, if◌then◌else◌, inl, inr, Bool-cases,
}
use libgloss_cpm68k.Bdos.{Bdos, conio, secsiz}
use libgloss_cpm68k.BlkIo.{reading, blkio}
use libgloss_cpm68k.Handle.{Handle, buffer_io, clean, load, update_fp, raise_hiwater}
use libgloss_cpm68k.Seek.{label}
use libgloss_cpm68k.Prelude.Words.{add_long, sector_of}
use libgloss_cpm68k.Calls.Transfers.{kind_of, kind-buffer_io, kind-clean, kind-load}
use libgloss_cpm68k.ReadBin.{
  ReadOut, move_offset, read_rest, read_swept, read_sectors, read_partial, rdbin,
}
use libgloss_cpm68k.ReadAsc.{Scan, scan, rdasc_loop, rdasc}
use libgloss_cpm68k.TtyIn.{
  has_mode, raw, cbreak, sg_kill, copy_line, read_line, read_cbreak, read_cooked, ttyin,
}
use libgloss_cpm68k.Bytes.{peek, advance}
use libgloss_cpm68k.WriteBin.Buffer.{some-injective, none-ne-some}
use libgloss_cpm68k.Io.{read_handle}

module _ {Os : Type 0} (bdos : Bdos Os) where
  kind-read_rest :
      (n : ℕ) (buff : List ℕ) (bytes done : ℕ) (h : Handle Os)
      → kind_of (read_rest bdos n buff bytes done h).handle.fp ≡ kind_of h.fp
  unfolding read_rest
  kind-read_rest n buff bytes done h =
      let h1 = (clean bdos h).1 in
      let cleaned = kind-clean bdos h in
      let read = kind-buffer_io bdos reading n h1 ∙ cleaned in
      let P : ReadOut Os → Type 0 = λ r. kind_of r.handle.fp ≡ kind_of h.fp in
      if_ind P (not (clean bdos h).0) cleaned
        (if_ind P (not (buffer_io bdos reading n h1).0) read read)

  kind-read_swept :
      (n k : ℕ) (memory : List ℕ) (bytes done i : ℕ) (h : Handle Os)
      → kind_of (read_swept bdos n k memory bytes done i h).handle.fp ≡ kind_of h.fp
  unfolding read_swept
  kind-read_swept n k memory bytes done i h =
      let h1 : Handle Os = update_fp (λ c. raise_hiwater (move_offset (i * secsiz) c)) h in
      let P : ReadOut Os → Type 0 = λ r. kind_of r.handle.fp ≡ kind_of h.fp in
      if_ind P (not (i == k)) refl (
        if_ind P (bytes - i * secsiz == 0) refl (
          kind-read_rest (add_long n i) (drop (i * secsiz) memory) (bytes - i * secsiz)
            (done + i * secsiz) h1))

  kind-read_sectors :
      (n : ℕ) (buff : List ℕ) (bytes done : ℕ) (h : Handle Os)
      → kind_of (read_sectors bdos n buff bytes done h).handle.fp ≡ kind_of h.fp
  unfolding read_sectors
  kind-read_sectors n buff bytes done h =
      let k = bytes / secsiz in
      let m = blkio bdos reading h.fp n buff k h.os in
      let h1 : Handle Os = record h { fp = record (h.fp) { fcb = m.fcb }; os = m.os } in
      if_ind (λ (r : ReadOut Os). kind_of r.handle.fp ≡ kind_of h.fp) (ltb 0 k)
        (kind-read_swept n k m.memory bytes done m.done h1)
        (kind-read_swept n k buff bytes done 0 h)

  kind-read_partial :
      (n : ℕ) (buff : List ℕ) (bytes : ℕ) (h : Handle Os)
      → kind_of (read_partial bdos n buff bytes h).handle.fp ≡ kind_of h.fp
  unfolding read_partial
  kind-read_partial n buff bytes h =
      let k = min bytes (secsiz - h.fp.offset % secsiz) in
      if_ind (λ (r : ReadOut Os). kind_of r.handle.fp ≡ kind_of h.fp) (bytes - k == 0) refl
        (kind-read_sectors (add_long n 1) (drop k buff) (bytes - k) k (update_fp (move_offset k) h))

  pub kind-rdbin :
      (buff : List ℕ) (bytes : ℕ) (h : Handle Os)
      → kind_of (rdbin bdos buff bytes h).handle.fp ≡ kind_of h.fp
  unfolding rdbin
  kind-rdbin buff bytes h =
      let n = sector_of h.fp.offset in
      let h1 = (load bdos n h).1 in
      let loaded = kind-load bdos n h in
      let P : ReadOut Os → Type 0 = λ r. kind_of r.handle.fp ≡ kind_of h.fp in
      if_ind P (h.fp.offset % secsiz == 0) (kind-read_sectors n buff bytes 0 h) (
        if_ind P (h.fp.sector == n) (kind-read_partial n buff bytes h) (
          if_ind P (load bdos n h).0
            (kind-read_partial n buff bytes (update_fp (label n) h1) ∙ loaded) loaded))

  kind-rdasc_loop :
      (fuel : ℕ) (got buff : List ℕ) (bytes : ℕ) (h : Handle Os)
      → kind_of (rdasc_loop bdos fuel got buff bytes h).handle.fp ≡ kind_of h.fp
  unfolding rdasc_loop
  kind-rdasc_loop zero got buff bytes h = refl
  kind-rdasc_loop (suc fuel) got buff bytes h =
      let n = sector_of h.fp.offset in
      let h1 = (clean bdos h).1 in
      let h2 = (buffer_io bdos reading n h1).1 in
      let cleaned = kind-clean bdos h in
      let read : kind_of h2.fp ≡ kind_of h.fp = kind-buffer_io bdos reading n h1 ∙ cleaned in
      let scanned : Handle Os → Scan = λ g. scan (drop (g.fp.offset % secsiz) g.fp.buffer) bytes in
      let next : (g : Handle Os)
          → kind_of
              (rdasc_loop bdos fuel (got ++ (scanned g).out) buff (bytes - length (scanned g).out)
                (update_fp (move_offset (scanned g).passed) g)).handle.fp
            ≡ kind_of g.fp =
        λ g.
          kind-rdasc_loop fuel (got ++ (scanned g).out) buff (bytes - length (scanned g).out)
            (update_fp (move_offset (scanned g).passed) g) in
      elim (Bool-cases (bytes == 0)) [
        | inl z ↦ simp (z, rdasc_loop) refl
        | inr z ↦ elim (Bool-cases (n == h.fp.sector)) [
          | inl hit ↦ elim (Bool-cases (scanned h).ended) [
            | inl e ↦ simp (z, hit, e, rdasc_loop) refl
            | inr e ↦ simp (z, hit, e, rdasc_loop) (next h)
          ]
          | inr miss ↦ elim (Bool-cases (clean bdos h).0) [
            | inr f ↦ simp (z, miss, f, rdasc_loop) cleaned
            | inl f ↦ elim (Bool-cases (buffer_io bdos reading n h1).0) [
              | inr r ↦ simp (z, miss, f, r, rdasc_loop) read
              | inl r ↦ elim (Bool-cases (scanned (update_fp (label n) h2)).ended) [
                | inl e ↦ simp (z, miss, f, r, e, rdasc_loop) read
                | inr e ↦ simp (z, miss, f, r, e, rdasc_loop) (next (update_fp (label n) h2) ∙ read)
              ]
            ]
          ]
        ]
      ]

  kind-read_cooked :
      (buff : List ℕ) (bytes : ℕ) (h : Handle Os)
      → kind_of (read_cooked bdos buff bytes h).handle.fp ≡ kind_of h.fp
  unfolding read_cooked
  kind-read_cooked buff bytes h =
      let nbs = if ltb bytes 0xff then bytes else 0xff in
      let line = (read_line bdos nbs h.os).0 in
      let l = copy_line bytes (peek line % 2 ^ 8) (advance line) in
      let P : ReadOut Os → Type 0 = λ r. kind_of r.handle.fp ≡ kind_of h.fp in
      if_ind P l.ended refl (if_ind P (ltb 0 l.left) refl refl)

  -- the block of a read that does not end the program
  abbrev KeepsKind : Handle Os → Option (ReadOut Os) → Type 0
  KeepsKind h o = (r : ReadOut Os) → o ≡ some r → kind_of r.handle.fp ≡ kind_of h.fp

  some-KeepsKind :
      (h : Handle Os) (r : ReadOut Os) → kind_of r.handle.fp ≡ kind_of h.fp → KeepsKind h (some r)
  some-KeepsKind h r k s e =
      ap (λ (r : ReadOut Os). kind_of r.handle.fp) (sym (some-injective e)) ∙ k

  kind-ttyin : (buff : List ℕ) (bytes : ℕ) (h : Handle Os) → KeepsKind h (ttyin bdos buff bytes h)
  unfolding ttyin read_cbreak
  kind-ttyin buff bytes h =
      let c = (bdos (conio 0xff) h.os).0.result % 2 ^ 8 in
      if_ind (KeepsKind h) (h.fp.flags.is_sptty && has_mode raw h.fp.fcb) (some-KeepsKind h _ refl)
        (if_ind (KeepsKind h) (h.fp.flags.is_sptty && has_mode cbreak h.fp.fcb)
          (if_ind (KeepsKind h) (c == sg_kill h.fp.fcb) (λ r e. absurd (none-ne-some e))
            (some-KeepsKind h _ refl))
          (some-KeepsKind h _ (kind-read_cooked buff bytes h)))

  -- a read of any kind keeps the channel's kind
  pub kind-read_handle :
      (buff : List ℕ) (bytes : ℕ) (h : Handle Os) → KeepsKind h (read_handle bdos buff bytes h)
  unfolding rdasc
  kind-read_handle buff bytes h = if_ind (KeepsKind h) h.fp.flags.is_tty (kind-ttyin buff bytes h) (
      if_ind (KeepsKind h) h.fp.flags.is_ascii
        (some-KeepsKind h _ (kind-rdasc_loop (2 ^ 25) [] buff bytes h))
        (some-KeepsKind h _ (kind-rdbin buff bytes h)))
