-- ===== src/WriteBin/RoundTrip.antt =====
-- Bytes that `_wrtbin` stored, once the buffer is written, and what `_rdbin` then reads.
use libgloss_cpm68k.Prelude.{
  ℕ, zero, suc, ◌+◌, ◌*◌, ◌-◌, ◌/◌, ◌%◌, ◌^◌, ◌≤◌, ◌<◌, ◌≡◌, ◌≢◌, ◌⊎◌, refl, sym, ap, ◌∙◌, inl, inr,
  Option, some, List, [], ◌∷◌, ◌++◌, length, take, drop, get_elem?, get_elem?-append_left,
  get_elem?-append_right, get_elem?-drop, get_elem?-some, arith, true, false, Bool-cases, dec_lt,
}
use libgloss_cpm68k.Bdos.{Bdos, Fcb, secsiz}
use libgloss_cpm68k.Bdos.Laws.{UserLaws, FileLaws}
use libgloss_cpm68k.BlkIo.{writing}
use libgloss_cpm68k.Handle.{Handle, buffer_io, clean}
use libgloss_cpm68k.ReadBin.{rdbin}
use libgloss_cpm68k.ReadBin.Contents.{content, content_present}
use libgloss_cpm68k.ReadBin.Fetch.{IsReady}
use libgloss_cpm68k.ReadBin.Refine.{rdbin-Delivers}
use libgloss_cpm68k.WriteBin.{wrtbin}
use libgloss_cpm68k.WriteBin.Stored.{Records, byte_at, byte_of, byte_in, record_of}
use libgloss_cpm68k.WriteBin.Buffer.{
  view, IsOpen, store_cases, false-ne-true, some-injective, none-ne-some,
}
use libgloss_cpm68k.State.{failure}
use libgloss_cpm68k.WriteBin.Sectors.{IsBelow}
use libgloss_cpm68k.WriteBin.Current.{flushed, IsCoherent}
use libgloss_cpm68k.WriteBin.Refine.{wrtbin-Wrote}
use libgloss_cpm68k.WriteBin.Stages.{view_clean, Wrote}

pub take_ext :
    (xs ys : List ℕ)
    → ((i : ℕ) → i < length ys → get_elem? xs i ≡ get_elem? ys i)
    → take (length ys) xs ≡ ys
take_ext xs [] h = refl
take_ext [] (y ∷ ys) h = absurd (none-ne-some (h 0 (omega arith)))
take_ext (x ∷ xs) (y ∷ ys) h =
    let e : x ≡ y = some-injective (h 0 (omega arith)) in
    rw (e, take_ext xs ys (λ i lt. h (suc i) (omega arith))) refl

module _ (at : Records) (whole : (n : ℕ) (s : List ℕ) → at n ≡ some s → length s ≡ secsiz) where
  -- a byte of the records from `n` on, where those up to it are there
  pub content_byte :
      (k n j : ℕ)
      → j < secsiz * k
      → ((m : ℕ) → n ≤ m → secsiz * m ≤ secsiz * n + j → (s : List ℕ) × (at m ≡ some s))
      → get_elem? (content at n k) j ≡ byte_at at (secsiz * n + j)
  content_byte zero n j lt there = absurd (omega arith)
  content_byte (suc k) n j lt there =
      let (s, e) = there n (omega arith) (omega arith) in
      let size = whole n s e in
      elim (dec_lt j secsiz) [
        | yes first ↦ rw (content_present at n k s e) (
            get_elem?-append_left j s _ (omega (arith, size))
            ∙ sym (byte_in at (secsiz * n + j) n j s refl first e))
        | no later ↦
            let r = j - secsiz in
            let same : secsiz * (n + 1) + r ≡ secsiz * n + j = omega arith in
            rw (content_present at n k s e) (
              get_elem?-append_right j r s _ (omega (arith, size))
              ∙ content_byte k (n + 1) r (omega arith)
                  (λ m le up. there m (omega arith) (omega arith))
              ∙ ap (λ (p : ℕ). byte_at at p) same)
      ]

  -- bytes that are in the file make up what a read of as many finds there
  pub content_bytes :
      (offset : ℕ) (src : List ℕ)
      → 0 < length src
      → ((i : ℕ) → i < length src → byte_at at (offset + i) ≡ get_elem? src i)
      → let pos = offset % secsiz in
        let n = offset / secsiz in
        take (length src) (drop pos (content at n ((pos + length src) / secsiz + 1))) ≡ src
  content_bytes offset src some_bytes bytes = take_ext (drop pos (content at n k)) src λ i lt.
      let same : secsiz * n + (pos + i) ≡ offset + i = omega arith in
      get_elem?-drop pos i (content at n k)
      ∙ content_byte k n (pos + i) (omega arith) (λ m le up. there i m lt le up)
      ∙ ap (λ (p : ℕ). byte_at at p) same
      ∙ bytes i lt
    where
      pos : ℕ
      pos = offset % secsiz

      n : ℕ
      n = offset / secsiz

      there :
          (i m : ℕ)
          → i < length src
          → offset / secsiz ≤ m
          → secsiz * m ≤ secsiz * (offset / secsiz) + (offset % secsiz + i)
          → (s : List ℕ) × (at m ≡ some s)
      there i m lt le up =
          let first = secsiz * m - offset in
          let (v, e) = get_elem?-some first src (omega arith) in
          let (s, found, _) = record_of at (offset + first) v (bytes first (omega arith) ∙ e) in
          let here : (offset + first) / secsiz ≡ m = omega arith in (s, ap at (sym here) ∙ found)

      k : ℕ
      k = (offset % secsiz + length src) / secsiz + 1

module _ {Os : Type 0} (bdos : Bdos Os) (current : Os → ℕ) (L : UserLaws bdos current)
    {Names : ℕ → Fcb → Type 0} {at : Os → ℕ → Option (List ℕ)}
    (F : FileLaws bdos current Names at) where
  clean_saved :
      (h : Handle Os)
      → h.fp.flags.dirty ≡ true
      → (buffer_io bdos writing h.fp.sector h).0 ≡ true
      → (clean bdos h).1.os ≡ (buffer_io bdos writing h.fp.sector h).1.os
  unfolding clean
  clean_saved h d f = simp (d, f, clean) refl

  clean_failed :
      (h : Handle Os)
      → h.fp.flags.dirty ≡ true
      → (buffer_io bdos writing h.fp.sector h).0 ≡ false
      → (clean bdos h).0 ≡ false
  unfolding clean
  clean_failed h d f = simp (d, f, clean) refl

  clean_tidy : (h : Handle Os) → h.fp.flags.dirty ≡ false → (clean bdos h).1.os ≡ h.os
  unfolding clean
  clean_tidy h c = simp (c, clean) refl

  -- the file behind a successful write of the buffer is the one that the channel saw
  pub at-clean :
      (h : Handle Os)
      → IsOpen bdos current L F h
      → (h.fp.flags.dirty ≡ true → h.fp.sector < 2 ^ 24)
      → (clean bdos h).0 ≡ true
      → (m : ℕ) → at (clean bdos h).1.os m ≡ view at h m
  at-clean h o lt saved m = elim (Bool-cases h.fp.flags.dirty) [
    | inr c ↦ ap (λ (os : Os). at os m) (clean_tidy h c) ∙ sym (view_clean at h m c)
    | inl d ↦ elim (store_cases bdos current L F h.fp.sector h (lt d) o) [
      | inl f ↦ absurd (false-ne-true (sym (clean_failed h d f) ∙ saved))
      | inr (f, w) ↦
          ap (λ (os : Os). at os m) (clean_saved h d f) ∙ flushed bdos current L F h _ d w m
    ]
  ]

  read_written :
      (src buff : List ℕ) (h g : Handle Os) (out : ℕ × Handle Os)
      → 0 < length src
      → Wrote bdos current L F src 0 h out
      → (clean bdos out.1).0 ≡ true
      → g.os ≡ (clean bdos out.1).1.os
      → g.fp.offset ≡ h.fp.offset
      → g.fp.offset + length src < 2 ^ 31
      → (g.fp.sector ≡ g.fp.offset / secsiz → at g.os (g.fp.offset / secsiz) ≡ some g.fp.buffer)
      → IsReady bdos current L F g
      → let r = rdbin bdos buff (length src) g in
        (r.ret ≡ length src) × ((rest : List ℕ) × (r.memory ≡ src ++ rest))
  read_written src buff h g out some_bytes w saved os off room held ready =
      let disk : (m : ℕ) → at g.os m ≡ view at out.1 m =
        λ m. ap (λ (o : Os). at o m) os ∙ at-clean out.1 w.channel w.label_lt saved m in
      let bytes : (i : ℕ) → i < length src → byte_at (at g.os) (g.fp.offset + i) ≡ get_elem? src i =
        λ i lt.
          ap (λ (o : Option (List ℕ)). byte_of o ((g.fp.offset + i) % secsiz))
            (disk ((g.fp.offset + i) / secsiz))
          ∙ ap (λ (p : ℕ). byte_at (view at out.1) (p + i)) off
          ∙ w.stores.bytes i lt in
      let wanted = content_bytes (at g.os) (F.whole g.os) g.fp.offset src some_bytes bytes in
      elim (rdbin-Delivers bdos current L F buff (length src) g room held ready) [
        | inl d ↦ (
          omega (arith, d.ret, ap length wanted),
          (d.rest, d.memory ∙ ap (λ (t : List ℕ). t ++ d.rest) wanted),
        )
        | inr missing ↦
            let (v, first) = get_elem?-some 0 src some_bytes in
            let (s, found, _) =
              record_of (at g.os) (g.fp.offset + 0) v (bytes 0 some_bytes ∙ first) in
            let here : (g.fp.offset + 0) / secsiz ≡ g.fp.offset / secsiz = omega arith in
            absurd (none-ne-some (sym missing.absent ∙ ap (at g.os) (sym here) ∙ found))
      ]

  -- What `_wrtbin` wrote, `_rdbin` reads: where a write of at least one byte under the conditions of
  -- a write that stores its bytes did not fail, and the buffer was then written with success, a read
  -- of as many bytes at the same offset, through any channel whose buffer is clean, holds the sector
  -- that it is labelled with and whose FCB names the file, returns their number and puts these bytes
  -- into the caller's buffer.
  pub rdbin-wrtbin :
      (src buff : List ℕ) (h g : Handle Os)
      → let out = wrtbin bdos src h in
        0 < length src
        → h.fp.offset + length src < 2 ^ 23
        → length src < 2 ^ 16
        → IsOpen bdos current L F h
        → IsBelow bdos current L F 0 h
        → IsCoherent bdos current L F h
        → (h.fp.flags.dirty ≡ true
            → h.fp.sector ≡ h.fp.offset / secsiz
            → (0 < h.fp.offset % secsiz) ⊎ (length src < secsiz))
        → out.0 ≢ failure
        → (clean bdos out.1).0 ≡ true
        → g.os ≡ (clean bdos out.1).1.os
        → g.fp.offset ≡ h.fp.offset
        → (g.fp.sector ≡ g.fp.offset / secsiz → at g.os (g.fp.offset / secsiz) ≡ some g.fp.buffer)
        → IsReady bdos current L F g
        → let r = rdbin bdos buff (length src) g in
          (r.ret ≡ length src) × ((rest : List ℕ) × (r.memory ≡ src ++ rest))
  rdbin-wrtbin src buff h g some_bytes room count o below held clear went saved os off now ready =
      elim (wrtbin-Wrote bdos current L F src h room count o below held clear) [
        | inl w ↦
            read_written src buff h g (wrtbin bdos src h) some_bytes w saved os off (omega arith)
              now ready
        | inr f ↦ absurd (went f.ret)
      ]
