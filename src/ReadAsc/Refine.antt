-- ===== src/ReadAsc/Refine.antt =====
-- `_rdasc` against the text of the file, for a BDOS that keeps the laws of Bdos/Laws.antt.
use libgloss_cpm68k.Prelude.{
  ℕ, zero, suc, ◌-◌, ◌/◌, ◌%◌, ◌^◌, ◌<◌, ◌≡◌, refl, sym, ap, ◌∙◌, inl, inr, Option, some, List, [],
  ◌++◌, append-nil, length, take, drop, take-nil, drop-nil, arith, true, false, Bool-cases, ==_iff,
  ◌==◌, Option-cases,
}
use libgloss_cpm68k.Prelude.Words.{sector_of}
use libgloss_cpm68k.Bdos.{Bdos, Fcb, secsiz}
use libgloss_cpm68k.Bdos.Laws.{UserLaws, FileLaws}
use libgloss_cpm68k.BlkIo.{reading}
use libgloss_cpm68k.BlkIo.Transfer.{leading_absent}
use libgloss_cpm68k.Handle.{Handle, buffer_io, clean, update_fp}
use libgloss_cpm68k.Seek.{label}
use libgloss_cpm68k.ReadBin.{ReadOut}
use libgloss_cpm68k.ReadBin.Contents.{content_absent, content_one, leading_one}
use libgloss_cpm68k.ReadBin.Fetch.{IsReady, buffer_io-IsFetched, IsReady-update, clean_ready}
use libgloss_cpm68k.ReadAsc.{ends, rdasc_loop, rdasc}
use libgloss_cpm68k.ReadAsc.Text.{text, text-nil}
use libgloss_cpm68k.ReadAsc.Round.{drop_all, rest_of, Reads, IsReadAt, Goes, round-Reads}

module _ {Os : Type 0} (bdos : Bdos Os) (current : Os → ℕ) (L : UserLaws bdos current)
    {Names : ℕ → Fcb → Type 0} {at : Os → ℕ → Option (List ℕ)}
    (F : FileLaws bdos current Names at) where
  -- a sector that was read into the buffer
  record IsLoaded (last : ℕ) (h g : Handle Os) : Type 0 where
    at_g : IsReadAt bdos current L F last g
    label_same : g.fp.sector ≡ g.fp.offset / secsiz
    offset : g.fp.offset ≡ h.fp.offset
    file : at g.os ≡ at h.os

  found_sector :
      (h : Handle Os) (s : List ℕ) {last : ℕ}
      → IsReadAt bdos current L F last h
      → h.fp.offset / secsiz < 2 ^ 24
      → at h.os (h.fp.offset / secsiz) ≡ some s
      → (buffer_io bdos reading (h.fp.offset / secsiz) h).0 ≡ true
  found_sector h s a lt e =
      (buffer_io-IsFetched bdos current L F (h.fp.offset / secsiz) h lt a.ready).found
      ∙ ap (λ (l : List (List ℕ)). length l == 1) (leading_one (at h.os) (h.fp.offset / secsiz) s e)

  Reads-nothing :
      (file : ℕ → Option (List ℕ)) (got buff : List ℕ) (bytes : ℕ) (g : Handle Os)
      → (0 < bytes → g.fp.flags.at_eof ≡ true)
      → at g.os ≡ file
      → IsReady bdos current L F g
      → Reads bdos current L F file [] got buff bytes (ends (length got) got buff g)
  Reads-nothing file got buff bytes g eof same ready = record {
    ret = ap length (sym (append-nil got));
    memory = ap (λ (t : List ℕ). t ++ drop (length t) buff) (sym (append-nil got));
    eof = eof;
    same = same;
    ready = ready;
  }

  -- the same read, out of the channel before the sector was read
  Reads-loaded :
      (last : ℕ) (h g : Handle Os) (got buff : List ℕ) (bytes : ℕ) (out : ReadOut Os)
      → IsLoaded last h g
      → Reads bdos current L F
          (at g.os)
          (take bytes (text (rest_of (at g.os) last g.fp.offset)))
          got
          buff
          bytes
          out
      → Reads bdos current L F
          (at h.os)
          (take bytes (text (rest_of (at h.os) last h.fp.offset)))
          got
          buff
          bytes
          out
  Reads-loaded last h g got buff bytes out l r =
      let f = l.file in let o = l.offset in rw (← f, ← o) r

  sector-IsLoaded :
      (last : ℕ) (h : Handle Os) (s : List ℕ)
      → IsReadAt bdos current L F last h
      → h.fp.offset / secsiz < 2 ^ 24
      → at h.os (h.fp.offset / secsiz) ≡ some s
      → let n = h.fp.offset / secsiz in
        IsLoaded last h (update_fp (label n) (buffer_io bdos reading n h).1)
  sector-IsLoaded last h s a lt e =
      let n = h.fp.offset / secsiz in
      let f = buffer_io-IsFetched bdos current L F n h lt a.ready in
      let g = (buffer_io bdos reading n h).1 in
      let tail : f.bytes ≡ [] =
        f.whole (found_sector h s a lt e) ∙ drop_all secsiz h.fp.buffer (omega (arith, a.size)) in
      let held : g.fp.buffer ≡ s =
        f.buffer
        ∙ ap (λ (t : List ℕ). t ++ f.bytes) (content_one (at h.os) n s e)
        ∙ ap (λ (t : List ℕ). s ++ t) tail
        ∙ append-nil s in
      let same : g.fp.offset / secsiz ≡ n = ap (λ (o : ℕ). o / secsiz) f.offset in
      record {
        at_g = record {
          ready = IsReady-update bdos current L F g _ f.ready refl refl refl refl;
          size = ap length held ∙ F.whole h.os n s e;
          held = λ _.
              ap (at g.os) same
              ∙ ap (λ (r : ℕ → Option (List ℕ)). r n) f.file
              ∙ e
              ∙ ap (λ (t : List ℕ). some t) (sym held);
          last_lt = a.last_lt;
          end = ap (λ (r : ℕ → Option (List ℕ)). r last) f.file ∙ a.end;
          inside = omega (arith, f.offset, a.inside);
        };
        label_same = sym same;
        offset = f.offset;
        file = f.file;
      }

  rdasc_loop-Reads : (fuel last : ℕ) (buff : List ℕ) → Goes bdos current L F fuel last buff
  unfolding rdasc_loop
  rdasc_loop-Reads zero last buff got bytes h a pos enough = absurd (omega arith)
  rdasc_loop-Reads (suc fuel) last buff got bytes h a pos enough =
      let n = h.fp.offset / secsiz in
      let here : sector_of h.fp.offset ≡ n = ground (arith, a.inside, a.last_lt) in
      let tidy : clean bdos h ≡ (true, h) = clean_ready bdos current L F h a.ready in
      elim (Bool-cases (bytes == 0)) [
        | inl z ↦
            let zero_bytes : bytes ≡ 0 = (==_iff _ 0).0 z in
            let nothing : take bytes (text (rest_of (at h.os) last h.fp.offset)) ≡ [] =
              ap (λ (k : ℕ). take k (text (rest_of (at h.os) last h.fp.offset))) zero_bytes in
            rw nothing (
              simp (z, rdasc_loop)
                (Reads-nothing (at h.os) got buff bytes _ (λ p. absurd (omega arith)) refl
                  (IsReady-update bdos current L F h _ a.ready refl refl refl refl)))
        | inr z ↦
            let more : 0 < bytes = ground arith in
            elim (Bool-cases (n == h.fp.sector)) [
              | inl hit ↦
                  simp (z, here, hit, rdasc_loop)
                    (round-Reads bdos current L F fuel last got buff bytes h
                      (rdasc_loop-Reads fuel last buff) a (sym ((==_iff n _).0 hit)) (enough more))
              | inr miss ↦ elim (Option-cases (at h.os n)) [
                | inl e ↦
                    let fetched =
                      buffer_io-IsFetched bdos current L F n h (omega (arith, a.inside, a.last_lt))
                        a.ready in
                    let missing : (buffer_io bdos reading n h).0 ≡ false =
                      fetched.found
                      ∙ ap (λ (l : List (List ℕ)). length l == 1)
                          (leading_absent (at h.os) n 0 e) in
                    let nothing : take bytes (text (rest_of (at h.os) last h.fp.offset)) ≡ [] =
                      ap (λ (t : List ℕ). take bytes (text (drop (h.fp.offset % secsiz) t)))
                        (content_absent (at h.os) n (last - n) e)
                      ∙ ap (λ (t : List ℕ). take bytes (text t)) (drop-nil (h.fp.offset % secsiz))
                      ∙ ap (take bytes) text-nil
                      ∙ take-nil bytes in
                    rw nothing (
                      simp (z, here, miss, tidy, missing, rdasc_loop)
                        (Reads-nothing (at h.os) got buff bytes _ (λ _. refl) fetched.file
                          (IsReady-update bdos current L F (buffer_io bdos reading n h).1 _
                            fetched.ready refl refl refl refl)))
                | inr (s, e) ↦
                    let lt : n < 2 ^ 24 = omega (arith, a.inside, a.last_lt) in
                    let found = found_sector h s a lt e in
                    let l = sector-IsLoaded last h s a lt e in
                    let g = update_fp (label n) (buffer_io bdos reading n h).1 in
                    simp (z, here, miss, tidy, found, rdasc_loop)
                      (Reads-loaded last h g got buff bytes _ l (
                        round-Reads bdos current L F fuel last got buff bytes g
                          (rdasc_loop-Reads fuel last buff) l.at_g l.label_same
                          (omega (arith, l.offset, enough more))))
              ]
            ]
      ]

  -- A read of `bytes` characters from an ASCII channel delivers the text of the file from the
  -- offset on, as many characters as were asked for or are there: the bytes in front of the first
  -- EOFCHAR or missing record, without the carriage returns. It returns their number, puts them at
  -- the caller's buffer, sets the mark of the end if they are fewer, leaves the file, and leaves the
  -- channel with a clean buffer. The buffer is clean before, of one sector, and holds the record that
  -- it is labelled with if the offset is in it; the FCB names the file for the channel's user, whose
  -- byte is at most 16; and the offset is at most at record `last`, which is missing and below 2 ^ 24.
  pub rdasc-Reads :
      (last : ℕ) (buff : List ℕ) (bytes : ℕ) (h : Handle Os)
      → IsReadAt bdos current L F last h
      → Reads bdos current L F
          (at h.os)
          (take bytes (text (rest_of (at h.os) last h.fp.offset)))
          []
          buff
          bytes
          (rdasc bdos buff bytes h)
  unfolding rdasc
  rdasc-Reads last buff bytes h a =
      rdasc_loop-Reads (2 ^ 25) last buff [] bytes h a (omega arith) (λ _. omega (arith, a.last_lt))
