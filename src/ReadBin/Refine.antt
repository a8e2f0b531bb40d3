-- ===== src/ReadBin/Refine.antt =====
-- `_rdbin` against the file as a sequence of bytes, for a BDOS that keeps the laws of Bdos/Laws.antt.
use libgloss_cpm68k.Prelude.{
  ℕ, suc, ◌+◌, ◌-◌, ◌/◌, ◌%◌, ◌^◌, ◌≤◌, ◌<◌, ◌≡◌, ◌⊎◌, ap, refl, sym, ◌∙◌, inl, inr, true, false,
  Bool-cases, ==_iff, Option, none, some, List, [], ◌++◌, append-nil, length, take, drop,
  length-take, length-drop, Option-cases, arith, ◌==◌, min,
}
use libgloss_cpm68k.Prelude.Words.{add_long, sector_of}
use libgloss_cpm68k.Bdos.{Bdos, Fcb, secsiz}
use libgloss_cpm68k.Bdos.Laws.{UserLaws, FileLaws}
use libgloss_cpm68k.State.{eio, failure}
use libgloss_cpm68k.BlkIo.{reading}
use libgloss_cpm68k.BlkIo.Transfer.{leading_absent}
use libgloss_cpm68k.Handle.{Handle, buffer_io, load, update_fp}
use libgloss_cpm68k.Seek.{label}
use libgloss_cpm68k.ReadBin.{ReadOut, move_offset, read_partial, rdbin}
use libgloss_cpm68k.ReadBin.Contents.{
  content, take_all, take-append_le, take-append_ge, drop-append, content_one, leading_one,
  content_present,
}
use libgloss_cpm68k.ReadBin.Fetch.{
  IsReady, Delivers, buffer_io-IsFetched, IsReady-update, clean_ready,
}
use libgloss_cpm68k.ReadBin.Sectors.{Delivers-behind, read_sectors-Delivers}

module _ {Os : Type 0} (bdos : Bdos Os) (current : Os → ℕ) (L : UserLaws bdos current)
    {Names : ℕ → Fcb → Type 0} {at : Os → ℕ → Option (List ℕ)}
    (F : FileLaws bdos current Names at) where
  -- a read from inside sector `n`, which is in the buffer
  read_partial-Delivers :
      (n : ℕ) (s t buff : List ℕ) (bytes : ℕ) (h : Handle Os)
      → n ≡ h.fp.offset / secsiz
      → at h.os n ≡ some s
      → h.fp.buffer ≡ s ++ t
      → h.fp.offset + bytes < 2 ^ 31
      → IsReady bdos current L F h
      → let pos = h.fp.offset % secsiz in
        Delivers bdos current L F
          (take bytes (drop pos (content (at h.os) n ((pos + bytes) / secsiz + 1))))
          bytes
          0
          h
          (read_partial bdos n buff bytes h)
  unfolding read_partial
  read_partial-Delivers n s t buff bytes h here present held room r =
      let pos = h.fp.offset % secsiz in
      let k = (pos + bytes) / secsiz in
      let some_bytes = min bytes (secsiz - pos) in
      let size : length s ≡ secsiz = F.whole h.os n s present in
      let inside : length (drop pos s) ≡ secsiz - pos = omega (arith, length-drop pos s, size) in
      let first : drop pos (content (at h.os) n (k + 1))
          ≡ drop pos s ++ content (at h.os) (n + 1) k =
        let e : k + 1 ≡ suc k = omega arith in
        rw (e, content_present (at h.os) n k s present)
          (drop-append pos s _ (omega (arith, size))) in
      let cut : take some_bytes (drop pos h.fp.buffer) ≡ take some_bytes (drop pos s) =
        ap (λ (b : List ℕ). take some_bytes (drop pos b)) held
        ∙ ap (take some_bytes) (drop-append pos s t (omega (arith, size)))
        ∙ take-append_le some_bytes (drop pos s) t (omega (arith, inside)) in
      elim (Bool-cases (bytes - some_bytes == 0)) [
        | inl e ↦
            let few : bytes ≤ secsiz - pos = ground arith in
            let all : some_bytes ≡ bytes = omega arith in
            let wanted : take bytes (drop pos (content (at h.os) n (k + 1)))
                ≡ take bytes (drop pos s) =
              ap (take bytes) first ∙ take-append_le bytes (drop pos s) _ (omega (arith, inside)) in
            let count : length (take bytes (drop pos s)) ≡ bytes =
              omega (arith, length-take bytes (drop pos s), inside) in
            rw (e, wanted)
              (record {
                ret = omega (arith, count);
                rest = drop some_bytes buff;
                memory =
                    ap (λ (t : List ℕ). t ++ drop some_bytes buff)
                      (cut ∙ ap (λ (n : ℕ). take n (drop pos s)) all);
                offset = omega (arith, count, all);
                eof = λ less. absurd (omega (arith, count));
                file = refl;
                ready = IsReady-update bdos current L F h _ r refl refl refl refl;
              })
        | inr e ↦
            let left = bytes - some_bytes in
            let more : 0 < left = ground arith in
            let full : some_bytes ≡ secsiz - pos = omega arith in
            let pre : take some_bytes (drop pos h.fp.buffer) ≡ drop pos s =
              cut ∙ take_all some_bytes (drop pos s) (omega (arith, inside, full)) in
            let sectors : k ≡ left / secsiz + 1 = omega (arith, full) in
            let wanted : take bytes (drop pos (content (at h.os) n (k + 1)))
                ≡ drop pos s ++ take left (content (at h.os) (n + 1) (left / secsiz + 1)) =
              ap (take bytes) first
              ∙ take-append_ge bytes left (drop pos s) _ (omega (arith, inside, full))
              ∙ ap (λ (k : ℕ). drop pos s ++ take left (content (at h.os) (n + 1) k)) sectors in
            let h1 : Handle Os = update_fp (move_offset some_bytes) h in
            let ready : IsReady bdos current L F h1 =
              IsReady-update bdos current L F h h1 r refl refl refl refl in
            let next : add_long n 1 ≡ n + 1 = omega arith in
            let rest =
              read_sectors-Delivers bdos current L F (n + 1) (drop some_bytes buff) left some_bytes
                h1 (omega (arith, sectors)) (omega (arith, full)) ready in
            rw (e, wanted, next)
              (Delivers-behind bdos current L F (drop pos s) _ _ bytes left 0 some_bytes h h1 _ pre
                (omega (arith, inside, full)) (omega (arith, inside, full))
                (omega (arith, inside, full)) refl rest)
      ]

  -- a read that failed, because the sector of its first byte is missing
  pub record Missing (h : Handle Os) (out : ReadOut Os) : Type 0 where
    pub inside : 0 < h.fp.offset % secsiz
    pub absent : at h.os (h.fp.offset / secsiz) ≡ none
    pub ret : out.ret ≡ failure
    pub errno : out.handle.errno ≡ eio
    pub file : at out.handle.os ≡ at h.os
    pub ready : IsReady bdos current L F out.handle

  -- the same where the sector was read into the buffer before
  reloaded_partial :
      (n : ℕ) (s t buff : List ℕ) (bytes : ℕ) (h g : Handle Os)
      → n ≡ h.fp.offset / secsiz
      → g.fp.offset ≡ h.fp.offset
      → at g.os ≡ at h.os
      → at h.os n ≡ some s
      → g.fp.buffer ≡ s ++ t
      → h.fp.offset + bytes < 2 ^ 31
      → IsReady bdos current L F g
      → let pos = h.fp.offset % secsiz in
        Delivers bdos current L F
          (take bytes (drop pos (content (at h.os) n ((pos + bytes) / secsiz + 1))))
          bytes
          0
          h
          (read_partial bdos n buff bytes g)
  reloaded_partial n s t buff bytes h g here o f present held room r =
      let d =
        read_partial-Delivers n s t buff bytes g (rw o here) (rw f present) held (rw o room) r in
      record {
        ret = rw (← o, ← f) d.ret;
        rest = d.rest;
        memory = rw (← o, ← f) d.memory;
        offset = rw (← o, ← f) d.offset;
        eof = rw (← o, ← f) d.eof;
        file = d.file ∙ f;
        ready = d.ready;
      }

  load_ready :
      (n : ℕ) (h : Handle Os)
      → IsReady bdos current L F h
      → load bdos n h ≡ buffer_io bdos reading n h
  unfolding load
  load_ready n h r = simp (clean_ready bdos current L F h r, load) refl

  -- A read of `bytes` bytes from a binary channel whose buffer is clean and holds the sector that
  -- it is labelled with, where the offset and the count end below 2 ^ 31, delivers the bytes of the
  -- file from the offset on, as many as were asked for or are there in front of the first missing
  -- record: it returns their number, puts them at the caller's buffer, moves the offset behind
  -- them, sets the mark of the end if they are fewer, leaves the file, and leaves the channel with
  -- a clean buffer. Only where the offset is inside a missing record, it fails with EIO instead.
  -- The FCB names the file for the channel's user, whose byte is at most 16.
  pub rdbin-Delivers :
      (buff : List ℕ) (bytes : ℕ) (h : Handle Os)
      → h.fp.offset + bytes < 2 ^ 31
      → (h.fp.sector ≡ h.fp.offset / secsiz → at h.os (h.fp.offset / secsiz) ≡ some h.fp.buffer)
      → IsReady bdos current L F h
      → let pos = h.fp.offset % secsiz in
        let n = h.fp.offset / secsiz in
        Delivers bdos current L F
          (take bytes (drop pos (content (at h.os) n ((pos + bytes) / secsiz + 1))))
          bytes
          0
          h
          (rdbin bdos buff bytes h)
        ⊎ Missing h (rdbin bdos buff bytes h)
  unfolding rdbin
  rdbin-Delivers buff bytes h room holds r =
      let pos = h.fp.offset % secsiz in
      let n = h.fp.offset / secsiz in
      let here : sector_of h.fp.offset ≡ n = ground arith in
      let fetched = buffer_io-IsFetched bdos current L F n h (omega arith) r in
      elim (Bool-cases (pos == 0)) [
        | inl z ↦
            let start : pos ≡ 0 = (==_iff _ _).0 z in
            let sum : 0 + bytes ≡ bytes = omega arith in
            simp (here, z, rdbin)
              (inl (
                rw (start, sum)
                  (read_sectors-Delivers bdos current L F n buff bytes 0 h (omega arith) room r)))
        | inr z ↦ elim (Bool-cases (h.fp.sector == n)) [
          | inl hit ↦
              simp (here, z, hit, rdbin)
                (inl (
                  read_partial-Delivers n h.fp.buffer [] buff bytes h refl
                    (holds ((==_iff _ _).0 hit)) (sym (append-nil _)) room r))
          | inr miss ↦
              let g = (buffer_io bdos reading n h).1 in
              let loaded : load bdos n h ≡ buffer_io bdos reading n h = load_ready n h r in
              elim (Option-cases (at h.os n)) [
                | inl e ↦
                    let gone : (buffer_io bdos reading n h).0 ≡ false =
                      fetched.found
                      ∙ ap (λ (l : List (List ℕ)). length l == 1)
                          (leading_absent (at h.os) n 0 e) in
                    simp (here, z, miss, loaded, gone, rdbin)
                      (inr (record {
                        inside = ground arith;
                        absent = e;
                        ret = refl;
                        errno = refl;
                        file = fetched.file;
                        ready =
                            IsReady-update bdos current L F g _ fetched.ready refl refl refl refl;
                      }))
                | inr (s, e) ↦
                    let there : (buffer_io bdos reading n h).0 ≡ true =
                      fetched.found
                      ∙ ap (λ (l : List (List ℕ)). length l == 1) (leading_one (at h.os) n s e) in
                    let h1 : Handle Os = update_fp (label n) g in
                    let ready : IsReady bdos current L F h1 =
                      IsReady-update bdos current L F g h1 fetched.ready refl refl refl refl in
                    simp (here, z, miss, loaded, there, rdbin)
                      (inl (
                        reloaded_partial n s fetched.bytes buff bytes h h1 refl fetched.offset
                          fetched.file e
                          (fetched.buffer
                            ∙ ap (λ (t : List ℕ). t ++ fetched.bytes) (content_one (at h.os) n s e))
                          room ready))
              ]
        ]
      ]
