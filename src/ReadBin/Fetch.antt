-- ===== src/ReadBin/Fetch.antt =====
-- `_rdbin`: what a read delivers, and the last sector of one.
use libgloss_cpm68k.Prelude.{
  Bool, ℕ, ◌+◌, ◌^◌, ◌≤◌, ◌<◌, ◌≡◌, ap, refl, ◌∙◌, inl, inr, true, false, Option, List, [], ◌++◌,
  length, take, drop, take-nil, length-take, Option-cases, arith, ◌==◌, ==_iff,
}
use mathlib.Core.Path.{fun_ext}
use libgloss_cpm68k.Bdos.{Bdos, Fcb, secsiz}
use libgloss_cpm68k.Bdos.Laws.{UserLaws, FileLaws}
use libgloss_cpm68k.User.{word_of_byte}
use libgloss_cpm68k.User.Restore.{effective}
use libgloss_cpm68k.BlkIo.{reading}
use libgloss_cpm68k.BlkIo.Transfer.{leading, leading_absent, blkio-IsRead}
use libgloss_cpm68k.Handle.{Handle, buffer_io, clean, update_fp, mark_eof, raise_hiwater}
use libgloss_cpm68k.Seek.{label}
use libgloss_cpm68k.ReadBin.{ReadOut, move_offset, read_rest}
use libgloss_cpm68k.ReadBin.Contents.{
  content, take-append_le, content_absent, content_one, leading_one,
}

module _ {Os : Type 0} (bdos : Bdos Os) (current : Os → ℕ) (L : UserLaws bdos current)
    {Names : ℕ → Fcb → Type 0} {at : Os → ℕ → Option (List ℕ)}
    (F : FileLaws bdos current Names at) where
  -- a channel with a clean buffer, whose FCB names the file for its user
  pub record IsReady (h : Handle Os) : Type 0 where
    pub tidy : h.fp.flags.dirty ≡ false
    pub few : word_of_byte h.fp.user ≤ 16
    pub names : Names (effective bdos current L (word_of_byte h.fp.user) h.os) h.fp.fcb

  -- the outcome of a read of `bytes` bytes that delivers `c` behind `done` bytes: the count, the
  -- bytes in the caller's buffer, the offset behind them, and the mark of the end where fewer came;
  -- the file stays, and the channel is ready as before
  pub record Delivers (c : List ℕ) (bytes done : ℕ) (h : Handle Os) (out : ReadOut Os)
      : Type 0 where
    pub ret : out.ret ≡ done + length c
    pub rest : List ℕ
    pub memory : out.memory ≡ c ++ rest
    pub offset : out.handle.fp.offset ≡ h.fp.offset + length c
    pub eof : length c < bytes → out.handle.fp.flags.at_eof ≡ true
    pub file : at out.handle.os ≡ at h.os
    pub ready : IsReady out.handle

  -- what reading sector `n` into the buffer leaves
  pub record IsFetched (n : ℕ) (h : Handle Os) (r : Bool × Handle Os) : Type 0 where
    pub flags : r.1.fp.flags ≡ h.fp.flags
    pub offset : r.1.fp.offset ≡ h.fp.offset
    pub found : r.0 ≡ (length (leading (at h.os) n 1) == 1)
    pub bytes : List ℕ
    pub buffer : r.1.fp.buffer ≡ content (at h.os) n 1 ++ bytes
    pub whole : r.0 ≡ true → bytes ≡ drop secsiz h.fp.buffer
    pub file : at r.1.os ≡ at h.os
    pub ready : IsReady r.1

  pub IsReady-after :
      (h h' : Handle Os)
      → IsReady h
      → h'.fp.flags.dirty ≡ false
      → h'.fp.user ≡ h.fp.user
      → current h'.os ≡ current h.os
      → Names (effective bdos current L (word_of_byte h.fp.user) h.os) h'.fp.fcb
      → IsReady h'
  IsReady-after h h' r d u s named = record { tidy = d; few = rw u r.few; names = rw (u, s) named }

  pub buffer_io-IsFetched :
      (n : ℕ) (h : Handle Os) → n < 2 ^ 24 → IsReady h → IsFetched n h (buffer_io bdos reading n h)
  unfolding buffer_io
  buffer_io-IsFetched n h lt r =
      let m = blkio-IsRead bdos current L F h.fp n 1 h.fp.buffer h.os (omega arith) r.few r.names in
      record {
        flags = refl;
        offset = refl;
        found = ap (λ k. k == 1) m.count;
        bytes = m.tail;
        buffer = m.bytes;
        whole = λ t. m.whole ((==_iff _ 1).0 t);
        file = fun_ext m.keeps;
        ready = IsReady-after h _ r r.tidy refl m.user_same m.names;
      }

  -- a change of the block that leaves its user, its FCB and the clean buffer
  pub IsReady-update :
      (h h' : Handle Os)
      → IsReady h
      → h'.fp.flags.dirty ≡ h.fp.flags.dirty
      → h'.fp.user ≡ h.fp.user
      → h'.fp.fcb ≡ h.fp.fcb
      → h'.os ≡ h.os
      → IsReady h'
  IsReady-update h h' r d u f o = record {
    tidy = d ∙ r.tidy;
    few = rw u r.few;
    names = rw (u, f, o) r.names;
  }

  pub clean_ready : (h : Handle Os) → IsReady h → clean bdos h ≡ (true, h)
  unfolding clean
  clean_ready h r = simp (r.tidy, clean) refl

  pub read_rest_absent :
      (n : ℕ) (buff : List ℕ) (bytes done : ℕ) (h : Handle Os)
      → clean bdos h ≡ (true, h)
      → (buffer_io bdos reading n h).0 ≡ false
      → read_rest bdos n buff bytes done h ≡ record {
        ret = done;
        memory = buff;
        handle = update_fp (mark_eof true) (buffer_io bdos reading n h).1;
      }
  unfolding read_rest
  read_rest_absent n buff bytes done h c f = simp (c, f, read_rest) refl

  pub read_rest_present :
      (n : ℕ) (buff : List ℕ) (bytes done : ℕ) (h : Handle Os)
      → clean bdos h ≡ (true, h)
      → (buffer_io bdos reading n h).0 ≡ true
      → let h2 = (buffer_io bdos reading n h).1 in
        read_rest bdos n buff bytes done h ≡ record {
          ret = done + bytes;
          memory = take bytes h2.fp.buffer ++ drop bytes buff;
          handle = update_fp (λ c. raise_hiwater (move_offset bytes (label n c))) h2;
        }
  unfolding read_rest
  read_rest_present n buff bytes done h c f = simp (c, f, read_rest) refl

  -- the last sector, of which `bytes` bytes are wanted
  pub read_rest-Delivers :
      (n : ℕ) (buff : List ℕ) (bytes done : ℕ) (h : Handle Os)
      → n < 2 ^ 24
      → h.fp.offset + bytes < 2 ^ 31
      → bytes < secsiz
      → IsReady h
      → Delivers
          (take bytes (content (at h.os) n 1))
          bytes
          done
          h
          (read_rest bdos n buff bytes done h)
  read_rest-Delivers n buff bytes done h lt room small r =
      let g = (buffer_io bdos reading n h).1 in
      let got = buffer_io-IsFetched n h lt r in
      let c = clean_ready h r in
      elim (Option-cases (at h.os n)) [
        | inl e ↦
            let missing =
              got.found
              ∙ ap (λ (l : List (List ℕ)). length l == 1) (leading_absent (at h.os) n 0 e) in
            let empty : take bytes (content (at h.os) n 1) ≡ [] =
              ap (take bytes) (content_absent (at h.os) n 1 e) ∙ take-nil bytes in
            rw (read_rest_absent n buff bytes done h c missing, empty)
              (record {
                ret = omega arith;
                rest = buff;
                memory = refl;
                offset = omega (arith, got.offset);
                eof = λ _. refl;
                file = got.file;
                ready = IsReady-update g _ got.ready refl refl refl refl;
              })
        | inr (s, e) ↦
            let one : content (at h.os) n 1 ≡ s = content_one (at h.os) n s e in
            let there =
              got.found ∙ ap (λ (l : List (List ℕ)). length l == 1) (leading_one (at h.os) n s e) in
            let size : length s ≡ secsiz = F.whole h.os n s e in
            let count : length (take bytes s) ≡ bytes = omega (arith, length-take bytes s, size) in
            let cut : take bytes g.fp.buffer ≡ take bytes s =
              ap (take bytes) (got.buffer ∙ ap (λ (t : List ℕ). t ++ got.bytes) one)
              ∙ take-append_le bytes s got.bytes (omega (arith, size)) in
            rw (read_rest_present n buff bytes done h c there, one)
              (record {
                ret = omega (arith, count);
                rest = drop bytes buff;
                memory = ap (λ (t : List ℕ). t ++ drop bytes buff) cut;
                offset = omega (arith, count, got.offset);
                eof = λ less. absurd (omega (arith, count));
                file = got.file;
                ready = IsReady-update g _ got.ready refl refl refl refl;
              })
      ]
