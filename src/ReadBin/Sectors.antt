-- ===== src/ReadBin/Sectors.antt =====
-- `_rdbin`: the multi-sector transfer and what follows it.
use libgloss_cpm68k.Prelude.{
  ℕ, ◌+◌, ◌*◌, ◌-◌, ◌/◌, ◌^◌, ◌≤◌, ◌<◌, ◌≡◌, ap, refl, sym, ◌∙◌, inl, inr, Bool-cases, ==_iff,
  Option, List, ◌++◌, append_assoc, append-nil, length, take, drop, length-append, arith, ◌==◌, ltb,
}
use mathlib.Core.Path.{fun_ext}
use libgloss_cpm68k.Prelude.Words.{add_long}
use libgloss_cpm68k.Bdos.{Bdos, Fcb, secsiz}
use libgloss_cpm68k.Bdos.Laws.{UserLaws, FileLaws}
use libgloss_cpm68k.BlkIo.Transfer.{leading, concat, blkio-IsRead}
use libgloss_cpm68k.Handle.{Handle, update_fp, raise_hiwater}
use libgloss_cpm68k.ReadBin.{ReadOut, move_offset, behind, read_swept, read_sectors}
use libgloss_cpm68k.ReadBin.Contents.{
  content, take_all, take-append_le, take-append_ge, content_whole, content_short, length-content,
  length-leading,
}
use libgloss_cpm68k.ReadBin.Fetch.{
  IsReady, Delivers, IsReady-after, IsReady-update, read_rest-Delivers,
}

module _ {Os : Type 0} (bdos : Bdos Os) (current : Os → ℕ) (L : UserLaws bdos current)
    {Names : ℕ → Fcb → Type 0} {at : Os → ℕ → Option (List ℕ)}
    (F : FileLaws bdos current Names at) where
  -- `c` in front of what a further read delivers
  pub Delivers-behind :
      (c d pre : List ℕ) (bytes left done done1 : ℕ) (h h1 : Handle Os) (out : ReadOut Os)
      → pre ≡ c
      → bytes ≡ length c + left
      → done1 ≡ done + length c
      → h1.fp.offset ≡ h.fp.offset + length c
      → at h1.os ≡ at h.os
      → Delivers bdos current L F d left done1 h1 out
      → Delivers bdos current L F (c ++ d) bytes done h (behind pre out)
  Delivers-behind c d pre bytes left done done1 h h1 out p b e o f r = record {
    ret = omega (arith, r.ret, e, length-append c d);
    rest = r.rest;
    memory = rw (p, append_assoc c d r.rest) (ap (λ (t : List ℕ). c ++ t) r.memory);
    offset = omega (arith, r.offset, o, length-append c d);
    eof = λ less. r.eof (omega (arith, length-append c d, less, b));
    file = r.file ∙ f;
    ready = r.ready;
  }

  -- the multi-sector transfer read the first `i` of `q` sectors
  record IsSwept (n q i : ℕ) (memory : List ℕ) (h h1 : Handle Os) : Type 0 where
    count : i ≡ length (leading (at h.os) n q)
    tail : List ℕ
    bytes : memory ≡ content (at h.os) n q ++ tail
    offset : h1.fp.offset ≡ h.fp.offset
    file : at h1.os ≡ at h.os
    ready : IsReady bdos current L F h1

  read_swept-Delivers :
      (n q i : ℕ) (memory : List ℕ) (bytes done : ℕ) (h h1 : Handle Os)
      → q ≡ bytes / secsiz
      → n + q + 1 ≤ 2 ^ 24
      → h.fp.offset + bytes < 2 ^ 31
      → IsSwept n q i memory h h1
      → Delivers bdos current L F
          (take bytes (content (at h.os) n (q + 1)))
          bytes
          done
          h
          (read_swept bdos n q memory bytes done i h1)
  unfolding read_swept
  read_swept-Delivers n q i memory bytes done h h1 div le room w =
      let size : length (content (at h.os) n q) ≡ secsiz * i =
        length-content (at h.os) q n (F.whole h.os) ∙ ap (λ k. secsiz * k) (sym w.count) in
      let most : i ≤ q = omega (arith, w.count, length-leading (at h.os) q n) in
      elim (Bool-cases (i == q)) [
        | inl e ↦
            let same : i ≡ q = (==_iff _ _).0 e in
            let a = content (at h.os) n q in
            let cut : take (i * secsiz) memory ≡ a =
              ap (take (i * secsiz)) w.bytes
              ∙ take-append_le (i * secsiz) a w.tail (omega (arith, size))
              ∙ take_all (i * secsiz) a (omega (arith, size)) in
            let whole : content (at h.os) n (q + 1) ≡ a ++ content (at h.os) (n + q) 1 =
              content_whole (at h.os) q n 1 (sym w.count ∙ same) in
            let left = bytes - i * secsiz in
            let wanted : take bytes (content (at h.os) n (q + 1))
                ≡ a ++ take left (content (at h.os) (n + q) 1) =
              ap (take bytes) whole ∙ take-append_ge bytes left a _ (omega (arith, size, same)) in
            elim (Bool-cases (left == 0)) [
              | inl z ↦
                  let none_left : left ≡ 0 = (==_iff _ _).0 z in
                  let exact : take bytes (content (at h.os) n (q + 1)) ≡ a =
                    wanted ∙ rw none_left (append-nil a) in
                  rw (e, z, exact)
                    (record {
                      ret = omega (arith, size, same, none_left);
                      rest = w.tail;
                      memory = w.bytes;
                      offset = omega (arith, size, w.offset, same);
                      eof = λ less. absurd (omega (arith, size, same, none_left, less));
                      file = w.file;
                      ready = IsReady-update bdos current L F h1 _ w.ready refl refl refl refl;
                    })
              | inr z ↦
                  let h2 : Handle Os =
                    update_fp (λ c. raise_hiwater (move_offset (i * secsiz) c)) h1 in
                  let ready : IsReady bdos current L F h2 =
                    IsReady-update bdos current L F h1 h2 w.ready refl refl refl refl in
                  let next : add_long n i ≡ n + q = omega (arith, same) in
                  let front : length a ≡ i * secsiz = omega (arith, size) in
                  let moved : h2.fp.offset ≡ h.fp.offset + length a =
                    omega (arith, w.offset, front, same) in
                  let last =
                    read_rest-Delivers bdos current L F (n + q) (drop (i * secsiz) memory) left
                      (done + i * secsiz) h2 (omega arith) (omega (arith, moved, front, same))
                      (omega (arith, same)) ready in
                  rw (e, z, wanted, next)
                    (Delivers-behind a (take left (content (at h.os) (n + q) 1)) _ bytes left done
                      (done + i * secsiz) h h2 _ cut (omega (arith, front, same))
                      (omega (arith, front)) moved w.file (rw (← w.file) last))
            ]
        | inr e ↦
            let short : length (leading (at h.os) n q) < q = ground (arith, w.count, most) in
            let all : take bytes (content (at h.os) n (q + 1)) ≡ content (at h.os) n q =
              ap (take bytes) (content_short (at h.os) q n 1 short)
              ∙ take_all bytes _ (omega (arith, size, most)) in
            rw (e, all)
              (record {
                ret = omega (arith, size);
                rest = w.tail;
                memory = w.bytes;
                offset = omega (arith, size, w.offset, most);
                eof = λ _. refl;
                file = w.file;
                ready = IsReady-update bdos current L F h1 _ w.ready refl refl refl refl;
              })
      ]

  -- a read from a sector's start
  pub read_sectors-Delivers :
      (n : ℕ) (buff : List ℕ) (bytes done : ℕ) (h : Handle Os)
      → n + bytes / secsiz + 1 ≤ 2 ^ 24
      → h.fp.offset + bytes < 2 ^ 31
      → IsReady bdos current L F h
      → Delivers bdos current L F
          (take bytes (content (at h.os) n (bytes / secsiz + 1)))
          bytes
          done
          h
          (read_sectors bdos n buff bytes done h)
  unfolding read_sectors concat leading
  read_sectors-Delivers n buff bytes done h le room r =
      let q = bytes / secsiz in
      let m = blkio-IsRead bdos current L F h.fp n q buff h.os (omega arith) r.few r.names in
      elim (Bool-cases (ltb 0 q)) [
        | inl e ↦
            simp (e, read_sectors)
              (read_swept-Delivers n q _ _ bytes done h _ refl le room (record {
                count = m.count;
                tail = m.tail;
                bytes = m.bytes;
                offset = refl;
                file = fun_ext m.keeps;
                ready = IsReady-after bdos current L F h _ r r.tidy refl m.user_same m.names;
              }))
        | inr e ↦
            let none_whole : q ≡ 0 = ground arith in
            simp (e, read_sectors)
              (read_swept-Delivers n q 0 buff bytes done h h refl le room (record {
                count = rw none_whole refl;
                tail = buff;
                bytes = rw none_whole refl;
                offset = refl;
                file = refl;
                ready = r;
              }))
      ]
