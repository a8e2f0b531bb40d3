-- ===== src/TestProgram/Byte.antt =====
-- `_rdbin` of single bytes, one behind the other.
use libgloss_cpm68k.Prelude.{
  ℕ, ◌+◌, ◌-◌, ◌/◌, ◌%◌, ◌^◌, ◌<◌, ◌≡◌, refl, sym, ap, ◌∙◌, Option, none, some, List, [], ◌++◌,
  append-nil, length, take, drop, arith, true, false, eq→==, ◌==◌, min, dec_lt,
}
use libgloss_cpm68k.Prelude.Words.{add_long, sector_of}
use libgloss_cpm68k.Bdos.{Bdos, Fcb, secsiz}
use libgloss_cpm68k.Bdos.Laws.{UserLaws, FileLaws}
use libgloss_cpm68k.State.{Flags}
use libgloss_cpm68k.BlkIo.{reading}
use libgloss_cpm68k.BlkIo.Transfer.{leading_absent}
use libgloss_cpm68k.Handle.{Handle, buffer_io, update_fp, raise_hiwater}
use libgloss_cpm68k.ReadBin.{move_offset, read_rest, read_swept, read_sectors, read_partial, rdbin}
use libgloss_cpm68k.ReadBin.Contents.{content_one, leading_one}
use libgloss_cpm68k.ReadBin.Fetch.{
  IsReady, buffer_io-IsFetched, IsReady-update, clean_ready, read_rest_present, read_rest_absent,
}
use libgloss_cpm68k.ReadAsc.Round.{drop_all}

module _ {Os : Type 0} (bdos : Bdos Os) (current : Os → ℕ) (L : UserLaws bdos current)
    {Names : ℕ → Fcb → Type 0} {at : Os → ℕ → Option (List ℕ)}
    (F : FileLaws bdos current Names at) where
  -- a channel at byte `k` of a file that is read from its start: inside a sector, that is in the
  -- buffer
  pub record IsAtByte (file : ℕ → Option (List ℕ)) (k : ℕ) (h : Handle Os) : Type 0 where
    pub ready : IsReady bdos current L F h
    pub offset : h.fp.offset ≡ k
    pub same : at h.os ≡ file
    pub size : length h.fp.buffer ≡ secsiz
    pub inside :
        0 < k % secsiz → (h.fp.sector ≡ k / secsiz) × (file (k / secsiz) ≡ some h.fp.buffer)
    pub fresh : h.fp.flags.at_eof ≡ false

  -- `rdbin` of one byte, at the start of a sector and inside one
  rdbin_first :
      (m : List ℕ) (h : Handle Os)
      → h.fp.offset % secsiz ≡ 0
      → h.fp.offset < 2 ^ 31
      → let h1 = update_fp (λ c. raise_hiwater (move_offset 0 c)) h in
        rdbin bdos m 1 h ≡ read_rest bdos (h.fp.offset / secsiz) m 1 0 h1
  unfolding rdbin read_sectors read_swept
  rdbin_first m h z room =
      let n = h.fp.offset / secsiz in
      let here : sector_of h.fp.offset ≡ n = ground arith in
      let same : add_long n 0 ≡ n = omega arith in
      simp (here, z, same, rdbin, read_sectors, read_swept) refl

  rdbin_next :
      (m : List ℕ) (h : Handle Os)
      → 0 < h.fp.offset % secsiz
      → h.fp.offset < 2 ^ 31
      → h.fp.sector ≡ h.fp.offset / secsiz
      → rdbin bdos m 1 h ≡ record {
        ret = 1;
        memory = take 1 (drop (h.fp.offset % secsiz) h.fp.buffer) ++ drop 1 m;
        handle = update_fp (λ c. raise_hiwater (move_offset 1 c)) h;
      }
  unfolding rdbin read_partial
  rdbin_next m h pos room label_same =
      let n = h.fp.offset / secsiz in
      let here : sector_of h.fp.offset ≡ n = ground arith in
      let z : (h.fp.offset % secsiz == 0) ≡ false = ground arith in
      let hit : (h.fp.sector == n) ≡ true = eq→== _ n label_same in
      let one : min 1 (secsiz - h.fp.offset % secsiz) ≡ 1 = omega arith in
      simp (here, z, hit, one, rdbin, read_partial) refl

  -- a byte of a record that is there
  module _ (file : ℕ → Option (List ℕ)) (k : ℕ) (m : List ℕ) (h : Handle Os) where
    first_found :
        (s : List ℕ)
        → IsAtByte file k h
        → k % secsiz ≡ 0
        → k < 2 ^ 31 - 1
        → file (k / secsiz) ≡ some s
        → ((rdbin bdos m 1 h).ret ≡ 1) × IsAtByte file (k + 1) (rdbin bdos m 1 h).handle
    first_found s a z room e =
        let n = h.fp.offset / secsiz in
        let at_k = a.offset in
        let h1 : Handle Os = update_fp (λ c. raise_hiwater (move_offset 0 c)) h in
        let ready1 : IsReady bdos current L F h1 =
          IsReady-update bdos current L F h h1 a.ready refl refl refl refl in
        let record_n : at h1.os n ≡ some s =
          ap (λ (r : ℕ → Option (List ℕ)). r n) a.same
          ∙ ap (λ (i : ℕ). file (i / secsiz)) at_k
          ∙ e in
        let f = buffer_io-IsFetched bdos current L F n h1 (omega (arith, at_k)) ready1 in
        let g = (buffer_io bdos reading n h1).1 in
        let found : (buffer_io bdos reading n h1).0 ≡ true =
          f.found
          ∙ ap (λ (l : List (List ℕ)). length l == 1) (leading_one (at h1.os) n s record_n) in
        let tail : f.bytes ≡ [] =
          f.whole found ∙ drop_all secsiz h.fp.buffer (omega (arith, a.size)) in
        let held : g.fp.buffer ≡ s =
          f.buffer
          ∙ ap (λ (t : List ℕ). t ++ f.bytes) (content_one (at h1.os) n s record_n)
          ∙ ap (λ (t : List ℕ). s ++ t) tail
          ∙ append-nil s in
        let run =
          rdbin_first m h (omega (arith, at_k)) (omega (arith, at_k))
          ∙ read_rest_present bdos current L F n m 1 0 h1 (clean_ready bdos current L F h1 ready1)
              found in
        rw run (
          refl,
          record {
            ready = IsReady-update bdos current L F g _ f.ready refl refl refl refl;
            offset = omega (arith, f.offset, at_k);
            same = f.file ∙ a.same;
            size = ap length held ∙ F.whole h1.os n s record_n;
            inside = λ p.
                let next : (k + 1) / secsiz ≡ k / secsiz = omega arith in
                (omega (arith, at_k), ap file next ∙ e ∙ ap (λ (t : List ℕ). some t) (sym held));
            fresh = ap (λ (f : Flags). f.at_eof) f.flags ∙ a.fresh;
          },
        )

    next_found :
        IsAtByte file k h
        → 0 < k % secsiz
        → k < 2 ^ 31 - 1
        → ((rdbin bdos m 1 h).ret ≡ 1) × IsAtByte file (k + 1) (rdbin bdos m 1 h).handle
    next_found a p room =
        let at_k = a.offset in
        let (label_same, record_n) = a.inside p in
        rw
          (rdbin_next m h (omega (arith, at_k)) (omega (arith, at_k))
            (omega (arith, at_k, label_same)))
          (
            refl,
            record {
              ready = IsReady-update bdos current L F h _ a.ready refl refl refl refl;
              offset = omega (arith, at_k);
              same = a.same;
              size = a.size;
              inside = λ q.
                  let next : (k + 1) / secsiz ≡ k / secsiz = omega arith in
                  (label_same ∙ sym next, ap file next ∙ record_n);
              fresh = a.fresh;
            },
          )

    pub byte_found :
        (s : List ℕ)
        → IsAtByte file k h
        → k < 2 ^ 31 - 1
        → file (k / secsiz) ≡ some s
        → ((rdbin bdos m 1 h).ret ≡ 1) × IsAtByte file (k + 1) (rdbin bdos m 1 h).handle
    byte_found s a room e = elim (dec_lt 0 (k % secsiz)) [
      | yes p ↦ next_found a p room
      | no p ↦ first_found s a (omega arith) room e
    ]

    -- at the end of the file
    pub byte_missing :
        IsAtByte file k h
        → k % secsiz ≡ 0
        → k < 2 ^ 31 - 1
        → file (k / secsiz) ≡ none
        → ((rdbin bdos m 1 h).ret ≡ 0) × ((rdbin bdos m 1 h).handle.fp.offset ≡ k)
    byte_missing a z room e =
        let n = h.fp.offset / secsiz in
        let at_k = a.offset in
        let h1 : Handle Os = update_fp (λ c. raise_hiwater (move_offset 0 c)) h in
        let ready1 : IsReady bdos current L F h1 =
          IsReady-update bdos current L F h h1 a.ready refl refl refl refl in
        let record_n : at h1.os n ≡ none =
          ap (λ (r : ℕ → Option (List ℕ)). r n) a.same
          ∙ ap (λ (i : ℕ). file (i / secsiz)) at_k
          ∙ e in
        let f = buffer_io-IsFetched bdos current L F n h1 (omega (arith, at_k)) ready1 in
        let missing : (buffer_io bdos reading n h1).0 ≡ false =
          f.found
          ∙ ap (λ (l : List (List ℕ)). length l == 1) (leading_absent (at h1.os) n 0 record_n) in
        let run =
          rdbin_first m h (omega (arith, at_k)) (omega (arith, at_k))
          ∙ read_rest_absent bdos current L F n m 1 0 h1 (clean_ready bdos current L F h1 ready1)
              missing in
        rw run (refl, omega (arith, f.offset, at_k))
