-- ===== src/WriteBin/Refine.antt =====
-- `_wrtbin` against the file as a sequence of bytes, for a BDOS that keeps the laws of Bdos/Laws.antt.
use libgloss_cpm68k.Prelude.{
  ℕ, ◌+◌, ◌*◌, ◌-◌, ◌/◌, ◌%◌, ◌^◌, ◌≤◌, ◌<◌, ◌≡◌, ◌≢◌, ◌⊎◌, refl, sym, ap, ◌∙◌, inl, inr, Option,
  some, List, length, take, drop, length-take, length-drop, arith, true, false, Bool-cases, ==_iff,
  ==_false, ◌==◌, if◌then◌else◌, ltb, ltb-true,
}
use libgloss_cpm68k.Prelude.Words.{long_minus_one, sector_of}
use mathlib.Core.Path.{fun_ext}
use libgloss_cpm68k.Bdos.{Bdos, Fcb, secsiz}
use libgloss_cpm68k.Bdos.Laws.{UserLaws, FileLaws}
use libgloss_cpm68k.State.{Ccb}
use libgloss_cpm68k.BlkIo.{writing}
use libgloss_cpm68k.Handle.{Handle, buffer_io, update_fp, mark_dirty}
use libgloss_cpm68k.Seek.{label}
use libgloss_cpm68k.ReadBin.{move_offset}
use libgloss_cpm68k.WriteBin.{
  with_buffer, overlay, write_sectors, write_buffered, make_current, wrtbin,
}
use libgloss_cpm68k.WriteBin.Stored.{Stores-same, length-overlay}
use libgloss_cpm68k.WriteBin.Buffer.{view, IsOpen, store_cases}
use libgloss_cpm68k.WriteBin.Stages.{
  view_clean, view_here, view_other, Stores-overlay, Wrote, Fails, tail_empty,
}
use libgloss_cpm68k.WriteBin.Sectors.{either, IsBelow, Wrote-after, write_sectors-Wrote}
use libgloss_cpm68k.WriteBin.Current.{IsCurrent, IsCoherent, make_current_cases}

module _ {Os : Type 0} (bdos : Bdos Os) (current : Os → ℕ) (L : UserLaws bdos current)
    {Names : ℕ → Fcb → Type 0} {at : Os → ℕ → Option (List ℕ)}
    (F : FileLaws bdos current Names at) where
  view_else :
      (h : Handle Os) (n m : ℕ)
      → (h.fp.flags.dirty ≡ true → h.fp.sector ≡ n)
      → m ≢ n
      → view at h m ≡ at h.os m
  view_else h n m place ne = elim (Bool-cases h.fp.flags.dirty) [
    | inl d ↦ let s = place d in view_other at h m (rw s ne)
    | inr c ↦ view_clean at h m c
  ]

  sectors_empty :
      (x : ℕ) (src : List ℕ) (written : ℕ) (h : Handle Os)
      → IsOpen bdos current L F h
      → (h.fp.flags.dirty ≡ true → h.fp.sector < 2 ^ 24)
      → length src ≡ 0
      → Wrote bdos current L F src written h (write_sectors bdos x src written h)
  unfolding write_sectors
  sectors_empty x src written h o label_lt e =
      let small : ltb (length src) secsiz ≡ true = ground arith in
      simp (small, write_sectors) (tail_empty bdos current L F x src written h o label_lt e)

  -- bytes that are moved into the buffer first
  write_buffered-Wrote :
      (n nbs : ℕ) (src : List ℕ) (h : Handle Os)
      → let pos = h.fp.offset % secsiz in
        IsOpen bdos current L F h
        → IsBelow bdos current L F 0 h
        → n ≡ h.fp.offset / secsiz
        → h.fp.offset + length src < 2 ^ 23
        → length src < 2 ^ 16
        → 0 < nbs
        → nbs ≤ length src
        → pos + nbs ≤ secsiz
        → (pos + nbs ≢ secsiz → nbs ≡ length src)
        → ((s : List ℕ) → view at h n ≡ some s → s ≡ take secsiz h.fp.buffer)
        → (h.fp.flags.dirty ≡ true → h.fp.sector ≡ n)
        → Wrote bdos current L F src 0 h (write_buffered bdos n src nbs h)
          ⊎ Fails bdos current L F (write_buffered bdos n src nbs h)
  unfolding write_buffered
  write_buffered-Wrote n nbs src h o below at_offset room count some_bytes le fits all old place =
      let pos = h.fp.offset % secsiz in
      let stored = overlay pos (take nbs src) h.fp.buffer in
      let h1 : Handle Os = update_fp (λ c. move_offset nbs (with_buffer stored c)) h in
      let cut : length (take nbs src) ≡ nbs = omega (arith, length-take nbs src) in
      let left = length-drop nbs src in
      let start : h.fp.offset ≡ secsiz * n + pos = omega arith in
      let moved : h1.fp.offset ≡ h.fp.offset + nbs = omega arith in
      let o1 : IsOpen bdos current L F h1 = record {
        few = o.few;
        names = o.names;
        size = omega (
          arith,
          o.size,
          length-overlay pos (take nbs src) h.fp.buffer (omega (arith, o.size, cut)),
        );
      } in
      elim (Bool-cases (pos + nbs == secsiz)) [
        | inr e ↦
            let g : Handle Os = update_fp (λ c. mark_dirty true (label n c)) h1 in
            let first =
              Stores-overlay at h g n pos (take nbs src) h.fp.buffer start o.size
                (omega (arith, cut)) (omega (arith, cut)) old (view_here at g n refl refl)
                (λ m ne. view_other at g m ne ∙ sym (view_else h n m place ne)) in
            let none_left : nbs ≡ length src = all (==_false _ secsiz e) in
            simp (e, write_buffered)
              (inl (
                Wrote-after bdos current L F src nbs 0 nbs h g _ le (omega arith) moved refl first (
                  sectors_empty n (drop nbs src) nbs g
                    (record { few = o1.few; names = o1.names; size = o1.size }) (λ _. omega arith)
                    (omega (arith, left)))))
        | inl e ↦
            let full : pos + nbs ≡ secsiz = (==_iff _ secsiz).0 e in
            let next : (n + 1) % 2 ^ 16 ≡ n + 1 = omega arith in
            elim (store_cases bdos current L F n h1 (omega arith) o1) [
              | inl f ↦ simp (e, f, write_buffered) (inr (record { ret = refl; errno = refl }))
              | inr (f, w) ↦
                  let g : Handle Os =
                    update_fp (λ c. mark_dirty false (label long_minus_one c))
                      (buffer_io bdos writing n h1).1 in
                  let off : g.fp.offset ≡ h.fp.offset + nbs =
                    ap (λ (c : Ccb). c.offset) w.moved.fp ∙ moved in
                  let high : g.fp.hiwater ≡ h.fp.hiwater = ap (λ (c : Ccb). c.hiwater) w.moved.fp in
                  let same : (m : ℕ) → m ≢ n → view at g m ≡ view at h m =
                    λ m ne. w.other m ne ∙ sym (view_else h n m place ne) in
                  let first =
                    Stores-overlay at h g n pos (take nbs src) h.fp.buffer start o.size
                      (omega (arith, cut)) (omega (arith, cut)) old w.here same in
                  let below' : IsBelow bdos current L F (n + 1) g = record {
                    small = omega (arith, high, below.small);
                    beyond = λ i gt end.
                        same i (omega arith) ∙ below.beyond i (omega arith) (omega (arith, high));
                  } in
                  let rest =
                    write_sectors-Wrote bdos current L F (n + 1) (drop nbs src) nbs g
                      (record {
                        few = w.channel.few;
                        names = w.channel.names;
                        size = w.channel.size;
                      })
                      below' refl (omega (arith, off)) (omega (arith, off, left))
                      (omega (arith, left)) in
                  simp (e, f, next, write_buffered)
                    (either
                      (Wrote-after bdos current L F src nbs 0 nbs h g _ le (omega arith) off high
                        first)
                      rest)
            ]
      ]

  Wrote-current :
      (n : ℕ) (src : List ℕ) (h g : Handle Os) (out : ℕ × Handle Os)
      → IsCurrent bdos current L F n h g
      → Wrote bdos current L F src 0 g out
      → Wrote bdos current L F src 0 h out
  Wrote-current n src h g out c w = record {
    ret = w.ret;
    offset = omega (arith, w.offset, c.offset);
    hiwater = rw (← c.offset, ← c.hiwater) w.hiwater;
    stores =
        Stores-same (view at g) (view at h) (view at out.1) g.fp.offset h.fp.offset src
          (fun_ext c.same) c.offset w.stores;
    channel = w.channel;
    label_lt = w.label_lt;
  }

  -- behind the first part
  written_current :
      (n : ℕ) (src : List ℕ) (h g : Handle Os)
      → let pos = h.fp.offset % secsiz in
        let room = secsiz - pos in
        let nbs =
          if ltb (length src) room then length src else if room == secsiz then 0 else room in
        IsBelow bdos current L F 0 h
        → n ≡ h.fp.offset / secsiz
        → h.fp.offset + length src < 2 ^ 23
        → length src < 2 ^ 16
        → (g.fp.flags.dirty ≡ true → (0 < pos) ⊎ (length src < secsiz))
        → IsCurrent bdos current L F n h g
        → let out =
            if ltb 0 nbs then write_buffered bdos n src nbs g else write_sectors bdos n src 0 g in
          Wrote bdos current L F src 0 g out ⊎ Fails bdos current L F out
  written_current n src h g below at_offset room count clear c =
      let pos = h.fp.offset % secsiz in
      let left = secsiz - pos in
      let nbs = if ltb (length src) left then length src else if left == secsiz then 0 else left in
      let off = c.offset in
      let below' : IsBelow bdos current L F 0 g = record {
        small = omega (arith, c.hiwater, below.small);
        beyond = λ m le end. c.same m ∙ below.beyond m le (omega (arith, c.hiwater));
      } in
      elim (Bool-cases (ltb 0 nbs)) [
        | inl e ↦ rw e (
            write_buffered-Wrote n nbs src g c.channel below' (omega arith) (omega arith) count
              (ltb-true 0 nbs e) (ground arith) (ground arith) (ground arith)
              (λ s there. c.old s (sym (c.same n) ∙ there)) c.place)
        | inr e ↦ elim (Bool-cases (length src == 0)) [
          | inl z ↦ rw e (
              inl (
                sectors_empty n src 0 g c.channel (λ d. omega (arith, c.place d))
                  ((==_iff _ 0).0 z)))
          | inr z ↦
              let aligned : pos ≡ 0 = ground arith in
              let whole : secsiz ≤ length src = ground arith in
              elim (Bool-cases g.fp.flags.dirty) [
                | inl d ↦ absurd (omega (arith, clear d))
                | inr clean ↦ rw e (
                    write_sectors-Wrote bdos current L F n src 0 g c.channel
                      (record {
                        small = below'.small;
                        beyond = λ m _ end. below'.beyond m (omega arith) end;
                      })
                      clean (omega arith) (omega arith) (omega arith))
              ]
        ]
      ]

  -- A write of `src` to a binary channel fails with EIO, or it returns the number of bytes, moves the
  -- offset and the high water mark behind them, and stores them in the file as the channel sees it:
  -- the bytes from the offset on are those of `src`, every other byte that was there still is, and
  -- the records apart from them are the same. The offset and the count end below 2 ^ 23, the count is
  -- below 2 ^ 16, the high water mark below 2 ^ 31, and the label of a dirty buffer below 2 ^ 24; the FCB names the file for the channel's user, whose byte is at most 16; the
  -- buffer has at least a sector; no record is there behind the high water mark; a buffer that is
  -- not dirty holds the record that it is labelled with; and it is not a write of at least a sector
  -- from the start of a sector that is in the buffer and dirty.
  pub wrtbin-Wrote :
      (src : List ℕ) (h : Handle Os)
      → h.fp.offset + length src < 2 ^ 23
      → length src < 2 ^ 16
      → IsOpen bdos current L F h
      → IsBelow bdos current L F 0 h
      → IsCoherent bdos current L F h
      → (h.fp.flags.dirty ≡ true
          → h.fp.sector ≡ h.fp.offset / secsiz
          → (0 < h.fp.offset % secsiz) ⊎ (length src < secsiz))
      → Wrote bdos current L F src 0 h (wrtbin bdos src h)
        ⊎ Fails bdos current L F (wrtbin bdos src h)
  unfolding wrtbin
  wrtbin-Wrote src h room count o below held clear =
      let n = h.fp.offset / secsiz in
      let here : sector_of h.fp.offset % 2 ^ 16 ≡ n = ground arith in
      elim (make_current_cases bdos current L F n h refl (omega arith) o below held) [
        | inl f ↦ simp (here, f, wrtbin) (inr (record { ret = refl; errno = refl }))
        | inr (f, c) ↦
            let g = (make_current bdos n h).1 in
            simp (here, f, wrtbin)
              (either (Wrote-current n src h g _ c) (
                written_current n src h g below refl room count
                  (λ d. let (dirty, same) = c.matched d in clear dirty same) c))
      ]
