-- ===== src/WriteAsc/Refine.antt =====
-- `_wrtasc` against the file as a sequence of bytes, for a BDOS that keeps the laws of Bdos/Laws.antt.
use libgloss_cpm68k.Prelude.{
  ℕ, zero, suc, ◌+◌, ◌*◌, ◌-◌, ◌/◌, ◌%◌, ◌^◌, ◌≤◌, ◌<◌, ◌≡◌, ◌≢◌, refl, sym, ap, ◌∙◌, inl, inr,
  Option, some, List, ◌++◌, length, take, append-nil, arith, true, false, Bool-cases, ==_iff,
  ==_false, ◌==◌, ltb,
}
use libgloss_cpm68k.Prelude.Words.{sector_of}
use libgloss_cpm68k.Bdos.{Bdos, Fcb, secsiz}
use libgloss_cpm68k.Bdos.Laws.{UserLaws, FileLaws}
use libgloss_cpm68k.State.{Ccb}
use libgloss_cpm68k.BlkIo.{writing}
use libgloss_cpm68k.Handle.{Handle, buffer_io, update_fp, mark_dirty}
use libgloss_cpm68k.ReadBin.{move_offset}
use libgloss_cpm68k.WriteBin.{with_buffer, overlay}
use libgloss_cpm68k.WriteBin.Stored.{length-overlay}
use libgloss_cpm68k.WriteBin.Buffer.{view, IsOpen, IsStored, store_cases, some-injective}
use libgloss_cpm68k.WriteBin.Stages.{view_clean, view_here, view_other, Stores-overlay}
use libgloss_cpm68k.WriteBin.Sectors.{either, IsBelow}
use libgloss_cpm68k.WriteBin.Current.{IsCoherent}
use libgloss_cpm68k.WriteAsc.{fill, fetch, wrtasc_loop, wrtasc}
use libgloss_cpm68k.WriteAsc.Newlines.{stored_as, out-fill}
use libgloss_cpm68k.WriteAsc.Fetch.{IsFetchedAt, fetch-IsFetchedAt}
use libgloss_cpm68k.WriteAsc.Stages.{
  length-stored_as, stored_none, fill-Lengths, Outcome, IsPut, WroteText-last, WroteText-after,
}

module _ {Os : Type 0} (bdos : Bdos Os) (current : Os → ℕ) (L : UserLaws bdos current)
    {Names : ℕ → Fcb → Type 0} {at : Os → ℕ → Option (List ℕ)}
    (F : FileLaws bdos current Names at) where
  -- what a round needs: a file that ends at the high water mark or before the offset's sector, and
  -- a buffer that holds the sector of its label
  record IsAt (h : Handle Os) : Type 0 where
    channel : IsOpen bdos current L F h
    below : IsBelow bdos current L F (h.fp.offset / secsiz) h
    coherent : IsCoherent bdos current L F h

  -- the characters in the buffer of sector `n`
  abbrev moved : List ℕ → ℕ → Handle Os → Handle Os
  moved out pos =
      update_fp (λ c. move_offset (length out) (with_buffer (overlay pos out c.buffer) c))

  moved-IsOpen :
      (out : List ℕ) (pos : ℕ) (g : Handle Os)
      → pos + length out ≤ secsiz
      → IsOpen bdos current L F g
      → IsOpen bdos current L F (moved out pos g)
  moved-IsOpen out pos g fits o = record {
    few = o.few;
    names = o.names;
    size = omega (arith, o.size, length-overlay pos out g.fp.buffer (omega (arith, o.size)));
  }

  -- a buffer that is not full stays, and is dirty
  dirty-IsPut :
      (n pos : ℕ) (out : List ℕ) (h g : Handle Os)
      → h.fp.offset ≡ secsiz * n + pos
      → 0 < length out
      → pos + length out ≤ secsiz
      → h.fp.offset + length out < 2 ^ 23
      → IsFetchedAt bdos current L F n h g
      → IsPut bdos current L F n out h (update_fp (mark_dirty true) (moved out pos g))
  dirty-IsPut n pos out h g start some_bytes fits room f =
      let k : Handle Os = update_fp (mark_dirty true) (moved out pos g) in
      let c = f.here in
      let label_same : k.fp.sector ≡ n = f.label_same in
      let o = moved-IsOpen out pos g fits c.channel in
      let other : (m : ℕ) → m ≢ n → view at k m ≡ view at h m = λ m ne.
        view_other at k m (rw label_same ne)
        ∙ sym (view_other at g m (rw label_same ne))
        ∙ c.same m in
      record {
        offset = omega (arith, c.offset);
        hiwater = c.hiwater;
        label_same = label_same;
        stores =
            Stores-overlay at h k n pos out g.fp.buffer start c.channel.size some_bytes fits c.old
              (view_here at k n refl (sym label_same)) other;
        other = other;
        channel = record { few = o.few; names = o.names; size = o.size };
      }

  -- a full buffer is written
  full-IsPut :
      (n pos : ℕ) (out : List ℕ) (h g : Handle Os)
      → h.fp.offset ≡ secsiz * n + pos
      → 0 < length out
      → pos + length out ≤ secsiz
      → h.fp.offset + length out < 2 ^ 23
      → IsFetchedAt bdos current L F n h g
      → let k = (buffer_io bdos writing n (moved out pos g)).1 in
        IsStored bdos current L F n (moved out pos g) k → IsPut bdos current L F n out h k
  full-IsPut n pos out h g start some_bytes fits room f w =
      let k = (buffer_io bdos writing n (moved out pos g)).1 in
      let c = f.here in
      let off : k.fp.offset ≡ (moved out pos g).fp.offset = ap (λ (c : Ccb). c.offset) w.moved.fp in
      let label_same : k.fp.sector ≡ n = ap (λ (c : Ccb). c.sector) w.moved.fp ∙ f.label_same in
      let other : (m : ℕ) → m ≢ n → view at k m ≡ view at h m = λ m ne.
        view_other at k m (rw label_same ne)
        ∙ w.other m ne
        ∙ sym (view_other at g m (rw (f.label_same) ne))
        ∙ c.same m in
      let new : view at k n ≡ some (take secsiz (overlay pos out g.fp.buffer)) =
        elim (Bool-cases k.fp.flags.dirty) [
          | inl d ↦
              view_here at k n d (sym label_same)
              ∙ ap (λ (b : List ℕ). some (take secsiz b)) w.buffer
          | inr d ↦ view_clean at k n d ∙ w.here
        ] in
      record {
        offset = omega (arith, c.offset, off);
        hiwater = ap (λ (c : Ccb). c.hiwater) w.moved.fp ∙ c.hiwater;
        label_same = label_same;
        stores =
            Stores-overlay at h k n pos out g.fp.buffer start c.channel.size some_bytes fits c.old
              new other;
        other = other;
        channel = w.channel;
      }

  -- what the next round finds
  next-IsAt :
      (n pos : ℕ) (out : List ℕ) (h g : Handle Os)
      → n ≡ h.fp.offset / secsiz
      → h.fp.offset ≡ secsiz * n + pos
      → pos + length out ≡ secsiz
      → h.fp.offset < 2 ^ 23
      → IsAt h
      → let k = (buffer_io bdos writing n (moved out pos g)).1 in
        IsStored bdos current L F n (moved out pos g) k → IsPut bdos current L F n out h k → IsAt k
  next-IsAt n pos out h g here start full room a w p =
      let k = (buffer_io bdos writing n (moved out pos g)).1 in
      record {
        channel = p.channel;
        below = record {
          small = omega (arith, p.hiwater, a.below.small);
          beyond = λ m le end.
              p.other m (omega (arith, p.offset))
              ∙ a.below.beyond m (omega (arith, p.offset)) (omega (arith, p.hiwater));
        };
        coherent = record {
          held = λ s _ e. stored_here s (ap (at k.os) (sym p.label_same) ∙ e);
          label_lt = λ _. omega (arith, p.label_same);
        };
      }
    where
      stored_here :
          (s : List ℕ)
          → at (buffer_io bdos writing n (moved out pos g)).1.os n ≡ some s
          → s ≡ take secsiz (buffer_io bdos writing n (moved out pos g)).1.fp.buffer
      stored_here s e = some-injective (sym e ∙ w.here) ∙ sym (ap (take secsiz) w.buffer)

  loop-Outcome :
      (fuel total cc : ℕ) (src : List ℕ) (h : Handle Os)
      → length (stored_as cc src) < fuel
      → 0 < length src
      → length src ≤ total
      → total < 2 ^ 31
      → h.fp.offset + length (stored_as cc src) < 2 ^ 23
      → IsAt h
      → Outcome bdos current L F total (stored_as cc src) h (wrtasc_loop bdos fuel total cc src h)
  unfolding wrtasc_loop
  loop-Outcome zero total cc src h enough = λ _ _ _ _ _. absurd (omega arith)
  loop-Outcome (suc fuel) total cc src h enough = λ some_bytes le small room a.
      let n = h.fp.offset / secsiz in
      let pos = h.fp.offset % secsiz in
      let here : sector_of h.fp.offset ≡ n = ground arith in
      let z : (length src == 0) ≡ false = ground arith in
      let f = fill (secsiz - pos) cc src in
      let s = fill-Lengths (secsiz - pos) cc src (omega arith) some_bytes in
      let start : h.fp.offset ≡ secsiz * n + pos = omega arith in
      elim (fetch-IsFetchedAt bdos current L F n h refl (omega arith) a.channel a.below
        a.coherent) [
          | inl x ↦ simp (z, here, x, wrtasc_loop) (inr (inl (record { ret = refl; errno = refl })))
          | inr (x, at_sector) ↦
              let g = (fetch bdos n h).1 in
              elim (Bool-cases (ltb (pos + length f.out) secsiz)) [
                | inl part ↦
                    let done = s.done (ground arith) in
                    let y : (length f.left == 0) ≡ true = ground arith in
                    let p =
                      dirty-IsPut n pos f.out h g start s.some_put (omega (arith, s.fits))
                        (omega (arith, s.total)) at_sector in
                    simp (z, here, x, part, y, wrtasc_loop)
                      (inl (
                        WroteText-last bdos current L F n total f.out (stored_as cc src) h _
                          (omega arith) (omega (arith, s.total))
                          (out_all cc src (secsiz - pos) done) p))
                | inr full ↦
                    let fits : pos + length f.out ≡ secsiz = ground (arith, s.fits) in
                    let h2 : Handle Os = moved f.out pos g in
                    elim (store_cases bdos current L F n h2 (omega arith)
                      (moved-IsOpen f.out pos g (omega arith) at_sector.here.channel)) [
                        | inl w ↦ simp (z, here, x, full, w, wrtasc_loop) (inr (inr (omega arith)))
                        | inr (w, stored) ↦
                            let k = (buffer_io bdos writing n h2).1 in
                            let p =
                              full-IsPut n pos f.out h g start s.some_put (omega arith)
                                (omega (arith, s.total)) at_sector stored in
                            elim (Bool-cases (length f.left == 0)) [
                              | inl y ↦
                                  simp (z, here, x, full, w, y, wrtasc_loop)
                                    (inl (
                                      WroteText-last bdos current L F n total f.out
                                        (stored_as cc src) h k (omega arith)
                                        (omega (arith, s.total))
                                        (out_all cc src (secsiz - pos) ((==_iff _ 0).0 y)) p))
                              | inr y ↦
                                  let rest =
                                    loop-Outcome fuel total f.last f.left k
                                      (omega (arith, s.total, s.some_put, enough))
                                      (omega (arith, ==_false (length f.left) 0 y))
                                      (omega (arith, s.left_le, le)) small
                                      (omega (arith, p.offset, s.total, room))
                                      (next-IsAt n pos f.out h g refl start fits (omega arith) a
                                        stored p) in
                                  simp (z, here, x, full, w, y, wrtasc_loop)
                                    (either
                                      (WroteText-after bdos current L F n total f.out
                                        (stored_as f.last f.left) (stored_as cc src) h k _
                                        (out-fill (secsiz - pos) cc src) p)
                                      rest)
                            ]
                      ]
              ]
        ]
    where
      out_all :
          (cc : ℕ) (src : List ℕ) (room : ℕ)
          → length (fill room cc src).left ≡ 0
          → (fill room cc src).out ≡ stored_as cc src
      out_all cc src room e =
          let f = fill room cc src in
          sym (append-nil f.out)
          ∙ ap (λ (t : List ℕ). f.out ++ t) (sym (stored_none f.last f.left e))
          ∙ out-fill room cc src

  -- A write of `src` to an ASCII channel fails with EIO, or returns fewer than the bytes asked for, or
  -- returns their number, moves the offset and the high water mark, and stores the bytes with a
  -- carriage return before each newline that has none in front of it in the file as the channel sees
  -- it: from the offset on are these characters, every other byte that was there still is, and the
  -- records apart from them are the same. At least one byte is written; the characters end below
  -- 2 ^ 23; the FCB names the file for the channel's user, whose byte is at most 16; the buffer has at
  -- least a sector; no record from the offset's on is there behind the high water mark; and a buffer
  -- that is not dirty holds the record that it is labelled with.
  pub wrtasc-Outcome :
      (src : List ℕ) (h : Handle Os)
      → 0 < length src
      → h.fp.offset + length (stored_as 0 src) < 2 ^ 23
      → IsOpen bdos current L F h
      → IsBelow bdos current L F (h.fp.offset / secsiz) h
      → IsCoherent bdos current L F h
      → Outcome bdos current L F (length src) (stored_as 0 src) h (wrtasc bdos src h)
  unfolding wrtasc
  wrtasc-Outcome src h some_bytes room o below coherent =
      let size = length-stored_as 0 src in
      loop-Outcome (2 * length src + 1) (length src) 0 src h (omega (arith, size.1)) some_bytes
        (omega arith) (omega (arith, size.0)) room
        (record { channel = o; below = below; coherent = coherent })
