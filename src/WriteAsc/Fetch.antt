-- ===== src/WriteAsc/Fetch.antt =====
-- The first part of a round of `_wrtasc`: the buffer becomes the sector of the offset.
use libgloss_cpm68k.Prelude.{
  ℕ, ◌/◌, ◌^◌, ◌<◌, ◌≡◌, ◌⊎◌, refl, sym, ap, ◌∙◌, inl, inr, Option, none, some, List, take, arith,
  true, false, Bool-cases, ==_iff, ◌==◌,
}
use libgloss_cpm68k.Bdos.{Bdos, Fcb, secsiz}
use libgloss_cpm68k.Bdos.Laws.{UserLaws, FileLaws}
use libgloss_cpm68k.State.{Ccb}
use libgloss_cpm68k.BlkIo.{reading}
use libgloss_cpm68k.Handle.{Handle, buffer_io, clean, update_fp}
use libgloss_cpm68k.Seek.{label}
use libgloss_cpm68k.WriteBin.{past_hiwater}
use libgloss_cpm68k.WriteBin.Stored.{Records}
use libgloss_cpm68k.WriteBin.Buffer.{
  view, IsOpen, store_cases, fetch_cases, some-injective, none-ne-some, false-ne-true,
}
use libgloss_cpm68k.WriteBin.Stages.{view_clean, view_here}
use libgloss_cpm68k.WriteBin.Sectors.{IsBelow, past-le}
use libgloss_cpm68k.WriteBin.Current.{IsCurrent, IsCoherent, flushed}
use libgloss_cpm68k.WriteAsc.{fetch}

module _ {Os : Type 0} (bdos : Bdos Os) (current : Os → ℕ) (L : UserLaws bdos current)
    {Names : ℕ → Fcb → Type 0} {at : Os → ℕ → Option (List ℕ)}
    (F : FileLaws bdos current Names at) where
  -- `g` is `h` with its buffer written, so that the file is what the channel saw
  pub record IsTidy (h g : Handle Os) : Type 0 where
    pub clear : g.fp.flags.dirty ≡ false
    pub file : (m : ℕ) → at g.os m ≡ view at h m
    pub offset : g.fp.offset ≡ h.fp.offset
    pub hiwater : g.fp.hiwater ≡ h.fp.hiwater
    pub channel : IsOpen bdos current L F g

  pub clean_cases :
      (h : Handle Os)
      → IsOpen bdos current L F h
      → IsCoherent bdos current L F h
      → ((clean bdos h).0 ≡ false) ⊎ (((clean bdos h).0 ≡ true) × IsTidy h (clean bdos h).1)
  unfolding clean
  clean_cases h o c = elim (Bool-cases h.fp.flags.dirty) [
    | inr clear ↦
        simp (clear, clean)
          (inr (
            refl,
            record {
              clear = clear;
              file = λ m. sym (view_clean at h m clear);
              offset = refl;
              hiwater = refl;
              channel = o;
            },
          ))
    | inl dirty ↦ elim (store_cases bdos current L F h.fp.sector h (c.label_lt dirty) o) [
      | inl f ↦ simp (dirty, f, clean) (inl refl)
      | inr (f, w) ↦
          simp (dirty, f, clean)
            (inr (
              refl,
              record {
                clear = refl;
                file = flushed bdos current L F h _ dirty w;
                offset = ap (λ (c : Ccb). c.offset) w.moved.fp;
                hiwater = ap (λ (c : Ccb). c.hiwater) w.moved.fp;
                channel = record {
                  few = w.channel.few;
                  names = w.channel.names;
                  size = w.channel.size;
                };
              },
            ))
    ]
  ]

  -- the buffer is the sector of the offset, and is labelled so
  pub record IsFetchedAt (n : ℕ) (h g : Handle Os) : Type 0 where
    pub here : IsCurrent bdos current L F n h g
    pub label_same : g.fp.sector ≡ n

  pub fetch-IsFetchedAt :
      (n : ℕ) (h : Handle Os)
      → n ≡ h.fp.offset / secsiz
      → h.fp.offset < 2 ^ 23
      → IsOpen bdos current L F h
      → IsBelow bdos current L F n h
      → IsCoherent bdos current L F h
      → ((fetch bdos n h).0 ≡ false)
        ⊎ (((fetch bdos n h).0 ≡ true) × IsFetchedAt n h (fetch bdos n h).1)
  unfolding fetch
  fetch-IsFetchedAt n h at_offset small o below coherent = elim (Bool-cases (n == h.fp.sector)) [
    | inl e ↦
        let same : n ≡ h.fp.sector = (==_iff n _).0 e in
        simp (e, fetch)
          (inr (
            refl,
            record {
              here = record {
                same = λ m. refl;
                old = λ s there. held_now s same there;
                place = λ _. sym same;
                matched = λ d. (d, sym same);
                offset = refl;
                hiwater = refl;
                channel = o;
              };
              label_same = sym same;
            },
          ))
    | inr e ↦ elim (clean_cases h o coherent) [
      | inl f ↦ simp (e, f, fetch) (inl refl)
      | inr (f, t) ↦
          let g = (clean bdos h).1 in
          elim (Bool-cases (past_hiwater g.fp)) [
            | inl p ↦
                simp (e, f, p, fetch)
                  (inr (
                    refl,
                    fetched g (update_fp (label n) g) t t.clear (λ m. refl)
                        (λ s there. absurd (none-ne-some (sym (gone g t p) ∙ there))) refl refl
                        (record {
                          few = t.channel.few;
                          names = t.channel.names;
                          size = t.channel.size;
                        })
                        refl,
                  ))
            | inr p ↦ elim (fetch_cases bdos current L F n g (omega arith) t.channel) [
              | inl r ↦ simp (e, f, p, r, fetch) (inl refl)
              | inr (r, q) ↦
                  let g2 = (buffer_io bdos reading n g).1 in
                  simp (e, f, p, r, fetch)
                    (inr (
                      refl,
                      fetched g (update_fp (label n) g2) t
                          (ap (λ (c : Ccb). c.flags.dirty) q.moved.fp ∙ t.clear)
                          (λ m. ap (λ (r : Records). r m) q.file)
                          (λ s there. q.old s (t.file n ∙ there))
                          (ap (λ (c : Ccb). c.offset) q.moved.fp)
                          (ap (λ (c : Ccb). c.hiwater) q.moved.fp)
                          (record {
                            few = q.channel.few;
                            names = q.channel.names;
                            size = q.channel.size;
                          })
                          refl,
                    ))
            ]
          ]
    ]
  ]
    where
      held_now : (s : List ℕ) → n ≡ h.fp.sector → view at h n ≡ some s → s ≡ take secsiz h.fp.buffer
      held_now s same there = elim (Bool-cases h.fp.flags.dirty) [
        | inl d ↦ some-injective (sym there ∙ view_here at h n d same)
        | inr c ↦
            coherent.held s c
              (ap (λ (m : ℕ). at h.os m) (sym same) ∙ sym (view_clean at h n c) ∙ there)
      ]

      gone : (g : Handle Os) → IsTidy h g → past_hiwater g.fp ≡ true → view at h n ≡ none
      gone g t p =
          let end =
            past-le g.fp (omega (arith, below.small, t.hiwater)) (omega (arith, t.offset)) p in
          below.beyond n (omega arith) (omega (arith, end, t.hiwater, t.offset))

      fetched :
          (g g2 : Handle Os)
          → IsTidy h g
          → g2.fp.flags.dirty ≡ false
          → ((m : ℕ) → at g2.os m ≡ at g.os m)
          → ((s : List ℕ) → view at h n ≡ some s → s ≡ take secsiz g2.fp.buffer)
          → g2.fp.offset ≡ g.fp.offset
          → g2.fp.hiwater ≡ g.fp.hiwater
          → IsOpen bdos current L F g2
          → g2.fp.sector ≡ n
          → IsFetchedAt n h g2
      fetched g g2 t clear file old off high channel label_same = record {
        here = record {
          same = λ m. view_clean at g2 m clear ∙ file m ∙ t.file m;
          old = old;
          place = λ _. label_same;
          matched = λ d. absurd (false-ne-true (sym clear ∙ d));
          offset = off ∙ t.offset;
          hiwater = high ∙ t.hiwater;
          channel = channel;
        };
        label_same = label_same;
      }
