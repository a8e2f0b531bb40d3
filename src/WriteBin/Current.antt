-- ===== src/WriteBin/Current.antt =====
-- The first part of `_wrtbin`: the buffer becomes the sector of the offset.
use libgloss_cpm68k.Prelude.{
  ℕ, ◌/◌, ◌^◌, ◌<◌, ◌≡◌, ◌⊎◌, refl, sym, ap, ◌∙◌, inl, inr, Option, none, some, List, take, arith,
  true, false, Bool-cases, ==_iff, ==_false, ◌==◌,
}
use libgloss_cpm68k.Bdos.{Bdos, Fcb, secsiz}
use libgloss_cpm68k.Bdos.Laws.{UserLaws, FileLaws}
use libgloss_cpm68k.State.{Ccb}
use libgloss_cpm68k.BlkIo.{writing}
use libgloss_cpm68k.Handle.{Handle, buffer_io, update_fp, mark_dirty}
use libgloss_cpm68k.Seek.{label}
use libgloss_cpm68k.WriteBin.{prepare, past_hiwater, make_current}
use libgloss_cpm68k.WriteBin.Stored.{Records}
use libgloss_cpm68k.WriteBin.Buffer.{
  view, IsOpen, IsStored, store_cases, prepare_cases, some-injective, false-ne-true,
}
use libgloss_cpm68k.WriteBin.Stages.{view_clean, view_here, view_other}
use libgloss_cpm68k.WriteBin.Sectors.{IsBelow, past-le}

module _ {Os : Type 0} (bdos : Bdos Os) (current : Os → ℕ) (L : UserLaws bdos current)
    {Names : ℕ → Fcb → Type 0} {at : Os → ℕ → Option (List ℕ)}
    (F : FileLaws bdos current Names at) where
  -- `g` is `h` with record `n` in the buffer, if it is there, and the same file
  pub record IsCurrent (n : ℕ) (h g : Handle Os) : Type 0 where
    pub same : (m : ℕ) → view at g m ≡ view at h m
    pub old : (s : List ℕ) → view at h n ≡ some s → s ≡ take secsiz g.fp.buffer
    pub place : g.fp.flags.dirty ≡ true → g.fp.sector ≡ n
    pub matched : g.fp.flags.dirty ≡ true → (h.fp.flags.dirty ≡ true) × (h.fp.sector ≡ n)
    pub offset : g.fp.offset ≡ h.fp.offset
    pub hiwater : g.fp.hiwater ≡ h.fp.hiwater
    pub channel : IsOpen bdos current L F g

  -- what `make_current` does behind the write of a dirty buffer
  abbrev prepared : ℕ → Handle Os → Handle Os
  prepared n h = update_fp (λ c. mark_dirty false (label n c)) (prepare bdos n h).1

  prepared-IsCurrent :
      (n : ℕ) (h g : Handle Os)
      → n < 2 ^ 24
      → IsOpen bdos current L F g
      → ((m : ℕ) → at g.os m ≡ view at h m)
      → g.fp.offset ≡ h.fp.offset
      → g.fp.hiwater ≡ h.fp.hiwater
      → (past_hiwater g.fp ≡ true → view at h n ≡ none)
      → ((prepare bdos n g).0 ≡ false)
        ⊎ (((prepare bdos n g).0 ≡ true) × IsCurrent n h (prepared n g))
  prepared-IsCurrent n h g lt o file off high beyond =
      elim (prepare_cases bdos current L F n g lt o (λ p. file n ∙ beyond p)) [
        | inl f ↦ inl f
        | inr (f, p) ↦ inr (
          f,
          record {
            same = λ m. ap (λ (r : Records). r m) p.file ∙ file m;
            old = λ s e. p.old s (file n ∙ e);
            place = λ d. absurd (false-ne-true d);
            matched = λ d. absurd (false-ne-true d);
            offset = ap (λ (c : Ccb). c.offset) p.moved.fp ∙ off;
            hiwater = ap (λ (c : Ccb). c.hiwater) p.moved.fp ∙ high;
            channel = record {
              few = p.channel.few;
              names = p.channel.names;
              size = p.channel.size;
            };
          },
        )
      ]

  -- the file behind the write of a dirty buffer
  pub flushed :
      (h g : Handle Os)
      → h.fp.flags.dirty ≡ true
      → IsStored bdos current L F h.fp.sector h g
      → (m : ℕ) → at g.os m ≡ view at h m
  flushed h g dirty w m = elim (Bool-cases (m == h.fp.sector)) [
    | inl e ↦
        let s : m ≡ h.fp.sector = (==_iff m _).0 e in rw s w.here ∙ sym (view_here at h m dirty s)
    | inr e ↦ w.other m (==_false m _ e) ∙ sym (view_other at h m (==_false m _ e))
  ]

  -- the buffer, while it is not dirty, holds the record that it is labelled with, if that is there
  pub record IsCoherent (h : Handle Os) : Type 0 where
    pub held :
        (s : List ℕ)
        → h.fp.flags.dirty ≡ false
        → at h.os h.fp.sector ≡ some s
        → s ≡ take secsiz h.fp.buffer
    pub label_lt : h.fp.flags.dirty ≡ true → h.fp.sector < 2 ^ 24

  pub make_current_cases :
      (n : ℕ) (h : Handle Os)
      → n ≡ h.fp.offset / secsiz
      → h.fp.offset < 2 ^ 23
      → IsOpen bdos current L F h
      → IsBelow bdos current L F 0 h
      → IsCoherent h
      → ((make_current bdos n h).0 ≡ false)
        ⊎ (((make_current bdos n h).0 ≡ true) × IsCurrent n h (make_current bdos n h).1)
  unfolding make_current
  make_current_cases n h at_offset small o below held = elim (Bool-cases (n == h.fp.sector)) [
    | inl e ↦
        let label_same : n ≡ h.fp.sector = (==_iff n _).0 e in
        simp (e, make_current)
          (inr (
            refl,
            record {
              same = λ m. refl;
              old = λ s there. held_now s label_same there;
              place = λ _. sym label_same;
              matched = λ d. (d, sym label_same);
              offset = refl;
              hiwater = refl;
              channel = o;
            },
          ))
    | inr e ↦ elim (Bool-cases h.fp.flags.dirty) [
      | inr clean ↦
          elim (prepared-IsCurrent n h h (omega arith) o (λ m. sym (view_clean at h m clean)) refl
            refl (gone h refl refl)) [
              | inl f ↦ simp (e, clean, f, make_current) (inl refl)
              | inr (f, c) ↦ simp (e, clean, f, make_current) (inr (refl, c))
            ]
      | inl dirty ↦ elim (store_cases bdos current L F h.fp.sector h (held.label_lt dirty) o) [
        | inl f ↦ simp (e, dirty, f, make_current) (inl refl)
        | inr (f, w) ↦
            let g = (buffer_io bdos writing h.fp.sector h).1 in
            let off = ap (λ (c : Ccb). c.offset) w.moved.fp in
            let high = ap (λ (c : Ccb). c.hiwater) w.moved.fp in
            elim (prepared-IsCurrent n h g (omega arith) w.channel (flushed h _ dirty w) off high
              (gone g off high)) [
                | inl f2 ↦ simp (e, dirty, f, f2, make_current) (inl refl)
                | inr (f2, c) ↦ simp (e, dirty, f, f2, make_current) (inr (refl, c))
              ]
      ]
    ]
  ]
    where
      held_now : (s : List ℕ) → n ≡ h.fp.sector → view at h n ≡ some s → s ≡ take secsiz h.fp.buffer
      held_now s same there = elim (Bool-cases h.fp.flags.dirty) [
        | inl d ↦ some-injective (sym there ∙ view_here at h n d same)
        | inr c ↦
            held.held s c (ap (λ (m : ℕ). at h.os m) (sym same) ∙ sym (view_clean at h n c) ∙ there)
      ]

      gone :
          (g : Handle Os)
          → g.fp.offset ≡ h.fp.offset
          → g.fp.hiwater ≡ h.fp.hiwater
          → past_hiwater g.fp ≡ true
          → view at h n ≡ none
      gone g off high p =
          let t = past-le g.fp (omega (arith, below.small)) (omega arith) p in
          below.beyond n (omega arith) (omega (arith, t))
