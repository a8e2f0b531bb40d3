-- ===== src/WriteBin/Stages.antt =====
-- The parts of `_wrtbin` behind the buffer: the whole sectors and the last bytes.
use libgloss_cpm68k.Prelude.{
  ℕ, ◌+◌, ◌*◌, ◌^◌, ◌≤◌, ◌<◌, ◌≡◌, ◌≢◌, ◌⊎◌, refl, sym, ap, ◌∙◌, inl, inr, Option, none, some, List,
  length, take, arith, Bool, true, false, ==_iff, ◌==◌, ◌&&◌, if◌then◌else◌,
}
use libgloss_cpm68k.Prelude.Words.{add_long, lt_long}
use libgloss_cpm68k.Bdos.{Bdos, Fcb, secsiz}
use libgloss_cpm68k.Bdos.Laws.{UserLaws, FileLaws}
use libgloss_cpm68k.State.{Ccb, eio, failure}
use libgloss_cpm68k.Handle.{Handle, update_fp, raise_hiwater, mark_dirty}
use libgloss_cpm68k.Seek.{label}
use libgloss_cpm68k.ReadBin.{move_offset}
use libgloss_cpm68k.WriteBin.{prepare, past_hiwater, with_buffer, overlay, write_tail}
use libgloss_cpm68k.WriteBin.Stored.{Records, Stores, Stores-nothing, Stores-record, length-overlay}
use libgloss_cpm68k.WriteBin.Buffer.{view, IsOpen, prepare_cases}

and_false : (b : Bool) → (b && false) ≡ false
and_false true = refl
and_false false = refl

module _ {Os : Type 0} (at : Os → Records) where
  pub view_clean : (h : Handle Os) (m : ℕ) → h.fp.flags.dirty ≡ false → view at h m ≡ at h.os m
  view_clean h m e = rw e refl

  pub view_here :
      (h : Handle Os) (m : ℕ)
      → h.fp.flags.dirty ≡ true
      → m ≡ h.fp.sector
      → view at h m ≡ some (take secsiz h.fp.buffer)
  view_here h m e s = let t : (m == h.fp.sector) ≡ true = ground arith in rw (e, t) refl

  pub view_other : (h : Handle Os) (m : ℕ) → m ≢ h.fp.sector → view at h m ≡ at h.os m
  view_other h m ne =
      let t : (m == h.fp.sector) ≡ false = ground (arith, ==_iff m h.fp.sector) in
      rw (t, and_false h.fp.flags.dirty) refl

  -- bytes moved into a buffer that holds record `x`, if that is there
  pub Stores-overlay :
      (h g : Handle Os) (x pos : ℕ) (src buffer : List ℕ)
      → h.fp.offset ≡ secsiz * x + pos
      → secsiz ≤ length buffer
      → 0 < length src
      → pos + length src ≤ secsiz
      → ((s : List ℕ) → view at h x ≡ some s → s ≡ take secsiz buffer)
      → view at g x ≡ some (take secsiz (overlay pos src buffer))
      → ((m : ℕ) → m ≢ x → view at g m ≡ view at h m)
      → Stores (view at h) (view at g) h.fp.offset src
  Stores-overlay h g x pos src buffer start size some_bytes room old new other =
      rw start
        (Stores-record (view at h) (view at g) x pos src buffer size some_bytes room old new other)

-- the new high water mark of a channel that has stored bytes up to `offset`
abbrev pub raised : ℕ → ℕ → ℕ
raised hiwater offset = if lt_long hiwater offset then offset else hiwater

module _ {Os : Type 0} (bdos : Bdos Os) (current : Os → ℕ) (L : UserLaws bdos current)
    {Names : ℕ → Fcb → Type 0} {at : Os → ℕ → Option (List ℕ)}
    (F : FileLaws bdos current Names at) where
  -- `src` was stored from the offset on, and the offset and the high water mark were moved behind
  -- it; `written` bytes came before
  pub record Wrote (src : List ℕ) (written : ℕ) (h : Handle Os) (out : ℕ × Handle Os) : Type 0 where
    pub ret : out.0 ≡ written + length src
    pub offset : out.1.fp.offset ≡ h.fp.offset + length src
    pub hiwater : out.1.fp.hiwater ≡ raised h.fp.hiwater (h.fp.offset + length src)
    pub stores : Stores (view at h) (view at out.1) h.fp.offset src
    pub channel : IsOpen bdos current L F out.1
    pub label_lt : out.1.fp.flags.dirty ≡ true → out.1.fp.sector < 2 ^ 24

  -- the write failed
  pub record Fails (out : ℕ × Handle Os) : Type 0 where
    pub ret : out.0 ≡ failure
    pub errno : out.1.errno ≡ eio

  -- nothing is left to write
  pub tail_empty :
      (x : ℕ) (src : List ℕ) (written : ℕ) (h : Handle Os)
      → IsOpen bdos current L F h
      → (h.fp.flags.dirty ≡ true → h.fp.sector < 2 ^ 24)
      → length src ≡ 0
      → Wrote src written h (write_tail bdos x src written h)
  unfolding write_tail
  tail_empty x src written h o label_lt e =
      let t : (length src == 0) ≡ true = ground arith in
      let z : h.fp.offset + length src ≡ h.fp.offset = omega arith in
      simp (t, write_tail)
        (record {
          ret = omega arith;
          offset = omega arith;
          hiwater = rw z refl;
          stores = Stores-nothing (view at h) _ h.fp.offset src e (λ m. refl);
          channel = record { few = o.few; names = o.names; size = o.size };
          label_lt = label_lt;
        })

  pub tail_some :
      (x : ℕ) (src : List ℕ) (written : ℕ) (h : Handle Os)
      → IsOpen bdos current L F h
      → h.fp.flags.dirty ≡ false
      → h.fp.offset ≡ secsiz * x
      → 0 < length src
      → length src < secsiz
      → h.fp.offset + length src < 2 ^ 23
      → written + length src < 2 ^ 16
      → (past_hiwater h.fp ≡ true → at h.os x ≡ none)
      → Wrote src written h (write_tail bdos x src written h)
        ⊎ Fails (write_tail bdos x src written h)
  unfolding write_tail
  tail_some x src written h o clean aligned some_bytes small room count beyond =
      let t : (length src == 0) ≡ false = ground arith in
      elim (prepare_cases bdos current L F x h (omega arith) o beyond) [
        | inl f ↦ simp (t, f, write_tail) (inr (record { ret = refl; errno = refl }))
        | inr (f, p) ↦
            let g = (prepare bdos x h).1 in
            let same : g.fp.offset ≡ h.fp.offset = ap (λ (c : Ccb). c.offset) p.moved.fp in
            let high : g.fp.hiwater ≡ h.fp.hiwater = ap (λ (c : Ccb). c.hiwater) p.moved.fp in
            let end : add_long g.fp.offset (length src) ≡ h.fp.offset + length src =
              omega (arith, same) in
            let stored = overlay 0 src g.fp.buffer in
            let after : Handle Os =
              update_fp
                (λ c.
                  raise_hiwater
                    (move_offset (length src) (label x (mark_dirty true (with_buffer stored c)))))
                g in
            let start : h.fp.offset ≡ secsiz * x + 0 = omega arith in
            simp (t, f, write_tail)
              (inl (record {
                ret = omega arith;
                offset = end;
                hiwater = rw (end, high) refl;
                stores =
                    Stores-overlay at h after x 0 src g.fp.buffer start p.channel.size some_bytes
                      (omega arith) (λ s e. p.old s (sym (view_clean at h x clean) ∙ e))
                      (view_here at after x refl refl)
                      (λ m ne.
                        view_other at after m ne
                        ∙ ap (λ (r : Records). r m) p.file
                        ∙ sym (view_clean at h m clean));
                channel = record {
                  few = p.channel.few;
                  names = p.channel.names;
                  size = omega (
                    arith,
                    p.channel.size,
                    length-overlay 0 src g.fp.buffer (omega (arith, p.channel.size)),
                  );
                };
                label_lt = λ _. omega arith;
              }))
      ]
