-- ===== src/WriteBin/Buffer.antt =====
-- The file that a channel's operations see: the records, with the buffer over its sector while it
-- is dirty. What reading and writing the buffer does to it.
use libgloss_cpm68k.Prelude.{
  ℕ, ◌+◌, ◌^◌, ◌≤◌, ◌<◌, ◌≡◌, ◌≢◌, ◌⊎◌, refl, sym, ap, ◌∙◌, inl, inr, Option, none, some, List,
  ◌++◌, length, take, length-append, Option-cases, arith, true, false, Bool-cases, ==_iff, ◌==◌,
  ◌&&◌, if◌then◌else◌,
}
use mathlib.Core.Path.{fun_ext}
use libgloss_cpm68k.Bdos.{Bdos, Fcb, secsiz}
use libgloss_cpm68k.Bdos.Laws.{UserLaws, FileLaws}
use libgloss_cpm68k.User.{word_of_byte}
use libgloss_cpm68k.User.Restore.{effective}
use libgloss_cpm68k.BlkIo.{reading, writing, blkio}
use libgloss_cpm68k.BlkIo.Transfer.{leading_absent, blkio-IsRead}
use libgloss_cpm68k.BlkIo.Store.{blkio-IsWrite}
use libgloss_cpm68k.Handle.{Handle, buffer_io}
use libgloss_cpm68k.ReadBin.Contents.{content_one, leading_one, take-append_le, take_all}
use libgloss_cpm68k.WriteBin.{prepare, past_hiwater}
use libgloss_cpm68k.WriteBin.Stored.{Records}

pub false-ne-true : ¬ (false ≡ true)
false-ne-true h = cc

module _ {ℓ} {A : Type ℓ} where
  pub some-injective : {a b : A} → some a ≡ some b → a ≡ b
  some-injective h = cc

  pub none-ne-some : {a : A} → ¬ (none ≡ some a)
  none-ne-some h = cc

module _ {Os : Type 0} (at : Os → Records) where
  -- record `m` of the file with the dirty buffer over it
  abbrev pub view : Handle Os → Records
  view h m =
      if h.fp.flags.dirty && m == h.fp.sector then some (take secsiz h.fp.buffer) else at h.os m

module _ {Os : Type 0} (bdos : Bdos Os) (current : Os → ℕ) (L : UserLaws bdos current)
    {Names : ℕ → Fcb → Type 0} {at : Os → ℕ → Option (List ℕ)}
    (F : FileLaws bdos current Names at) where
  -- a channel with a buffer of at least a sector, whose FCB names the file for its user
  pub record IsOpen (h : Handle Os) : Type 0 where
    pub few : word_of_byte h.fp.user ≤ 16
    pub names : Names (effective bdos current L (word_of_byte h.fp.user) h.os) h.fp.fcb
    pub size : secsiz ≤ length h.fp.buffer

  -- an operation that may change the FCB, the buffer and the machine, and nothing else
  pub record IsMoved (h h' : Handle Os) : Type 0 where
    pub fp : h'.fp ≡ record (h.fp) { fcb = h'.fp.fcb; buffer = h'.fp.buffer }
    pub errno : h'.errno ≡ h.errno

  -- the buffer holds record `n`, if that is there, and the file is the same
  pub record IsPrepared (n : ℕ) (h h' : Handle Os) : Type 0 where
    pub moved : IsMoved h h'
    pub old : (s : List ℕ) → at h.os n ≡ some s → s ≡ take secsiz h'.fp.buffer
    pub file : at h'.os ≡ at h.os
    pub channel : IsOpen h'

  pub fetch_cases :
      (n : ℕ) (h : Handle Os)
      → n < 2 ^ 24
      → IsOpen h
      → ((buffer_io bdos reading n h).0 ≡ false)
        ⊎ (((buffer_io bdos reading n h).0 ≡ true) × IsPrepared n h (buffer_io bdos reading n h).1)
  unfolding buffer_io
  fetch_cases n h lt o =
      let m = blkio-IsRead bdos current L F h.fp n 1 h.fp.buffer h.os (omega arith) o.few o.names in
      elim (Option-cases (at h.os n)) [
        | inl e ↦ inl (
            ap (λ (k : ℕ). k == 1) m.count
            ∙ ap (λ (l : List (List ℕ)). length l == 1) (leading_absent (at h.os) n 0 e))
        | inr (s, e) ↦
            let whole : length s ≡ secsiz = F.whole h.os n s e in
            let held = m.bytes ∙ ap (λ (t : List ℕ). t ++ m.tail) (content_one (at h.os) n s e) in
            inr (
              ap (λ (k : ℕ). k == 1) m.count
                  ∙ ap (λ (l : List (List ℕ)). length l == 1) (leading_one (at h.os) n s e),
              record {
                moved = record { fp = refl; errno = refl };
                old = λ t f.
                    some-injective (sym f ∙ e)
                    ∙ sym (
                        ap (take secsiz) held
                        ∙ take-append_le secsiz s m.tail (omega (arith, whole))
                        ∙ take_all secsiz s (omega (arith, whole)));
                file = fun_ext m.keeps;
                channel = record {
                  few = o.few;
                  names = rw m.user_same m.names;
                  size = omega (arith, ap length held, length-append s m.tail, whole);
                };
              },
            )
      ]

  -- the buffer is record `n` now
  pub record IsStored (n : ℕ) (h h' : Handle Os) : Type 0 where
    pub moved : IsMoved h h'
    pub buffer : h'.fp.buffer ≡ h.fp.buffer
    pub here : at h'.os n ≡ some (take secsiz h.fp.buffer)
    pub other : (m : ℕ) → m ≢ n → at h'.os m ≡ at h.os m
    pub channel : IsOpen h'

  pub store_cases :
      (n : ℕ) (h : Handle Os)
      → n < 2 ^ 24
      → IsOpen h
      → ((buffer_io bdos writing n h).0 ≡ false)
        ⊎ (((buffer_io bdos writing n h).0 ≡ true) × IsStored n h (buffer_io bdos writing n h).1)
  unfolding buffer_io
  store_cases n h lt o =
      let m =
        blkio-IsWrite bdos current L F h.fp n 1 h.fp.buffer h.os (omega arith)
          (omega (arith, o.size)) o.few o.names in
      let result = blkio bdos writing h.fp n h.fp.buffer 1 h.os in
      elim (Bool-cases (result.done == 1)) [
        | inl e ↦
            let one : result.done ≡ 1 = (==_iff _ 1).0 e in
            let first : n + 0 ≡ n = omega arith in
            inr (
              e,
              record {
                moved = record { fp = refl; errno = refl };
                buffer = m.same_memory;
                here = ap (at result.os) (sym first) ∙ m.stored 0 (omega (arith, one));
                other = λ i ne. m.outside i (omega arith);
                channel = record {
                  few = o.few;
                  names = rw m.user_same m.names;
                  size = omega (arith, o.size, ap length m.same_memory);
                };
              },
            )
        | inr e ↦ inl e
      ]

  pub prepare_cases :
      (n : ℕ) (h : Handle Os)
      → n < 2 ^ 24
      → IsOpen h
      → (past_hiwater h.fp ≡ true → at h.os n ≡ none)
      → ((prepare bdos n h).0 ≡ false)
        ⊎ (((prepare bdos n h).0 ≡ true) × IsPrepared n h (prepare bdos n h).1)
  unfolding prepare
  prepare_cases n h lt o beyond = elim (Bool-cases (past_hiwater h.fp)) [
    | inl p ↦
        simp (p, prepare)
          (inr (
            refl,
            record {
              moved = record { fp = refl; errno = refl };
              old = λ s e. absurd (none-ne-some (sym (beyond p) ∙ e));
              file = refl;
              channel = record { few = o.few; names = o.names; size = omega arith };
            },
          ))
    | inr p ↦ simp (p, prepare) (fetch_cases n h lt o)
  ]
