-- ===== src/Calls/Operations.antt =====
-- The operations on a channel number keep the invariant of the channel table.
use libgloss_cpm68k.Prelude.{
  ℕ, ◌<◌, ◌≡◌, inl, inr, refl, sym, ap, false, ◌||◌, ◌&&◌, not, Option, none, some, List, [], ◌∷◌,
  arith, ◌==◌, Bool-cases, if_ind, if◌then◌else◌,
}
use libgloss_cpm68k.Prelude.Words.{lt_long, add_long}
use mathlib.Core.Path.{subst}
use libgloss_cpm68k.Bdos.{Bdos}
use libgloss_cpm68k.State.{World, Ccb, ebadf, einval, eio, enotty, maxccbs, failure, getccb, putccb}
use libgloss_cpm68k.Channel.{freec, init_ccb, chinit_one}
use libgloss_cpm68k.Channel.Laws.{getccb-putccb_self}
use libgloss_cpm68k.Handle.{Handle, on_channel}
use libgloss_cpm68k.Seek.{
  Stat, file_size, filesz, settled, seek, lseek, stat_channel, fstat, isatty,
}
use libgloss_cpm68k.TtyIn.{with_tty_info, stty, gtty}
use libgloss_cpm68k.BlkIo.{writing}
use libgloss_cpm68k.ReadBin.{ReadOut}
use libgloss_cpm68k.Io.{read_handle, stored_back, read, write_handle, write_channel, write}
use libgloss_cpm68k.Close.{close_text, close_fcb, close_channel, close}
use libgloss_cpm68k.WriteBin.Buffer.{some-injective, none-ne-some}
use libgloss_cpm68k.Calls.Transfers.{kind_of, kind-buffer_io, kind-file_size}
use libgloss_cpm68k.Calls.Reading.{kind-read_handle}
use libgloss_cpm68k.Calls.Writing.{kind-write_handle}
use libgloss_cpm68k.Calls.Sound.{
  IsSound, IsSound-machine, IsSound-kind, IsSound-on_channel, chkc-IsSound, IsSound-freec,
  IsSound-chinit_one,
}

module _ {Os : Type 0} (bdos : Bdos Os) where
  kind-close_fcb : (h : Handle Os) → kind_of (close_fcb bdos h).1.fp ≡ kind_of h.fp
  unfolding close_fcb
  kind-close_fcb h =
      if_ind (λ (g : Handle Os). kind_of g.fp ≡ kind_of h.fp) h.fp.flags.dirty
        (kind-buffer_io bdos writing h.fp.sector h) refl

module _ {Os : Type 0} (bdos : Bdos Os) (o : Ccb) where
  -- the result of a call that may end the program
  abbrev Ends : Option (ℕ × List ℕ × World Os) → Type 0
  Ends t = (r : ℕ × List ℕ × World Os) → t ≡ some r → IsSound o r.2

  Ends-some : (r : ℕ × List ℕ × World Os) → IsSound o r.2 → Ends (some r)
  Ends-some r s t e = let same : r ≡ t = some-injective e in rw (← same) s

  Ends-stored_back :
      (fd : ℕ) (w : World Os) (out : Option (ReadOut Os))
      → fd < maxccbs
      → IsSound o w
      → ((r : ReadOut Os) → out ≡ some r → kind_of r.handle.fp ≡ kind_of (getccb w fd))
      → Ends (elim out [ none ↦ none | some r ↦ some (stored_back bdos fd w r) ])
  unfolding getccb
  Ends-stored_back fd w none lt s k = λ t e. absurd (none-ne-some e)
  Ends-stored_back fd w (some r) lt s k = Ends-some (stored_back bdos fd w r) (
      IsSound-kind (record w { errno = r.handle.errno; os = r.handle.os }) fd r.handle.fp lt
        (k r refl) (IsSound-machine r.handle.errno r.handle.os s))

module _ {Os : Type 0} (bdos : Bdos Os) {o : Ccb} (shut : o.flags.opened ≡ false) where
  pub IsSound-filesz : (fd : ℕ) (w : World Os) → IsSound o w → IsSound o (filesz bdos fd w).1
  unfolding filesz
  IsSound-filesz fd w s = elim (chkc-IsSound fd w shut s) [
    | inl (lt, e) ↦
        simp (e, filesz) (IsSound-on_channel w fd (file_size bdos) lt (kind-file_size bdos) s)
    | inr e ↦ simp (e, filesz) (IsSound-machine ebadf w.os s)
  ]

  IsSound-settled :
      (fd size offset : ℕ) (w : World Os)
      → fd < maxccbs
      → IsSound o w
      → IsSound o
          (settled fd (putccb w fd (record (getccb w fd) { hiwater = size; offset = offset }))).1
  IsSound-settled fd size offset w lt s =
      IsSound-kind _ fd _ lt refl
        (IsSound-kind w fd (record (getccb w fd) { hiwater = size; offset = offset }) lt refl s)

  IsSound-seek :
      (fd offs sense : ℕ) (w : World Os)
      → fd < maxccbs
      → IsSound o w
      → IsSound o (seek bdos fd offs sense w).1
  unfolding seek
  IsSound-seek fd offs sense w lt s =
      let c = getccb w fd in
      let r = filesz bdos fd w in
      elim (Bool-cases (sense == 0)) [
        | inl p ↦ rw p (IsSound-settled fd c.hiwater offs w lt s)
        | inr p ↦ elim (Bool-cases (sense == 1)) [
          | inl q ↦ rw (p, q) (IsSound-settled fd c.hiwater (add_long c.offset offs) w lt s)
          | inr q ↦ elim (Bool-cases (sense == 2)) [
            | inl t ↦
                rw (p, q, t)
                  (IsSound-settled fd r.0 (add_long r.0 offs) r.1 lt (IsSound-filesz fd w s))
            | inr t ↦ rw (p, q, t) (IsSound-machine einval w.os s)
          ]
        ]
      ]

  pub IsSound-lseek :
      (fd offs sense : ℕ) (w : World Os) → IsSound o w → IsSound o (lseek bdos fd offs sense w).1
  unfolding lseek
  IsSound-lseek fd offs sense w s = elim (chkc-IsSound fd w shut s) [
    | inl (lt, e) ↦ simp (e, lseek) (IsSound-seek fd offs sense w lt s)
    | inr e ↦ simp (e, lseek) (IsSound-machine ebadf w.os s)
  ]

  IsSound-stat_channel :
      (fd : ℕ) (w : World Os) → fd < maxccbs → IsSound o w → IsSound o (stat_channel bdos fd w).1
  unfolding stat_channel
  IsSound-stat_channel fd w lt s =
      let f = (getccb w fd).flags in
      if_ind (λ (r : Stat × World Os). IsSound o r.1) (f.is_tty || f.is_lpt || f.is_aux) s
        (IsSound-kind _ fd _ lt refl (IsSound-filesz fd w s))

  pub IsSound-fstat : (fd : ℕ) (w : World Os) → IsSound o w → IsSound o (fstat bdos fd w).2
  unfolding fstat
  IsSound-fstat fd w s = elim (chkc-IsSound fd w shut s) [
    | inl (lt, e) ↦ simp (e, fstat) (IsSound-stat_channel fd w lt s)
    | inr e ↦ simp (e, fstat) (IsSound-machine ebadf w.os s)
  ]

  pub IsSound-gtty :
      (fd : ℕ) (argp : List ℕ) (w : World Os) → IsSound o w → IsSound o (gtty fd argp w).2
  unfolding gtty
  IsSound-gtty fd argp w s = elim (chkc-IsSound fd w shut s) [
    | inl (lt, e) ↦
        let c = getccb w fd in
        simp (e, gtty)
          (if_ind (λ (r : ℕ × List ℕ × World Os). IsSound o r.2) c.flags.is_tty
            (IsSound-kind w fd (record c { fcb = with_tty_info argp c.fcb }) lt refl s)
            (IsSound-machine enotty w.os s))
    | inr e ↦ simp (e, gtty) (IsSound-machine ebadf w.os s)
  ]

  -- `read`, where it does not end the program
  pub IsSound-read :
      (fd : ℕ) (buff : List ℕ) (bytes : ℕ) (w : World Os) {r : ℕ × List ℕ × World Os}
      → IsSound o w
      → read bdos fd buff bytes w ≡ some r
      → IsSound o r.2
  unfolding read
  IsSound-read fd buff bytes w {r} s =
      let P : Option Ccb × World Os → Type 0 = λ p. Ends bdos o (elim p.0 [
        | none ↦ some (failure, buff, p.1)
        | some c ↦
            if c.flags.at_eof
            then some (0, buff, p.1)
            else if c.flags.is_lpt
            then some (failure, buff, record (p.1) { errno = ebadf })
            else elim (read_handle bdos buff bytes
                (record { fp = getccb p.1 fd; errno = p.1.errno; os = p.1.os })) [
                  | none ↦ none
                  | some r ↦ some (stored_back bdos fd p.1 r)
                ]
      ]) in
      elim (chkc-IsSound fd w shut s) [
        | inl (lt, e) ↦
            subst P (sym e)
              (if_ind (Ends bdos o) (getccb w fd).flags.at_eof (Ends-some bdos o _ s) (
                if_ind (Ends bdos o) (getccb w fd).flags.is_lpt
                  (Ends-some bdos o _ (IsSound-machine ebadf w.os s))
                  (Ends-stored_back bdos o fd w _ lt s (
                    kind-read_handle bdos buff bytes
                      (record { fp = getccb w fd; errno = w.errno; os = w.os })))))
              r
        | inr e ↦ subst P (sym e) (Ends-some bdos o _ (IsSound-machine ebadf w.os s)) r
      ]

  IsSound-write_channel :
      (fd : ℕ) (buff : List ℕ) (bytes : ℕ) (w : World Os)
      → fd < maxccbs
      → IsSound o w
      → IsSound o (write_channel bdos fd buff bytes w).1
  unfolding write_channel
  IsSound-write_channel fd buff bytes w lt s =
      let P : ℕ × World Os → Type 0 = λ r. IsSound o r.1 in
      if_ind P (bytes == 0) s (
        if_ind P (getccb w fd).flags.is_read (IsSound-machine ebadf w.os s) (
          IsSound-on_channel w fd (write_handle bdos buff bytes) lt
            (kind-write_handle bdos buff bytes) s))

  pub IsSound-write :
      (fd : ℕ) (buff : List ℕ) (bytes : ℕ) (w : World Os)
      → IsSound o w
      → IsSound o (write bdos fd buff bytes w).1
  unfolding write
  IsSound-write fd buff bytes w s = elim (chkc-IsSound fd w shut s) [
    | inl (lt, e) ↦ simp (e, write) (IsSound-write_channel fd buff bytes w lt s)
    | inr e ↦ simp (e, write) (IsSound-machine ebadf w.os s)
  ]

  IsSound-close_text : (fd : ℕ) (w : World Os) → IsSound o w → IsSound o (close_text bdos fd w)
  unfolding close_text
  IsSound-close_text fd w s =
      let c = getccb w fd in
      if_ind (IsSound o) (c.flags.is_ascii && not c.flags.is_read)
        (IsSound-write fd (0x1a ∷ []) 1 _
          (if_ind (IsSound o) (lt_long c.offset c.hiwater) (IsSound-lseek fd 0 2 w s) s))
        s

  -- the block is initialised and the channel is freed
  IsSound-freed :
      (fd : ℕ) (w : World Os)
      → fd < maxccbs
      → IsSound o w
      → IsSound o (freec fd (chinit_one fd w)).1
  unfolding chinit_one
  IsSound-freed fd w lt s =
      IsSound-freec (chinit_one fd w) fd
        (ap (λ (c : Ccb). c.flags.opened)
          (getccb-putccb_self w fd (init_ccb fd (getccb w fd)) (omega (arith, s.size))))
        (IsSound-chinit_one w fd lt s)

  IsSound-close_channel :
      (fd : ℕ) (w : World Os) → fd < maxccbs → IsSound o w → IsSound o (close_channel bdos fd w).1
  unfolding close_channel
  IsSound-close_channel fd w lt s =
      let flags = (getccb w fd).flags in
      let device = flags.is_tty || flags.is_lpt in
      let r = on_channel fd (close_fcb bdos) (close_text bdos fd w) in
      let closed : IsSound o r.1 =
        IsSound-on_channel (close_text bdos fd w) fd (close_fcb bdos) lt (kind-close_fcb bdos)
          (IsSound-close_text fd w s) in
      let done : IsSound o (freec fd (chinit_one fd (if device then w else r.1))).1 =
        IsSound-freed fd (if device then w else r.1) lt (if_ind (IsSound o) device s closed) in
      if_ind (λ (t : ℕ × World Os). IsSound o t.1) (device || r.0) done (IsSound-machine eio _ done)

  pub IsSound-close : (fd : ℕ) (w : World Os) → IsSound o w → IsSound o (close bdos fd w).1
  unfolding close
  IsSound-close fd w s = elim (chkc-IsSound fd w shut s) [
    | inl (lt, e) ↦ simp (e, close) (IsSound-close_channel fd w lt s)
    | inr e ↦ simp (e, close) (IsSound-machine ebadf w.os s)
  ]

  pub IsSound-stty :
      (fd : ℕ) (argp : List ℕ) (w : World Os) → IsSound o w → IsSound o (stty fd argp w).2
  unfolding stty
  IsSound-stty fd argp w s = elim (chkc-IsSound fd w shut s) [
    | inl (lt, e) ↦
        simp (e, stty)
          (if_ind (λ (r : ℕ × List ℕ × World Os). IsSound o r.2) (getccb w fd).flags.is_tty s
            (IsSound-machine enotty w.os s))
    | inr e ↦ simp (e, stty) (IsSound-machine ebadf w.os s)
  ]

  pub IsSound-isatty : (fd : ℕ) (w : World Os) → IsSound o w → IsSound o (isatty fd w).1
  unfolding isatty
  IsSound-isatty fd w s = elim (chkc-IsSound fd w shut s) [
    | inl (lt, e) ↦
        simp (e, isatty)
          (if_ind (λ (r : ℕ × World Os). IsSound o r.1) (getccb w fd).flags.is_tty s
            (IsSound-machine enotty w.os s))
    | inr e ↦ simp (e, isatty) (IsSound-machine ebadf w.os s)
  ]
