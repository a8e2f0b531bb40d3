-- ===== src/Files/Closing.antt =====
-- `close`: what becomes of the channel and of its number.
use libgloss_cpm68k.Prelude.{
  ℕ, ◌<◌, ◌≡◌, ◌≢◌, ◌⊎◌, refl, ap, ◌∙◌, true, false, not, ◌&&◌, ◌||◌, some, List, [], ◌∷◌, arith,
  ◌==◌, length, inl, inr, if_ind,
}
use libgloss_cpm68k.Prelude.Bits.{clear_bit, clear_bit-set_bit}
use libgloss_cpm68k.Prelude.Words.{lt_long}
use libgloss_cpm68k.Bdos.{Bdos}
use libgloss_cpm68k.State.{World, Errno, ebadf, eio, failure, success, getccb, maxccbs}
use libgloss_cpm68k.Channel.{chkc, freec, chinit_one, init_ccb}
use libgloss_cpm68k.Channel.Laws.{chkc_lem, getccb-putccb_self}
use libgloss_cpm68k.Handle.{on_channel}
use libgloss_cpm68k.Seek.{lseek}
use libgloss_cpm68k.Kind.{Keeps, lseek-Keeps, chkc_cases}
use libgloss_cpm68k.Io.{write, write_channel, write_handle}
use libgloss_cpm68k.Close.{close_text, close_fcb, close_channel, close}
use libgloss_cpm68k.Files.{open_file_on}
use libgloss_cpm68k.Files.Channels.{SameTable, SameTable-chinit_one, SameTable-on_channel}
use libgloss_cpm68k.Files.Opening.{open_file_on_cases}

module _ {Os : Type 0} where
  SameTable-refl : (w : World Os) → SameTable w w
  SameTable-refl w = record { chvec = refl; size = refl }

  SameTable-trans : {u v w : World Os} → SameTable u v → SameTable v w → SameTable u w
  SameTable-trans p q = record { chvec = q.chvec ∙ p.chvec; size = q.size ∙ p.size }

  SameTable-Keeps : {u v : World Os} → Keeps u v → SameTable u v
  SameTable-Keeps k = record { chvec = k.chvec; size = k.size }

  -- an open channel passes `_chkc`
  pub chkc-opened :
      (fd : ℕ) (w : World Os)
      → fd < maxccbs
      → (getccb w fd).flags.opened ≡ true
      → chkc fd w ≡ (some (getccb w fd), w)
  unfolding chkc
  chkc-opened fd w lt o = let e : lt_long fd maxccbs ≡ true = ground arith in rw (e, o)

module _ {Os : Type 0} where
  -- channel `fd` is free and its block is as `_chinit` leaves it
  pub record IsClosed (fd : ℕ) (w : World Os) (r : ℕ × World Os) : Type 0 where
    pub ret : (r.0 ≡ success) ⊎ (r.0 ≡ failure)
    pub chvec : r.1.chvec ≡ clear_bit w.chvec fd
    pub size : length r.1.fds ≡ length w.fds
    pub opened : (getccb r.1 fd).flags.opened ≡ false
    pub dirty : (getccb r.1 fd).flags.dirty ≡ false
    pub offset : (getccb r.1 fd).offset ≡ 0

  -- whatever `errno` is then
  errno-IsClosed :
      (fd : ℕ) (w : World Os) (e : Errno) {n : ℕ} {u : World Os}
      → IsClosed fd w (n, u)
      → IsClosed fd w (n, record u { errno = e })
  unfolding getccb
  errno-IsClosed fd w e c = record {
    ret = c.ret;
    chvec = c.chvec;
    size = c.size;
    opened = c.opened;
    dirty = c.dirty;
    offset = c.offset;
  }

  freed :
      (fd : ℕ) (w w1 : World Os) (n : ℕ)
      → (n ≡ success) ⊎ (n ≡ failure)
      → fd < length w.fds
      → SameTable w w1
      → IsClosed fd w (n, (freec fd (chinit_one fd w1)).1)
  unfolding freec chinit_one getccb
  freed fd w w1 n code lt t =
      let c = init_ccb fd (getccb w1 fd) in
      let t1 : SameTable w1 (chinit_one fd w1) = SameTable-chinit_one w1 fd in
      let got = getccb-putccb_self w1 fd c (omega (arith, t.size)) in
      record {
        ret = code;
        chvec = ap (λ n. clear_bit n fd) (t1.chvec ∙ t.chvec);
        size = t1.size ∙ t.size;
        opened = ap (λ c. c.flags.opened) got;
        dirty = ap (λ c. c.flags.dirty) got;
        offset = ap (λ c. c.offset) got;
      }

module _ {Os : Type 0} (bdos : Bdos Os) where
  write_channel-SameTable :
      (fd : ℕ) (buff : List ℕ) (n : ℕ) (w : World Os)
      → SameTable w (write_channel bdos fd buff n w).1
  unfolding write_channel
  write_channel-SameTable fd buff n w =
      let P : ℕ × World Os → Type 0 = λ r. SameTable w r.1 in
      if_ind P (n == 0) (SameTable-refl w) (
        if_ind P (getccb w fd).flags.is_read (record { chvec = refl; size = refl })
          (SameTable-on_channel fd (write_handle bdos buff n) w))

  write-SameTable :
      (fd : ℕ) (buff : List ℕ) (n : ℕ) (w : World Os) → SameTable w (write bdos fd buff n w).1
  unfolding write
  write-SameTable fd buff n w = elim (chkc_cases fd w) [
    | inl e ↦ simp (e, write) (write_channel-SameTable fd buff n w)
    | inr e ↦ simp (e, write) (record { chvec = refl; size = refl })
  ]

  close_text-SameTable :
      (fd : ℕ) (w : World Os) → fd < length w.fds → SameTable w (close_text bdos fd w)
  unfolding close_text
  close_text-SameTable fd w lt =
      let c = getccb w fd in
      let w1 = (lseek bdos fd 0 2 w).1 in
      let sought : SameTable w w1 = SameTable-Keeps (lseek-Keeps bdos fd 0 2 w lt) in
      if_ind (SameTable w) (c.flags.is_ascii && not c.flags.is_read)
        (if_ind (λ u. SameTable w (write bdos fd (0x1a ∷ []) 1 u).1) (lt_long c.offset c.hiwater)
          (SameTable-trans sought (write-SameTable fd (0x1a ∷ []) 1 w1))
          (write-SameTable fd (0x1a ∷ []) 1 w))
        (SameTable-refl w)

  close_channel-IsClosed :
      (fd : ℕ) (w : World Os) → fd < length w.fds → IsClosed fd w (close_channel bdos fd w)
  unfolding close_channel
  close_channel-IsClosed fd w lt =
      let flags = (getccb w fd).flags in
      let device = flags.is_tty || flags.is_lpt in
      let w0 = close_text bdos fd w in
      let r = on_channel fd (close_fcb bdos) w0 in
      let t =
        SameTable-trans (close_text-SameTable fd w lt)
          (SameTable-on_channel fd (close_fcb bdos) w0) in
      if_ind (IsClosed fd w) (device || r.0)
        (if_ind (λ u. IsClosed fd w (success, (freec fd (chinit_one fd u)).1)) device
          (freed fd w w success (inl refl) lt (SameTable-refl w))
          (freed fd w r.1 success (inl refl) lt t))
        (let c =
            if_ind (λ u. IsClosed fd w (failure, (freec fd (chinit_one fd u)).1)) device
              (freed fd w w failure (inr refl) lt (SameTable-refl w))
              (freed fd w r.1 failure (inr refl) lt t) in
          errno-IsClosed fd w eio c)

  -- Closing an open channel succeeds or fails with a transfer; either way the channel is free again
  -- and its block is initialised.
  pub close-IsClosed :
      (fd : ℕ) (w : World Os)
      → length w.fds ≡ maxccbs
      → fd < maxccbs
      → (getccb w fd).flags.opened ≡ true
      → IsClosed fd w (close bdos fd w)
  unfolding close
  close-IsClosed fd w size lt o =
      simp (chkc-opened fd w lt o, close) (close_channel-IsClosed fd w (omega (arith, size)))

  close_refused :
      (fd : ℕ) (w : World Os)
      → fd < maxccbs
      → (getccb w fd).flags.opened ≡ false
      → close bdos fd w ≡ (failure, record w { errno = ebadf })
  unfolding close
  close_refused fd w lt o = let e = chkc_lem w fd lt in simp (e, o, close) refl

  -- A channel that `_open` returned can be closed: that frees exactly the number that was taken, so
  -- that the same channels are allocated as before the opening, and closing it once more fails with
  -- EBADF and changes nothing else. The table has its 16 blocks.
  pub close-open_file_on :
      (name : List ℕ) (mode xtype : ℕ) (w : World Os)
      → length w.fds ≡ maxccbs
      → (open_file_on bdos name mode xtype w).0 ≢ failure
      → let r = open_file_on bdos name mode xtype w in
        let s = close bdos r.0 r.1 in
        IsClosed r.0 r.1 s
        × (s.1.chvec ≡ w.chvec)
        × (close bdos r.0 s.1 ≡ (failure, record (s.1) { errno = ebadf }))
  close-open_file_on name mode xtype w size ok =
      elim (open_file_on_cases bdos name mode xtype w size) [
        | inl o ↦
            let r = open_file_on bdos name mode xtype w in
            let c = close-IsClosed r.0 r.1 o.size o.in_range o.opened in
            (
              c,
              c.chvec
                  ∙ ap (λ n. clear_bit n r.0) o.chvec
                  ∙ clear_bit-set_bit w.chvec r.0 o.was_free,
              close_refused r.0 _ o.in_range c.opened,
            )
        | inr n ↦ absurd (ok n.ret)
      ]
