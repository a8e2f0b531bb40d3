-- ===== src/Files/Standard.antt =====
-- `_init` of _main.c: the three standard channels.
use libgloss_cpm68k.Prelude.{
  ℕ, ◌<◌, ◌≡◌, ◌≢◌, refl, ap, ◌∙◌, Bool, true, false, ◌==◌, if◌then◌else◌, ltb, arith, length,
}
use libgloss_cpm68k.Bdos.{Bdos}
use libgloss_cpm68k.State.{World, Flags, no_flags, failure, maxccbs, getccb, putccb}
use libgloss_cpm68k.Bytes.{same_ignoring_case, to_upper}
use libgloss_cpm68k.Channel.{allocc, init_ccb, chinit_one, chinit}
use libgloss_cpm68k.Channel.Laws.{
  allocc_first, chinit_lem, chinit_frame, getccb-putccb_self, getccb-putccb_ne, length-putccb,
  putccb_frame,
}
use libgloss_cpm68k.Files.{
  tname, device_of, mark_kind, mark_tty, mode_read, mode_write, open_on, open_file_on,
}
use libgloss_cpm68k.Files.Channels.{||-false}
use libgloss_cpm68k.Posix.{init}

-- the flags of a terminal channel
abbrev pub terminal_flags : Bool → Flags
terminal_flags readonly = record no_flags {
  opened = true;
  is_tty = true;
  is_ascii = true;
  is_read = readonly;
}

-- channel `i` was opened on the terminal, the allocation bits are `bits`, and no other channel changed
record IsTerminal {Os : Type 0} (i bits : ℕ) (readonly : Bool) (w w' : World Os) : Type 0 where
  chvec : w'.chvec ≡ bits
  size : length w'.fds ≡ length w.fds
  flags : (getccb w' i).flags ≡ terminal_flags readonly
  others : (j : ℕ) → i ≢ j → getccb w' j ≡ getccb w j

module _ {Os : Type 0} where
  -- the allocation bits, and the flags of the three standard channels
  pub record IsStandard (w : World Os) : Type 0 where
    pub chvec : w.chvec ≡ 7
    pub stdin : (getccb w 0).flags ≡ terminal_flags true
    pub stdout : (getccb w 1).flags ≡ terminal_flags false
    pub stderr : (getccb w 2).flags ≡ terminal_flags false

module _ {Os : Type 0} (bdos : Bdos Os) where
  open_file_on-IsTerminal :
      (i bits mode : ℕ) (w : World Os)
      → i < maxccbs
      → length w.fds ≡ maxccbs
      → allocc w ≡ (i, record w { chvec = bits })
      → IsTerminal i bits (mode == mode_read) w (open_file_on bdos tname mode 0 w).1
  unfolding open_file_on open_on device_of same_ignoring_case to_upper chinit_one init_ccb getccb
  open_file_on-IsTerminal i bits mode w lt size e =
      let w0 : World Os = record w { chvec = bits } in
      let c0 = init_ccb i (getccb w0 i) in
      let w1 = putccb w0 i c0 in
      let c1 = record (getccb w1 i) {
        flags = mark_kind (mode == mode_read) true (getccb w1 i).flags;
      } in
      let w2 = putccb w1 i c1 in
      let c2 = record (getccb w2 i) { flags = mark_tty (getccb w2 i).flags } in
      let w3 = putccb w2 i c2 in
      let s1 = length-putccb w0 i c0 in
      let s2 = length-putccb w1 i c1 in
      let s3 = length-putccb w2 i c2 in
      let got0 : getccb w1 i ≡ c0 = getccb-putccb_self w0 i c0 (omega (arith, size)) in
      let got1 : getccb w2 i ≡ c1 = getccb-putccb_self w1 i c1 (omega (arith, size, s1)) in
      let got2 : getccb w3 i ≡ c2 = getccb-putccb_self w2 i c2 (omega (arith, size, s1, s2)) in
      let valid : (i == failure) ≡ false = ground arith in
      let r : (open_file_on bdos tname mode 0 w).1 ≡ w3 = simp (e, valid, open_file_on) refl in
      rw r (record {
        chvec = (putccb_frame w2 i c2).0 ∙ (putccb_frame w1 i c1).0 ∙ (putccb_frame w0 i c0).0;
        size = s3 ∙ s2 ∙ s1;
        flags =
            ap (λ c. c.flags) got2
            ∙ ap (λ c. mark_tty c.flags) got1
            ∙ ap (λ c. mark_tty (mark_kind (mode == mode_read) true c.flags)) got0
            ∙ ap (λ b. terminal_flags b) (||-false (mode == mode_read));
        others = λ j ne.
            getccb-putccb_ne w2 i j c2 (omega (arith, size, s1, s2)) ne
            ∙ getccb-putccb_ne w1 i j c1 (omega (arith, size, s1)) ne
            ∙ getccb-putccb_ne w0 i j c0 (omega (arith, size)) ne;
      })

  -- When no channel is allocated, `_init` opens channels 0, 1 and 2 on the console as ASCII
  -- channels, the first for reading only and the others for writing too, and allocates no other;
  -- every other channel is closed. The table has its 16 blocks.
  pub init_lem :
      (w : World Os)
      → w.chvec ≡ 0
      → length w.fds ≡ maxccbs
      → IsStandard (init bdos w)
        × ((j : ℕ) → 2 < j → j < maxccbs → (getccb (init bdos w) j).flags ≡ no_flags)
  unfolding init init_ccb
  init_lem w free size =
      let w1 = chinit w in
      let (bits1, size1) = chinit_frame w in
      let a =
        open_file_on-IsTerminal 0 1 mode_read w1 (omega arith) (size1 ∙ size)
          ((allocc_first w1).0 (bits1 ∙ free)) in
      let w2 = (open_file_on bdos tname mode_read 0 w1).1 in
      let b =
        open_file_on-IsTerminal 1 3 mode_write w2 (omega arith) (a.size ∙ size1 ∙ size)
          ((allocc_first w2).1 a.chvec) in
      let w3 = (open_file_on bdos tname mode_write 0 w2).1 in
      let c =
        open_file_on-IsTerminal 2 7 mode_write w3 (omega arith) (b.size ∙ a.size ∙ size1 ∙ size)
          ((allocc_first w3).2 b.chvec) in
      let others : (j : ℕ) → 2 < j → j < maxccbs → (getccb (init bdos w) j).flags ≡ no_flags =
        λ j lo hi.
          let below : ltb j maxccbs ≡ true = ground arith in
          let fresh : (if ltb j maxccbs then init_ccb j (getccb w j) else getccb w j).flags
              ≡ no_flags =
            rw below refl in
          ap (λ c. c.flags)
            (c.others j (λ e. absurd (omega arith))
              ∙ b.others j (λ e. absurd (omega arith))
              ∙ a.others j (λ e. absurd (omega arith)))
          ∙ ap (λ c. c.flags) (chinit_lem w j size)
          ∙ fresh in
      (
        record {
          chvec = c.chvec;
          stdin =
              ap (λ c. c.flags)
                (c.others 0 (λ e. absurd (omega arith)) ∙ b.others 0 (λ e. absurd (omega arith)))
              ∙ a.flags;
          stdout = ap (λ c. c.flags) (c.others 1 (λ e. absurd (omega arith))) ∙ b.flags;
          stderr = c.flags;
        },
        others,
      )
