-- ===== src/Files/Opening.antt =====
-- `_open`, `_creat` and `unlink`: which channel they take, and when they give it back.
use libgloss_cpm68k.Prelude.{
  ℕ, ◌<◌, ◌≡◌, ◌⊎◌, refl, ap, ◌∙◌, Bool, true, false, List, arith, ◌==◌, length, inl, inr,
  Bool-cases,
}
use libgloss_cpm68k.Prelude.Bits.{test_bit, set_bit, clear_bit, clear_bit-set_bit}
use libgloss_cpm68k.Prelude.Words.{lt_long}
use libgloss_cpm68k.Bdos.{Bdos}
use libgloss_cpm68k.State.{World, emfile, enospc, failure, getccb, maxccbs}
use libgloss_cpm68k.Channel.{allocc, freec, chinit_one}
use libgloss_cpm68k.Channel.Laws.{Took, allocc_cases}
use libgloss_cpm68k.Files.{
  creating, deleting, open_fcb, set_flags, mark_kind, mark_opened, mark_tty, mark_lpt, device_of,
  on_device, Device, terminal, printer, disk, mode_read, open_on, open_file_on, creat_disk,
  creat_on, creat,
}
use libgloss_cpm68k.Posix.{unlink}
use libgloss_cpm68k.Files.Channels.{
  SameTable-chinit_one, IsOpened, IsRefused, IsOpened-SameTable, IsRefused-SameTable,
  open_disk_cases, device_opened, prepared_channel, open_fcb-SameTable, open_fcb_block,
}

-- A channel was opened: the lowest that was free. Its bit is set and no other changes.
pub record Opened {Os : Type 0} (readonly : Bool) (w : World Os) (r : ℕ × World Os) : Type 0 where
  pub in_range : r.0 < maxccbs
  pub was_free : test_bit w.chvec r.0 ≡ false
  pub lowest : (j : ℕ) → j < r.0 → test_bit w.chvec j ≡ true
  pub chvec : r.1.chvec ≡ set_bit w.chvec r.0
  pub size : length r.1.fds ≡ maxccbs
  pub opened : (getccb r.1 r.0).flags.opened ≡ true
  pub is_read : (getccb r.1 r.0).flags.is_read ≡ readonly

-- No channel was opened, and the same ones are allocated as before.
pub record NotOpened {Os : Type 0} (w : World Os) (r : ℕ × World Os) : Type 0 where
  pub ret : r.0 ≡ failure
  pub chvec : r.1.chvec ≡ w.chvec

-- No channel was free: FAILURE with EMFILE, and the same ones are allocated as before.
pub record NoneFree {Os : Type 0} (w : World Os) (r : ℕ × World Os) : Type 0 where
  pub ret : r.0 ≡ failure
  pub code : r.1.errno ≡ emfile
  pub full : (j : ℕ) → j < maxccbs → test_bit w.chvec j ≡ true
  pub chvec : r.1.chvec ≡ w.chvec

-- No channel was opened, but one that was free, number `i`, is allocated now.
pub record Leaked {Os : Type 0} (w : World Os) (i : ℕ) (r : ℕ × World Os) : Type 0 where
  pub ret : r.0 ≡ failure
  pub code : r.1.errno ≡ enospc
  pub in_range : i < maxccbs
  pub was_free : test_bit w.chvec i ≡ false
  pub lowest : (j : ℕ) → j < i → test_bit w.chvec j ≡ true
  pub chvec : r.1.chvec ≡ set_bit w.chvec i

pub on_device_ind {ℓ κ} :
    {A : Type ℓ} (P : A → Type κ) (d : Device) {a b c : A} → P a → P b → P c → P (on_device d a b c)
on_device_ind P terminal p q r = p
on_device_ind P printer p q r = q
on_device_ind P disk p q r = r

readonly_as :
    {Os : Type 0} (i : ℕ) {a b : Bool} (w : World Os) (r : ℕ × World Os)
    → a ≡ b
    → IsOpened i a w r
    → IsOpened i b w r
readonly_as i w r e o = record {
  ret = o.ret;
  chvec = o.chvec;
  size = o.size;
  opened = o.opened;
  is_read = o.is_read ∙ e;
  chan = o.chan;
}

module _ {Os : Type 0} (bdos : Bdos Os) where
  open_on_cases :
      (i : ℕ) (name : List ℕ) (mode xtype : ℕ) (w : World Os)
      → i < length w.fds
      → IsOpened i (mode == mode_read) w (open_on bdos i name mode xtype w)
        ⊎ IsRefused i w (open_on bdos i name mode xtype w)
  unfolding open_on
  open_on_cases i name mode xtype w lt =
      let w1 = set_flags (mark_kind (mode == mode_read) (xtype == 0)) i (chinit_one i w) in
      let (t, chan, readonly) = prepared_channel i (mode == mode_read) (xtype == 0) w lt in
      let lt1 : i < length w1.fds = omega (arith, t.size) in
      on_device_ind (λ r. IsOpened i (mode == mode_read) w r ⊎ IsRefused i w r) (device_of name)
        (inl (
          readonly_as i w _ readonly
            (IsOpened-SameTable i _ t (device_opened i mark_tty w1 lt1 chan (λ g. (refl, refl))))))
        (inl (
          readonly_as i w _ readonly
            (IsOpened-SameTable i _ t (device_opened i mark_lpt w1 lt1 chan (λ g. (refl, refl))))))
        (elim (open_disk_cases bdos i name w1 lt1 chan) [
          | inl o ↦ inl (readonly_as i w _ readonly (IsOpened-SameTable i _ t o))
          | inr o ↦ inr (IsRefused-SameTable i t o)
        ])

  IsOpened-Opened :
      (i : ℕ) (b : Bool) (w w1 : World Os) (r : ℕ × World Os)
      → length w.fds ≡ maxccbs
      → i ≡ (allocc w).0
      → Took w i w1
      → IsOpened i b w1 r
      → Opened b w r
  IsOpened-Opened i b w w1 r size e took o = record {
    in_range = rw o.ret took.in_range;
    was_free = rw o.ret took.was_free;
    lowest = rw o.ret took.lowest;
    chvec = rw o.ret (o.chvec ∙ ap (λ w. w.chvec) took.after);
    size = o.size ∙ ap (λ w. length w.fds) took.after ∙ size;
    opened = rw o.ret o.opened;
    is_read = rw o.ret o.is_read;
  }

  refused_from :
      (i : ℕ) (w w1 : World Os) (r : ℕ × World Os) → Took w i w1 → IsRefused i w1 r → NotOpened w r
  refused_from i w w1 r took o = record {
    ret = o.ret;
    chvec =
        o.chvec
        ∙ ap (λ w. clear_bit w.chvec i) took.after
        ∙ clear_bit-set_bit w.chvec i took.was_free;
  }

  taken_below :
      (w : World Os) (i : ℕ) (w1 : World Os)
      → length w.fds ≡ maxccbs
      → Took w i w1
      → i < length w1.fds
  taken_below w i w1 size took = rw took.after (omega (arith, size, took.in_range))

  -- The outcome of `_open`, for any name, mode and type and from any state: the lowest free channel
  -- is opened with the access that the mode asks for, or FAILURE is returned and the channel that
  -- was taken is free again. The table has its 16 blocks.
  pub open_file_on_cases :
      (name : List ℕ) (mode xtype : ℕ) (w : World Os)
      → length w.fds ≡ maxccbs
      → Opened (mode == mode_read) w (open_file_on bdos name mode xtype w)
        ⊎ NotOpened w (open_file_on bdos name mode xtype w)
  unfolding open_file_on
  open_file_on_cases name mode xtype w size =
      let i = (allocc w).0 in
      let w1 = (allocc w).1 in
      elim (allocc_cases w) [
        | inl took ↦
            let e : (i == failure) ≡ false = ground (arith, took.in_range) in
            rw e (elim (open_on_cases i name mode xtype w1 (taken_below w i w1 size took)) [
              | inl o ↦ inl (IsOpened-Opened i (mode == mode_read) w w1 _ size refl took o)
              | inr o ↦ inr (refused_from i w w1 _ took o)
            ])
        | inr full ↦
            let e : (i == failure) ≡ true = ground (arith, full.code) in
            rw e (inr (record { ret = refl; chvec = ap (λ w. w.chvec) full.after }))
      ]

  -- the outcomes of `_creat` on channel `i`
  creat_on_cases :
      (i : ℕ) (name : List ℕ) (xtype : ℕ) (w : World Os)
      → i < length w.fds
      → IsOpened i false w (creat_on bdos i name xtype w)
        ⊎ ((creat_on bdos i name xtype w).0 ≡ failure)
          × ((creat_on bdos i name xtype w).1.errno ≡ enospc)
          × ((creat_on bdos i name xtype w).1.chvec ≡ w.chvec)
  unfolding creat_on creat_disk
  creat_on_cases i name xtype w lt =
      let w1 = set_flags (mark_kind false (xtype == 0)) i (chinit_one i w) in
      let (t, chan, readonly) = prepared_channel i false (xtype == 0) w lt in
      let lt1 : i < length w1.fds = omega (arith, t.size) in
      let r = open_fcb bdos i name creating w1 in
      let t2 = open_fcb-SameTable bdos i name creating w1 in
      let b = open_fcb_block bdos i name creating w1 lt1 in
      let chan2 = b.1 ∙ chan in
      let lt2 : i < length r.1.fds = omega (arith, t2.size) in
      on_device_ind
        (λ r. IsOpened i false w r ⊎ (r.0 ≡ failure) × (r.1.errno ≡ enospc) × (r.1.chvec ≡ w.chvec))
        (device_of name)
        (inl (
          readonly_as i w _ readonly
            (IsOpened-SameTable i _ t (device_opened i mark_tty w1 lt1 chan (λ g. (refl, refl))))))
        (inl (
          readonly_as i w _ readonly
            (IsOpened-SameTable i _ t (device_opened i mark_lpt w1 lt1 chan (λ g. (refl, refl))))))
        (elim (Bool-cases (r.0 == 0)) [
          | inl z ↦ rw z (
              inl (
                readonly_as i w _ (ap (λ f. f.is_read) b.0 ∙ readonly) (
                  IsOpened-SameTable i _ t (
                    IsOpened-SameTable i _ t2
                      (device_opened i mark_opened r.1 lt2 chan2 (λ g. (refl, refl)))))))
          | inr z ↦ rw z (inr (refl, refl, t2.chvec ∙ t.chvec))
        ])

  -- The outcome of `_creat`, for any name and type and from any state: the lowest free channel is
  -- opened for writing; or all 16 channels are allocated, FAILURE is returned with EMFILE and they
  -- stay so; or FAILURE is returned with ENOSPC, and the lowest free channel, which was taken, stays
  -- allocated. The table has its 16 blocks.
  pub creat_cases :
      (name : List ℕ) (xtype : ℕ) (w : World Os)
      → length w.fds ≡ maxccbs
      → Opened false w (creat bdos name xtype w)
        ⊎ NoneFree w (creat bdos name xtype w)
        ⊎ Leaked w (allocc w).0 (creat bdos name xtype w)
  unfolding creat
  creat_cases name xtype w size =
      let i = (allocc w).0 in
      let w1 = (allocc w).1 in
      elim (allocc_cases w) [
        | inl took ↦
            let e : (i == failure) ≡ false = ground (arith, took.in_range) in
            rw e (elim (creat_on_cases i name xtype w1 (taken_below w i w1 size took)) [
              | inl o ↦ inl (IsOpened-Opened i false w w1 _ size refl took o)
              | inr (ret, code, chvec) ↦ inr (
                  inr (record {
                    ret = ret;
                    code = code;
                    in_range = took.in_range;
                    was_free = took.was_free;
                    lowest = took.lowest;
                    chvec = chvec ∙ ap (λ w. w.chvec) took.after;
                  }))
            ])
        | inr full ↦
            let e : (i == failure) ≡ true = ground (arith, full.code) in
            rw e (
              inr (
                inl (record {
                  ret = refl;
                  code = ap (λ w. w.errno) full.after;
                  full = full.full;
                  chvec = ap (λ w. w.chvec) full.after;
                })))
      ]

  -- `unlink` gives back the channel that it borrows.
  pub chvec-unlink : (name : List ℕ) (w : World Os) → (unlink bdos name w).1.chvec ≡ w.chvec
  unfolding unlink freec
  chvec-unlink name w =
      let i = (allocc w).0 in
      let w1 = (allocc w).1 in
      let t1 = SameTable-chinit_one w1 i in
      let t2 = open_fcb-SameTable bdos i name deleting (chinit_one i w1) in
      elim (allocc_cases w) [
        | inl took ↦
            let e : lt_long i 0 ≡ false = ground (arith, took.in_range) in
            rw e (
              ap (λ n. clear_bit n i) (t2.chvec ∙ t1.chvec ∙ ap (λ w. w.chvec) took.after)
              ∙ clear_bit-set_bit w.chvec i took.was_free)
        | inr full ↦
            let e : lt_long i 0 ≡ true = ground (arith, full.code) in
            rw e (ap (λ w. w.chvec) full.after)
      ]
