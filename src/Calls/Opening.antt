-- ===== src/Calls/Opening.antt =====
-- The operations on file names keep the invariant of the channel table.
use libgloss_cpm68k.Prelude.{
  ℕ, ◌<◌, ◌≡◌, ◌⊎◌, inl, inr, refl, sym, ap, ◌∙◌, Bool, true, false, ◌||◌, ◌&&◌, not, List, arith,
  ◌==◌, if_ind, if◌then◌else◌, length, ltb,
}
use libgloss_cpm68k.Prelude.Bits.{test_bit, test_bit-set_bit_self}
use libgloss_cpm68k.Prelude.Words.{lt_long}
use libgloss_cpm68k.Bdos.{Bdos, Fcb, f_rename}
use libgloss_cpm68k.ParseFn.{parsefn}
use libgloss_cpm68k.User.{chkuser, uchkuser, word_of_byte}
use libgloss_cpm68k.State.{
  World, Ccb, Flags, einval, enoent, enospc, eexist, maxccbs, failure, getccb, putccb,
}
use libgloss_cpm68k.Channel.{allocc, freec, init_ccb, chinit_one, chinit}
use libgloss_cpm68k.Channel.Laws.{
  getccb-putccb_self, putccb_frame, allocc_cases, chinit_lem, chinit_frame, outside-chinit,
}
use libgloss_cpm68k.Files.{
  OpenFn, opening, creating, deleting, open_handle, open_fcb, set_flags, mark_kind, mark_opened,
  mark_tty, mark_lpt, device_of, mode_read, mode_write, tname, find_hiwater, open_disk, open_on,
  open_file_on, creat_disk, creat_on, creat,
}
use libgloss_cpm68k.Files.Channels.{flags-open_handle, chan-open_handle}
use libgloss_cpm68k.Handle.{Handle}
use libgloss_cpm68k.Seek.{lseek}
use libgloss_cpm68k.Files.Opening.{on_device_ind}
use libgloss_cpm68k.Posix.{OpenFlags, is_enoent, append_mode, open_posix, unlink, rename, init}
use libgloss_cpm68k.Calls.Sound.{
  false-ne-true, IsSound, IsSound-machine, IsSound-putccb, IsSound-allocc, IsSound-freec,
}
use libgloss_cpm68k.Calls.Operations.{IsSound-lseek, IsSound-close}

module _ {Os : Type 0} where
  bit-allocc :
      (w : World Os) → (allocc w).0 < maxccbs → test_bit (allocc w).1.chvec (allocc w).0 ≡ true
  bit-allocc w lt = elim (allocc_cases w) [
    | inl took ↦
        ap (λ (u : World Os). test_bit u.chvec (allocc w).0) took.after
        ∙ test_bit-set_bit_self w.chvec (allocc w).0
    | inr full ↦ absurd (omega (arith, full.code))
  ]

  -- the channel that `_allocc` returned, or FAILURE
  allocc_range : (w : World Os) → ((allocc w).0 < maxccbs) ⊎ ((allocc w).0 ≡ failure)
  allocc_range w = elim (allocc_cases w) [ inl took ↦ inl took.in_range | inr full ↦ inr full.code ]

-- a channel that is taken: its bit is set, and its block is closed and has its number
record IsTaken {Os : Type 0} (o : Ccb) (i : ℕ) (w : World Os) : Type 0 where
  sound : IsSound o w
  in_range : i < maxccbs
  bit : test_bit w.chvec i ≡ true
  closed : (getccb w i).flags.opened ≡ false
  chan : (getccb w i).chan ≡ i

module _ {Os : Type 0} {o : Ccb} where
  -- the block of a taken channel is replaced by one that is closed
  IsTaken-putccb :
      (i : ℕ) (c : Ccb) (w : World Os)
      → i < maxccbs
      → IsSound o w
      → test_bit w.chvec i ≡ true
      → c.flags.opened ≡ false
      → c.chan ≡ i
      → IsTaken o i (putccb w i c)
  IsTaken-putccb i c w lt s bit closed chan =
      let got = getccb-putccb_self w i c (omega (arith, s.size)) in
      record {
        sound = IsSound-putccb w i c lt (λ e. absurd (false-ne-true (sym closed ∙ e))) s;
        in_range = lt;
        bit = ap (λ (n : ℕ). test_bit n i) (putccb_frame w i c).0 ∙ bit;
        closed = ap (λ (c : Ccb). c.flags.opened) got ∙ closed;
        chan = ap (λ (c : Ccb). c.chan) got ∙ chan;
      }

  IsTaken-chinit_one :
      (i : ℕ) (w : World Os)
      → i < maxccbs
      → IsSound o w
      → test_bit w.chvec i ≡ true
      → IsTaken o i (chinit_one i w)
  unfolding chinit_one
  IsTaken-chinit_one i w lt s bit = IsTaken-putccb i (init_ccb i (getccb w i)) w lt s bit refl refl

  IsSound-chinit : (w : World Os) → length w.fds ≡ maxccbs → w.outside ≡ o → IsSound o (chinit w)
  unfolding init_ccb
  IsSound-chinit w size out =
      let closed : (i : ℕ) → i < maxccbs → (getccb (chinit w) i).flags.opened ≡ false = λ i lt.
        let e : ltb i maxccbs ≡ true = ground arith in
        ap (λ (c : Ccb). c.flags.opened) (chinit_lem w i size) ∙ rw e refl in
      record {
        size = (chinit_frame w).1 ∙ size;
        outside = outside-chinit w size ∙ out;
        allocated = λ i lt e. absurd (false-ne-true (sym (closed i lt) ∙ e));
        numbered = λ i lt e. absurd (false-ne-true (sym (closed i lt) ∙ e));
      }

  -- it is given its kind
  prepared-IsTaken :
      (i : ℕ) (readonly ascii : Bool) (w : World Os)
      → i < maxccbs
      → IsSound o w
      → test_bit w.chvec i ≡ true
      → IsTaken o i (set_flags (mark_kind readonly ascii) i (chinit_one i w))
  unfolding chinit_one
  prepared-IsTaken i readonly ascii w lt s bit =
      let t = IsTaken-putccb i (init_ccb i (getccb w i)) w lt s bit refl refl in
      IsTaken-putccb i _ (chinit_one i w) lt t.sound t.bit t.closed t.chan

  -- it is opened
  IsSound-marked :
      (f : Flags → Flags) (i : ℕ) (w : World Os) → IsTaken o i w → IsSound o (set_flags f i w)
  IsSound-marked f i w t = IsSound-putccb w i _ t.in_range (λ _. (t.bit, t.chan)) t.sound

  -- it is given back
  IsSound-refused : (i : ℕ) (w : World Os) → IsTaken o i w → IsSound o (freec i w).1
  IsSound-refused i w t = IsSound-freec w i t.closed t.sound

module _ {Os : Type 0} (bdos : Bdos Os) {o : Ccb} where
  open_fcb-IsTaken :
      (i : ℕ) (name : List ℕ) (fn : OpenFn) (w : World Os)
      → IsTaken o i w
      → IsTaken o i (open_fcb bdos i name fn w).1
  unfolding open_fcb getccb
  open_fcb-IsTaken i name fn w t =
      let h : Handle Os = record { fp = getccb w i; errno = w.errno; os = w.os } in
      let g = (open_handle bdos name fn h).1 in
      IsTaken-putccb i g.fp (record w { errno = g.errno; os = g.os }) t.in_range
        (IsSound-machine g.errno g.os t.sound) t.bit
        (ap (λ (f : Flags). f.opened) (flags-open_handle bdos name fn h) ∙ t.closed)
        (chan-open_handle bdos name fn h ∙ t.chan)

module _ {Os : Type 0} (bdos : Bdos Os) {o : Ccb} (shut : o.flags.opened ≡ false) where
  IsSound-open_disk :
      (i : ℕ) (name : List ℕ) (w : World Os) → IsTaken o i w → IsSound o (open_disk bdos i name w).1
  unfolding open_disk find_hiwater
  IsSound-open_disk i name w t =
      let r = open_fcb bdos i name opening w in
      let t1 : IsTaken o i r.1 = open_fcb-IsTaken bdos i name opening w t in
      let w2 = set_flags mark_opened i r.1 in
      let chan = (getccb w2 i).chan in
      let opened =
        IsSound-lseek bdos shut chan 0 0 (lseek bdos chan 0 2 w2).1
          (IsSound-lseek bdos shut chan 0 2 w2 (IsSound-marked mark_opened i r.1 t1)) in
      if_ind (λ (r : ℕ × World Os). IsSound o r.1) (r.0 == 0) opened
        (IsSound-machine enoent _ (IsSound-refused i r.1 t1))

  IsSound-open_on :
      (i : ℕ) (name : List ℕ) (mode xtype : ℕ) (w : World Os)
      → i < maxccbs
      → IsSound o w
      → test_bit w.chvec i ≡ true
      → IsSound o (open_on bdos i name mode xtype w).1
  unfolding open_on
  IsSound-open_on i name mode xtype w lt s bit =
      let w1 = set_flags (mark_kind (mode == mode_read) (xtype == 0)) i (chinit_one i w) in
      let t : IsTaken o i w1 = prepared-IsTaken i (mode == mode_read) (xtype == 0) w lt s bit in
      on_device_ind (λ (r : ℕ × World Os). IsSound o r.1) (device_of name)
        (IsSound-marked mark_tty i w1 t) (IsSound-marked mark_lpt i w1 t)
        (IsSound-open_disk i name w1 t)

  pub IsSound-open_file_on :
      (name : List ℕ) (mode xtype : ℕ) (w : World Os)
      → IsSound o w
      → IsSound o (open_file_on bdos name mode xtype w).1
  unfolding open_file_on
  IsSound-open_file_on name mode xtype w s =
      let i = (allocc w).0 in
      let s1 = IsSound-allocc w s in
      elim (allocc_range w) [
        | inl lt ↦
            let e : (i == failure) ≡ false = ground (arith, lt) in
            rw e (IsSound-open_on i name mode xtype (allocc w).1 lt s1 (bit-allocc w lt))
        | inr f ↦ let e : (i == failure) ≡ true = ground (arith, f) in rw e s1
      ]

  IsSound-creat_on :
      (i : ℕ) (name : List ℕ) (xtype : ℕ) (w : World Os)
      → i < maxccbs
      → IsSound o w
      → test_bit w.chvec i ≡ true
      → IsSound o (creat_on bdos i name xtype w).1
  unfolding creat_on creat_disk
  IsSound-creat_on i name xtype w lt s bit =
      let w1 = set_flags (mark_kind false (xtype == 0)) i (chinit_one i w) in
      let t : IsTaken o i w1 = prepared-IsTaken i false (xtype == 0) w lt s bit in
      let r = open_fcb bdos i name creating w1 in
      let t1 : IsTaken o i r.1 = open_fcb-IsTaken bdos i name creating w1 t in
      let P : ℕ × World Os → Type 0 = λ r. IsSound o r.1 in
      on_device_ind P (device_of name) (IsSound-marked mark_tty i w1 t)
        (IsSound-marked mark_lpt i w1 t)
        (if_ind P (r.0 == 0) (IsSound-marked mark_opened i r.1 t1)
          (IsSound-machine enospc _ t1.sound))

  pub IsSound-creat :
      (name : List ℕ) (xtype : ℕ) (w : World Os)
      → IsSound o w
      → IsSound o (creat bdos name xtype w).1
  unfolding creat
  IsSound-creat name xtype w s =
      let i = (allocc w).0 in
      let s1 = IsSound-allocc w s in
      elim (allocc_range w) [
        | inl lt ↦
            let e : (i == failure) ≡ false = ground (arith, lt) in
            rw e (IsSound-creat_on i name xtype (allocc w).1 lt s1 (bit-allocc w lt))
        | inr f ↦ let e : (i == failure) ≡ true = ground (arith, f) in rw e s1
      ]

  IsSound-append_mode :
      (f : OpenFlags) (r : ℕ × World Os) → IsSound o r.1 → IsSound o (append_mode bdos f r).1
  IsSound-append_mode f (ret, w) s =
      if_ind (IsSound o) (not (ret == failure) && f.o_append) (IsSound-lseek bdos shut ret 0 2 w s)
        s

  pub IsSound-open_posix :
      (name : List ℕ) (f : OpenFlags) (w : World Os)
      → IsSound o w
      → IsSound o (open_posix bdos name f w).1
  unfolding open_posix
  IsSound-open_posix name f w s =
      let rdonly = not (f.o_wronly || f.o_rdwr) in
      let xtype = if f.o_binary then 1 else 0 in
      let r = open_file_on bdos name (if rdonly then mode_read else 0) xtype w in
      let s1 = IsSound-open_file_on name (if rdonly then mode_read else 0) xtype w s in
      let P : ℕ × World Os → Type 0 = λ r. IsSound o r.1 in
      let opened = IsSound-append_mode f r s1 in
      if_ind P (not f.o_creat) opened (
        if_ind P (r.0 == failure && is_enoent r.1.errno)
          (if_ind P rdonly (IsSound-machine einval _ s1)
            (IsSound-append_mode f _ (IsSound-creat name xtype r.1 s1)))
          (if_ind P f.o_excl (IsSound-machine eexist _ (IsSound-close bdos shut r.0 r.1 s1))
            opened))

  pub IsSound-unlink :
      (name : List ℕ) (w : World Os) → IsSound o w → IsSound o (unlink bdos name w).1
  unfolding unlink
  IsSound-unlink name w s =
      let i = (allocc w).0 in
      let s1 = IsSound-allocc w s in
      elim (allocc_range w) [
        | inl lt ↦
            let e : lt_long i 0 ≡ false = ground (arith, lt) in
            let t = IsTaken-chinit_one i (allocc w).1 lt s1 (bit-allocc w lt) in
            rw e (IsSound-refused i _ (open_fcb-IsTaken bdos i name deleting _ t))
        | inr f ↦ let e : lt_long i 0 ≡ true = ground (arith, f) in rw e s1
      ]

  pub IsSound-rename :
      (area area' : Fcb) (from to : List ℕ) (w : World Os)
      → IsSound o w
      → IsSound o (rename bdos area area' from to w).1
  unfolding rename
  IsSound-rename area area' from to w s =
      let (from_parsed, f) = parsefn from area in
      let (to_parsed, f') = parsefn to area' in
      let nuser = word_of_byte (if f'.fuser == 0 then f.fuser else f'.fuser) in
      let (xuser, os1) = chkuser bdos nuser w.os in
      let (reply, os2) = bdos (f_rename f f') os1 in
      let os3 = uchkuser bdos nuser xuser os2 in
      let P : ℕ × World Os → Type 0 = λ r. IsSound o r.1 in
      let refused = IsSound-machine einval w.os s in
      if_ind P (not from_parsed) refused (
        if_ind P (not to_parsed) refused (
          if_ind P (not (f'.fuser == 0) && (not (f.fuser == 0) && not (f.fuser == f'.fuser)))
            refused
            (if_ind P (reply.result == 0) (IsSound-machine w.errno os3 s)
              (IsSound-machine enoent os3 s))))

  -- the state that `_init` leaves, whatever the blocks were before
  pub IsSound-init :
      (w : World Os) → length w.fds ≡ maxccbs → w.outside ≡ o → IsSound o (init bdos w)
  unfolding init
  IsSound-init w size out = IsSound-open_file_on tname mode_write 0 _ (
      IsSound-open_file_on tname mode_write 0 _
        (IsSound-open_file_on tname mode_read 0 (chinit w) (IsSound-chinit w size out)))
