-- ===== src/Files/Posix.antt =====
-- `open` of open.c, without O_CREAT: the access that the channel gives.
use libgloss_cpm68k.Prelude.{
  ℕ, suc, ◌<◌, ◌≡◌, ◌≢◌, refl, ap, ◌∙◌, Bool, true, false, not, ◌&&◌, ◌||◌, List, arith, ◌==◌,
  if◌then◌else◌, if_ind, length, inl, inr,
}
use libgloss_cpm68k.Bdos.{Bdos}
use libgloss_cpm68k.State.{World, ebadf, failure, getccb, maxccbs}
use libgloss_cpm68k.Kind.{Keeps, Keeps-refl, lseek-Keeps}
use libgloss_cpm68k.Io.{write, write_channel}
use libgloss_cpm68k.Posix.{OpenFlags, append_mode, open_posix}
use libgloss_cpm68k.Files.{open_file_on, mode_read}
use libgloss_cpm68k.Files.Opening.{Opened, open_file_on_cases}
use libgloss_cpm68k.Files.Closing.{chkc-opened}

module _ {Os : Type 0} (bdos : Bdos Os) where
  append_mode-Keeps :
      (o : OpenFlags) (r : ℕ × World Os)
      → r.0 < length r.1.fds
      → (append_mode bdos o r).0 ≡ r.0 × Keeps r.1 (append_mode bdos o r).1
  append_mode-Keeps o (ret, w) lt = (
    refl,
    if_ind (Keeps w) (not (ret == failure) && o.o_append) (lseek-Keeps bdos ret 0 2 w lt)
        (Keeps-refl w),
  )

  -- a write to an open channel that is read only
  write_refused :
      (fd : ℕ) (buff : List ℕ) (n : ℕ) (w : World Os)
      → fd < maxccbs
      → (getccb w fd).flags.opened ≡ true
      → (getccb w fd).flags.is_read ≡ true
      → write bdos fd buff (suc n) w ≡ (failure, record w { errno = ebadf })
  unfolding write write_channel
  write_refused fd buff n w lt o r =
      let z : (suc n == 0) ≡ false = ground arith in
      simp (chkc-opened fd w lt o, z, r, write, write_channel) refl

  -- the access of a channel that `_open` opened, after the seek of O_APPEND
  append_mode-Opened :
      (b : Bool) (w : World Os) (o : OpenFlags) (r : ℕ × World Os)
      → Opened b w r
      → Opened b w (append_mode bdos o r)
  append_mode-Opened b w o (ret, w1) p =
      let (same, k) = append_mode-Keeps o (ret, w1) (omega (arith, p.size, p.in_range)) in
      let kind = k.kind ret (omega (arith, p.size, p.in_range)) in
      record {
        in_range = p.in_range;
        was_free = p.was_free;
        lowest = p.lowest;
        chvec = k.chvec ∙ p.chvec;
        size = k.size ∙ p.size;
        opened = kind.opened ∙ p.opened;
        is_read = kind.is_read ∙ p.is_read;
      }

  append_failure :
      (o : OpenFlags) (r : ℕ × World Os) → r.0 ≡ failure → (append_mode bdos o r).0 ≡ failure
  append_failure o (ret, w) e = e

  -- `open` without O_CREAT opens every file for reading only: on the channel that it returns, with
  -- O_WRONLY and O_RDWR as without, each write of at least one byte fails with EBADF and does
  -- nothing else. The table has its 16 blocks.
  pub write-open_posix :
      (name : List ℕ) (o : OpenFlags) (w : World Os) (buff : List ℕ) (n : ℕ)
      → length w.fds ≡ maxccbs
      → o.o_creat ≡ false
      → (open_posix bdos name o w).0 ≢ failure
      → let r = open_posix bdos name o w in
        write bdos r.0 buff (suc n) r.1 ≡ (failure, record (r.1) { errno = ebadf })
  unfolding open_posix
  write-open_posix name o w buff n size old ok =
      let mode = if not (o.o_wronly || o.o_rdwr) then mode_read else 0 in
      let xtype = if o.o_binary then 1 else 0 in
      let r = open_file_on bdos name mode xtype w in
      let e : open_posix bdos name o w ≡ append_mode bdos o r = simp (old, open_posix) refl in
      let zero_mode : (mode == mode_read) ≡ true =
        if_ind (λ m. (m == mode_read) ≡ true) (not (o.o_wronly || o.o_rdwr)) refl refl in
      elim (open_file_on_cases bdos name mode xtype w size) [
        | inl p ↦
            let q = append_mode-Opened (mode == mode_read) w o r p in
            rw e (write_refused _ buff n _ q.in_range q.opened (q.is_read ∙ zero_mode))
        | inr p ↦ absurd (ok (ap (λ r. r.0) e ∙ append_failure o r p.ret))
      ]
