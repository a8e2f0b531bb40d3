-- ===== src/Calls/Invariant.antt =====
-- What holds after any sequence of calls from `_init`, and what it means for opening a file.
use libgloss_cpm68k.Prelude.{
  ℕ, ◌<◌, ◌≡◌, ◌≢◌, inl, inr, refl, sym, ◌∙◌, true, false, List, Bool-cases, length,
}
use mathlib.Core.Path.{subst}
use libgloss_cpm68k.Bdos.{Bdos}
use libgloss_cpm68k.State.{World, Ccb, maxccbs, failure, getccb}
use libgloss_cpm68k.Posix.{init}
use libgloss_cpm68k.Files.{open_file_on}
use libgloss_cpm68k.Files.Opening.{open_file_on_cases}
use libgloss_cpm68k.Calls.{
  Call, opens, opens_on, creates, closes, reads, writes, seeks, asks_size, asks_stat, asks_tty,
  calls_stty, calls_gtty, IsShortName, unlinks, renames, Reach, here, next,
}
use libgloss_cpm68k.Calls.Sound.{false-ne-true, IsSound}
use libgloss_cpm68k.Calls.Operations.{
  IsSound-filesz, IsSound-lseek, IsSound-fstat, IsSound-isatty, IsSound-stty, IsSound-gtty,
  IsSound-read, IsSound-write, IsSound-close,
}
use libgloss_cpm68k.Calls.Opening.{
  IsSound-open_file_on, IsSound-creat, IsSound-open_posix, IsSound-unlink, IsSound-rename,
  IsSound-init,
}

module _ {Os : Type 0} (bdos : Bdos Os) where
  module _ {o : Ccb} (shut : o.flags.opened ≡ false) where
    Call-IsSound : {w v : World Os} → Call bdos w v → IsSound o w → IsSound o v
    Call-IsSound {w} (opens name f short e) s =
        subst (IsSound o) e (IsSound-open_posix bdos shut name f w s)
    Call-IsSound {w} (opens_on name mode xtype short e) s =
        subst (IsSound o) e (IsSound-open_file_on bdos shut name mode xtype w s)
    Call-IsSound {w} (creates name xtype short e) s =
        subst (IsSound o) e (IsSound-creat bdos shut name xtype w s)
    Call-IsSound {w} (closes fd e) s = subst (IsSound o) e (IsSound-close bdos shut fd w s)
    Call-IsSound {w} (reads fd buff bytes e) s = IsSound-read bdos shut fd buff bytes w s e
    Call-IsSound {w} (writes fd buff bytes inside e) s =
        subst (IsSound o) e (IsSound-write bdos shut fd buff bytes w s)
    Call-IsSound {w} (seeks fd offs sense e) s =
        subst (IsSound o) e (IsSound-lseek bdos shut fd offs sense w s)
    Call-IsSound {w} (asks_size fd e) s = subst (IsSound o) e (IsSound-filesz bdos shut fd w s)
    Call-IsSound {w} (asks_stat fd e) s = subst (IsSound o) e (IsSound-fstat bdos shut fd w s)
    Call-IsSound {w} (asks_tty fd e) s = subst (IsSound o) e (IsSound-isatty bdos shut fd w s)
    Call-IsSound {w} (calls_stty fd argp e) s =
        subst (IsSound o) e (IsSound-stty bdos shut fd argp w s)
    Call-IsSound {w} (calls_gtty fd argp e) s =
        subst (IsSound o) e (IsSound-gtty bdos shut fd argp w s)
    Call-IsSound {w} (unlinks name short e) s =
        subst (IsSound o) e (IsSound-unlink bdos shut name w s)
    Call-IsSound {w} (renames area area' from to short short' e) s =
        subst (IsSound o) e (IsSound-rename bdos shut area area' from to w s)

    Reach-from : {u w : World Os} → IsSound o u → Reach bdos u w → IsSound o w
    Reach-from s here = s
    Reach-from s (next r c) = Call-IsSound c (Reach-from s r)

  -- After `_init` and any sequence of calls, the storage outside of the channel table is as before,
  -- every open block belongs to an allocated channel, and it carries that channel's number. The calls
  -- are the opening and creating, closing, reading, writing and seeking, the questions for size,
  -- status and terminal, and `unlink` and `rename`, whatever their results, also on channel numbers
  -- that are out of range; with file names of fewer than 32 characters, and writes of fewer than 65536
  -- bytes, that on a console never fill the local buffer of `_wrtchr` with 127 characters. The table
  -- has its 16 blocks, and the storage outside of it does not look like an open block.
  pub Reach-IsSound :
      (w v : World Os)
      → length w.fds ≡ maxccbs
      → w.outside.flags.opened ≡ false
      → Reach bdos (init bdos w) v
      → IsSound w.outside v
  Reach-IsSound w v size shut r = Reach-from shut (IsSound-init bdos shut w size refl) r

  -- After `_init` and any sequence of calls, an `_open` that succeeds takes a channel that was not
  -- open: no two uses of a channel overlap. File names have fewer than 32 characters, and a write has
  -- fewer than 65536 bytes and on a console never fills the local buffer of `_wrtchr` with 127
  -- characters. The table has its 16 blocks, and the storage outside of it does not look like an open
  -- block.
  pub Reach-fresh :
      (w v : World Os) (name : List ℕ) (mode xtype : ℕ)
      → length w.fds ≡ maxccbs
      → w.outside.flags.opened ≡ false
      → Reach bdos (init bdos w) v
      → IsShortName name
      → (open_file_on bdos name mode xtype v).0 ≢ failure
      → let r = open_file_on bdos name mode xtype v in
        (r.0 < maxccbs)
        × ((getccb v r.0).flags.opened ≡ false)
        × ((getccb r.1 r.0).flags.opened ≡ true)
        × ((getccb r.1 r.0).chan ≡ r.0)
  Reach-fresh w v name mode xtype size shut reach short ok =
      let s = Reach-IsSound w v size shut reach in
      let r = open_file_on bdos name mode xtype v in
      elim (open_file_on_cases bdos name mode xtype v s.size) [
        | inl p ↦
            let after = IsSound-open_file_on bdos shut name mode xtype v s in
            (
              p.in_range,
              elim (Bool-cases (getccb v r.0).flags.opened) [
                | inl e ↦ absurd (false-ne-true (sym p.was_free ∙ s.allocated r.0 p.in_range e))
                | inr e ↦ e
              ],
              p.opened,
              after.numbered r.0 p.in_range p.opened,
            )
        | inr n ↦ absurd (ok n.ret)
      ]
