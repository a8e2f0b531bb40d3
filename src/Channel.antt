-- ===== src/Channel.antt =====
-- cpmlib/channels.c: the allocation of channels, and the state of their control blocks.
pub mod Laws
use libgloss_cpm68k.Prelude.{
  ℕ, zero, suc, ◌+◌, ◌-◌, Bool, true, false, not, Option, none, some, List, if◌then◌else◌,
  replicate,
}
use libgloss_cpm68k.Prelude.Bits.{test_bit, set_bit, clear_bit}
use libgloss_cpm68k.Prelude.Words.{lt_long, long_minus_one}
use libgloss_cpm68k.Bdos.{Fcb}
use libgloss_cpm68k.State.{
  World, Ccb, Errno, ebadf, emfile, no_flags, maxccbs, success, failure, getccb, putccb, reterr,
}

module _ {Os : Type 0} where
  -- the loop of `_allocc`, from channel `i` with `n` channels left to look at
  alloc_from : ℕ → ℕ → World Os → ℕ × World Os
  alloc_from zero i w = reterr failure emfile w
  alloc_from (suc n) i w =
      let rest = alloc_from n (i + 1) w in
      if not (test_bit w.chvec i) then (i, record w { chvec = set_bit w.chvec i }) else rest

  unfoldable pub allocc : World Os → ℕ × World Os
  unfolding alloc_from
  allocc w = alloc_from maxccbs 0 w

  unfoldable pub freec : ℕ → World Os → ℕ × World Os
  freec ch w = (success, record w { chvec = clear_bit w.chvec ch })

-- the two `blkfill`s of `__chinit`, which leave bytes 32 to 35
abbrev pub blank_fcb : Fcb → Fcb
blank_fcb f = record {
  drive = 0;
  fname = replicate 8 0x20;
  ftype = replicate 3 0x20;
  extent = 0;
  s1 = 0;
  s2 = 0;
  reccnt = 0;
  fpasswd = replicate 8 0;
  fuser = 0;
  resvd = replicate 7 0;
  recno = f.recno;
}

unfoldable pub init_ccb : ℕ → Ccb → Ccb
init_ccb i c = record {
  flags = no_flags;
  user = 0;
  chan = i;
  offset = 0;
  sector = long_minus_one;
  hiwater = 0;
  fcb = blank_fcb c.fcb;
  buffer = c.buffer;
}

module _ {Os : Type 0} where
  -- `__chinit`
  unfoldable pub chinit_one : ℕ → World Os → World Os
  unfolding init_ccb
  chinit_one i w = putccb w i (init_ccb i (getccb w i))

  chinit_from : ℕ → ℕ → World Os → World Os
  chinit_from zero i w = w
  chinit_from (suc n) i w = chinit_from n (i + 1) (chinit_one i w)

  -- `_chinit`
  unfoldable pub chinit : World Os → World Os
  unfolding chinit_from
  chinit w = chinit_from maxccbs 0 w

  -- `_chkc` of an int: whether the channel is in range (from above) and open
  unfoldable pub chkc : ℕ → World Os → Option Ccb × World Os
  chkc ch w =
      if not (lt_long ch maxccbs)
      then (none, record w { errno = ebadf })
      else if (getccb w ch).flags.opened
      then (some (getccb w ch), w)
      else (none, record w { errno = ebadf })
