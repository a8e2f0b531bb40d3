-- ===== src/State.antt =====
-- The state of the library: the channel control blocks of cpmlib/osif.h, the allocation bits and
-- the blocks of cpmlib/channels.c, and `errno`.
use libgloss_cpm68k.Prelude.{
  ℕ, ◌-◌, ◌^◌, Bool, false, List, ltb, if◌then◌else◌, get_or, set, length,
}
use libgloss_cpm68k.Bdos.{Fcb}

-- The values that the library gives `errno`.
pub data Errno : Type 0 where
  no_error ebadf einval enoent enospc emfile eio enotty enomem eexist : Errno

-- The flags word of a channel, a field for each bit that osif.h defines.
pub record Flags : Type 0 where
  pub opened : Bool
  pub is_tty : Bool
  pub is_lpt : Bool
  pub is_read : Bool
  pub is_ascii : Bool
  pub at_eof : Bool
  pub dirty : Bool
  pub is_sptty : Bool
  pub is_aux : Bool
  pub is_que : Bool

abbrev pub no_flags : Flags
no_flags = record {
  opened = false;
  is_tty = false;
  is_lpt = false;
  is_read = false;
  is_ascii = false;
  at_eof = false;
  dirty = false;
  is_sptty = false;
  is_aux = false;
  is_que = false;
}

-- `struct ccb`. The LONGs `offset`, `sector` and `hiwater` are bit patterns.
pub record Ccb : Type 0 where
  pub flags : Flags
  pub user : ℕ
  pub chan : ℕ
  pub offset : ℕ
  pub sector : ℕ
  pub hiwater : ℕ
  pub fcb : Fcb
  pub buffer : List ℕ

abbrev pub maxccbs : ℕ
maxccbs = 16

-- `_chvec`, `_fds`, `errno`, and the machine. `outside` is the storage that an index outside of
-- `_fds` lands on.
pub record World (Os : Type 0) : Type 0 where
  pub chvec : ℕ
  pub fds : List Ccb
  pub outside : Ccb
  pub errno : Errno
  pub os : Os

-- SUCCESS and FAILURE as an int
abbrev pub success : ℕ
success = 0

abbrev pub failure : ℕ
failure = 2 ^ 32 - 1

module _ {Os : Type 0} where
  -- `_getccb(i)`, read and written through
  unfoldable pub getccb : World Os → ℕ → Ccb
  getccb w i = get_or w.fds i w.outside

  unfoldable pub putccb : World Os → ℕ → Ccb → World Os
  putccb w i c =
      if ltb i (length w.fds) then record w { fds = set w.fds i c } else record w { outside = c }

  -- RETERR(val, err)
  abbrev pub reterr : ℕ → Errno → World Os → ℕ × World Os
  reterr val err w = (val, record w { errno = err })
