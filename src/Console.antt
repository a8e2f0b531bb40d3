-- ===== src/Console.antt =====
-- cpmlib/ttyout.c, lstout.c and wrtchr.c: writes to the console and to the list device.
pub mod Output
pub mod Fits
pub mod Newlines
pub mod Tabs
use libgloss_cpm68k.Prelude.{
  ℕ, zero, suc, ◌+◌, ◌-◌, ◌*◌, ◌/◌, ◌%◌, ◌^◌, Bool, true, false, not, ◌&&◌, ◌||◌, List, [], ◌∷◌,
  ◌++◌, ltb, ◌==◌, if◌then◌else◌, length, replicate, get_or,
}
use libgloss_cpm68k.Prelude.Words.{}
use libgloss_cpm68k.Bdos.{Bdos, Fcb, c_writestr, conout, lstout, secsiz}
use libgloss_cpm68k.State.{Ccb, enotty, failure}
use libgloss_cpm68k.Bytes.{peek, advance}
use libgloss_cpm68k.Handle.{Handle, fails}

-- `(struct sgttyb *)&fp->fcb`: bytes 4 to 7 of the block, the big-endian int `sg_flags`
unfoldable pub sg_flags : Fcb → ℕ
sg_flags f =
    get_or f.fname 3 0 * 2 ^ 24
    + get_or f.fname 4 0 * 2 ^ 16
    + get_or f.fname 5 0 * 2 ^ 8
    + get_or f.fname 6 0

-- `sg_flags & XTABS`, bits 10 and 11
unfoldable pub expands_tabs : Fcb → Bool
expands_tabs f = not (sg_flags f / 2 ^ 10 % 4 == 0)

-- what one filling of the local buffer leaves: the characters in it, the column (a WORD), and the
-- bytes still to write, as their address and their number
pub record Line : Type 0 where
  pub out : List ℕ
  pub col : ℕ
  pub buf : List ℕ
  pub nbs : ℕ

abbrev pub line_done : ℕ → List ℕ → ℕ → Line
line_done col buf nbs = record { out = []; col = col; buf = buf; nbs = nbs }

abbrev pub prepend : List ℕ → Line → Line
prepend s l = record l { out = s ++ l.out }

-- the inner loop of `_wrtchr` at `cp[ii]`; every round raises `ii`, so `secsiz` rounds are enough.
-- An expanded tab does not count in `nbs`.
unfoldable pub fill_line : ℕ → Bool → ℕ → ℕ → List ℕ → ℕ → Line
fill_line zero tabs ii col buf nbs = line_done col buf nbs
fill_line (suc fuel) tabs ii col buf nbs =
    let c = peek buf in
    let nsp = 8 - col % 8 in
    let newline = fill_line fuel tabs (ii + 2) 0 (advance buf) (nbs - 1) in
    let spaces = fill_line fuel tabs (ii + nsp) ((col + nsp) % 2 ^ 16) (advance buf) nbs in
    let plain = fill_line fuel tabs (ii + 1) ((col + 1) % 2 ^ 16) (advance buf) (nbs - 1) in
    if not (ltb ii secsiz) || nbs == 0
    then line_done col buf nbs
    else if c == 0x0a
    then (if ltb (ii + 1) secsiz
        then prepend (0x0d ∷ 0x0a ∷ []) newline
        else line_done (2 ^ 16 - 1) buf nbs)
    else if c == 0x09 && tabs
    then (if ltb (ii + nsp) secsiz
        then prepend (replicate nsp 0x20) spaces
        else line_done col buf nbs)
    else prepend (c ∷ []) plain

module _ {Os : Type 0} where
  -- the outer loop of `_wrtchr`, with the function that `fnout` points to; every round takes at
  -- least one byte
  unfoldable pub wrtchr_loop : ℕ → (List ℕ → Os → Os) → Bool → ℕ → List ℕ → ℕ → Os → Os
  wrtchr_loop zero fnout tabs col buf nbs os = os
  wrtchr_loop (suc fuel) fnout tabs col buf nbs os =
      let l = fill_line secsiz tabs 1 col buf nbs in
      let next = wrtchr_loop fuel fnout tabs l.col l.buf l.nbs (fnout l.out os) in
      if nbs == 0 then os else next

module _ {Os : Type 0} (bdos : Bdos Os) where
  -- the loop of `_ttyout`: `cp` and `rest` are the characters from `cp` and from `buf[ii]` on, to
  -- the `$` that was put at their end. Behind 127 characters C puts it one byte past the buffer of
  -- `_wrtchr`, which is not modelled.
  ttyout_loop : List ℕ → List ℕ → Os → Os
  ttyout_loop cp [] os = if length cp == 0 then os else (bdos (c_writestr (cp ++ (b'$' ∷ []))) os).1
  ttyout_loop cp (c ∷ rest) os =
      let os1 =
        if peek (cp ++ (b'$' ∷ [])) == b'$'
        then os
        else (bdos (c_writestr (cp ++ (b'$' ∷ []))) os).1 in
      let special = ttyout_loop rest rest (bdos (conout b'$') os1).1 in
      let plain = ttyout_loop cp rest os in if c == b'$' then special else plain

  -- `_ttyout` of a counted buffer
  unfoldable pub ttyout : List ℕ → Os → Os
  unfolding ttyout_loop
  ttyout s os = ttyout_loop s s os

  -- `_lstout`
  unfoldable pub lstout_all : List ℕ → Os → Os
  lstout_all [] os = os
  lstout_all (c ∷ s) os = lstout_all s (bdos (lstout c) os).1

  -- `_wrtchr`; `nbs` is a UWORD
  unfoldable pub wrtchr : List ℕ → ℕ → Handle Os → ℕ × Handle Os
  wrtchr buf bytes h =
      let tabs = h.fp.flags.is_sptty && expands_tabs h.fp.fcb in
      let nbs = bytes % 2 ^ 16 in
      let fuel = length buf + nbs + 1 in
      if h.fp.flags.is_tty
      then (bytes, record h { os = wrtchr_loop fuel ttyout tabs 0 buf nbs h.os })
      else if h.fp.flags.is_lpt
      then (bytes, record h { os = wrtchr_loop fuel lstout_all tabs 0 buf nbs h.os })
      else fails failure enotty h
