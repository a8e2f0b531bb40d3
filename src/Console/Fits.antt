-- ===== src/Console/Fits.antt =====
-- Where the `$` of `_ttyout` goes: into the local buffer of `_wrtchr`, `BYTE cp[SECSIZ]`.
use libgloss_cpm68k.Prelude.{ℕ, zero, suc, Bool, true, ◌&&◌, ◌||◌, List, ltb, ◌==◌, length}
use libgloss_cpm68k.Bdos.{secsiz}
use libgloss_cpm68k.Console.{fill_line}

-- whether `buf[count] = '$'` lies in the local buffer for every filling of it: behind a filling of
-- 127 characters it does not
unfoldable pub fits_local : ℕ → Bool → ℕ → List ℕ → ℕ → Bool
fits_local zero tabs col buf nbs = true
fits_local (suc fuel) tabs col buf nbs =
    let l = fill_line secsiz tabs 1 col buf nbs in
    let rest = fits_local fuel tabs l.col l.buf l.nbs in
    nbs == 0 || (ltb (length l.out) 127 && rest)
