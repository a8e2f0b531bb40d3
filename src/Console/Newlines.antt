-- ===== src/Console/Newlines.antt =====
-- `_wrtchr` without tab expansion: newlines go out as carriage return and newline.
use libgloss_cpm68k.Prelude.{
  ℕ, zero, suc, ◌+◌, ◌-◌, ◌%◌, ◌^◌, ◌≤◌, ◌<◌, ◌≡◌, refl, ap, ◌∙◌, inl, inr, true, false, List, [],
  ◌∷◌, ◌++◌, append-nil, append_assoc, Bool-cases, ◌==◌, ◌&&◌, ==_iff, ==_false, if◌then◌else◌,
  length, length-append, ltb, take, arith,
}
use libgloss_cpm68k.Bdos.{Bdos, secsiz}
use libgloss_cpm68k.Bdos.Laws.{DeviceLaws}
use libgloss_cpm68k.Handle.{Handle}
use libgloss_cpm68k.Console.{ttyout, lstout_all, Line, fill_line, wrtchr_loop, wrtchr, expands_tabs}
use libgloss_cpm68k.Console.Fits.{fits_local}
use libgloss_cpm68k.Console.Output.{ttyout_shows, lstout_prints}

-- each newline with a carriage return in front
unfoldable pub crlf : List ℕ → List ℕ
crlf [] = []
crlf (c ∷ s) = if c == 0x0a then 0x0d ∷ 0x0a ∷ crlf s else c ∷ crlf s

-- what a filling leaves of `buf` and `nbs`, with what it put in the local buffer
record IsFilled (buf : List ℕ) (nbs : ℕ) (l : Line) : Type 0 where
  bound : l.nbs ≤ nbs
  within : l.nbs ≤ length l.buf
  text : l.out ++ crlf (take l.nbs l.buf) ≡ crlf (take nbs buf)

fill_line-IsFilled :
    (fuel ii col : ℕ) (buf : List ℕ) (nbs : ℕ)
    → nbs ≤ length buf
    → IsFilled buf nbs (fill_line fuel false ii col buf nbs)
unfolding fill_line crlf
fill_line-IsFilled zero ii col buf nbs le = record { bound = omega arith; within = le; text = refl }
fill_line-IsFilled (suc fuel) ii col buf zero le = ground arith
fill_line-IsFilled (suc fuel) ii col [] (suc n) le = elim le [ ]
fill_line-IsFilled (suc fuel) ii col (c ∷ buf) (suc n) le =
    let e : suc n - 1 ≡ n = omega arith in
    rw e (
      ground (
        arith,
        fill_line-IsFilled fuel (ii + 2) 0 buf n (omega arith),
        fill_line-IsFilled fuel (ii + 1) ((col + 1) % 2 ^ 16) buf n (omega arith),
      ))

-- the first filling of the buffer takes at least one byte
fill_line_progress :
    (fuel col : ℕ) (buf : List ℕ) (nbs : ℕ)
    → nbs ≤ length buf
    → 0 < nbs
    → (fill_line (suc fuel) false 1 col buf nbs).nbs < nbs
unfolding fill_line
fill_line_progress fuel col buf zero le h = elim h [ ]
fill_line_progress fuel col [] (suc n) le h = elim le [ ]
fill_line_progress fuel col (c ∷ buf) (suc n) le h =
    let e : suc n - 1 ≡ n = omega arith in
    rw e (
      ground (
        arith,
        (fill_line-IsFilled fuel 3 0 buf n (omega arith)).bound,
        (fill_line-IsFilled fuel 2 ((col + 1) % 2 ^ 16) buf n (omega arith)).bound,
      ))

-- fewer than 127 characters never fill the buffer
crlf-fits_local :
    (fuel col : ℕ) (buf : List ℕ) (nbs : ℕ)
    → nbs ≤ length buf
    → length (crlf (take nbs buf)) < 127
    → fits_local fuel false col buf nbs ≡ true
unfolding fits_local
crlf-fits_local zero col buf nbs le short = refl
crlf-fits_local (suc fuel) col buf nbs le short =
    let l : Line = fill_line secsiz false 1 col buf nbs in
    let f : IsFilled buf nbs l = fill_line-IsFilled secsiz 1 col buf nbs le in
    let sum = length-append l.out (crlf (take l.nbs l.buf)) in
    let whole = ap length f.text in
    let rest = crlf-fits_local fuel l.col l.buf l.nbs f.within (omega (arith, sum, whole, short)) in
    let room : ltb (length l.out) 127 ≡ true = ground (arith, sum, whole, short) in
    elim (Bool-cases (nbs == 0)) [ inl e ↦ rw e refl | inr e ↦ rw (e, room, rest) refl ]

module _ {Os : Type 0} (seen : Os → List ℕ) (fnout : List ℕ → Os → Os)
    (lawful : (s : List ℕ) (os : Os) → seen (fnout s os) ≡ seen os ++ s) where
  wrtchr_loop_lem :
      (fuel col : ℕ) (buf : List ℕ) (nbs : ℕ) (os : Os)
      → nbs < fuel
      → nbs ≤ length buf
      → seen (wrtchr_loop fuel fnout false col buf nbs os) ≡ seen os ++ crlf (take nbs buf)
  unfolding wrtchr_loop
  wrtchr_loop_lem zero col buf nbs os lt le = elim lt [ ]
  wrtchr_loop_lem (suc fuel) col buf nbs os lt le = elim (Bool-cases (nbs == 0)) [
    | inl e ↦ let z : nbs ≡ 0 = (==_iff _ _).0 e in rw z (unfold crlf in rw append-nil)
    | inr e ↦
        let l : Line = fill_line secsiz false 1 col buf nbs in
        let f : IsFilled buf nbs l = fill_line-IsFilled secsiz 1 col buf nbs le in
        let pos : 0 < nbs = omega (arith, ==_false _ _ e) in
        let less = fill_line_progress 127 col buf nbs le pos in
        rw e (
          wrtchr_loop_lem fuel l.col l.buf l.nbs (fnout l.out os) (omega arith) f.within
          ∙ ap (λ (t : List ℕ). t ++ crlf (take l.nbs l.buf)) (lawful l.out os)
          ∙ append_assoc (seen os) l.out _
          ∙ ap (λ (t : List ℕ). seen os ++ t) f.text)
  ]

module _ {Os : Type 0} (bdos : Bdos Os) {shown printed : Os → List ℕ}
    (D : DeviceLaws bdos shown printed) where
  -- A write to a console channel that expands no tabs returns the number of the bytes, and makes the
  -- console show exactly those bytes, a carriage return in front of each newline, and the `$` of
  -- `_ttyout` stays in the local buffer of `_wrtchr`. The characters to show are fewer than 127, and
  -- the bytes fewer than 65536.
  pub wrtchr_console :
      (buf : List ℕ) (bytes : ℕ) (h : Handle Os)
      → h.fp.flags.is_tty ≡ true
      → (h.fp.flags.is_sptty && expands_tabs h.fp.fcb) ≡ false
      → bytes < 2 ^ 16
      → bytes ≤ length buf
      → length (crlf (take bytes buf)) < 127
      → ((wrtchr bdos buf bytes h).0 ≡ bytes)
        × (shown (wrtchr bdos buf bytes h).1.os ≡ shown h.os ++ crlf (take bytes buf))
        × (fits_local (length buf + bytes + 1) false 0 buf bytes ≡ true)
  unfolding wrtchr
  wrtchr_console buf bytes h tty plain small le short =
      let e : bytes % 2 ^ 16 ≡ bytes = omega arith in
      rw (tty, plain, e)
        (
          refl,
          wrtchr_loop_lem shown (ttyout bdos) (ttyout_shows bdos D) (length buf + bytes + 1) 0 buf
              bytes h.os (omega arith) le,
          crlf-fits_local (length buf + bytes + 1) 0 buf bytes le short,
        )

  -- A write of fewer than 65536 bytes to a list device channel that expands no tabs returns their
  -- number, and makes the list device print exactly those bytes, a carriage return in front of each
  -- newline.
  pub wrtchr_printer :
      (buf : List ℕ) (bytes : ℕ) (h : Handle Os)
      → h.fp.flags.is_tty ≡ false
      → h.fp.flags.is_lpt ≡ true
      → (h.fp.flags.is_sptty && expands_tabs h.fp.fcb) ≡ false
      → bytes < 2 ^ 16
      → bytes ≤ length buf
      → ((wrtchr bdos buf bytes h).0 ≡ bytes)
        × (printed (wrtchr bdos buf bytes h).1.os ≡ printed h.os ++ crlf (take bytes buf))
  unfolding wrtchr
  wrtchr_printer buf bytes h tty lpt plain small le =
      let e : bytes % 2 ^ 16 ≡ bytes = omega arith in
      rw (tty, lpt, plain, e)
        (
          refl,
          wrtchr_loop_lem printed (lstout_all bdos) (lstout_prints bdos D) (length buf + bytes + 1)
              0 buf bytes h.os (omega arith) le,
        )
