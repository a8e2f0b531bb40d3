-- ===== src/Console/Tabs/Shown.antt =====
-- What `_wrtchr` makes a console show that expands tabs.
use libgloss_cpm68k.Prelude.{
  ℕ, zero, suc, ◌+◌, ◌-◌, ◌%◌, ◌^◌, ◌≤◌, ◌<◌, ◌≡◌, refl, ap, ◌∙◌, inl, inr, true, List, [], ◌∷◌,
  ◌++◌, append-nil, append_assoc, Bool-cases, ◌==◌, ◌&&◌, ==_iff, ==_false, length, length-append,
  ltb, arith,
}
use libgloss_cpm68k.Bdos.{Bdos, secsiz}
use libgloss_cpm68k.Bdos.Laws.{DeviceLaws}
use libgloss_cpm68k.Handle.{Handle}
use libgloss_cpm68k.Console.{ttyout, Line, fill_line, wrtchr_loop, wrtchr, expands_tabs}
use libgloss_cpm68k.Console.Fits.{fits_local}
use libgloss_cpm68k.Console.Output.{ttyout_shows}
use libgloss_cpm68k.Console.Tabs.{
  countable, expanded, expanded_none, IsExpanded, fill_line-IsExpanded,
}

-- the first filling of the buffer takes at least one byte
fill_line_takes :
    (fuel col : ℕ) (buf : List ℕ) (nbs : ℕ)
    → nbs ≤ countable buf
    → 0 < nbs
    → length (fill_line (suc fuel) true 1 col buf nbs).buf < length buf
unfolding fill_line countable
fill_line_takes fuel col buf zero le h = elim h [ ]
fill_line_takes fuel col [] (suc n) le h = elim le [ ]
fill_line_takes fuel col (c ∷ buf) (suc n) le h =
    let p : suc n - 1 ≡ n = omega arith in
    let nsp = 8 - col % 8 in
    let next = (col + nsp) % 2 ^ 16 in
    rw p (
      ground (
        arith,
        (λ (q : n ≤ countable buf). (fill_line-IsExpanded fuel 3 0 buf n q).bound),
        (λ (q : suc n ≤ countable buf).
            (fill_line-IsExpanded fuel (1 + nsp) next buf (suc n) q).bound),
        (λ (q : n ≤ countable buf).
            (fill_line-IsExpanded fuel 2 ((col + 1) % 2 ^ 16) buf n q).bound),
      ))

-- fewer than 127 characters never fill the buffer
expanded-fits_local :
    (fuel col : ℕ) (buf : List ℕ) (nbs : ℕ)
    → nbs ≤ countable buf
    → length (expanded (col % 8) nbs buf) < 127
    → fits_local fuel true col buf nbs ≡ true
unfolding fits_local
expanded-fits_local zero col buf nbs le short = refl
expanded-fits_local (suc fuel) col buf nbs le short =
    let l : Line = fill_line secsiz true 1 col buf nbs in
    let f : IsExpanded col buf nbs l = fill_line-IsExpanded secsiz 1 col buf nbs le in
    let sum = length-append l.out (expanded (l.col % 8) l.nbs l.buf) in
    let whole = ap length f.text in
    let rest =
      expanded-fits_local fuel l.col l.buf l.nbs f.within (omega (arith, sum, whole, short)) in
    let room : ltb (length l.out) 127 ≡ true = ground (arith, sum, whole, short) in
    elim (Bool-cases (nbs == 0)) [ inl e ↦ rw e refl | inr e ↦ rw (e, room, rest) refl ]

module _ {Os : Type 0} (seen : Os → List ℕ) (fnout : List ℕ → Os → Os)
    (lawful : (s : List ℕ) (os : Os) → seen (fnout s os) ≡ seen os ++ s) where
  wrtchr_loop_tabs :
      (fuel col : ℕ) (buf : List ℕ) (nbs : ℕ) (os : Os)
      → length buf < fuel
      → nbs ≤ countable buf
      → seen (wrtchr_loop fuel fnout true col buf nbs os) ≡ seen os ++ expanded (col % 8) nbs buf
  unfolding wrtchr_loop
  wrtchr_loop_tabs zero col buf nbs os lt le = elim lt [ ]
  wrtchr_loop_tabs (suc fuel) col buf nbs os lt le = elim (Bool-cases (nbs == 0)) [
    | inl e ↦
        let z : nbs ≡ 0 = (==_iff _ _).0 e in rw (z, expanded_none (col % 8) buf, append-nil) refl
    | inr e ↦
        let l : Line = fill_line secsiz true 1 col buf nbs in
        let f : IsExpanded col buf nbs l = fill_line-IsExpanded secsiz 1 col buf nbs le in
        let pos : 0 < nbs = omega (arith, ==_false _ _ e) in
        let less = fill_line_takes 127 col buf nbs le pos in
        rw e (
          wrtchr_loop_tabs fuel l.col l.buf l.nbs (fnout l.out os) (omega arith) f.within
          ∙ ap (λ (t : List ℕ). t ++ expanded (l.col % 8) l.nbs l.buf) (lawful l.out os)
          ∙ append_assoc (seen os) l.out _
          ∙ ap (λ (t : List ℕ). seen os ++ t) f.text)
  ]

module _ {Os : Type 0} (bdos : Bdos Os) {shown printed : Os → List ℕ}
    (D : DeviceLaws bdos shown printed) where
  -- A write to a console channel that expands tabs returns the number of the bytes, and makes the
  -- console show the caller's memory up to the byte with which that many bytes that are no tabs have
  -- gone out, so one byte behind the caller's bytes for each tab: a tab as spaces up to the next
  -- multiple of 8, a newline with a carriage return in front. The `$` of `_ttyout` stays in the local
  -- buffer of `_wrtchr`. The memory there has that many bytes that are no tabs, the characters to
  -- show are fewer than 127, and the bytes fewer than 65536.
  pub wrtchr_tabs :
      (buf : List ℕ) (bytes : ℕ) (h : Handle Os)
      → h.fp.flags.is_tty ≡ true
      → (h.fp.flags.is_sptty && expands_tabs h.fp.fcb) ≡ true
      → bytes < 2 ^ 16
      → bytes ≤ countable buf
      → length (expanded 0 bytes buf) < 127
      → ((wrtchr bdos buf bytes h).0 ≡ bytes)
        × (shown (wrtchr bdos buf bytes h).1.os ≡ shown h.os ++ expanded 0 bytes buf)
        × (fits_local (length buf + bytes + 1) true 0 buf bytes ≡ true)
  unfolding wrtchr
  wrtchr_tabs buf bytes h tty tabs small le short =
      let e : bytes % 2 ^ 16 ≡ bytes = omega arith in
      rw (tty, tabs, e)
        (
          refl,
          wrtchr_loop_tabs shown (ttyout bdos) (ttyout_shows bdos D) (length buf + bytes + 1) 0 buf
              bytes h.os (omega arith) le,
          expanded-fits_local (length buf + bytes + 1) 0 buf bytes le short,
        )
