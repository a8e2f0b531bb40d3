-- ===== src/Console/Output.antt =====
-- What a write to a device makes it show.
use libgloss_cpm68k.Prelude.{
  ℕ, ◌≡◌, ◌≢◌, refl, ap, ◌∙◌, inl, inr, false, List, [], ◌∷◌, ◌++◌, append-nil, append_assoc,
  Bool-cases, ◌==◌, ==_iff, ==_false, if◌then◌else◌, length, arith,
}
use libgloss_cpm68k.Bdos.{Bdos, c_writestr}
use libgloss_cpm68k.Bdos.Laws.{DeviceLaws, until_dollar}
use libgloss_cpm68k.Bytes.{peek}
use libgloss_cpm68k.Console.{ttyout_loop, ttyout, lstout_all}

-- no `$` among the characters
abbrev NoDollar : List ℕ → Type 0
NoDollar [] = Unit
NoDollar (c ∷ s) = (c ≢ b'$') × NoDollar s

until_dollar-append : (s t : List ℕ) → NoDollar s → until_dollar (s ++ (b'$' ∷ t)) ≡ s
unfolding until_dollar
until_dollar-append [] t h = refl
until_dollar-append (c ∷ s) t h = ground (arith, h.0, until_dollar-append s t h.1)

NoDollar-append : (s t : List ℕ) → NoDollar s → NoDollar t → NoDollar (s ++ t)
NoDollar-append [] t h k = k
NoDollar-append (c ∷ s) t h k = (h.0, NoDollar-append s t h.1 k)

module _ {Os : Type 0} (bdos : Bdos Os) {shown printed : Os → List ℕ}
    (D : DeviceLaws bdos shown printed) where
  -- the characters in front of a `$` are printed by function 9, if there are any
  flush_lem :
      (sofar rest : List ℕ) (os : Os)
      → NoDollar sofar
      → shown (
          if peek ((sofar ++ (b'$' ∷ rest)) ++ (b'$' ∷ [])) == b'$'
          then os
          else (bdos (c_writestr ((sofar ++ (b'$' ∷ rest)) ++ (b'$' ∷ []))) os).1)
        ≡ shown os ++ sofar
  flush_lem [] rest os h = rw append-nil
  flush_lem (c ∷ sofar) rest os h =
      let test : (c == b'$') ≡ false = ground (arith, h.0) in
      rw (test, D.shows_string, append_assoc (c ∷ sofar) (b'$' ∷ rest) (b'$' ∷ []))
        (ap (λ (t : List ℕ). shown os ++ t) (until_dollar-append (c ∷ sofar) _ h))

  -- `sofar` stands between `cp` and `buf[ii]`
  ttyout_loop_lem :
      (rest sofar : List ℕ) (os : Os)
      → NoDollar sofar
      → shown (ttyout_loop bdos (sofar ++ rest) rest os) ≡ shown os ++ (sofar ++ rest)
  unfolding ttyout_loop
  ttyout_loop_lem [] [] os h = rw append-nil
  ttyout_loop_lem [] (c ∷ sofar) os h =
      let whole : NoDollar ((c ∷ sofar) ++ []) = NoDollar-append (c ∷ sofar) [] h tt in
      let some_text : (length ((c ∷ sofar) ++ []) == 0) ≡ false = ground arith in
      rw some_text (
        D.shows_string _ os
        ∙ ap (λ (t : List ℕ). shown os ++ t) (until_dollar-append ((c ∷ sofar) ++ []) [] whole))
  ttyout_loop_lem (c ∷ rest) sofar os h = elim (Bool-cases (c == b'$')) [
    | inl e ↦
        let is : c ≡ b'$' = (==_iff _ _).0 e in
        rw is (
          ttyout_loop_lem rest [] _ tt
          ∙ ap (λ (t : List ℕ). t ++ rest) (D.shows_char b'$' _)
          ∙ append_assoc _ (b'$' ∷ []) rest
          ∙ ap (λ (t : List ℕ). t ++ (b'$' ∷ rest)) (flush_lem sofar rest os h)
          ∙ append_assoc (shown os) sofar (b'$' ∷ rest))
    | inr e ↦
        let shift : (sofar ++ (c ∷ [])) ++ rest ≡ sofar ++ (c ∷ rest) =
          append_assoc sofar (c ∷ []) rest in
        rw (e, ← shift)
          (ttyout_loop_lem rest (sofar ++ (c ∷ [])) os
            (NoDollar-append sofar (c ∷ []) h (==_false _ _ e, tt)))
  ]

  -- `_ttyout` makes the console show exactly the characters that it is given, `$` among them.
  pub ttyout_shows : (s : List ℕ) (os : Os) → shown (ttyout bdos s os) ≡ shown os ++ s
  unfolding ttyout
  ttyout_shows s os = ttyout_loop_lem s [] os tt

  -- `_lstout` prints exactly the characters that it is given.
  pub lstout_prints : (s : List ℕ) (os : Os) → printed (lstout_all bdos s os) ≡ printed os ++ s
  unfolding lstout_all
  lstout_prints [] os = rw append-nil
  lstout_prints (c ∷ s) os =
      lstout_prints s _
      ∙ ap (λ (t : List ℕ). t ++ s) (D.prints_char c os)
      ∙ append_assoc (printed os) (c ∷ []) s
