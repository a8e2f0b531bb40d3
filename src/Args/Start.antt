-- ===== src/Args/Start.antt =====
-- `_main`, `_exit` and `err` of cpmlib/_main.c: from the loaded program to its end. What the C
-- library calls is a parameter: `init_array` is `__libc_init_array`, `main` the program's `main`,
-- which gets the argument vector, and `exit` the function of that name, which calls `_exit` back.
use libgloss_cpm68k.Prelude.{
  ℕ, ◌≤◌, ◌≡◌, refl, true, none, some, List, [], ◌∷◌, ◌++◌, map, ◌==◌, length,
}
use libgloss_cpm68k.Bdos.{Bdos, exit_program, c_writestr}
use libgloss_cpm68k.Bdos.Laws.{DeviceLaws, until_dollar}
use libgloss_cpm68k.State.{World}
use libgloss_cpm68k.Bytes.{peek, advance}
use libgloss_cpm68k.Args.{is_quote, program_name, parse_args}
use libgloss_cpm68k.Args.Quoting.{
  Arg, value, show_args, show_before, Free, AllFit, parse_args-show_args, parse_args-unterminated,
}

-- "unterminated quote$"
abbrev pub unterminated : List ℕ
unterminated =
    b'u' ∷ b'n' ∷ b't' ∷ b'e' ∷ b'r' ∷ b'm' ∷ b'i' ∷ b'n' ∷ b'a' ∷ b't' ∷ b'e' ∷ b'd' ∷ 0x20 ∷ b'q'
    ∷ b'u' ∷ b'o' ∷ b't' ∷ b'e' ∷ b'$' ∷ []

module _ {Os : Type 0} (bdos : Bdos Os) where
  -- `_exit`: the request that ends the program, behind which it only loops
  unfoldable pub exit_now : World Os → World Os
  exit_now w = record w { os = (bdos exit_program w.os).1 }

module _ {Os : Type 0} (bdos : Bdos Os) (init_array : World Os → World Os)
    (main : List (List ℕ) → World Os → ℕ × World Os)
    (exit : (World Os → World Os) → ℕ → World Os → World Os) where
  -- `err`
  unfoldable pub err : List ℕ → World Os → World Os
  err msg w = exit (exit_now bdos) 1 (record w { os = (bdos (c_writestr msg) w.os).1 })

  -- `_main`, with the bytes from `basepage + 0x80` on
  unfoldable pub run_main : List ℕ → World Os → World Os
  run_main page w =
      let w1 = init_array w in
      elim (parse_args (peek page) (advance page)) [
        | none ↦ err unterminated w1
        | some argv ↦ exit (exit_now bdos) (main argv w1).0 (main argv w1).1
      ]

  -- A program whose command tail types its arguments as the round trip of the command line says gets
  -- exactly these behind its name, in the state that the constructors leave, and what it returns is
  -- what the program exits with.
  run_main-show_args :
      (args : List Arg) (junk : List ℕ) (w : World Os)
      → AllFit args
      → length (show_args args) ≤ 0x7e
      → let (code, w2) = main (program_name ∷ map value args) (init_array w) in
        run_main (length (show_args args) ∷ (show_args args ++ junk)) w
        ≡ exit (exit_now bdos) code w2
  unfolding run_main
  run_main-show_args args junk w h le = rw (parse_args-show_args args junk h le, run_main) refl

  -- A program whose command tail goes on behind such arguments with a quote that nothing closes is not
  -- run: the console shows "unterminated quote", and the program exits with 1, in the state that the
  -- constructors left but for what was shown. The console shows the characters of functions 2 and 9.
  pub run_main-unterminated :
      (args : List Arg) (q : ℕ) (s junk : List ℕ) (w : World Os) {shown printed : Os → List ℕ}
      → DeviceLaws bdos shown printed
      → AllFit args
      → is_quote q ≡ true
      → Free (λ d. d == q) s
      → length (show_before args (q ∷ s)) ≤ 0x7e
      → (os : Os) × (run_main
            (length (show_before args (q ∷ s)) ∷ (show_before args (q ∷ s) ++ junk))
            w
          ≡ exit (exit_now bdos) 1 (record (init_array w) { os = os }))
        × (shown os ≡ shown (init_array w).os ++ until_dollar unterminated)
  unfolding run_main err
  run_main-unterminated args q s junk w laws h k f le = (
    (bdos (c_writestr unterminated) (init_array w).os).1,
    rw (parse_args-unterminated args q s junk h k f le, run_main) refl,
    laws.shows_string unterminated (init_array w).os,
  )
