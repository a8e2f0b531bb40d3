-- ===== src/Args/Quoting.antt =====
-- Argument vectors that are written as a command tail, and read back from it.
use libgloss_cpm68k.Prelude.{
  ℕ, zero, suc, ◌≤◌, ◌≡◌, ◌≢◌, ap, refl, sym, ◌∙◌, Option, none, append-nil, eq→==, Bool, true,
  false, some, List, [], ◌∷◌, ◌++◌, map, ◌==◌, take, length, length-append, min, arith,
}
use libgloss_cpm68k.Bytes.{is_space}
use libgloss_cpm68k.ReadBin.Contents.{take_all, take-append_le}
use libgloss_cpm68k.Args.{until_nul, is_quote, split, add_arg, parse_loop, program_name, parse_args}
use libgloss_cpm68k.Args.Rounds.{parse_loop_same}

-- an argument as it is typed: bare, its first character apart, or between two of a quote character
pub data Arg : Type 0 where
  bare : ℕ → List ℕ → Arg
  within : ℕ → List ℕ → Arg

abbrev pub value : Arg → List ℕ
value (bare c s) = c ∷ s
value (within q s) = s

abbrev pub show_arg : Arg → List ℕ → List ℕ
show_arg (bare c s) rest = c ∷ (s ++ rest)
show_arg (within q s) rest = q ∷ (s ++ (q ∷ rest))

-- each argument with a blank behind it, and then the rest
abbrev pub show_before : List Arg → List ℕ → List ℕ
show_before [] rest = rest
show_before (a ∷ args) rest = show_arg a (0x20 ∷ show_before args rest)

abbrev pub show_args : List Arg → List ℕ
show_args args = show_before args []

-- the arguments in front of those that are parsed behind them
abbrev pub in_front : List Arg → Option (List (List ℕ)) → Option (List (List ℕ))
in_front [] o = o
in_front (a ∷ args) o = add_arg (value a) (in_front args o)

in_front-some :
    (args : List Arg) (l : List (List ℕ)) → in_front args (some l) ≡ some (map value args ++ l)
in_front-some [] l = refl
in_front-some (a ∷ args) l = rw (in_front-some args l) refl

in_front-none : (args : List Arg) → in_front args none ≡ none
in_front-none [] = refl
in_front-none (a ∷ args) = rw (in_front-none args) refl

-- none of the characters is a NUL or one that `stop` takes
abbrev pub Free : (ℕ → Bool) → List ℕ → Type 0
Free stop [] = Unit
Free stop (c ∷ s) = (stop c ≡ false) × (c ≢ 0) × Free stop s

-- a bare argument has no white space and does not begin with a quote; a quoted one has no quote of
-- its kind
abbrev pub Fits : Arg → Type 0
Fits (bare c s) = (is_quote c ≡ false) × Free is_space (c ∷ s)
Fits (within q s) = (is_quote q ≡ true) × Free (λ d. d == q) s

abbrev pub AllFit : List Arg → Type 0
AllFit [] = Unit
AllFit (a ∷ args) = Fits a × AllFit args

split-Free :
    (stop : ℕ → Bool) (s : List ℕ) (d : ℕ) (rest : List ℕ)
    → Free stop s
    → stop d ≡ true
    → split stop (s ++ (d ∷ rest)) ≡ (s, d ∷ rest)
unfolding split
split-Free stop [] d rest h e = rw e
split-Free stop (c ∷ s) d rest (p, n, h) e = rw (p, split-Free stop s d rest h e)

until_nul-Free :
    (stop : ℕ → Bool) (s rest : List ℕ) → Free stop s → until_nul (s ++ rest) ≡ s ++ until_nul rest
unfolding until_nul
until_nul-Free stop [] rest h = refl
until_nul-Free stop (c ∷ s) rest (p, n, h) =
    let e : (c == 0) ≡ false = ground arith in
    rw e (ap (λ (t : List ℕ). c ∷ t) (until_nul-Free stop s rest h))

until_nul-show_before :
    (args : List Arg) (rest : List ℕ)
    → AllFit args
    → until_nul (show_before args rest) ≡ show_before args (until_nul rest)
unfolding until_nul
until_nul-show_before [] rest h = refl
until_nul-show_before (bare c s ∷ args) rest ((q, f), h) =
    until_nul-Free is_space (c ∷ s) (0x20 ∷ show_before args rest) f
    ∙ ap (λ (t : List ℕ). c ∷ (s ++ (0x20 ∷ t))) (until_nul-show_before args rest h)
until_nul-show_before (within q s ∷ args) rest ((k, f), h) =
    let e : (q == 0) ≡ false = ground arith in
    rw (e, until_nul-Free (λ d. d == q) s (q ∷ 0x20 ∷ show_before args rest) f)
      (rw e (ap (λ (t : List ℕ). q ∷ (s ++ (q ∷ 0x20 ∷ t))) (until_nul-show_before args rest h)))

parse_loop-show_before :
    (args : List Arg) (fuel : ℕ) (rest : List ℕ)
    → AllFit args
    → length (show_before args rest) ≤ fuel
    → parse_loop fuel (show_before args rest) ≡ in_front args (parse_loop (length rest) rest)
unfolding parse_loop
parse_loop-show_before [] fuel rest h le = parse_loop_same fuel (length rest) rest le (omega arith)
parse_loop-show_before (bare c s ∷ args) zero rest h le = elim le [ ]
parse_loop-show_before (within q s ∷ args) zero rest h le = elim le [ ]
parse_loop-show_before (bare c s ∷ args) (suc fuel) rest ((q, f), h) le =
    let size = length-append s (0x20 ∷ show_before args rest) in
    let behind = parse_loop-show_before args fuel rest h (omega (arith, size, le)) in
    let word = split-Free is_space s 0x20 (show_before args rest) f.2 (unfold is_space in refl) in
    rw (f.0, q, word, behind)
parse_loop-show_before (within q s ∷ args) (suc zero) rest ((k, f), h) le =
    absurd (omega (arith, length-append s (q ∷ 0x20 ∷ show_before args rest), le))
parse_loop-show_before (within q s ∷ args) (suc (suc fuel)) rest ((k, f), h) le =
    let size = length-append s (q ∷ 0x20 ∷ show_before args rest) in
    let behind = parse_loop-show_before args fuel rest h (omega (arith, size, le)) in
    let own : (q == q) ≡ true = ground arith in
    let quoted = split-Free (λ d. d == q) s q (0x20 ∷ show_before args rest) f own in
    let dark : is_space q ≡ false = unfold is_space in ground arith in
    let blank : is_space 0x20 ≡ true = unfold is_space in refl in
    let closed : (length (q ∷ 0x20 ∷ show_before args rest) == 0) ≡ false = ground arith in
    rw (dark, k, quoted, closed) (rw (blank, behind))

-- the tail up to its end, whatever follows it in memory
parse_args-before :
    (args : List Arg) (rest junk : List ℕ)
    → AllFit args
    → length (show_before args rest) ≤ 0x7e
    → until_nul rest ≡ rest
    → parse_args (length (show_before args rest)) (show_before args rest ++ junk)
      ≡ add_arg program_name (in_front args (parse_loop (length rest) rest))
unfolding parse_args
parse_args-before args rest junk h le whole =
    let s = show_before args rest in
    let all : min (length s) 0x7e ≡ length s = omega arith in
    let cut : take (length s) (s ++ junk) ≡ s =
      take-append_le (length s) s junk (omega arith) ∙ take_all (length s) s (omega arith) in
    let same : until_nul s ≡ s = until_nul-show_before args rest h ∙ ap (show_before args) whole in
    rw (all, cut, same, parse_loop-show_before args (length s) rest h (omega arith))

-- A command tail of at most 126 characters in which each argument is typed bare, without white space
-- and not beginning with a quote, or between two quotes of a kind that it does not have, with a blank
-- behind each, gives exactly those arguments behind the program's name, whatever follows the tail.
pub parse_args-show_args :
    (args : List Arg) (junk : List ℕ)
    → AllFit args
    → length (show_args args) ≤ 0x7e
    → parse_args (length (show_args args)) (show_args args ++ junk)
      ≡ some (program_name ∷ map value args)
parse_args-show_args args junk h le =
    let none_left : in_front args (parse_loop 0 []) ≡ some (map value args ++ []) =
      unfold parse_loop in in_front-some args [] in
    parse_args-before args [] junk h le (unfold until_nul in refl)
    ∙ ap (add_arg program_name)
        (none_left ∙ ap (λ (l : List (List ℕ)). some l) (append-nil (map value args)))

split-none : (stop : ℕ → Bool) (s : List ℕ) → Free stop s → length (split stop s).1 ≡ 0
unfolding split
split-none stop [] f = refl
split-none stop (c ∷ s) (p, n, f) = rw p (split-none stop s f)

-- A command tail of at most 126 characters that goes on behind such arguments with a quote that
-- nothing closes is refused.
pub parse_args-unterminated :
    (args : List Arg) (q : ℕ) (s junk : List ℕ)
    → AllFit args
    → is_quote q ≡ true
    → Free (λ d. d == q) s
    → length (show_before args (q ∷ s)) ≤ 0x7e
    → parse_args (length (show_before args (q ∷ s))) (show_before args (q ∷ s) ++ junk) ≡ none
unfolding parse_loop
parse_args-unterminated args q s junk h k f le =
    let dark : is_space q ≡ false = unfold is_space in ground arith in
    let seen : (q == 0) ≡ false = ground arith in
    let bound : until_nul (q ∷ s) ≡ q ∷ s =
      unfold until_nul in
      rw seen (
        ap (λ (t : List ℕ). q ∷ until_nul t) (sym (append-nil s))
        ∙ ap (λ (t : List ℕ). q ∷ t) (until_nul-Free (λ d. d == q) s [] f ∙ append-nil s)) in
    let lost : (length (split (λ d. d == q) s).1 == 0) ≡ true =
      eq→== _ 0 (split-none (λ d. d == q) s f) in
    let refused : parse_loop (length (q ∷ s)) (q ∷ s) ≡ none = rw (dark, k, lost) refl in
    parse_args-before args (q ∷ s) junk h le bound
    ∙ ap (λ (o : Option (List (List ℕ))). add_arg program_name (in_front args o)) refused
    ∙ ap (add_arg program_name) (in_front-none args)
