-- ===== src/Args/Rounds.antt =====
-- The loop of `parse_args` ends.
use libgloss_cpm68k.Prelude.{ℕ, zero, suc, ◌≤◌, ◌≡◌, refl, Bool, List, [], ◌∷◌, ◌==◌, length, arith}
use libgloss_cpm68k.Bytes.{is_space, advance}
use libgloss_cpm68k.Args.{split, parse_loop}

length-split : (stop : ℕ → Bool) (s : List ℕ) → length (split stop s).1 ≤ length s
unfolding split
length-split stop [] = omega arith
length-split stop (c ∷ s) = ground (arith, length-split stop s)

length-advance : (s : List ℕ) → length (advance s) ≤ length s
length-advance [] = omega arith
length-advance (c ∷ s) = omega arith

-- any two bounds that are enough
pub parse_loop_same :
    (f g : ℕ) (s : List ℕ) → length s ≤ f → length s ≤ g → parse_loop f s ≡ parse_loop g s
unfolding parse_loop
parse_loop_same zero zero s p q = refl
parse_loop_same zero (suc g) [] p q = refl
parse_loop_same zero (suc g) (c ∷ s) p q = elim p [ ]
parse_loop_same (suc f) zero [] p q = refl
parse_loop_same (suc f) zero (c ∷ s) p q = elim q [ ]
parse_loop_same (suc f) (suc g) [] p q = refl
parse_loop_same (suc f) (suc g) (c ∷ s) p q =
    let closing = (split (λ d. d == c) s).1 in
    let rest = (split is_space s).1 in
    let a = length-split (λ d. d == c) s in
    let b = length-split is_space s in
    let a' = length-advance closing in
    let b' = length-advance rest in
    rw (
      parse_loop_same f g s (omega arith) (omega arith),
      parse_loop_same f g (advance closing) (omega (arith, a, a')) (omega (arith, a, a')),
      parse_loop_same f g (advance rest) (omega (arith, b, b')) (omega (arith, b, b')),
    )
