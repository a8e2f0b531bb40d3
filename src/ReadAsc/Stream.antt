-- ===== src/ReadAsc/Stream.antt =====
-- The inner loop of `_rdasc` on the front part of a file's bytes.
use libgloss_cpm68k.Prelude.{
  ℕ, zero, suc, ◌-◌, ◌≤◌, ◌≡◌, ◌⊎◌, refl, ap, sym, ◌∙◌, true, false, List, [], ◌∷◌, ◌++◌, ◌==◌,
  arith, take, drop, length, length-take, Bool-cases, inl, inr,
}
use libgloss_cpm68k.ReadAsc.{scan}
use libgloss_cpm68k.ReadAsc.Text.{text, text_eof, text_cr, text_plain, out-scan}

true-ne-false : ¬ (true ≡ false)
true-ne-false h = cc

pub length-scan : (s : List ℕ) (n : ℕ) → length (scan s n).out ≤ n
length-scan s n = omega (arith, ap length (out-scan s n), length-take n (text s))

-- where the loop did not meet the EOFCHAR, it handed on the first part of the text of all the bytes
pub take-scan :
    (xs ys : List ℕ) (n : ℕ)
    → (scan xs n).ended ≡ false
    → take n (text (xs ++ ys))
      ≡ (scan xs n).out
        ++ take (n - length (scan xs n).out) (text (drop (scan xs n).passed xs ++ ys))
unfolding scan
take-scan [] ys n = λ _. let z : n - 0 ≡ n = omega arith in rw z refl
take-scan (c ∷ s) ys zero = λ _. refl
take-scan (c ∷ s) ys (suc n) = elim (Bool-cases (c == 0x1a)) [
  | inl e ↦ rw e (λ f. absurd (true-ne-false f))
  | inr e ↦ elim (Bool-cases (c == 0x0d)) [
    | inl r ↦
        rw (e, r) (λ f. ap (take (suc n)) (text_cr c (s ++ ys) e r) ∙ take-scan s ys (suc n) f)
    | inr r ↦
        rw (e, r)
          (λ f.
            let less : suc n - suc (length (scan s n).out) ≡ n - length (scan s n).out =
              omega arith in
            ap (take (suc n)) (text_plain c (s ++ ys) e r)
            ∙ ap (λ (t : List ℕ). c ∷ t) (take-scan s ys n f)
            ∙ ap (λ (k : ℕ). c ∷ ((scan s n).out ++ take k (text (drop (scan s n).passed s ++ ys))))
                (sym less))
  ]
]

-- where it met it, all of the text
pub take-scan_ended :
    (xs ys : List ℕ) (n : ℕ) → (scan xs n).ended ≡ true → take n (text (xs ++ ys)) ≡ (scan xs n).out
unfolding scan
take-scan_ended [] ys n = λ f. absurd (true-ne-false (sym f))
take-scan_ended (c ∷ s) ys zero = λ _. refl
take-scan_ended (c ∷ s) ys (suc n) = elim (Bool-cases (c == 0x1a)) [
  | inl e ↦ rw e (λ _. ap (take (suc n)) (text_eof c (s ++ ys) e))
  | inr e ↦ elim (Bool-cases (c == 0x0d)) [
    | inl r ↦
        rw (e, r)
          (λ f. ap (take (suc n)) (text_cr c (s ++ ys) e r) ∙ take-scan_ended s ys (suc n) f)
    | inr r ↦
        rw (e, r)
          (λ f.
            ap (take (suc n)) (text_plain c (s ++ ys) e r)
            ∙ ap (λ (t : List ℕ). c ∷ t) (take-scan_ended s ys n f))
  ]
]

-- it stops for the EOFCHAR, at the end of the bytes, or when it has handed on enough
pub scan_stops :
    (s : List ℕ) (n : ℕ)
    → (scan s n).ended ≡ false
    → ((scan s n).passed ≡ length s) ⊎ (length (scan s n).out ≡ n)
unfolding scan
scan_stops [] n = λ _. inl refl
scan_stops (c ∷ s) zero = λ _. inr refl
scan_stops (c ∷ s) (suc n) = elim (Bool-cases (c == 0x1a)) [
  | inl e ↦ rw e (λ f. absurd (true-ne-false f))
  | inr e ↦ elim (Bool-cases (c == 0x0d)) [
    | inl r ↦ rw (e, r) (λ f. let h = scan_stops s (suc n) f in omega arith)
    | inr r ↦ rw (e, r) (λ f. let h = scan_stops s n f in omega arith)
  ]
]
