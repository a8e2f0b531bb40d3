-- ===== src/ReadAsc/Text.antt =====
-- The inner loop of `_rdasc` against what an ASCII file means: the bytes in front of its first
-- EOFCHAR, without the carriage returns.
use libgloss_cpm68k.Prelude.{
  ℕ, zero, suc, ◌≤◌, ◌≡◌, refl, ap, sym, ◌∙◌, true, false, List, [], ◌∷◌, ◌==◌, if◌then◌else◌,
  arith, take, drop, take-nil, drop-nil, length, Bool-cases, inl, inr,
}
use libgloss_cpm68k.ReadAsc.{scan}

-- the bytes in front of the first EOFCHAR
unfoldable pub before_eof : List ℕ → List ℕ
before_eof [] = []
before_eof (c ∷ s) = let rest = before_eof s in if c == 0x1a then [] else c ∷ rest

-- without the carriage returns
unfoldable pub without_cr : List ℕ → List ℕ
without_cr [] = []
without_cr (c ∷ s) = let rest = without_cr s in if c == 0x0d then rest else c ∷ rest

-- The text of an ASCII file.
abbrev pub text : List ℕ → List ℕ
text s = without_cr (before_eof s)

pub text-nil : text [] ≡ []
unfolding before_eof without_cr
text-nil = refl

pub out-scan : (s : List ℕ) (n : ℕ) → (scan s n).out ≡ take n (text s)
unfolding scan before_eof without_cr
out-scan [] n = rw (take-nil n)
out-scan (c ∷ s) zero = ground arith
out-scan (c ∷ s) (suc n) = ground (arith, out-scan s n, out-scan s (suc n))

pub text_eof : (c : ℕ) (s : List ℕ) → (c == 0x1a) ≡ true → text (c ∷ s) ≡ []
unfolding before_eof without_cr
text_eof c s e = ground arith

pub text_cr :
    (c : ℕ) (s : List ℕ) → (c == 0x1a) ≡ false → (c == 0x0d) ≡ true → text (c ∷ s) ≡ text s
unfolding before_eof without_cr
text_cr c s e r = ground arith

pub text_plain :
    (c : ℕ) (s : List ℕ) → (c == 0x1a) ≡ false → (c == 0x0d) ≡ false → text (c ∷ s) ≡ c ∷ text s
unfolding before_eof without_cr
text_plain c s e r = ground arith

rest-scan : (s : List ℕ) (n : ℕ) → text (drop (scan s n).passed s) ≡ drop n (text s)
unfolding scan
rest-scan [] n = unfold before_eof without_cr in rw (drop-nil n)
rest-scan (c ∷ s) zero = refl
rest-scan (c ∷ s) (suc n) = elim (Bool-cases (c == 0x1a)) [
  | inl e ↦ rw e (text_eof c s e ∙ ap (drop (suc n)) (sym (text_eof c s e)))
  | inr e ↦ elim (Bool-cases (c == 0x0d)) [
    | inl r ↦ rw (e, r) (rest-scan s (suc n) ∙ ap (drop (suc n)) (sym (text_cr c s e r)))
    | inr r ↦ rw (e, r) (rest-scan s n ∙ ap (drop (suc n)) (sym (text_plain c s e r)))
  ]
]

pub passed-scan : (s : List ℕ) (n : ℕ) → (scan s n).passed ≤ length s
unfolding scan
passed-scan [] n = omega arith
passed-scan (c ∷ s) zero = omega arith
passed-scan (c ∷ s) (suc n) = ground (arith, passed-scan s n, passed-scan s (suc n))

ended-scan : (s : List ℕ) (n : ℕ) → (scan s n).ended ≡ true → drop n (text s) ≡ []
unfolding scan before_eof without_cr
ended-scan [] n e = drop-nil n
ended-scan (c ∷ s) zero e = ground arith
ended-scan (c ∷ s) (suc n) e = ground (arith, ended-scan s n, ended-scan s (suc n))

-- The inner loop of `_rdasc` hands on the first `n` characters of the sector's text, passes over
-- bytes of the sector only, behind which the rest of the text is, and meets the EOFCHAR only when
-- all of the text was handed on.
pub scan_lem :
    (s : List ℕ) (n : ℕ)
    → ((scan s n).out ≡ take n (text s))
      × ((scan s n).passed ≤ length s)
      × (text (drop (scan s n).passed s) ≡ drop n (text s))
      × ((scan s n).ended ≡ true → drop n (text s) ≡ [])
scan_lem s n = (out-scan s n, passed-scan s n, rest-scan s n, ended-scan s n)
