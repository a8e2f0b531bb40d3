-- ===== src/ReadBin/Contents.antt =====
-- The bytes of a file from a record on, and how they divide at a record's end.
use libgloss_cpm68k.Prelude.{
  ℕ, zero, suc, ◌+◌, ◌*◌, ◌≤◌, ◌<◌, ◌≡◌, ap, refl, sym, ◌∙◌, inl, inr, Option, none, some, List, [],
  ◌∷◌, ◌++◌, append_assoc, append-nil, length, take, drop, length-append, Option-cases, arith,
}
use libgloss_cpm68k.Bdos.{secsiz}
use libgloss_cpm68k.BlkIo.Transfer.{leading, leading_absent, leading_present, concat}

-- the bytes of the records from `n` on, `k` of them or up to the first that is missing
abbrev pub content : (ℕ → Option (List ℕ)) → ℕ → ℕ → List ℕ
content at n k = concat (leading at n k)

module _ {ℓ} {A : Type ℓ} where
  pub take_all : (n : ℕ) (xs : List A) → length xs ≤ n → take n xs ≡ xs
  take_all zero [] h = refl
  take_all zero (x ∷ xs) h = elim h [ ]
  take_all (suc n) [] h = refl
  take_all (suc n) (x ∷ xs) h = ap (λ (t : List A). x ∷ t) (take_all n xs (omega arith))

  pub take-append_le : (n : ℕ) (xs ys : List A) → n ≤ length xs → take n (xs ++ ys) ≡ take n xs
  take-append_le zero xs ys h = refl
  take-append_le (suc n) [] ys h = elim h [ ]
  take-append_le (suc n) (x ∷ xs) ys h =
      ap (λ (t : List A). x ∷ t) (take-append_le n xs ys (omega arith))

  pub take-append_ge :
      (n r : ℕ) (xs ys : List A) → n ≡ length xs + r → take n (xs ++ ys) ≡ xs ++ take r ys
  take-append_ge n r [] ys h = let e : n ≡ r = omega arith in rw e
  take-append_ge zero r (x ∷ xs) ys h = absurd (omega arith)
  take-append_ge (suc n) r (x ∷ xs) ys h =
      ap (λ (t : List A). x ∷ t) (take-append_ge n r xs ys (omega arith))

  pub drop-append : (n : ℕ) (xs ys : List A) → n ≤ length xs → drop n (xs ++ ys) ≡ drop n xs ++ ys
  drop-append zero xs ys h = refl
  drop-append (suc n) [] ys h = elim h [ ]
  drop-append (suc n) (x ∷ xs) ys h = drop-append n xs ys (omega arith)

module _ (at : ℕ → Option (List ℕ)) where
  pub content_absent : (n k : ℕ) → at n ≡ none → content at n k ≡ []
  unfolding concat leading
  content_absent n zero e = refl
  content_absent n (suc k) e = rw (leading_absent at n k e)

  pub content_present :
      (n k : ℕ) (s : List ℕ) → at n ≡ some s → content at n (suc k) ≡ s ++ content at (n + 1) k
  unfolding concat
  content_present n k s e = rw (leading_present at n k s e)

  -- all of the first `a` records are there
  pub content_whole :
      (a n b : ℕ)
      → length (leading at n a) ≡ a
      → content at n (a + b) ≡ content at n a ++ content at (n + a) b
  unfolding concat leading
  content_whole zero n b h =
      let e : 0 + b ≡ b = omega arith in let z : n + 0 ≡ n = omega arith in rw (e, z)
  content_whole (suc a) n b h = elim (Option-cases (at n)) [
    | inl e ↦ absurd (omega (arith, h, ap length (leading_absent at n a e)))
    | inr (s, e) ↦
        let sum : suc a + b ≡ suc (a + b) = omega arith in
        let next : n + suc a ≡ n + 1 + a = omega arith in
        let rest : length (leading at (n + 1) a) ≡ a =
          omega (arith, h, ap length (leading_present at n a s e)) in
        rw (sum, next, content_present n (a + b) s e, content_present n a s e)
          (ap (λ (t : List ℕ). s ++ t) (content_whole a (n + 1) b rest) ∙ sym (append_assoc s _ _))
  ]

  -- one of them is missing
  pub content_short :
      (a n b : ℕ) → length (leading at n a) < a → content at n (a + b) ≡ content at n a
  unfolding concat leading
  content_short zero n b h = elim h [ ]
  content_short (suc a) n b h = elim (Option-cases (at n)) [
    | inl e ↦ rw (content_absent n (suc a + b) e, content_absent n (suc a) e)
    | inr (s, e) ↦
        let sum : suc a + b ≡ suc (a + b) = omega arith in
        let rest : length (leading at (n + 1) a) < a =
          omega (arith, h, ap length (leading_present at n a s e)) in
        rw (sum, content_present n (a + b) s e, content_present n a s e)
          (ap (λ (t : List ℕ). s ++ t) (content_short a (n + 1) b rest))
  ]

  pub length-content :
      (k n : ℕ)
      → ((i : ℕ) (s : List ℕ) → at i ≡ some s → length s ≡ secsiz)
      → length (content at n k) ≡ secsiz * length (leading at n k)
  unfolding concat leading
  length-content zero n whole = omega arith
  length-content (suc k) n whole = elim (Option-cases (at n)) [
    | inl e ↦ rw (content_absent n (suc k) e, leading_absent at n k e) (omega arith)
    | inr (s, e) ↦
        rw (content_present n k s e, leading_present at n k s e)
          (omega (
            arith,
            length-append s (content at (n + 1) k),
            whole n s e,
            length-content k (n + 1) whole,
          ))
  ]

  pub leading_one : (n : ℕ) (s : List ℕ) → at n ≡ some s → leading at n 1 ≡ s ∷ []
  unfolding leading
  leading_one n s e = leading_present at n 0 s e

  pub content_one : (n : ℕ) (s : List ℕ) → at n ≡ some s → content at n 1 ≡ s
  unfolding concat leading
  content_one n s e = content_present n 0 s e ∙ append-nil s

  pub length-leading : (k n : ℕ) → length (leading at n k) ≤ k
  unfolding leading
  length-leading zero n = omega arith
  length-leading (suc k) n = elim (Option-cases (at n)) [
    | inl e ↦ rw (leading_absent at n k e) (omega arith)
    | inr (s, e) ↦ rw (leading_present at n k s e) (omega (arith, length-leading k (n + 1)))
  ]
