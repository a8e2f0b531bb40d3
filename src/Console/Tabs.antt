-- ===== src/Console/Tabs.antt =====
-- The inner loop of `_wrtchr` with tab expansion.
pub mod Shown
use libgloss_cpm68k.Prelude.{
  ℕ, zero, suc, ◌+◌, ◌-◌, ◌%◌, ◌^◌, ◌≤◌, ◌<◌, ◌≡◌, refl, sym, ap, ◌∙◌, inl, inr, true, false, List,
  [], ◌∷◌, ◌++◌, append-nil, append_assoc, Bool-cases, ◌==◌, ◌&&◌, ==_iff, ==_false, if◌then◌else◌,
  length, replicate, arith, ltb,
}
use libgloss_cpm68k.Bdos.{Bdos, secsiz}
use libgloss_cpm68k.Bdos.Laws.{DeviceLaws}
use libgloss_cpm68k.Handle.{Handle}
use libgloss_cpm68k.Console.{
  ttyout, Line, line_done, prepend, fill_line, wrtchr_loop, wrtchr, expands_tabs,
}
use libgloss_cpm68k.Console.Output.{ttyout_shows}

-- the characters of a list that are no tabs
unfoldable pub countable : List ℕ → ℕ
countable [] = 0
countable (c ∷ s) = let rest = countable s in if c == 0x09 then rest else suc rest

-- what a terminal gets for the bytes of `s` up to the `n`th that is no tab, at column `k` of 8:
-- a tab becomes the spaces up to the next multiple of 8, and a newline gets a carriage return
unfoldable pub expanded : ℕ → ℕ → List ℕ → List ℕ
expanded k n [] = []
expanded k n (c ∷ s) =
    let newline = expanded 0 (n - 1) s in
    let tab = expanded 0 n s in
    let plain = expanded ((k + 1) % 8) (n - 1) s in
    if n == 0
    then []
    else if c == 0x0a
    then 0x0d ∷ 0x0a ∷ newline
    else if c == 0x09
    then replicate (8 - k) 0x20 ++ tab
    else c ∷ plain

-- what a filling leaves of `buf` and `nbs`, with what it put in the local buffer
pub record IsExpanded (col : ℕ) (buf : List ℕ) (nbs : ℕ) (l : Line) : Type 0 where
  pub bound : length l.buf ≤ length buf
  pub within : l.nbs ≤ countable l.buf
  pub text : l.out ++ expanded (l.col % 8) l.nbs l.buf ≡ expanded (col % 8) nbs buf

expanded_newline :
    (c k n : ℕ) (s : List ℕ)
    → (c == 0x0a) ≡ true
    → expanded k (suc n) (c ∷ s) ≡ 0x0d ∷ 0x0a ∷ expanded 0 n s
unfolding expanded
expanded_newline c k n s newline =
    let p : suc n - 1 ≡ n = omega arith in
    let pos : (suc n == 0) ≡ false = ground arith in rw (pos, newline, p) refl

expanded_tab :
    (c col next n : ℕ) (s : List ℕ)
    → (c == 0x0a) ≡ false
    → (c == 0x09) ≡ true
    → next % 8 ≡ 0
    → expanded (col % 8) (suc n) (c ∷ s)
      ≡ replicate (8 - col % 8) 0x20 ++ expanded (next % 8) (suc n) s
unfolding expanded
expanded_tab c col next n s no_newline tab e =
    let pos : (suc n == 0) ≡ false = ground arith in rw (pos, no_newline, tab, e) refl

expanded_plain :
    (c col next n : ℕ) (s : List ℕ)
    → (c == 0x0a) ≡ false
    → (c == 0x09) ≡ false
    → next % 8 ≡ (col % 8 + 1) % 8
    → expanded (col % 8) (suc n) (c ∷ s) ≡ c ∷ expanded (next % 8) n s
unfolding expanded
expanded_plain c col next n s no_newline no_tab e =
    let p : suc n - 1 ≡ n = omega arith in
    let pos : (suc n == 0) ≡ false = ground arith in rw (pos, no_newline, no_tab, e, p) refl

pub expanded_none : (k : ℕ) (s : List ℕ) → expanded k 0 s ≡ []
unfolding expanded
expanded_none k [] = refl
expanded_none k (c ∷ s) = refl

-- one byte in front of what a filling goes on with
module _ (col : ℕ) (buf : List ℕ) (n c : ℕ) (l : Line) where
  IsExpanded-newline :
      (c == 0x0a) ≡ true
      → IsExpanded 0 buf n l
      → IsExpanded col (c ∷ buf) (suc n) (prepend (0x0d ∷ 0x0a ∷ []) l)
  IsExpanded-newline newline f = record {
    bound = omega (arith, f.bound);
    within = f.within;
    text =
        ap (λ (t : List ℕ). 0x0d ∷ 0x0a ∷ t) f.text
        ∙ sym (expanded_newline c (col % 8) n buf newline);
  }

  IsExpanded-tab :
      (c == 0x0a) ≡ false
      → (c == 0x09) ≡ true
      → IsExpanded ((col + (8 - col % 8)) % 2 ^ 16) buf (suc n) l
      → IsExpanded col (c ∷ buf) (suc n) (prepend (replicate (8 - col % 8) 0x20) l)
  IsExpanded-tab no_newline tab f = record {
    bound = omega (arith, f.bound);
    within = f.within;
    text =
        append_assoc (replicate (8 - col % 8) 0x20) l.out (expanded (l.col % 8) l.nbs l.buf)
        ∙ ap (λ (t : List ℕ). replicate (8 - col % 8) 0x20 ++ t) f.text
        ∙ sym (
            expanded_tab c col ((col + (8 - col % 8)) % 2 ^ 16) n buf no_newline tab (omega arith));
  }

  IsExpanded-plain :
      (c == 0x0a) ≡ false
      → (c == 0x09) ≡ false
      → IsExpanded ((col + 1) % 2 ^ 16) buf n l
      → IsExpanded col (c ∷ buf) (suc n) (prepend (c ∷ []) l)
  IsExpanded-plain no_newline no_tab f = record {
    bound = omega (arith, f.bound);
    within = f.within;
    text =
        ap (λ (t : List ℕ). c ∷ t) f.text
        ∙ sym (expanded_plain c col ((col + 1) % 2 ^ 16) n buf no_newline no_tab (omega arith));
  }

-- a newline that does not fit is left, whatever the column says
IsExpanded-left :
    (col next : ℕ) (buf : List ℕ) (n c : ℕ)
    → (c == 0x0a) ≡ true
    → suc n ≤ countable (c ∷ buf)
    → IsExpanded col (c ∷ buf) (suc n) (line_done next (c ∷ buf) (suc n))
IsExpanded-left col next buf n c newline le = record {
  bound = omega arith;
  within = le;
  text =
      expanded_newline c (next % 8) n buf newline
      ∙ sym (expanded_newline c (col % 8) n buf newline);
}

pub fill_line-IsExpanded :
    (fuel ii col : ℕ) (buf : List ℕ) (nbs : ℕ)
    → nbs ≤ countable buf
    → IsExpanded col buf nbs (fill_line fuel true ii col buf nbs)
unfolding fill_line countable
fill_line-IsExpanded zero ii col buf nbs le = record {
  bound = omega arith;
  within = le;
  text = refl;
}
fill_line-IsExpanded (suc fuel) ii col buf zero le =
    let stay : IsExpanded col buf 0 (line_done col buf 0) = record {
      bound = omega arith;
      within = le;
      text = refl;
    } in
    ground (arith, stay)
fill_line-IsExpanded (suc fuel) ii col [] (suc n) le = elim le [ ]
fill_line-IsExpanded (suc fuel) ii col (c ∷ buf) (suc n) le =
    let p : suc n - 1 ≡ n = omega arith in
    let pos : (suc n == 0) ≡ false = ground arith in
    let nsp = 8 - col % 8 in
    let stay : IsExpanded col (c ∷ buf) (suc n) (line_done col (c ∷ buf) (suc n)) = record {
      bound = omega arith;
      within = le;
      text = refl;
    } in
    elim (Bool-cases (ltb ii secsiz)) [
      | inr full ↦ rw full stay
      | inl room ↦ elim (Bool-cases (c == 0x0a)) [
        | inl newline ↦
            let fits = fill_line-IsExpanded fuel (ii + 2) 0 buf n (ground (arith, le)) in
            rw (room, pos, newline, p)
              (ground (
                arith,
                IsExpanded-newline col buf n c _ newline fits,
                IsExpanded-left col (2 ^ 16 - 1) buf n c newline le,
              ))
        | inr no_newline ↦ elim (Bool-cases (c == 0x09)) [
          | inl tab ↦
              let f =
                fill_line-IsExpanded fuel (ii + nsp) ((col + nsp) % 2 ^ 16) buf (suc n)
                  (ground (arith, le)) in
              rw (room, pos, no_newline, tab)
                (ground (arith, stay, IsExpanded-tab col buf n c _ no_newline tab f))
          | inr no_tab ↦
              let f =
                fill_line-IsExpanded fuel (ii + 1) ((col + 1) % 2 ^ 16) buf n
                  (ground (arith, le)) in
              rw (room, pos, no_newline, no_tab, p)
                (IsExpanded-plain col buf n c _ no_newline no_tab f)
        ]
      ]
    ]
