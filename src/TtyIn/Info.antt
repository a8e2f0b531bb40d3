-- ===== src/TtyIn/Info.antt =====
-- `stty` and `gtty`: which way the terminal information goes.
use libgloss_cpm68k.Prelude.{
  ℕ, zero, suc, ◌<◌, ◌≡◌, refl, ap, ◌∙◌, true, List, [], ◌∷◌, ◌++◌, take, length, arith,
}
use libgloss_cpm68k.State.{World, getccb, putccb, maxccbs}
use libgloss_cpm68k.Channel.Laws.{getccb-putccb_self}
use libgloss_cpm68k.Files.Closing.{chkc-opened}
use libgloss_cpm68k.TtyIn.{tty_info, with_tty_info, stty, gtty}

take-take-append : (n : ℕ) (s t : List ℕ) → length s ≡ n → take n (take n s ++ t) ≡ s
take-take-append zero [] t e = refl
take-take-append zero (c ∷ s) t e = absurd (omega arith)
take-take-append (suc n) [] t e = absurd (omega arith)
take-take-append (suc n) (c ∷ s) t e =
    ap (λ (r : List ℕ). c ∷ r) (take-take-append n s t (omega arith))

-- On a terminal `gtty` stores the caller's eight bytes in the channel and leaves the caller's
-- structure, and `stty` copies the channel's bytes over the caller's and leaves the channel: what
-- `gtty` was given, `stty` gives back. The channel is open and one of the 16 of the table.
pub stty-gtty :
    {Os : Type 0} (fd : ℕ) (c : ℕ) (s other : List ℕ) (w : World Os)
    → length w.fds ≡ maxccbs
    → fd < maxccbs
    → (getccb w fd).flags.opened ≡ true
    → (getccb w fd).flags.is_tty ≡ true
    → length s ≡ 7
    → let w1 = (gtty fd (c ∷ s) w).2 in
      ((gtty fd (c ∷ s) w).0 ≡ 0)
      × ((gtty fd (c ∷ s) w).1 ≡ c ∷ s)
      × (stty fd other w1 ≡ (0, c ∷ s, w1))
unfolding gtty stty
stty-gtty fd c s other w size lt is_open tty len =
    let b = record (getccb w fd) { fcb = with_tty_info (c ∷ s) (getccb w fd).fcb } in
    let w1 = putccb w fd b in
    let got : getccb w1 fd ≡ b = getccb-putccb_self w fd b (omega (arith, size)) in
    let open1 : (getccb w1 fd).flags.opened ≡ true = ap (λ c. c.flags.opened) got ∙ is_open in
    let tty1 : (getccb w1 fd).flags.is_tty ≡ true = ap (λ c. c.flags.is_tty) got ∙ tty in
    let info : tty_info (getccb w1 fd).fcb ≡ c ∷ s =
      ap (λ b. tty_info b.fcb) got ∙ ap (λ (r : List ℕ). c ∷ r) (take-take-append 7 s _ len) in
    let stored : gtty fd (c ∷ s) w ≡ (0, c ∷ s, w1) =
      simp (chkc-opened fd w lt is_open, tty, gtty) refl in
    let read_back : stty fd other w1 ≡ (0, c ∷ s, w1) =
      simp (chkc-opened fd w1 lt open1, tty1, info, stty) refl in
    rw stored (refl, refl, read_back)
