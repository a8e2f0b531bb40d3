-- ===== src/Calls/Sound.antt =====
-- The invariant of the channel table, and the changes of the library's state that keep it.
use libgloss_cpm68k.Prelude.{
  ℕ, ◌<◌, ◌≡◌, ◌⊎◌, inl, inr, refl, sym, ap, ◌∙◌, true, false, none, some, arith, Bool-cases, ◌==◌,
  ==_iff, ==_false, length, get_or_beyond, dec_lt,
}
use libgloss_cpm68k.Prelude.Bits.{
  test_bit, set_bit, test_bit-set_bit_self, test_bit-set_bit_ne, test_bit-clear_bit_ne,
}
use libgloss_cpm68k.Prelude.Words.{lt_long}
use libgloss_cpm68k.State.{World, Ccb, Flags, Errno, ebadf, emfile, maxccbs, getccb, putccb}
use libgloss_cpm68k.Channel.{allocc, freec, init_ccb, chinit_one, chkc}
use libgloss_cpm68k.Channel.Laws.{
  getccb-putccb_self, getccb-putccb_ne, length-putccb, putccb_frame, outside-putccb, allocc_cases,
}
use libgloss_cpm68k.Handle.{Handle, on_channel}
use libgloss_cpm68k.Kind.{chkc_cases}
use libgloss_cpm68k.Calls.Transfers.{kind_of}

pub false-ne-true : ¬ (false ≡ true)
false-ne-true h = cc

-- The table has its 16 blocks, the storage outside of it is `o`, every open block belongs to an
-- allocated channel, and it carries that channel's number.
pub record IsSound {Os : Type 0} (o : Ccb) (w : World Os) : Type 0 where
  pub size : length w.fds ≡ maxccbs
  pub outside : w.outside ≡ o
  pub allocated :
      (i : ℕ) → i < maxccbs → (getccb w i).flags.opened ≡ true → test_bit w.chvec i ≡ true
  pub numbered : (i : ℕ) → i < maxccbs → (getccb w i).flags.opened ≡ true → (getccb w i).chan ≡ i

module _ {Os : Type 0} {o : Ccb} where
  pub IsSound-machine :
      {w : World Os} (e : Errno) (m : Os) → IsSound o w → IsSound o (record w { errno = e; os = m })
  unfolding getccb
  IsSound-machine e m s = record {
    size = s.size;
    outside = s.outside;
    allocated = s.allocated;
    numbered = s.numbered;
  }

  -- a block of the table is replaced
  pub IsSound-putccb :
      (w : World Os) (i : ℕ) (c : Ccb)
      → i < maxccbs
      → (c.flags.opened ≡ true → (test_bit w.chvec i ≡ true) × (c.chan ≡ i))
      → IsSound o w
      → IsSound o (putccb w i c)
  IsSound-putccb w i c lt fits s =
      let below : i < length w.fds = omega (arith, s.size) in
      let got : (j : ℕ)
          → ((i ≡ j) × (getccb (putccb w i c) j ≡ c)) ⊎ (getccb (putccb w i c) j ≡ getccb w j) =
        λ j. elim (Bool-cases (i == j)) [
          | inl e ↦
              let same : i ≡ j = (==_iff i j).0 e in
              inl (same, rw (← same) (getccb-putccb_self w i c below))
          | inr e ↦ inr (getccb-putccb_ne w i j c below (==_false i j e))
        ] in
      record {
        size = length-putccb w i c ∙ s.size;
        outside = outside-putccb w i c below ∙ s.outside;
        allocated = λ j lj is_open. elim (got j) [
          | inl (same, e) ↦
              ap (λ (n : ℕ). test_bit n j) (putccb_frame w i c).0
              ∙ rw (← same) (fits (ap (λ (c : Ccb). c.flags.opened) (sym e) ∙ is_open)).0
          | inr e ↦
              ap (λ (n : ℕ). test_bit n j) (putccb_frame w i c).0
              ∙ s.allocated j lj (ap (λ (c : Ccb). c.flags.opened) (sym e) ∙ is_open)
        ];
        numbered = λ j lj is_open. elim (got j) [
          | inl (same, e) ↦
              ap (λ (c : Ccb). c.chan) e
              ∙ (fits (ap (λ (c : Ccb). c.flags.opened) (sym e) ∙ is_open)).1
              ∙ same
          | inr e ↦
              ap (λ (c : Ccb). c.chan) e
              ∙ s.numbered j lj (ap (λ (c : Ccb). c.flags.opened) (sym e) ∙ is_open)
        ];
      }

  -- a block is replaced by one of its kind
  pub IsSound-kind :
      (w : World Os) (i : ℕ) (c : Ccb)
      → i < maxccbs
      → kind_of c ≡ kind_of (getccb w i)
      → IsSound o w
      → IsSound o (putccb w i c)
  IsSound-kind w i c lt k s =
      IsSound-putccb w i c lt
        (λ is_open.
          let old : (getccb w i).flags.opened ≡ true =
            ap (λ (t : Flags × ℕ × ℕ). t.0.opened) (sym k) ∙ is_open in
          (s.allocated i lt old, ap (λ (t : Flags × ℕ × ℕ). t.1) k ∙ s.numbered i lt old))
        s

  -- an operation on a channel's block that keeps its kind
  pub IsSound-on_channel :
      {A : Type 0} (w : World Os) (i : ℕ) (run : Handle Os → A × Handle Os)
      → i < maxccbs
      → ((h : Handle Os) → kind_of (run h).1.fp ≡ kind_of h.fp)
      → IsSound o w
      → IsSound o (on_channel i run w).1
  unfolding getccb
  IsSound-on_channel w i run lt k s =
      let h = run (record { fp = getccb w i; errno = w.errno; os = w.os }) in
      IsSound-kind (record w { errno = h.1.errno; os = h.1.os }) i h.1.fp lt (k _)
        (IsSound-machine h.1.errno h.1.os s)

  -- `_chkc` lets only open blocks of the table pass
  pub chkc-IsSound :
      (fd : ℕ) (w : World Os)
      → o.flags.opened ≡ false
      → IsSound o w
      → ((fd < maxccbs) × (chkc fd w ≡ (some (getccb w fd), w)))
        ⊎ (chkc fd w ≡ (none, record w { errno = ebadf }))
  unfolding chkc getccb
  chkc-IsSound fd w shut s = elim (dec_lt fd maxccbs) [
    | yes lt ↦ elim (chkc_cases fd w) [ inl e ↦ inl (lt, e) | inr e ↦ inr e ]
    | no ge ↦
        let closed : (getccb w fd).flags.opened ≡ false =
          ap (λ (c : Ccb). c.flags.opened)
            (get_or_beyond w.fds fd w.outside (omega (arith, s.size)) ∙ s.outside)
          ∙ shut in
        elim (Bool-cases (lt_long fd maxccbs)) [
          | inl e ↦ inr (simp (e, closed, chkc) refl)
          | inr e ↦ inr (simp (e, chkc) refl)
        ]
  ]

  IsSound-set_bit :
      (w : World Os) (i : ℕ) → IsSound o w → IsSound o (record w { chvec = set_bit w.chvec i })
  unfolding getccb
  IsSound-set_bit w i s = record {
    size = s.size;
    outside = s.outside;
    allocated = λ j lj is_open. elim (Bool-cases (i == j)) [
      | inl e ↦ let same : i ≡ j = (==_iff i j).0 e in rw same (test_bit-set_bit_self w.chvec j)
      | inr e ↦ test_bit-set_bit_ne w.chvec i j (==_false i j e) ∙ s.allocated j lj is_open
    ];
    numbered = s.numbered;
  }

  pub IsSound-allocc : (w : World Os) → IsSound o w → IsSound o (allocc w).1
  IsSound-allocc w s = elim (allocc_cases w) [
    | inl took ↦ rw took.after (IsSound-set_bit w (allocc w).0 s)
    | inr full ↦ rw full.after (IsSound-machine emfile w.os s)
  ]

  pub IsSound-freec :
      (w : World Os) (i : ℕ)
      → (getccb w i).flags.opened ≡ false
      → IsSound o w
      → IsSound o (freec i w).1
  unfolding freec getccb
  IsSound-freec w i closed s = record {
    size = s.size;
    outside = s.outside;
    allocated = λ j lj is_open. elim (Bool-cases (i == j)) [
      | inl e ↦
          let same : i ≡ j = (==_iff i j).0 e in
          absurd
            (false-ne-true (sym closed ∙ ap (λ (k : ℕ). (getccb w k).flags.opened) same ∙ is_open))
      | inr e ↦ test_bit-clear_bit_ne w.chvec i j (==_false i j e) ∙ s.allocated j lj is_open
    ];
    numbered = s.numbered;
  }

  pub IsSound-chinit_one :
      (w : World Os) (i : ℕ) → i < maxccbs → IsSound o w → IsSound o (chinit_one i w)
  unfolding chinit_one
  IsSound-chinit_one w i lt s =
      IsSound-putccb w i (init_ccb i (getccb w i)) lt (λ e. absurd (false-ne-true e)) s
