-- ===== src/Heap/Growth.antt =====
-- `sbrk`: what a program gets, and what stays free for the stack.
use libgloss_cpm68k.Prelude.{
  ℕ, ◌+◌, ◌%◌, ◌^◌, ◌≤◌, ◌<◌, ◌≡◌, ◌⊎◌, inl, inr, refl, false, ◌||◌, Bool-cases, ltb, ◌==◌, arith,
}
use libgloss_cpm68k.Prelude.Words.{add_long, sub_long, lt_long}
use libgloss_cpm68k.State.{enomem, failure}
use libgloss_cpm68k.Heap.{Heap, even, brk, sbrk}

-- the end of the heap leaves 512 bytes below the stack
pub record IsClear (stack : ℕ) (h : Heap) : Type 0 where
  pub gap : h.end_address + 512 ≤ stack
  pub aligned : h.end_address % 2 ≡ 0

-- the block of `n` bytes that a call granted: it starts where the heap ended, and ends below the new
-- end, which is even and leaves 512 bytes below the stack
pub record Granted (stack n : ℕ) (h : Heap) (r : ℕ × Heap) : Type 0 where
  pub start : r.0 ≡ h.end_address
  pub fits : h.end_address + n ≤ r.1.end_address
  pub tight : r.1.end_address ≤ h.end_address + n + 1
  pub clear : IsClear stack r.1

-- the call failed with ENOMEM and the end of the heap stayed
pub record Denied (stack n : ℕ) (h : Heap) (r : ℕ × Heap) : Type 0 where
  pub ret : r.0 ≡ failure
  pub errno : r.1.errno ≡ enomem
  pub same : r.1.end_address ≡ h.end_address
  pub lacking : stack < h.end_address + n + 1 + 512

module _ (stack n : ℕ) (h : Heap) (small : stack < 2 ^ 31) (size : n < 2 ^ 31)
    (clear : IsClear stack h) where
  -- With a stack below 2 ^ 31 and a heap that ends at an even address, 512 bytes below it, `sbrk` of
  -- an increment that is not negative either grants a block of that many bytes, which starts at the old end, and moves
  -- the end behind it, to an even address with 512 bytes free below the stack; or it fails with
  -- ENOMEM, moves nothing, and there was no room for the block.
  pub sbrk_cases : Granted stack n h (sbrk stack n h) ⊎ Denied stack n h (sbrk stack n h)
  unfolding sbrk brk even
  sbrk_cases =
      let target = add_long h.end_address n in
      let a = even target in
      let sum : target ≡ h.end_address + n = omega (arith, clear.gap) in
      let low : target ≤ a = ground arith in
      let high : a ≤ target + 1 = ground arith in
      let two : a % 2 ≡ 0 = ground arith in
      elim (Bool-cases (ltb stack a || lt_long (sub_long stack a) 512)) [
        | inl e ↦
            simp (e, sbrk, brk)
              (inr (record {
                ret = refl;
                errno = refl;
                same = refl;
                lacking = ground (arith, clear.gap);
              }))
        | inr e ↦
            let gap : a + 512 ≤ stack = ground arith in
            let ok : (a == failure) ≡ false = ground arith in
            simp (e, ok, sbrk, brk)
              (inl (record {
                start = refl;
                fits = omega (arith, low, sum);
                tight = omega (arith, high, sum);
                clear = record { gap = gap; aligned = two };
              }))
      ]
