-- ===== src/Heap.antt =====
-- cpmlib/sbrk.c: the end of the heap. Addresses are numbers below 2 ^ 32; the stack pointer, which
-- `brk` reads out of its register, is an argument.
pub mod Growth
use libgloss_cpm68k.Prelude.{ℕ, ◌+◌, ◌-◌, ◌%◌, ◌^◌, Bool, ◌||◌, ltb, ◌==◌, if◌then◌else◌}
use libgloss_cpm68k.Prelude.Words.{add_long, sub_long, lt_long}
use libgloss_cpm68k.State.{Errno, enomem, failure}

-- `_brk` and `errno`
pub record Heap : Type 0 where
  pub end_address : ℕ
  pub errno : Errno

-- an odd address is moved up by one
unfoldable pub even : ℕ → ℕ
even a = if a % 2 == 1 then add_long a 1 else a

-- `brk`
unfoldable pub brk : ℕ → ℕ → Heap → ℕ × Heap
unfolding even
brk stack newbrk h =
    let a = even newbrk in
    if ltb stack a || lt_long (sub_long stack a) 512
    then (failure, record h { errno = enomem })
    else (a, record h { end_address = a })

-- `sbrk`; the increment is a LONG
unfoldable pub sbrk : ℕ → ℕ → Heap → ℕ × Heap
unfolding brk
sbrk stack incr h =
    let (ret, h1) = brk stack (add_long h.end_address incr) h in
    if ret == failure then (failure, record h1 { errno = enomem }) else (h.end_address, h1)
