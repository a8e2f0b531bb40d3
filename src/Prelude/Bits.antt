-- ===== src/Prelude/Bits.antt =====
-- Single bits of a number: `v & (1 << i)`, `v | (1 << i)` and `v & ~(1 << i)`, by recursion on the
-- position.
use Prim.Native.Nat.{ℕ, zero, suc, ◌+◌, ◌-◌, ◌*◌, ◌/◌, ◌%◌, ◌<◌}
use mathlib.Core.Path.{◌≡◌, refl, ap}
use mathlib.Core.Logic.{◌≢◌}
use mathlib.Core.Bool.{Bool, true, false}
use native.Mathlib.Omega.{arith}
use libgloss_cpm68k.Prelude.Tests.{◌==◌}

unfoldable pub test_bit : ℕ → ℕ → Bool
test_bit v zero = v % 2 == 1
test_bit v (suc i) = test_bit (v / 2) i

unfoldable pub set_bit : ℕ → ℕ → ℕ
set_bit v zero = v - v % 2 + 1
set_bit v (suc i) = v % 2 + 2 * set_bit (v / 2) i

unfoldable pub clear_bit : ℕ → ℕ → ℕ
clear_bit v zero = v - v % 2
clear_bit v (suc i) = v % 2 + 2 * clear_bit (v / 2) i

half_of_digit : (b n : ℕ) → b < 2 → (b + 2 * n) / 2 ≡ n
half_of_digit b n h = omega arith

pub test_bit-set_bit_self : (v i : ℕ) → test_bit (set_bit v i) i ≡ true
unfolding test_bit set_bit
test_bit-set_bit_self v zero = ground arith
test_bit-set_bit_self v (suc i) =
    rw (half_of_digit (v % 2) (set_bit (v / 2) i) (omega arith)) (test_bit-set_bit_self (v / 2) i)

pub test_bit-clear_bit_self : (v i : ℕ) → test_bit (clear_bit v i) i ≡ false
unfolding test_bit clear_bit
test_bit-clear_bit_self v zero = ground arith
test_bit-clear_bit_self v (suc i) =
    rw (half_of_digit (v % 2) (clear_bit (v / 2) i) (omega arith))
      (test_bit-clear_bit_self (v / 2) i)

pub test_bit-set_bit_ne : (v i j : ℕ) → i ≢ j → test_bit (set_bit v i) j ≡ test_bit v j
unfolding test_bit set_bit
test_bit-set_bit_ne v zero zero h = absurd (h refl)
test_bit-set_bit_ne v zero (suc j) h = ap (λ (k : ℕ). test_bit k j) (omega arith)
test_bit-set_bit_ne v (suc i) zero h = ground arith
test_bit-set_bit_ne v (suc i) (suc j) h =
    rw (half_of_digit (v % 2) (set_bit (v / 2) i) (omega arith))
      (test_bit-set_bit_ne (v / 2) i j (λ e. h (ap suc e)))

pub test_bit-clear_bit_ne : (v i j : ℕ) → i ≢ j → test_bit (clear_bit v i) j ≡ test_bit v j
unfolding test_bit clear_bit
test_bit-clear_bit_ne v zero zero h = absurd (h refl)
test_bit-clear_bit_ne v zero (suc j) h = ap (λ (k : ℕ). test_bit k j) (omega arith)
test_bit-clear_bit_ne v (suc i) zero h = ground arith
test_bit-clear_bit_ne v (suc i) (suc j) h =
    rw (half_of_digit (v % 2) (clear_bit (v / 2) i) (omega arith))
      (test_bit-clear_bit_ne (v / 2) i j (λ e. h (ap suc e)))

-- Clearing a bit that was clear before it was set gives the number back.
pub clear_bit-set_bit : (v i : ℕ) → test_bit v i ≡ false → clear_bit (set_bit v i) i ≡ v
unfolding test_bit set_bit clear_bit
clear_bit-set_bit v zero h = ground arith
clear_bit-set_bit v (suc i) h =
    rw (half_of_digit (v % 2) (set_bit (v / 2) i) (omega arith))
      (rw (clear_bit-set_bit (v / 2) i h) (omega arith))
