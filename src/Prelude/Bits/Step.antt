-- ===== src/Prelude/Bits/Step.antt =====
-- `|` and `&` on the native numbers, one binary digit at a time. They mean a loop over the digits that
-- runs as many rounds as the first number says, which is more than it has digits.
use Prim.Native.Nat.{
  ℕ, zero, suc, ◌+◌, ◌*◌, ◌/◌, ◌%◌, ◌≤◌, min, max, digits, bitwise, bit_and, bit_or,
  bit_and-bitwise, bit_or-bitwise,
}
use mathlib.Core.Path.{◌≡◌, refl}
use native.Mathlib.Omega.{arith}

module _ (last : ℕ → ℕ) (op : ℕ → ℕ → ℕ) where
  -- Rounds beyond the value of the first number change nothing.
  settled :
      (x y few many : ℕ) → x ≤ few → few ≤ many → digits last op many x y ≡ digits last op few x y
  settled zero y zero zero below more = refl
  settled zero y zero (suc many) below more = refl
  settled zero y (suc few) (suc many) below more = refl
  settled (suc x) y (suc few) (suc many) below more =
      rw (settled (suc x / 2) (y / 2) few many (omega arith) (omega arith)) refl
  settled (suc x) y zero many below more = absurd (omega arith)
  settled x y (suc few) zero below more = absurd (omega arith)

  low_digit :
      (x y : ℕ)
      → bitwise last op (suc x) y ≡ op (suc x % 2) (y % 2) + 2 * bitwise last op (suc x / 2) (y / 2)
  low_digit x y =
      omega (arith, settled (suc x / 2) (y / 2) (suc x / 2) x (omega arith) (omega arith))

pub and_halves : (x y : ℕ) → bit_and x y ≡ min (x % 2) (y % 2) + 2 * bit_and (x / 2) (y / 2)
and_halves zero y = simp bit_and-bitwise (omega arith)
and_halves (suc x) y = simp bit_and-bitwise (low_digit (λ _. 0) min x y)

pub or_halves : (x y : ℕ) → bit_or x y ≡ max (x % 2) (y % 2) + 2 * bit_or (x / 2) (y / 2)
or_halves zero y = simp bit_or-bitwise (omega arith)
or_halves (suc x) y = simp bit_or-bitwise (low_digit (λ k. k) max x y)

nothing_common : (rounds x : ℕ) → digits (λ _. 0) min rounds x 0 ≡ 0
nothing_common zero x = refl
nothing_common (suc rounds) zero = refl
nothing_common (suc rounds) (suc x) = omega (arith, nothing_common rounds (suc x / 2))

pub and_zero : (x : ℕ) → bit_and x 0 ≡ 0
and_zero x = simp bit_and-bitwise (nothing_common x x)
