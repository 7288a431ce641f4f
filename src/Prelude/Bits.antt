-- ===== src/Prelude/Bits.antt =====
-- The bits of a word, and what `|`, `&` and `~` do to them; `&` with the masks the kernel uses, as
-- arithmetic.
mod Step
use Step.{or_halves, and_halves, and_zero}
use Prim.Native.Nat.{
  bit_and-bitwise, ℕ, zero, suc, ◌+◌, ◌-◌, ◌*◌, ◌/◌, ◌%◌, ◌^◌, ◌≤◌, ◌<◌, bit_and, bit_or, min, max,
}
use mathlib.Core.Path.{◌≡◌, refl, ap, ◌∙◌}
use native.Mathlib.Nat.{pow-suc, one-le-pow, mul_comm}
use native.Mathlib.Omega.{arith}
use pyramid_kernel.Prelude.Tests.{◌==◌, if◌then◌else◌}

-- Bit `j` of `w`, 0 or 1.
abbrev pub test_bit : ℕ → ℕ → ℕ
test_bit w zero = w % 2
test_bit w (suc j) = test_bit (w / 2) j

pub test_bit-lt : (w j : ℕ) → test_bit w j < 2
test_bit-lt w zero = omega arith
test_bit-lt w (suc j) = test_bit-lt (w / 2) j

pub test_bit-zero : (j : ℕ) → test_bit 0 j ≡ 0
test_bit-zero zero = refl
test_bit-zero (suc j) = test_bit-zero j

pub test_bit-or : (a b j : ℕ) → test_bit (bit_or a b) j ≡ max (test_bit a j) (test_bit b j)
test_bit-or a b zero = omega (arith, or_halves a b)
test_bit-or a b (suc j) =
    let half : bit_or a b / 2 ≡ bit_or (a / 2) (b / 2) = omega (arith, or_halves a b) in
    ap (λ w. test_bit w j) half ∙ test_bit-or (a / 2) (b / 2) j

pub test_bit-and : (a b j : ℕ) → test_bit (bit_and a b) j ≡ min (test_bit a j) (test_bit b j)
test_bit-and a b zero = omega (arith, and_halves a b)
test_bit-and a b (suc j) =
    let half : bit_and a b / 2 ≡ bit_and (a / 2) (b / 2) = omega (arith, and_halves a b) in
    ap (λ w. test_bit w j) half ∙ test_bit-and (a / 2) (b / 2) j

half_pow : (i : ℕ) → 2 ^ suc i / 2 ≡ 2 ^ i
half_pow i = omega (arith, pow-suc 2 i)

pub test_bit-pow : (i j : ℕ) → test_bit (2 ^ i) j ≡ (if i == j then 1 else 0)
test_bit-pow zero zero = refl
test_bit-pow zero (suc j) = test_bit-zero j ∙ ground arith
test_bit-pow (suc i) zero = grind (arith, pow-suc 2 i)
test_bit-pow (suc i) (suc j) = ap (λ w. test_bit w j) (half_pow i) ∙ test_bit-pow i j ∙ ground arith

-- `~x`, in `k` bits.
pub test_bit-not : (k x j : ℕ) → x < 2 ^ k → j < k → test_bit (2 ^ k - 1 - x) j ≡ 1 - test_bit x j
test_bit-not zero x j fits below = absurd (omega arith)
test_bit-not (suc k) x zero fits below = omega (arith, pow-suc 2 k)
test_bit-not (suc k) x (suc j) fits below =
    let half : (2 ^ suc k - 1 - x) / 2 ≡ 2 ^ k - 1 - x / 2 = omega (arith, pow-suc 2 k) in
    ap (λ w. test_bit w j) half
    ∙ test_bit-not k (x / 2) j (omega (arith, pow-suc 2 k)) (omega arith)

double_pow : (q k : ℕ) → q * 2 ^ suc k ≡ q * 2 ^ k * 2
double_pow q k = ap (λ (power : ℕ). q * power) (pow-suc 2 k) ∙ omega arith

-- A mask of `k` ones keeps the low field of `k` bits.
low_field : (k q r : ℕ) → r < 2 ^ k → bit_and (q * 2 ^ k + r) (2 ^ k - 1) ≡ r
low_field zero q r fits = and_zero _ ∙ omega arith
low_field (suc k) q r fits = ground (
  arith,
  and_halves (q * 2 ^ suc k + r) (2 ^ suc k - 1),
  double_pow q k,
  pow-suc 2 k,
  low_field k q (r / 2) (omega arith),
)

pub bit_and-low : (k a : ℕ) → bit_and a (2 ^ k - 1) ≡ a % 2 ^ k
bit_and-low k a = ground (arith, one-le-pow k 2, low_field k (a / 2 ^ k) (a % 2 ^ k))

-- `x & (1 << i)` is not 0 exactly if bit `i` is set.
pub bit_and-pow : (i w : ℕ) → bit_and w (2 ^ i) ≡ test_bit w i * 2 ^ i
bit_and-pow zero w = bit_and-low 1 w ∙ omega arith
bit_and-pow (suc i) w = omega (
  arith,
  and_halves w (2 ^ suc i),
  ap (λ m. bit_and (w / 2) m) (half_pow i),
  pow-suc 2 i,
  double_pow (test_bit (w / 2) i) i,
  bit_and-pow i (w / 2),
)

-- Low zeros of a mask only shift.
high_field : (k q r m : ℕ) → r < 2 ^ k → bit_and (q * 2 ^ k + r) (m * 2 ^ k) ≡ bit_and q m * 2 ^ k
high_field zero q r m fits =
    ap (λ a. bit_and a (m * 1)) shrink ∙ ap (λ b. bit_and q b) one ∙ omega arith
  where
    shrink : q * 1 + r ≡ q
    shrink = omega arith

    one : m * 1 ≡ m
    one = omega arith
high_field (suc k) q r m fits =
    let half : (q * 2 ^ suc k + r) / 2 ≡ q * 2 ^ k + r / 2 = omega (arith, double_pow q k) in
    let mask : m * 2 ^ suc k / 2 ≡ m * 2 ^ k = omega (arith, double_pow m k) in
    omega (
      arith,
      and_halves (q * 2 ^ suc k + r) (m * 2 ^ suc k),
      ap (λ a. bit_and a (m * 2 ^ suc k / 2)) half,
      ap (λ b. bit_and (q * 2 ^ k + r / 2) b) mask,
      high_field k q (r / 2) m (omega (arith, pow-suc 2 k)),
      double_pow (bit_and q m) k,
      double_pow q k,
      double_pow m k,
    )

-- `x & 0xFFFFF000` clears the offset in the page.
pub bit_and-page : (x : ℕ) → x < 2 ^ 32 → bit_and x 0xffff_f000 ≡ x / 4096 * 4096
bit_and-page x fits =
    ap (λ a. bit_and a 0xffff_f000) {x = x} {y = x / 4096 * 2 ^ 12 + x % 4096} (omega arith)
    ∙ high_field 12 (x / 4096) (x % 4096) (2 ^ 20 - 1) (omega arith)
    ∙ omega (arith, bit_and-low 20 (x / 4096))

pub bit_or-lt : (k a b : ℕ) → a < 2 ^ k → b < 2 ^ k → bit_or a b < 2 ^ k
bit_or-lt zero a b ha hb =
    let za : a ≡ 0 = omega arith in let zb : b ≡ 0 = omega arith in rw (za, zb) (omega arith)
bit_or-lt (suc k) a b ha hb = omega (
  arith,
  or_halves a b,
  pow-suc 2 k,
  bit_or-lt k (a / 2) (b / 2) (omega (arith, pow-suc 2 k)) (omega (arith, pow-suc 2 k)),
)

bit_and_nothing : (b : ℕ) → bit_and 0 b ≡ 0
bit_and_nothing b = bit_and-bitwise 0 b

pub bit_and-le : (n a b : ℕ) → a ≤ n → bit_and a b ≤ a
bit_and-le n zero b h = omega (arith, bit_and_nothing b)
bit_and-le zero (suc a) b h = absurd (omega arith)
bit_and-le (suc n) (suc a) b h =
    omega (arith, and_halves (suc a) b, bit_and-le n (suc a / 2) (b / 2) (omega arith))

-- All ones.
pub test_bit-ones : (k j : ℕ) → j < k → test_bit (2 ^ k - 1) j ≡ 1
test_bit-ones k j below =
    ap (λ w. test_bit w j) {x = 2 ^ k - 1} {y = 2 ^ k - 1 - 0} (omega arith)
    ∙ test_bit-not k 0 j (one-le-pow k 2 (omega arith)) below
    ∙ ap (λ b. 1 - b) (test_bit-zero j)
