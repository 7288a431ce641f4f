-- ===== src/Text/Signed.antt =====
-- kernel/lib/string.c: `itoa` on negative numbers, and the letters that `strupper` and `strlower` miss.
use pyramid_kernel.Prelude.{
  ℕ, ◌+◌, ◌-◌, ◌^◌, ◌≤◌, ◌<◌, ◌≡◌, refl, arith, ◌==◌, if◌then◌else◌, ◌&&◌, ltb, leb, Bool, true,
  false, zero, suc, ==_iff,
}
use native.Mathlib.Decide.{ℕ_discrete}
use pyramid_kernel.Memory.{Memory}
use pyramid_kernel.Text.{uitoa, itoa, signed_char, digit_char, negative, upper_char, lower_char}

-- On a number that is not negative `itoa` does what `uitoa` does.
pub itoa-uitoa :
    (fuel val buf radix : ℕ) (m : Memory)
    → val < 2 ^ 31
    → itoa fuel val buf radix m ≡ uitoa fuel val buf radix m
unfolding itoa uitoa digit_char signed_char
itoa-uitoa fuel val buf radix m small =
    let positive : negative val ≡ false = ground arith in rw positive refl

-- For a remainder `r` below 36 the byte that `itoa` writes for a negative number is '0' less `r`;
-- it is the digit's character only if `r` is 0.
pub signed_char_negative :
    (r : ℕ)
    → r < 36
    → (signed_char true r ≡ b'0' - r) × ((signed_char true r == digit_char r) ≡ (r == 0))
unfolding signed_char digit_char
signed_char_negative r small = ground arith

-- Over a byte every value is checked.
every_from : (start count : ℕ) → (ℕ → Bool) → Bool
every_from start zero test = true
every_from start (suc count) test = test start && every_from (start + 1) count test

every_from_holds :
    (count start x : ℕ) (test : ℕ → Bool)
    → start ≤ x
    → x < start + count
    → every_from start count test ≡ true
    → test x ≡ true
unfolding every_from
every_from_holds zero start x test low high passed = absurd (omega arith)
every_from_holds (suc count) start x test low high passed = elim (ℕ_discrete x start) [
  | yes here ↦ rw here (ground arith)
  | no further ↦
      every_from_holds count (start + 1) x test (omega arith) (omega arith) (ground arith)
]

upper_table :
    every_from 0 256 (λ c. upper_char c == (
      if leb b'a' c && leb c b'o' then c - 32 else if leb b'p' c && ltb c b'z' then c - 48 else c))
    ≡ true
unfolding every_from upper_char
upper_table = refl

lower_table :
    every_from 0 256 (λ c. lower_char c == (if leb b'A' c && ltb c b'Z' then c + 32 else c)) ≡ true
unfolding every_from lower_char
lower_table = refl

-- For a byte, `strupper` changes a lower-case letter to its capital exactly for 'a' to 'o': 'p' to
-- 'y' become '@' to 'I', and 'z' stays.
pub upper_char_lem :
    (c : ℕ)
    → c < 256
    → upper_char c ≡ (
        if leb b'a' c && leb c b'o' then c - 32 else if leb b'p' c && ltb c b'z' then c - 48 else c)
upper_char_lem c small =
    (==_iff _ _).0 (every_from_holds 256 0 c _ (omega arith) (omega arith) upper_table)

-- `strlower` changes a capital to its letter for 'A' to 'Y'; 'Z' stays.
pub lower_char_lem :
    (c : ℕ) → c < 256 → lower_char c ≡ (if leb b'A' c && ltb c b'Z' then c + 32 else c)
lower_char_lem c small =
    (==_iff _ _).0 (every_from_holds 256 0 c _ (omega arith) (omega arith) lower_table)
