-- ===== src/Text/Numbers.antt =====
-- kernel/lib/string.c: the text that `uitoa` writes.
use pyramid_kernel.Prelude.{
  ℕ, suc, ◌+◌, ◌-◌, ◌^◌, ◌≤◌, ◌<◌, ◌≡◌, ◌≢◌, arith, some, ◌==◌, ◌∙◌, ◌⊎◌, ap, false,
}
use mathlib.Core.Path.{subst}
use pyramid_kernel.Memory.{Memory, store8}
use pyramid_kernel.Text.{digit_char, digits_loop, swap_loop, write_digits, uitoa}
use pyramid_kernel.Text.Swap.{swap_loop_reverses, swap_loop_outside}
use pyramid_kernel.Text.Digits.{read_number, Digits, digits_loop-Digits, read_number-reverse}

-- What a text of `n` digits at `p` says, with what `write_digits` leaves alone.
pub record WritesNumber (radix p x : ℕ) (m m' : Memory) : Type 0 where
  pub count : ℕ
  pub more : 0 < count
  pub value : read_number radix p count 0 m' ≡ x
  pub text : (b : ℕ) → p ≤ b → b < p + count → m' b ≢ 0
  pub end : m' (p + count) ≡ 0
  pub others : (b : ℕ) → (b < p) ⊎ (p + count < b) → m' b ≡ m b

module _ (radix buf start x j : ℕ) (m m₁ : Memory) (digits : Digits radix buf x start j m m₁) where
  abbrev turned : Memory
  turned = swap_loop (j - start) (buf + start) (buf + (j - 1)) m₁

  abbrev ended : Memory
  ended = store8 turned (buf + j) 0

  ended-turned :
      (b : ℕ) → buf + start ≤ b → b < buf + j → ended b ≡ m₁ (buf + start + (buf + (j - 1)) - b)
  ended-turned b from to =
      let kept : ended b ≡ turned b = ground arith in
      kept
      ∙ swap_loop_reverses (j - start) (buf + start) (buf + (j - 1)) b m₁
          (omega (arith, digits.more)) from (omega arith)

  ended-WritesNumber : WritesNumber radix (buf + start) x m ended
  ended-WritesNumber =
      let more : start < j = digits.more in
      record {
        count = j - start;
        more = omega arith;
        value =
            read_number-reverse radix (buf + start) (buf + start) (j - start) 0 m₁ ended (λ t below.
              ended-turned (buf + start + t) (omega arith) (omega arith) ∙ ap m₁ (omega arith))
            ∙ omega (arith, digits.value);
        text = λ b from to. ground (
          arith,
          ended-turned b from (omega arith),
          digits.text (buf + start + (buf + (j - 1)) - b) (omega arith) (omega arith),
        );
        end = ground arith;
        others = λ b out.
            let kept : ended b ≡ turned b = ground arith in
            kept
            ∙ swap_loop_outside (j - start) (buf + start) (buf + (j - 1)) b m₁ (omega arith)
            ∙ digits.others b (omega arith);
      }

write_digits_lem :
    (fuel radix buf start x j : ℕ) (m m₁ : Memory)
    → digits_loop digit_char radix buf fuel x start m ≡ some (j, m₁)
    → write_digits digit_char fuel radix buf start x m
      ≡ some (store8 (swap_loop (j - start) (buf + start) (buf + (j - 1)) m₁) (buf + j) 0)
unfolding write_digits
write_digits_lem fuel radix buf start x j m m₁ e = ground (arith, e)

write_digits-WritesNumber :
    (fuel radix buf start x : ℕ) (m : Memory)
    → 2 ≤ radix
    → radix ≤ 36
    → x < 2 ^ fuel
    → (m' : Memory) × (write_digits digit_char (suc fuel) radix buf start x m ≡ some m')
      × WritesNumber radix (buf + start) x m m'
write_digits-WritesNumber fuel radix buf start x m low high fits =
    let (j, m₁, e, digits) = digits_loop-Digits radix buf low high fuel x start m fits in
    (
      ended radix buf start x j m m₁ digits,
      write_digits_lem (suc fuel) radix buf start x j m m₁ e,
      ended-WritesNumber radix buf start x j m m₁ digits,
    )

uitoa_plain :
    (fuel val buf radix : ℕ) (m : Memory)
    → radix ≢ 16
    → uitoa fuel val buf radix m ≡ write_digits digit_char fuel radix buf 0 val m
unfolding uitoa
uitoa_plain fuel val buf radix m plain = let test : (radix == 16) ≡ false = ground arith in rw test

-- In a radix from 2 to 36 but 16, for a `uint32_t`, 33 rounds are enough: `uitoa` returns, and
-- writes a text that reads back as the number. It writes no byte past the 0 at its end and none in
-- front of the buffer.
pub uitoa-WritesNumber :
    (val buf radix : ℕ) (m : Memory)
    → 2 ≤ radix
    → radix ≤ 36
    → radix ≢ 16
    → val < 2 ^ 32
    → (m' : Memory) × (uitoa 33 val buf radix m ≡ some m') × WritesNumber radix buf val m m'
uitoa-WritesNumber val buf radix m low high plain fits =
    let (m', e, w) = write_digits-WritesNumber 32 radix buf 0 val m low high fits in
    (
      m',
      uitoa_plain 33 val buf radix m plain ∙ e,
      subst (λ p. WritesNumber radix p val m m') {x = buf + 0} {y = buf} (omega arith) w,
    )

-- In radix 16, for a `uint32_t`, 33 rounds are enough: `uitoa` returns, and writes "0x" and then a
-- text that reads back as the number.
pub uitoa_hex :
    (val buf : ℕ) (m : Memory)
    → val < 2 ^ 32
    → (m' : Memory) × (uitoa 33 val buf 16 m ≡ some m')
      × (m' buf ≡ b'0')
      × (m' (buf + 1) ≡ b'x')
      × WritesNumber 16 (buf + 2) val (store8 (store8 m buf b'0') (buf + 1) b'x') m'
unfolding uitoa
uitoa_hex val buf m fits =
    let m₁ = store8 (store8 m buf b'0') (buf + 1) b'x' in
    let same : store8 (store8 m (buf + 0) b'0') (buf + (0 + 1)) b'x' ≡ m₁ =
      ap (λ p. store8 (store8 m p b'0') (buf + 1) b'x') {x = buf + 0} {y = buf} (omega arith) in
    let (m', e, w) =
      write_digits-WritesNumber 32 16 buf 2 val m₁ (omega arith) (omega arith) fits in
    (
      m',
      ap (λ n. write_digits digit_char 33 16 buf 2 val n) same ∙ e,
      w.others buf (omega arith) ∙ ground arith,
      w.others (buf + 1) (omega arith) ∙ ground arith,
      w,
    )
