-- ===== src/Text/Digits.antt =====
-- kernel/lib/string.c: the digits of a number, and what the loop of `uitoa` writes of them.
use pyramid_kernel.Prelude.{
  ℕ, zero, suc, ◌+◌, ◌-◌, ◌*◌, ◌/◌, ◌%◌, ◌^◌, ◌≤◌, ◌<◌, ◌≡◌, ◌≢◌, arith, some, if◌then◌else◌, ◌&&◌,
  ◌∙◌, ◌⊎◌, ap, leb,
}
use native.Mathlib.Nat.{pow-suc, pow-zero, div-lt_iff_lt-mul, div-add-mod, mod-lt, div-eq_of_lt}
use native.Mathlib.Decide.{ℕ_discrete}
use pyramid_kernel.Memory.{Memory, store8}
use pyramid_kernel.Text.{digit_char, digits_loop}
use pyramid_kernel.Text.Width.{digits_loop_last, digits_loop_more}

-- The value of a digit in the text.
unfoldable pub digit_value : ℕ → ℕ
digit_value c = if leb b'0' c && leb c b'9' then c - b'0' else c - b'a' + 10

pub digit_value-digit_char : (a : ℕ) → a < 36 → digit_value (digit_char a) ≡ a
unfolding digit_value digit_char
digit_value-digit_char a small = ground arith

digit_char-ne-zero : (a : ℕ) → a < 36 → digit_char a ≢ 0
unfolding digit_char
digit_char-ne-zero a small = ground arith

-- The number that `n` digits from `p` on stand for, the first digit the lowest.
unfoldable pub read_low : (radix p n : ℕ) → Memory → ℕ
read_low radix p zero m = 0
read_low radix p (suc n) m = digit_value (m p) + radix * read_low radix (p + 1) n m

-- The same, the first digit the highest, as numbers are written.
unfoldable pub read_number : (radix p n acc : ℕ) → Memory → ℕ
read_number radix p zero acc m = acc
read_number radix p (suc n) acc m = read_number radix (p + 1) n (acc * radix + digit_value (m p)) m

-- The digits that the loop has written, from `buf[i]` to in front of `buf[j]`.
pub record Digits (radix buf x i j : ℕ) (m m' : Memory) : Type 0 where
  pub more : i < j
  pub value : read_low radix (buf + i) (j - i) m' ≡ x
  pub text : (b : ℕ) → buf + i ≤ b → b < buf + j → m' b ≢ 0
  pub others : (b : ℕ) → (b < buf + i) ⊎ (buf + j ≤ b) → m' b ≡ m b

module _ (radix buf : ℕ) (low : 2 ≤ radix) (high : radix ≤ 36) where
  read_low-one : (p d : ℕ) (m : Memory) → m p ≡ digit_char d → d < 36 → read_low radix p 1 m ≡ d
  unfolding read_low
  read_low-one p d m e small = omega (arith, ap digit_value e, digit_value-digit_char d small)

  quotient-lt : (fuel x : ℕ) → x < 2 ^ suc fuel → x / radix < 2 ^ fuel
  quotient-lt fuel x fits = (div-lt_iff_lt-mul (omega arith)).1 (grind (arith, pow-suc 2 fuel))

  module _ (x i : ℕ) (m : Memory) where
    abbrev stored : Memory
    stored = store8 m (buf + i) (digit_char (x % radix))

    remainder-lt : x % radix < 36
    remainder-lt = omega (arith, mod-lt x {m = radix} (omega arith))

    Digits-last : x / radix ≡ 0 → Digits radix buf x i (i + 1) m stored
    Digits-last done =
        let whole : x % radix ≡ x = omega (arith, div-add-mod x radix, ap (λ q. radix * q) done) in
        record {
          more = omega arith;
          value =
              ap (λ n. read_low radix (buf + i) n stored) {x = i + 1 - i} {y = 1} (omega arith)
              ∙ read_low-one (buf + i) (x % radix) stored (ground arith) remainder-lt
              ∙ whole;
          text = λ b from to.
              let here : b ≡ buf + i = omega arith in
              ground (arith, digit_char-ne-zero (x % radix) remainder-lt);
          others = λ b out. ground arith;
        }

    Digits-more :
        (j : ℕ) (m' : Memory)
        → Digits radix buf (x / radix) (i + 1) j stored m'
        → Digits radix buf x i j m m'
    unfolding read_low
    Digits-more j m' rest =
        let more : i + 1 < j = rest.more in
        let first : m' (buf + i) ≡ digit_char (x % radix) =
          rest.others (buf + i) (omega arith) ∙ ground arith in
        let digit : digit_value (m' (buf + i)) ≡ x % radix =
          ap digit_value first ∙ digit_value-digit_char (x % radix) remainder-lt in
        let above : read_low radix (buf + i + 1) (j - (i + 1)) m' ≡ x / radix =
          ap (λ p. read_low radix p (j - (i + 1)) m') {x = buf + i + 1} {y = buf + (i + 1)}
            (omega arith)
          ∙ rest.value in
        record {
          more = omega arith;
          value =
              ap (λ n. read_low radix (buf + i) n m') {x = j - i} {y = suc (j - (i + 1))}
                (omega arith)
              ∙ omega (arith, digit, ap (λ q. radix * q) above, div-add-mod x radix);
          text = λ b from to. elim (ℕ_discrete b (buf + i)) [
            | yes e ↦ ground (arith, digit_char-ne-zero (x % radix) remainder-lt)
            | no ne ↦ rest.text b (omega arith) to
          ];
          others = λ b out. rest.others b (omega arith) ∙ ground arith;
        }

  -- With a round for each binary digit of the number the loop ends, and has written its digits.
  pub digits_loop-Digits :
      (fuel x i : ℕ) (m : Memory)
      → x < 2 ^ fuel
      → (j : ℕ) × (m' : Memory) × (digits_loop digit_char radix buf (suc fuel) x i m ≡ some (j, m'))
        × Digits radix buf x i j m m'
  digits_loop-Digits zero x i m fits =
      let done : x / radix ≡ 0 = div-eq_of_lt (omega arith) in
      (
        i + 1,
        stored x i m,
        digits_loop_last digit_char radix buf 0 x i m done,
        Digits-last x i m done,
      )
  digits_loop-Digits (suc fuel) x i m fits = elim (ℕ_discrete (x / radix) 0) [
    | yes done ↦ (
      i + 1,
      stored x i m,
      digits_loop_last digit_char radix buf (suc fuel) x i m done,
      Digits-last x i m done,
    )
    | no further ↦
        let (j, m', e, digits) =
          digits_loop-Digits fuel (x / radix) (i + 1) (stored x i m) (quotient-lt fuel x fits) in
        (
          j,
          m',
          digits_loop_more digit_char radix buf (suc fuel) x i m further ∙ e,
          Digits-more x i m j m' digits,
        )
  ]

-- One more digit at the top.
read_low-snoc :
    (radix p n : ℕ) (m : Memory)
    → read_low radix p (suc n) m ≡ read_low radix p n m + digit_value (m (p + n)) * radix ^ n
unfolding read_low
read_low-snoc radix p zero m = omega (
  arith,
  ap (λ q. digit_value (m q)) {x = p} {y = p + 0} (omega arith),
  ap (λ t. digit_value (m (p + 0)) * t) (pow-zero radix),
)
read_low-snoc radix p (suc n) m = omega (
  arith,
  ap (λ t. radix * t) (read_low-snoc radix (p + 1) n m),
  ap (λ q. digit_value (m q) * radix ^ suc n) {x = p + 1 + n} {y = p + suc n} (omega arith),
  ap (λ t. digit_value (m (p + 1 + n)) * t) (pow-suc radix n),
)

-- Reading the digits turned round, from the highest on, gives the number of the lowest-first reading.
pub read_number-reverse :
    (radix p q n acc : ℕ) (m m' : Memory)
    → ((t : ℕ) → t < n → m' (p + t) ≡ m (q + (n - 1 - t)))
    → read_number radix p n acc m' ≡ acc * radix ^ n + read_low radix q n m
unfolding read_number
read_number-reverse radix p q zero acc m m' turned =
    unfold read_low in omega (arith, ap (λ t. acc * t) (pow-zero radix))
read_number-reverse radix p q (suc n) acc m m' turned =
    let top : m' p ≡ m (q + n) =
      ap m' {x = p} {y = p + 0} (omega arith) ∙ turned 0 (omega arith) ∙ ap m (omega arith) in
    let rest =
      read_number-reverse radix (p + 1) q n (acc * radix + digit_value (m' p)) m m' λ t below.
        ap m' {x = p + 1 + t} {y = p + suc t} (omega arith)
        ∙ turned (suc t) (omega arith)
        ∙ ap m (omega arith) in
    rest
    ∙ omega (
      arith,
      ap (λ c. digit_value c * radix ^ n) top,
      read_low-snoc radix q n m,
      ap (λ t. acc * t) (pow-suc radix n),
    )
