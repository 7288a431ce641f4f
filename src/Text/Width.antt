-- ===== src/Text/Width.antt =====
-- kernel/lib/string.c: how much of the buffer `itoa` and `uitoa` write.
use pyramid_kernel.Prelude.{
  ℕ, zero, suc, refl, ◌+◌, ◌-◌, ◌*◌, ◌/◌, ◌%◌, ◌^◌, ◌≤◌, ◌<◌, ◌≡◌, ◌≢◌, ◌⊎◌, inl, inr, arith,
  Option, some, ◌==◌, ◌∙◌, ap, ==_iff, true, false, Bool-cases,
}
use native.Mathlib.Nat.{pow-suc, pow-zero, div-lt_iff_lt-mul, div-eq_of_lt}
use native.Mathlib.Decide.{ℕ_discrete}
use pyramid_kernel.Memory.{Memory, store8}
use pyramid_kernel.Text.{
  digit_char, signed_char, digits_loop, swap_loop, write_digits, write_prefix, uitoa, itoa,
  negative,
}
use pyramid_kernel.Text.Swap.{swap_loop_outside}

module _ (char : ℕ → ℕ) (radix buf : ℕ) where
  pub digits_loop_last :
      (fuel x i : ℕ) (m : Memory)
      → x / radix ≡ 0
      → digits_loop char radix buf (suc fuel) x i m
        ≡ some (i + 1, store8 m (buf + i) (char (x % radix)))
  unfolding digits_loop
  digits_loop_last fuel x i m done = rw ((==_iff (x / radix) 0).1 done)

  pub digits_loop_more :
      (fuel x i : ℕ) (m : Memory)
      → x / radix ≢ 0
      → digits_loop char radix buf (suc fuel) x i m
        ≡ digits_loop char radix buf fuel
            (x / radix)
            (i + 1)
            (store8 m (buf + i) (char (x % radix)))
  unfolding digits_loop
  digits_loop_more fuel x i m further =
      let test : (x / radix == 0) ≡ false = ground arith in rw test

  -- The loop has gone from `i` to `j`, and written nothing beside.
  record Writes (i j : ℕ) (m m' : Memory) : Type 0 where
    more : i < j
    others : (b : ℕ) → (b < buf + i) ⊎ (buf + j ≤ b) → m' b ≡ m b

  abbrev stored : (x i : ℕ) → Memory → Memory
  stored x i m = store8 m (buf + i) (char (x % radix))

  stored-Writes : (x i : ℕ) (m : Memory) → Writes i (i + 1) m (stored x i m)
  stored-Writes x i m = record { more = omega arith; others = λ b out. ground arith }

  -- A number below `radix ^ suc n` takes at most `suc n` rounds.
  digits_loop-Writes :
      2 ≤ radix
      → (n fuel x i : ℕ) (m : Memory) → x < radix ^ suc n
      → n < fuel
      → (j : ℕ) × (m' : Memory) × (digits_loop char radix buf fuel x i m ≡ some (j, m'))
        × Writes i j m m'
        × (j ≤ i + suc n)
  digits_loop-Writes low n zero x i m fits enough = absurd (omega arith)
  digits_loop-Writes low zero (suc fuel) x i m fits enough =
      let done : x / radix ≡ 0 =
        div-eq_of_lt (omega (arith, pow-suc radix 0, ap (λ t. t * radix) (pow-zero radix))) in
      (i + 1, stored x i m, digits_loop_last fuel x i m done, stored-Writes x i m, omega arith)
  digits_loop-Writes low (suc n) (suc fuel) x i m fits enough = elim (ℕ_discrete (x / radix) 0) [
    | yes done ↦
        (i + 1, stored x i m, digits_loop_last fuel x i m done, stored-Writes x i m, omega arith)
    | no further ↦
        let above : x / radix < radix ^ suc n =
          (div-lt_iff_lt-mul (omega arith)).1 (grind (arith, pow-suc radix (suc n))) in
        let (j, m', e, rest, most) =
          digits_loop-Writes low n fuel (x / radix) (i + 1) (stored x i m) above (omega arith) in
        (
          j,
          m',
          digits_loop_more fuel x i m further ∙ e,
          record {
            more = omega (arith, rest.more);
            others = λ b out.
                rest.others b (omega (arith, rest.more))
                ∙ (stored-Writes x i m).others b (omega (arith, rest.more));
          },
          omega arith,
        )
  ]

  -- For a number below `radix ^ suc n` all of the text and its end lie in `n + 2` bytes.
  write_digits_within :
      2 ≤ radix
      → (n fuel start x : ℕ) (m : Memory) → x < radix ^ suc n
      → n < fuel
      → (m' : Memory) × (write_digits char fuel radix buf start x m ≡ some m')
        × ((b : ℕ) → (b < buf + start) ⊎ (buf + start + n + 1 < b) → m' b ≡ m b)
  unfolding write_digits
  write_digits_within low n fuel start x m fits enough =
      let (j, m₁, e, wrote, most) = digits_loop-Writes low n fuel x start m fits enough in
      let m₂ = swap_loop (j - start) (buf + start) (buf + (j - 1)) m₁ in
      (
        store8 m₂ (buf + j) 0,
        rw e refl,
        λ b out.
            let kept : store8 m₂ (buf + j) 0 b ≡ m₂ b = ground (arith, wrote.more) in
            kept
            ∙ swap_loop_outside (j - start) (buf + start) (buf + (j - 1)) b m₁
                (omega (arith, wrote.more))
            ∙ wrote.others b (omega (arith, wrote.more)),
      )

-- The conversion returns, and writes no byte but the 12 from `buf` on.
abbrev pub Within : (buf : ℕ) (m : Memory) → Option Memory → Type 0
Within buf m r = (m' : Memory) × (r ≡ some m') × ((b : ℕ) → (b < buf) ⊎ (buf + 12 ≤ b) → m' b ≡ m b)

module _ (val buf : ℕ) (m : Memory) (fits : val < 2 ^ 32) where
  uitoa_decimal : Within buf m (uitoa 33 val buf 10 m)
  unfolding uitoa write_prefix
  uitoa_decimal =
      let (m', e, kept) =
        write_digits_within digit_char 10 buf (omega arith) 9 33 0 val m (omega arith)
          (omega arith) in
      (m', e, λ b out. kept b (omega arith))

  uitoa_hexadecimal : Within buf m (uitoa 33 val buf 16 m)
  unfolding uitoa write_prefix
  uitoa_hexadecimal =
      let m₁ = store8 (store8 m (buf + 0) b'0') (buf + (0 + 1)) b'x' in
      let (m', e, kept) =
        write_digits_within digit_char 16 buf (omega arith) 7 33 2 val m₁ (omega arith)
          (omega arith) in
      (m', e, λ b out. kept b (omega arith) ∙ ground arith)

  itoa_decimal : Within buf m (itoa 33 val buf 10 m)
  unfolding itoa write_prefix
  itoa_decimal = elim (Bool-cases (negative val)) [
    | inl minus ↦
        let (m', e, kept) =
          write_digits_within (signed_char true) 10 buf (omega arith) 9 33 1 (2 ^ 32 - val)
            (store8 m buf b'-') (omega arith) (omega arith) in
        (m', rw minus e, λ b out. kept b (omega arith) ∙ ground arith)
    | inr plus ↦
        let (m', e, kept) =
          write_digits_within (signed_char false) 10 buf (omega arith) 9 33 0 val m (omega arith)
            (omega arith) in
        (m', rw plus e, λ b out. kept b (omega arith))
  ]

-- For a 32-bit number the three conversions of `printf` (%i, %x and %d) return after 33 rounds at most,
-- and each writes no byte but the 12 from `buf` on, of which the local array has 20.
pub conversions-Within :
    (val buf : ℕ) (m : Memory)
    → val < 2 ^ 32
    → Within buf m (itoa 33 val buf 10 m)
      × Within buf m (uitoa 33 val buf 16 m)
      × Within buf m (uitoa 33 val buf 10 m)
conversions-Within val buf m fits =
    (itoa_decimal val buf m fits, uitoa_hexadecimal val buf m fits, uitoa_decimal val buf m fits)
