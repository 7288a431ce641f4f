-- ===== src/Text/Swap.antt =====
-- kernel/lib/string.c: the loop that turns the digits round.
use pyramid_kernel.Prelude.{
  ℕ, zero, suc, ◌+◌, ◌-◌, ◌*◌, ◌≤◌, ◌<◌, ◌≡◌, refl, arith, ◌∙◌, ◌⊎◌, ap, le→ltb, lt→ltb,
}
use native.Mathlib.Decide.{dec_lt, ℕ_discrete}
use pyramid_kernel.Memory.{Memory, store8}
use pyramid_kernel.Text.{swap_loop}

abbrev swapped : (s e : ℕ) → Memory → Memory
swapped s e m = store8 (store8 m s (m e)) e (m s)

swap_loop_step :
    (fuel s e : ℕ) (m : Memory)
    → s < e
    → swap_loop (suc fuel) s e m ≡ swap_loop fuel (s + 1) (e - 1) (swapped s e m)
unfolding swap_loop
swap_loop_step fuel s e m below = rw (lt→ltb s e below)

swap_loop_end : (fuel s e : ℕ) (m : Memory) → e ≤ s → swap_loop fuel s e m ≡ m
unfolding swap_loop
swap_loop_end zero s e m met = refl
swap_loop_end (suc fuel) s e m met = rw (le→ltb s e met)

pub swap_loop_outside :
    (fuel s e b : ℕ) (m : Memory) → (b < s) ⊎ (e < b) → swap_loop fuel s e m b ≡ m b
swap_loop_outside zero s e b m out = unfold swap_loop in refl
swap_loop_outside (suc fuel) s e b m out = elim (dec_lt s e) [
  | yes below ↦
      ap (λ m'. m' b) (swap_loop_step fuel s e m below)
      ∙ swap_loop_outside fuel (s + 1) (e - 1) b (swapped s e m) (omega arith)
      ∙ ground arith
  | no met ↦ ap (λ m'. m' b) (swap_loop_end (suc fuel) s e m (omega arith))
]

swap_one_more :
    (fuel s e b : ℕ) (m : Memory)
    → s < e
    → s ≤ b
    → b ≤ e
    → ((c : ℕ)
        → s + 1 ≤ c
        → c ≤ e - 1
        → swap_loop fuel (s + 1) (e - 1) (swapped s e m) c ≡ swapped s e m (s + 1 + (e - 1) - c))
    → swap_loop fuel (s + 1) (e - 1) (swapped s e m) b ≡ m (s + e - b)
swap_one_more fuel s e b m below low high rest = elim (ℕ_discrete b s) [
  | yes first ↦
      let other : s + e - b ≡ e = omega arith in
      swap_loop_outside fuel (s + 1) (e - 1) b (swapped s e m) (omega arith)
      ∙ ground (arith, ap m other)
  | no later ↦ elim (ℕ_discrete b e) [
    | yes last ↦
        let other : s + e - b ≡ s = omega arith in
        swap_loop_outside fuel (s + 1) (e - 1) b (swapped s e m) (omega arith)
        ∙ ground (arith, ap m other)
    | no earlier ↦
        let same : s + 1 + (e - 1) - b ≡ s + e - b = omega arith in
        rest b (omega arith) (omega arith) ∙ ap (swapped s e m) same ∙ ground arith
  ]
]

-- With a round for every two bytes the loop turns the bytes from `s` to `e` round.
pub swap_loop_reverses :
    (fuel s e b : ℕ) (m : Memory)
    → e ≤ s + 2 * fuel
    → s ≤ b
    → b ≤ e
    → swap_loop fuel s e m b ≡ m (s + e - b)
swap_loop_reverses zero s e b m enough low high =
    ap (λ m'. m' b) (swap_loop_end zero s e m (omega arith)) ∙ ap m (omega arith)
swap_loop_reverses (suc fuel) s e b m enough low high = elim (dec_lt s e) [
  | no met ↦ ap (λ m'. m' b) (swap_loop_end (suc fuel) s e m (omega arith)) ∙ ap m (omega arith)
  | yes below ↦
      ap (λ m'. m' b) (swap_loop_step fuel s e m below)
      ∙ swap_one_more fuel s e b m below low high λ c from to.
        swap_loop_reverses fuel (s + 1) (e - 1) c (swapped s e m) (omega arith) from to
]
