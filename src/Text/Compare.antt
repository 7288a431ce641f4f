-- ===== src/Text/Compare.antt =====
-- kernel/lib/string.c: `strcmp` against the order of texts.
use pyramid_kernel.Prelude.{
  ℕ, zero, suc, ◌+◌, ◌<◌, ◌≡◌, ◌↔◌, refl, List, [], ◌∷◌, length, arith, some, ◌==◌, if◌then◌else◌,
  ◌∙◌, ap, sub32, ap₂, sym,
}
use native.Mathlib.Decide.{ℕ_discrete}
use pyramid_kernel.Memory.{Memory, IsBytes}
use pyramid_kernel.Text.{strcmp}
use pyramid_kernel.Text.Strings.{IsString}

-- The specification: 0 for equal texts, else the difference of the first bytes that differ, the end
-- counting as 0.
unfoldable pub compare_texts : List ℕ → List ℕ → ℕ
compare_texts [] [] = 0
compare_texts [] (d ∷ ds) = sub32 0 d
compare_texts (c ∷ cs) [] = sub32 c 0
compare_texts (c ∷ cs) (d ∷ ds) = if c == d then compare_texts cs ds else sub32 c d

-- With one round more than the first text is long, `strcmp` returns the comparison of the two texts.
pub strcmp-compare_texts :
    (fuel s1 s2 : ℕ) (cs ds : List ℕ) (m : Memory)
    → IsString m s1 cs
    → IsString m s2 ds
    → length cs < fuel
    → strcmp fuel s1 s2 m ≡ some (compare_texts cs ds)
unfolding strcmp compare_texts
strcmp-compare_texts zero s1 s2 cs ds m hc hd enough = absurd (omega arith)
strcmp-compare_texts (suc fuel) s1 s2 [] [] m hc hd enough = ground arith
strcmp-compare_texts (suc fuel) s1 s2 [] (d ∷ ds) m hc hd enough = ground arith
strcmp-compare_texts (suc fuel) s1 s2 (c ∷ cs) [] m hc hd enough = ground arith
strcmp-compare_texts (suc fuel) s1 s2 (c ∷ cs) (d ∷ ds) m hc hd enough =
    let rest = strcmp-compare_texts fuel (s1 + 1) (s2 + 1) cs ds m hc.2 hd.2 (omega arith) in
    ground (arith, hc.0, hc.1, hd.0, hd.1, rest)

equal_of_zero :
    (s1 s2 : ℕ) (cs ds : List ℕ) (m : Memory)
    → IsBytes m
    → IsString m s1 cs
    → IsString m s2 ds
    → compare_texts cs ds ≡ 0
    → cs ≡ ds
unfolding compare_texts
equal_of_zero s1 s2 [] [] m bytes hc hd e = refl
equal_of_zero s1 s2 [] (d ∷ ds) m bytes hc hd e = absurd (omega (arith, bytes s2, hd.0, hd.1))
equal_of_zero s1 s2 (c ∷ cs) [] m bytes hc hd e = absurd (omega (arith, bytes s1, hc.0, hc.1))
equal_of_zero s1 s2 (c ∷ cs) (d ∷ ds) m bytes hc hd e = elim (ℕ_discrete c d) [
  | yes same ↦
      let rest : compare_texts cs ds ≡ 0 = ground arith in
      ap₂ ◌∷◌ same (equal_of_zero (s1 + 1) (s2 + 1) cs ds m bytes hc.2 hd.2 rest)
  | no differ ↦
      let apart : sub32 c d ≡ 0 = ground arith in
      absurd (omega (arith, bytes s1, bytes s2, hc.0, hd.0))
]

zero_of_equal : (cs : List ℕ) → compare_texts cs cs ≡ 0
unfolding compare_texts
zero_of_equal [] = refl
zero_of_equal (c ∷ cs) = ground (arith, zero_of_equal cs)

-- On two texts in a memory of bytes, with one round more than the first is long, `strcmp` returns,
-- and it returns 0 exactly if the two texts are the same.
pub strcmp-zero_iff :
    (fuel s1 s2 : ℕ) (cs ds : List ℕ) (m : Memory)
    → IsBytes m
    → IsString m s1 cs
    → IsString m s2 ds
    → length cs < fuel
    → (r : ℕ) × (strcmp fuel s1 s2 m ≡ some r) × ((r ≡ 0) ↔ (cs ≡ ds))
strcmp-zero_iff fuel s1 s2 cs ds m bytes hc hd enough = (
  compare_texts cs ds,
  strcmp-compare_texts fuel s1 s2 cs ds m hc hd enough,
  (
    equal_of_zero s1 s2 cs ds m bytes hc hd,
    λ same. ap (λ xs. compare_texts cs xs) (sym same) ∙ zero_of_equal cs,
  ),
)
