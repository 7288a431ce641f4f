-- ===== src/Tests/Texts.antt =====
-- kernel/lib/string.c on short texts.
use pyramid_kernel.Prelude.{ℕ, ◌≡◌, refl, arith, ◌↔◌, List, [], ◌∷◌, some}
use pyramid_kernel.Memory.{Memory, IsBytes, store8}
use pyramid_kernel.Text.Width.{Within, conversions-Within}
use pyramid_kernel.Text.{strcmp, uitoa, itoa}
use pyramid_kernel.Text.Strings.{IsString}
use pyramid_kernel.Text.Compare.{strcmp-zero_iff}
use pyramid_kernel.Text.Numbers.{WritesNumber, uitoa-WritesNumber}

-- "ab" at 16 and "ac" at 32.
abbrev texts : Memory
texts = store8 (store8 (store8 (store8 (λ _. 0) 16 b'a') 17 b'b') 32 b'a') 33 b'c'

abbrev ab : List ℕ
ab = b'a' ∷ b'b' ∷ []

abbrev ac : List ℕ
ac = b'a' ∷ b'c' ∷ []

texts-IsBytes : IsBytes texts
texts-IsBytes b = ground arith

first_text : IsString texts 16 ab
first_text = (refl, omega arith, (refl, omega arith, refl))

second_text : IsString texts 32 ac
second_text = (refl, omega arith, (refl, omega arith, refl))

strcmp-zero_iff_example : (r : ℕ) × (strcmp 3 16 32 texts ≡ some r) × ((r ≡ 0) ↔ (ab ≡ ac))
strcmp-zero_iff_example =
    strcmp-zero_iff 3 16 32 ab ac texts texts-IsBytes first_text second_text (omega arith)

uitoa-WritesNumber_example :
    (m' : Memory) × (uitoa 33 1234 16 10 texts ≡ some m') × WritesNumber 10 16 1234 texts m'
uitoa-WritesNumber_example =
    uitoa-WritesNumber 1234 16 10 texts (omega arith) (omega arith) (omega arith) (omega arith)

conversions-Within_example :
    Within 0x100 (λ _. 0) (itoa 33 0xffff_ffff 0x100 10 (λ _. 0))
    × Within 0x100 (λ _. 0) (uitoa 33 0xffff_ffff 0x100 16 (λ _. 0))
    × Within 0x100 (λ _. 0) (uitoa 33 0xffff_ffff 0x100 10 (λ _. 0))
conversions-Within_example = conversions-Within 0xffff_ffff 0x100 (λ _. 0) (omega arith)
