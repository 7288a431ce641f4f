-- ===== src/Printf/Char.antt =====
-- kernel/lib/string.c: `printf("%c", …)`.
use pyramid_kernel.Prelude.{
  ℕ, suc, ◌+◌, ◌≤◌, ◌<◌, ◌≡◌, ◌⊎◌, List, [], ◌∷◌, Option, some, ◌==◌, ltb, u8, arith, true, false,
  ◌∙◌, ap, refl,
}
use pyramid_kernel.Memory.{store8}
use pyramid_kernel.Text.{◌>>=◌}
use pyramid_kernel.Text.Strings.{IsString, strlen-length}
use pyramid_kernel.Shell.{Shell, fb_base_address, write, write_char}
use pyramid_kernel.Shell.Cursor.{IsOnScreen}
use pyramid_kernel.Shell.Frame.{write_outside}
use pyramid_kernel.Printf.{Locals, printf, printf_loop, printf_round, skip_blanks, convert}
use pyramid_kernel.Printf.Plain.{begun, printf_loop_end, IsString-ext, write-one}

abbrev pub char_conversion : List ℕ
char_conversion = b'%' ∷ b'c' ∷ []

module _ (again : ℕ → List ℕ → Shell → Option Shell) (fuel format i n j : ℕ) (at : Locals)
    (args args' : List ℕ) (s s' : Shell) where
  printf_round_conversion :
      ltb i n ≡ true
      → (s.mem (format + i) == b'%') ≡ true
      → skip_blanks fuel format (i + 1) s.mem ≡ some j
      → convert fuel at format j args s ≡ some (args', s')
      → printf_round again fuel at format i n args s ≡ again (j + 1) args' s'
  unfolding printf_round
  printf_round_conversion more percent skipped converted =
      rw (more, percent, printf_round)
        (ap (λ r. r >>= (λ k. convert fuel at format k args s >>= (λ x. again (k + 1) x.0 x.1)))
            skipped
          ∙ ap (λ r. r >>= (λ x. again (j + 1) x.0 x.1)) converted)

module _ (fuel format val : ℕ) (at : Locals) (s : Shell)
    (text : IsString s.mem format char_conversion) where
  abbrev stored : Shell
  stored = record s { mem = store8 s.mem at.c (u8 val) }

  spec : s.mem (format + 1) ≡ b'c'
  spec = text.2.0

  convert-char : convert fuel at format 1 (val ∷ []) s ≡ some ([], write at.c 1 stored)
  unfolding convert
  convert-char = rw (spec, convert) refl

  no_blanks : skip_blanks (suc fuel) format 1 s.mem ≡ some 1
  unfolding skip_blanks
  no_blanks =
      let other : (s.mem (format + 1) == b' ') ≡ false = ground (arith, spec) in rw other refl

-- With three rounds or more, `printf("%c", val)` returns, and writes the low byte of `val`, if the format
-- lies apart from the frame buffer and from the local variable `c`.
pub printf-write_char :
    (fuel format val : ℕ) (at : Locals) (s : Shell)
    → IsString s.mem format char_conversion
    → (format + 2 < fb_base_address) ⊎ (fb_base_address + 7840 ≤ format)
    → (at.c < format) ⊎ (format + 2 < at.c)
    → IsOnScreen s
    → printf (suc (suc (suc fuel))) at format (val ∷ []) s
      ≡ some (write_char (u8 val) (record s { mem = store8 s.mem at.c (u8 val) }))
unfolding printf
printf-write_char fuel format val at s text apart local on =
    let f = suc (suc (suc fuel)) in
    let s₁ : Shell = record s { mem = store8 s.mem at.c (u8 val) } in
    let s' = write at.c 1 s₁ in
    let on₁ : IsOnScreen s₁ = record { col = on.col; row = on.row } in
    let first : s.mem (format + 0) ≡ b'%' = ap s.mem (omega arith) ∙ text.0 in
    let percent : (s.mem (format + 0) == b'%') ≡ true = ground (arith, first) in
    let kept : s₁.mem at.c ≡ u8 val = ground arith in
    let text' : IsString s'.mem format char_conversion =
      IsString-ext s.mem s'.mem format char_conversion
        (λ b low high. write_outside at.c 1 b s₁ on₁ (omega arith) ∙ ground (arith)) text in
    begun f (suc (suc fuel)) 0 format 2 at (val ∷ []) s
      (strlen-length f format char_conversion s.mem text (omega arith))
    ∙ printf_round_conversion (printf_loop f (suc (suc fuel)) at format) f format 0 2 1 at
        (val ∷ []) [] s s' refl percent (no_blanks (suc (suc fuel)) format val at s text)
        (convert-char f format val at s text)
    ∙ printf_loop_end f (suc fuel) 2 format 2 at [] s'
        (strlen-length f format char_conversion s'.mem text' (omega arith)) refl
    ∙ ap some (write-one at.c s₁ ∙ ap (λ v. write_char v s₁) kept)
