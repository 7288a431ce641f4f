-- ===== src/Printf.antt =====
-- kernel/lib/string.c, `printf`, and kernel/lib/shell.c, `write_str`: text on the console. As in Text, a
-- `while` loop takes fuel, and `none` means that it needs more rounds; it also stands for a call with
-- fewer arguments than its format asks for.
pub mod Plain
pub mod Char
use pyramid_kernel.Prelude.{
  ℕ, zero, suc, ◌+◌, List, [], ◌∷◌, Option, none, some, ◌==◌, ltb, u8, if◌then◌else◌, true, false,
}
use pyramid_kernel.Memory.{Memory, store8}
use pyramid_kernel.Text.{◌>>=◌, strlen, itoa, uitoa}
use pyramid_kernel.Shell.{Shell, write}

unfoldable pub write_str : (fuel buf : ℕ) → Shell → Option Shell
write_str fuel buf s = do n ← strlen fuel buf s.mem; some (write buf n s)

-- Where the local variables `buf` and `c` are.
pub record Locals : Type 0 where
  pub buf : ℕ
  pub c : ℕ

-- `while (format[i] == ' ') i++`
unfoldable pub skip_blanks : (fuel format i : ℕ) → Memory → Option ℕ
skip_blanks zero format i m = none
skip_blanks (suc fuel) format i m =
    let rest = skip_blanks fuel format (i + 1) m in if m (format + i) == b' ' then rest else some i

-- `va_arg`
abbrev with_arg : List ℕ → (ℕ → Option Shell) → Option (List ℕ × Shell)
with_arg [] f = none
with_arg (val ∷ args) f = do s ← f val; some (args, s)

-- `itoa` or `uitoa` into `buf`, and the text of it.
abbrev write_number : (convert : Memory → Option Memory) → (fuel buf : ℕ) → Shell → Option Shell
write_number convert fuel buf s = do m ← convert s.mem; write_str fuel buf (record s { mem = m })

-- The `switch` on `format[i]`: the arguments that are left, and the console.
unfoldable pub convert :
    (fuel : ℕ) → Locals → (format i : ℕ) → List ℕ → Shell → Option (List ℕ × Shell)
unfolding write_str
convert fuel at format i args s =
    let spec = s.mem (format + i) in
    if spec == b'i'
    then with_arg args (λ val. write_number (itoa 33 val at.buf 10) fuel at.buf s)
    else if spec == b'x'
    then with_arg args (λ val. write_number (uitoa 33 val at.buf 16) fuel at.buf s)
    else if spec == b'd'
    then with_arg args (λ val. write_number (uitoa 33 val at.buf 10) fuel at.buf s)
    else if spec == b'c'
    then with_arg args (λ val. some (write at.c 1 (record s { mem = store8 s.mem at.c (u8 val) })))
    else if spec == b's'
    then with_arg args (λ val. write_str fuel val s)
    else some (args, write (format + i) 1 s)

-- A round of the loop, for a format of `n` characters; `again` is the loop from another index on.
unfoldable pub printf_round :
    (again : ℕ → List ℕ → Shell → Option Shell)
    → (fuel : ℕ) → Locals
    → (format i n : ℕ) → List ℕ
    → Shell
    → Option Shell
unfolding skip_blanks convert
printf_round again fuel at format i n args s = elim (ltb i n) [
  | true ↦ elim (s.mem (format + i) == b'%') [
    | true ↦ do
      j ← skip_blanks fuel format (i + 1) s.mem
      (args', s') ← convert fuel at format j args s
      again (j + 1) args' s'
    | false ↦ again (i + 1) args (write (format + i) 1 s)
  ]
  | false ↦ some s
]

unfoldable pub printf_loop :
    (fuel rounds : ℕ) → Locals → (format i : ℕ) → List ℕ → Shell → Option Shell
unfolding printf_round
printf_loop fuel zero at format i args s = none
printf_loop fuel (suc rounds) at format i args s = do
  n ← strlen fuel format s.mem
  printf_round (printf_loop fuel rounds at format) fuel at format i n args s

-- The result, 0, is left out.
unfoldable pub printf : (fuel : ℕ) → Locals → (format : ℕ) → List ℕ → Shell → Option Shell
unfolding printf_loop
printf fuel at format args s = printf_loop fuel fuel at format 0 args s
