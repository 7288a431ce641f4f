-- ===== src/Printf/Plain.antt =====
-- kernel/lib/string.c: `printf` of a format without conversions.
use pyramid_kernel.Prelude.{
  ℕ, zero, suc, ◌+◌, ◌≤◌, ◌<◌, ◌≡◌, ◌≢◌, ◌⊎◌, List, [], ◌∷◌, some, ◌==◌, ltb, arith, length, true,
  false, ◌∙◌, ap, refl,
}
use pyramid_kernel.Memory.{Memory}
use pyramid_kernel.Text.{◌>>=◌, strlen}
use pyramid_kernel.Text.Strings.{IsString, strlen-length}
use pyramid_kernel.Shell.{Shell, fb_base_address, write, write_from, write_char}
use pyramid_kernel.Shell.Cursor.{IsOnScreen, write_char-IsOnScreen}
use pyramid_kernel.Shell.Frame.{write_char_outside}
use pyramid_kernel.Printf.{Locals, printf, printf_loop, printf_round}

pub IsString-ext :
    (m m' : Memory) (p : ℕ) (cs : List ℕ)
    → ((b : ℕ) → p ≤ b → b ≤ p + length cs → m' b ≡ m b)
    → IsString m p cs
    → IsString m' p cs
IsString-ext m m' p [] same h = same p (omega arith) (omega arith) ∙ h
IsString-ext m m' p (c ∷ cs) same h = (
  same p (omega arith) (omega arith) ∙ h.0,
  h.1,
  IsString-ext m m' (p + 1) cs (λ b low high. same b (omega arith) (omega arith)) h.2,
)

pub write-one : (buf : ℕ) (s : Shell) → write buf 1 s ≡ write_char (s.mem buf) s
unfolding write write_from
write-one buf s = ap (λ p. write_char (s.mem p) s) {x = buf + 0} {y = buf} (omega arith)

-- The text lies apart from what the console writes, and has no '%'.
pub record IsPlain (format : ℕ) (cs : List ℕ) (s : Shell) : Type 0 where
  pub text : IsString s.mem format cs
  pub apart : (format + length cs < fb_base_address) ⊎ (fb_base_address + 7840 ≤ format)
  pub no_conversion : (j : ℕ) → j < length cs → s.mem (format + j) ≢ b'%'
  pub on_screen : IsOnScreen s

IsPlain-write_char :
    (format c : ℕ) (cs : List ℕ) (s : Shell)
    → IsPlain format cs s
    → IsPlain format cs (write_char c s)
IsPlain-write_char format c cs s plain =
    let same : (b : ℕ) → format ≤ b → b ≤ format + length cs → (write_char c s).mem b ≡ s.mem b =
      λ b low high. write_char_outside b (omega (arith, plain.apart)) c s plain.on_screen in
    record {
      text = IsString-ext s.mem (write_char c s).mem format cs same plain.text;
      apart = plain.apart;
      no_conversion = λ j below.
          rw (same (format + j) (omega arith) (omega arith)) (plain.no_conversion j below);
      on_screen = write_char-IsOnScreen c s plain.on_screen;
    }

IsPlain-write_from :
    (format buf left i : ℕ) (cs : List ℕ) (s : Shell)
    → IsPlain format cs s
    → IsPlain format cs (write_from buf left i s)
unfolding write_from
IsPlain-write_from format buf zero i cs s plain = plain
IsPlain-write_from format buf (suc left) i cs s plain =
    let c = s.mem (buf + i) in
    IsPlain-write_from format buf left (i + 1) cs (write_char c s)
      (IsPlain-write_char format c cs s plain)

-- It is still there when another text is written.
pub IsPlain-write :
    (format buf len : ℕ) (cs : List ℕ) (s : Shell)
    → IsPlain format cs s
    → IsPlain format cs (write buf len s)
unfolding write
IsPlain-write format buf len cs s plain = IsPlain-write_from format buf len 0 cs s plain

module _ (fuel rounds i format n : ℕ) (at : Locals) (args : List ℕ) (s : Shell)
    (measured : strlen fuel format s.mem ≡ some n) where
  pub begun :
      printf_loop fuel (suc rounds) at format i args s
      ≡ printf_round (printf_loop fuel rounds at format) fuel at format i n args s
  unfolding printf_loop
  begun =
      ap
        (λ r.
          r >>= (λ k. printf_round (printf_loop fuel rounds at format) fuel at format i k args s))
        measured

  pub printf_loop_end : ltb i n ≡ false → printf_loop fuel (suc rounds) at format i args s ≡ some s
  unfolding printf_round
  printf_loop_end end = begun ∙ rw (end, printf_round) refl

  printf_loop_further :
      ltb i n ≡ true
      → (s.mem (format + i) == b'%') ≡ false
      → printf_loop fuel (suc rounds) at format i args s
        ≡ printf_loop fuel rounds at format (i + 1) args (write_char (s.mem (format + i)) s)
  unfolding printf_round
  printf_loop_further more ordinary =
      begun
      ∙ rw (more, printf_round)
          (rw ordinary
            (ap (printf_loop fuel rounds at format (i + 1) args) (write-one (format + i) s)))

printf_loop-write_from :
    (fuel rounds left i format : ℕ) (at : Locals) (args cs : List ℕ) (s : Shell)
    → i + left ≡ length cs
    → left < rounds
    → length cs < fuel
    → IsPlain format cs s
    → printf_loop fuel rounds at format i args s ≡ some (write_from format left i s)
unfolding write_from
printf_loop-write_from fuel zero left i format at args cs s e enough fits plain =
    absurd (omega arith)
printf_loop-write_from fuel (suc rounds) zero i format at args cs s e enough fits plain =
    let end : ltb i (length cs) ≡ false = ground arith in
    printf_loop_end fuel rounds i format (length cs) at args s
      (strlen-length fuel format cs s.mem plain.text fits) end
printf_loop-write_from fuel (suc rounds) (suc left) i format at args cs s e enough fits plain =
    let more : ltb i (length cs) ≡ true = ground arith in
    let ordinary : (s.mem (format + i) == b'%') ≡ false =
      ground (arith, plain.no_conversion i (omega arith)) in
    let c = s.mem (format + i) in
    printf_loop_further fuel rounds i format (length cs) at args s
      (strlen-length fuel format cs s.mem plain.text fits) more ordinary
    ∙ printf_loop-write_from fuel rounds left (i + 1) format at args cs (write_char c s)
        (omega arith) (omega arith) fits (IsPlain-write_char format c cs s plain)

-- For a format without '%' that lies apart from the frame buffer, and with one round more than it is
-- long, `printf` returns, and does what `write` does with the whole text, although it reads the format
-- again in each round.
pub printf-write :
    (fuel format : ℕ) (at : Locals) (args cs : List ℕ) (s : Shell)
    → length cs < fuel
    → IsPlain format cs s
    → printf fuel at format args s ≡ some (write format (length cs) s)
unfolding printf write
printf-write fuel format at args cs s fits plain =
    printf_loop-write_from fuel fuel (length cs) 0 format at args cs s (omega arith) fits fits plain
