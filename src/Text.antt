-- ===== src/Text.antt =====
-- kernel/lib/string.c: C strings, and numbers as text. A `while` loop takes fuel, and `none` means
-- that it needs more rounds.
pub mod Strings
pub mod Compare
pub mod Swap
pub mod Width
pub mod Digits
pub mod Numbers
pub mod Signed
use pyramid_kernel.Prelude.{
  ℕ, zero, suc, ◌+◌, ◌-◌, ◌*◌, ◌/◌, ◌%◌, ◌^◌, bit_and, bit_or, Option, none, some, Bool, ◌==◌, ◌&&◌,
  if◌then◌else◌, not, ltb, leb, u8, sub32, true, false,
}
use pyramid_kernel.Memory.{Memory, store8}

infixl 5 ◌>>=◌
abbrev pub ◌>>=◌ {ℓ κ} : {A : Type ℓ} {B : Type κ} → Option A → (A → Option B) → Option B
none >>= f = none
some a >>= f = f a

-- `while (buf[i] != 0) i++`
strlen_loop : (fuel buf i : ℕ) → Memory → Option ℕ
strlen_loop zero buf i m = none
strlen_loop (suc fuel) buf i m =
    let rest = strlen_loop fuel buf (i + 1) m in if m (buf + i) == 0 then some i else rest

unfoldable pub strlen : (fuel buf : ℕ) → Memory → Option ℕ
unfolding strlen_loop
strlen fuel buf m = strlen_loop fuel buf 0 m

-- The result is an `int32_t`, as its bit pattern.
unfoldable pub strcmp : (fuel s1 s2 : ℕ) → Memory → Option ℕ
strcmp zero s1 s2 m = none
strcmp (suc fuel) s1 s2 m =
    let rest = strcmp fuel (s1 + 1) (s2 + 1) m in
    if not (m s1 == 0) && m s1 == m s2 then rest else some (sub32 (m s1) (m s2))

-- `a < 10 ? a + '0' : a + 'a' - 10`, as the byte that is stored.
unfoldable pub digit_char : ℕ → ℕ
digit_char a = if ltb a 10 then u8 (a + b'0') else u8 (a + b'a' - 10)

-- `do { a = x % radix; buf[i++] = …; } while (x /= radix);` from `buf[i]` on: the end, and the memory.
-- `char` is the byte for a remainder.
unfoldable pub digits_loop : (char : ℕ → ℕ) (radix buf fuel x i : ℕ) → Memory → Option (ℕ × Memory)
digits_loop char radix buf zero x i m = none
digits_loop char radix buf (suc fuel) x i m =
    let m' = store8 m (buf + i) (char (x % radix)) in
    let rest = digits_loop char radix buf fuel (x / radix) (i + 1) m' in
    if x / radix == 0 then some (i + 1, m') else rest

-- `while (s < e) { swap(*s, *e); s++; e--; }`; half the distance is rounds enough.
unfoldable pub swap_loop : (fuel s e : ℕ) → Memory → Memory
swap_loop zero s e m = m
swap_loop (suc fuel) s e m =
    if ltb s e then swap_loop fuel (s + 1) (e - 1) (store8 (store8 m s (m e)) e (m s)) else m

-- What follows the prefix of length `start`: the digits of `x`, turned round, and the 0 at the end.
unfoldable pub write_digits : (char : ℕ → ℕ) (fuel radix buf start x : ℕ) → Memory → Option Memory
unfolding digits_loop swap_loop
write_digits char fuel radix buf start x m = do
  (i, m₁) ← digits_loop char radix buf fuel x start m
  let m₂ = swap_loop (i - start) (buf + start) (buf + (i - 1)) m₁
  some (store8 m₂ (buf + i) 0)

-- "0x" in radix 16, behind a prefix of length `i`: the new length.
unfoldable pub write_prefix : (radix buf i : ℕ) → Memory → ℕ × Memory
write_prefix radix buf i m =
    if radix == 16 then (i + 2, store8 (store8 m (buf + i) b'0') (buf + (i + 1)) b'x') else (i, m)

-- The result, the pointer `buf`, is what was passed in.
unfoldable pub uitoa : (fuel val buf radix : ℕ) → Memory → Option Memory
unfolding write_prefix
uitoa fuel val buf radix m =
    let (start, m') = write_prefix radix buf 0 m in
    write_digits digit_char fuel radix buf start val m'

-- An `int` by its bit pattern: whether it is negative, and its absolute value.
abbrev pub negative : ℕ → Bool
negative val = leb (2 ^ 31) val

abbrev pub magnitude : ℕ → ℕ
magnitude val = if negative val then 2 ^ 32 - val else val

-- In C the remainder of a negative number is not positive: `a` is `-r`, below 10, and the byte is
-- `'0' - r`. Quotients are cut towards 0, so the loop divides the absolute value.
unfoldable pub signed_char : Bool → ℕ → ℕ
unfolding digit_char
signed_char true r = u8 (b'0' + 256 - r)
signed_char false r = digit_char r

-- For a radix that is positive. A `-` is written in radix 10 only.
unfoldable pub itoa : (fuel val buf radix : ℕ) → Memory → Option Memory
unfolding write_prefix
itoa fuel val buf radix m =
    let signed = negative val && radix == 10 in
    let m₁ = if signed then store8 m buf b'-' else m in
    let (start, m₂) = write_prefix radix buf (if signed then 1 else 0) m₁ in
    write_digits (signed_char (negative val)) fuel radix buf start (magnitude val) m₂

-- `for (i = 0; i < strlen(str); i++)`: `strlen` is called in each round; `none` if it takes more
-- fuel. `change` is the body on a character.
map_loop : (change : ℕ → ℕ) (fuel rounds str i : ℕ) → Memory → Option Memory
map_loop change fuel zero str i m = none
map_loop change fuel (suc rounds) str i m =
    let rest =
      map_loop change fuel rounds str (i + 1) (store8 m (str + i) (change (m (str + i)))) in
    do n ← strlen fuel str m; if ltb i n then rest else some m

-- `if (c >= 'a' && c < 'z') c = c & 0x4F`
unfoldable pub upper_char : ℕ → ℕ
upper_char c = if leb b'a' c && ltb c b'z' then bit_and c 0x4f else c

-- `if (c >= 'A' && c < 'Z') c = c | 0x60`
unfoldable pub lower_char : ℕ → ℕ
lower_char c = if leb b'A' c && ltb c b'Z' then bit_or c 0x60 else c

unfoldable pub strupper : (fuel rounds str : ℕ) → Memory → Option Memory
unfolding map_loop upper_char
strupper fuel rounds str m = map_loop upper_char fuel rounds str 0 m

unfoldable pub strlower : (fuel rounds str : ℕ) → Memory → Option Memory
unfolding map_loop lower_char
strlower fuel rounds str m = map_loop lower_char fuel rounds str 0 m
