-- ===== src/Keyboard/Edit.antt =====
-- kernel/drivers/keyboard.c: what the keys do to the command buffer.
use pyramid_kernel.Prelude.{
  ℕ, suc, refl, some, false, ◌+◌, ◌-◌, ◌≤◌, ◌<◌, ◌≡◌, ◌⊎◌, inr, arith, ◌∙◌, ap, ◌==◌, u8,
}
use pyramid_kernel.Memory.{Memory, store8}
use pyramid_kernel.Memory.Bytes.{memset, memmove, memset_lem, memmove_lem}
use pyramid_kernel.Shell.{Shell, fb_base_address, write_cell, back_space, write_char}
use pyramid_kernel.Shell.Cursor.{IsOnScreen, back_space_col}
use pyramid_kernel.Shell.Frame.{write_char_outside}
use pyramid_kernel.Text.{◌>>=◌}
use pyramid_kernel.Text.Strings.{IsString}
use pyramid_kernel.Printf.Char.{char_conversion, printf-write_char}
use pyramid_kernel.Keyboard.{
  key_char, done, Layout, Keyboard, shorten, clear_command, clear_temp, key_backspace, with_mem,
}

-- `command` and `temp` do not overlap.
abbrev pub Disjoint : Layout → Type 0
Disjoint at = (at.command + 512 ≤ at.temp) ⊎ (at.temp + 512 ≤ at.command)

module _ (at : Layout) (n : ℕ) (m : Memory) (room : n ≤ 512) (disjoint : Disjoint at) where
  abbrev saved : Memory
  saved = memmove m at.temp at.command n

  abbrev cleared : Memory
  cleared = memset saved at.command 0 512

  abbrev restored : Memory
  restored = memmove cleared at.command at.temp n

  temp_outside : (j : ℕ) → j < 512 → shorten at n m (at.command + j) ≡ restored (at.command + j)
  unfolding shorten clear_command clear_temp
  temp_outside j below = memset_lem restored at.temp 0 512 (at.command + j) ∙ ground arith

  shorten_front : (j : ℕ) → j < n → shorten at n m (at.command + j) ≡ m (at.command + j)
  shorten_front j below =
      temp_outside j (omega arith)
      ∙ (memmove_lem cleared at.command at.temp n (omega arith)).0 j below
      ∙ memset_lem saved at.command 0 512 (at.temp + j)
      ∙ ground (arith, (memmove_lem m at.temp at.command n (omega arith)).0 j below)

  shorten_back : (j : ℕ) → n ≤ j → j < 512 → shorten at n m (at.command + j) ≡ 0
  shorten_back j low below =
      temp_outside j below
      ∙ (memmove_lem cleared at.command at.temp n (omega arith)).1 (at.command + j)
          (inr (omega arith))
      ∙ memset_lem saved at.command 0 512 (at.command + j)
      ∙ ground arith

back_space_outside :
    (b : ℕ) (s : Shell)
    → IsOnScreen s
    → (b + 2 < fb_base_address) ⊎ (fb_base_address + 4000 ≤ b)
    → (back_space s).mem b ≡ s.mem b
unfolding write_cell
back_space_outside b s on out =
    ap (λ (m : Memory). m b) (back_space_col s on).2 ∙ ground (arith, on.col, on.row)

edited : Layout → Keyboard → ℕ → Keyboard
edited at k n = record k { cmd_index = n; shell = back_space (with_mem (shorten at n) k.shell) }

key_backspace-edited :
    (at : Layout) (k : Keyboard) (n : ℕ) → k.cmd_index ≡ n + 1 → key_backspace at k ≡ edited at k n
unfolding key_backspace edited
key_backspace-edited at k n typed =
    let some_left : (k.cmd_index == 0) ≡ false = ground arith in
    let fewer : k.cmd_index - 1 ≡ n = omega arith in rw (some_left, fewer) refl

-- A backspace on a command of `n + 1` characters, of 512 at most, with both arrays apart from each
-- other and `command` apart from the screen, leaves the first `n` characters, and zeros behind them.
pub key_backspace_lem :
    (at : Layout) (k : Keyboard) (n : ℕ)
    → k.cmd_index ≡ n + 1
    → n < 512
    → Disjoint at
    → (at.command + 514 ≤ fb_base_address) ⊎ (fb_base_address + 4000 ≤ at.command)
    → IsOnScreen k.shell
    → let k' = key_backspace at k in
      (k'.cmd_index ≡ n)
      × ((j : ℕ) → j < n → k'.shell.mem (at.command + j) ≡ k.shell.mem (at.command + j))
      × ((j : ℕ) → n ≤ j → j < 512 → k'.shell.mem (at.command + j) ≡ 0)
unfolding edited
key_backspace_lem at k n typed room disjoint apart on =
    let short = with_mem (shorten at n) k.shell in
    let on' : IsOnScreen short = record { col = on.col; row = on.row } in
    rw (key_backspace-edited at k n typed) (
      refl,
      λ j below.
          back_space_outside (at.command + j) short on' (omega arith)
          ∙ shorten_front at n k.shell.mem (omega arith) disjoint j below,
      λ j low below.
          back_space_outside (at.command + j) short on' (omega arith)
          ∙ shorten_back at n k.shell.mem (omega arith) disjoint j low below,
    )

-- A key that stands for a character, with the format of the echo in place and `command` up to the index
-- apart from the screen and from the local variable of `printf`: the handler returns, the character is
-- stored at the index, the ones in front of it stay, and the index grows. The index may be 512 or more:
-- then the character is stored behind the buffer.
pub key_char_lem :
    (fuel keycode : ℕ) (at : Layout) (k : Keyboard)
    → keycode < 256
    → IsString k.shell.mem at.char_format char_conversion
    → (at.char_format + 2 < fb_base_address) ⊎ (fb_base_address + 7840 ≤ at.char_format)
    → (at.locals.c < at.char_format) ⊎ (at.char_format + 2 < at.locals.c)
    → (at.command + k.cmd_index < fb_base_address) ⊎ (fb_base_address + 7840 ≤ at.command)
    → (at.locals.c < at.command) ⊎ (at.command + k.cmd_index < at.locals.c)
    → IsOnScreen k.shell
    → (k' : Keyboard) × (key_char (suc (suc (suc fuel))) keycode at k ≡ some (done k'))
      × (k'.cmd_index ≡ k.cmd_index + 1)
      × (k'.shell.mem (at.command + k.cmd_index) ≡ keycode)
      × ((j : ℕ) → j < k.cmd_index → k'.shell.mem (at.command + j) ≡ k.shell.mem (at.command + j))
unfolding key_char
key_char_lem fuel keycode at k byte text apart local away other on =
    let s₁ : Shell = record k.shell { mem = store8 k.shell.mem at.locals.c (u8 keycode) } in
    let s = write_char (u8 keycode) s₁ in
    let on₁ : IsOnScreen s₁ = record { col = on.col; row = on.row } in
    (
      record k {
        shell = with_mem (λ m. store8 m (at.command + k.cmd_index) keycode) s;
        cmd_index = k.cmd_index + 1;
      },
      ap
          (λ r. r >>= (λ t. some (
            done (record k {
              shell = with_mem (λ m. store8 m (at.command + k.cmd_index) keycode) t;
              cmd_index = k.cmd_index + 1;
            }))))
          (printf-write_char fuel at.char_format keycode at.locals k.shell text apart local on),
      refl,
      ground arith,
      λ j below.
          let kept : s.mem (at.command + j) ≡ s₁.mem (at.command + j) =
            write_char_outside (at.command + j) (omega arith) (u8 keycode) s₁ on₁ in
          ground (arith, kept),
    )
