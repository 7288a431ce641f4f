-- ===== src/Shell/Frame.antt =====
-- kernel/lib/shell.c: which bytes `write` and the prompt change.
use pyramid_kernel.Prelude.{
  ℕ, zero, suc, ◌+◌, ◌≤◌, ◌<◌, ◌≡◌, refl, arith, ◌==◌, ◌||◌, ◌∙◌, ◌⊎◌, inl, inr, Bool-cases, List,
  [], ◌∷◌,
}
use pyramid_kernel.Shell.{
  Shell, write_cell, position, newline, advance_pos, put_char, write_char, write_from, write,
  write_prompt, fb_base_address,
}
use pyramid_kernel.Shell.Scroll.{scroll_down_outside}
use pyramid_kernel.Shell.Cursor.{
  IsOnScreen, write_char-IsOnScreen, newline-IsOnScreen, put_char-IsOnScreen,
}

module _ (b : ℕ) (out : (b < fb_base_address) ⊎ (fb_base_address + 7840 ≤ b)) where
  newline_outside : (s : Shell) → (newline s).mem b ≡ s.mem b
  unfolding newline
  newline_outside s = ground (arith, scroll_down_outside b s.mem out)

  advance_pos_outside : (s : Shell) → (advance_pos s).mem b ≡ s.mem b
  unfolding advance_pos
  advance_pos_outside s = ground (arith, newline_outside s)

  cell_outside :
      (s : Shell) (fg c : ℕ) → IsOnScreen s → write_cell (position s) c fg 0 s.mem b ≡ s.mem b
  unfolding write_cell
  cell_outside s fg c on = ground arith

  put_char_outside : (fg c : ℕ) (s : Shell) → IsOnScreen s → (put_char fg c s).mem b ≡ s.mem b
  unfolding put_char
  put_char_outside fg c s on =
      advance_pos_outside (record s { mem = write_cell (position s) c fg 0 s.mem })
      ∙ cell_outside s fg c on

  pub write_char_outside : (c : ℕ) (s : Shell) → IsOnScreen s → (write_char c s).mem b ≡ s.mem b
  unfolding write_char
  write_char_outside c s on = elim (Bool-cases (c == 10 || c == 13)) [
    | inl line_break ↦ rw line_break (newline_outside s)
    | inr other ↦ rw other (put_char_outside 15 c s on)
  ]

  write_from_outside :
      (buf left i : ℕ) (s : Shell) → IsOnScreen s → (write_from buf left i s).mem b ≡ s.mem b
  unfolding write_from
  write_from_outside buf zero i s on = refl
  write_from_outside buf (suc left) i s on =
      let c = s.mem (buf + i) in
      write_from_outside buf left (i + 1) (write_char c s) (write_char-IsOnScreen c s on)
      ∙ write_char_outside c s on

  pub write_prompt_outside :
      (cs : List ℕ) (s : Shell) → IsOnScreen s → (write_prompt cs s).mem b ≡ s.mem b
  unfolding write_prompt
  write_prompt_outside [] s on = refl
  write_prompt_outside (c ∷ cs) s on = elim (Bool-cases (c == 10)) [
    | inl line_break ↦
        rw (write_prompt, line_break)
          (write_prompt_outside cs (newline s) (newline-IsOnScreen s on) ∙ newline_outside s)
    | inr other ↦
        rw (write_prompt, other)
          (write_prompt_outside cs (put_char 3 c s) (put_char-IsOnScreen 3 c s on)
            ∙ put_char_outside 3 c s on)
  ]

-- With the cursor on the screen `write` changes no byte outside the 7840 bytes from the frame
-- buffer's base on, whatever the text and however often it scrolls.
pub write_outside :
    (buf len b : ℕ) (s : Shell)
    → IsOnScreen s
    → (b < fb_base_address) ⊎ (fb_base_address + 7840 ≤ b)
    → (write buf len s).mem b ≡ s.mem b
unfolding write
write_outside buf len b s on out = write_from_outside b out buf len 0 s on
