-- ===== src/Shell/Cursor.antt =====
-- kernel/lib/shell.c: where the cursor goes, and `back_space` behind a character.
use pyramid_kernel.Prelude.{
  ℕ, zero, suc, ◌+◌, ◌-◌, ◌*◌, ◌%◌, ◌<◌, ◌≡◌, List, [], ◌∷◌, arith, ◌==◌, if◌then◌else◌, ◌||◌,
  Bool-cases, inl, inr, minus_one, lt→ltb, fun_ext, ap₂, ◌∙◌, false,
}
use pyramid_kernel.Memory.{Memory}
use pyramid_kernel.Shell.{
  Shell, show_cursor, newline, advance_pos, back_pos, put_char, write_char, write_from, write,
  write_prompt, clear_screen, back_space, write_cell, fb_width, fb_height,
}

-- The cursor is on the screen.
pub record IsOnScreen (s : Shell) : Type 0 where
  pub col : s.fb_col < fb_width
  pub row : s.fb_row < fb_height

pub show_cursor_keeps :
    (s : Shell) → ((show_cursor s).fb_col ≡ s.fb_col) × ((show_cursor s).fb_row ≡ s.fb_row)
unfolding show_cursor
show_cursor_keeps s = ground arith

pub newline-IsOnScreen : (s : Shell) → IsOnScreen s → IsOnScreen (newline s)
unfolding newline
newline-IsOnScreen s on = ground arith

pub advance_pos-IsOnScreen : (s : Shell) → IsOnScreen s → IsOnScreen (advance_pos s)
unfolding advance_pos
advance_pos-IsOnScreen s on = ground arith

pub back_pos-IsOnScreen : (s : Shell) → IsOnScreen s → IsOnScreen (back_pos s)
unfolding back_pos
back_pos-IsOnScreen s on = ground arith

pub put_char-IsOnScreen : (fg c : ℕ) (s : Shell) → IsOnScreen s → IsOnScreen (put_char fg c s)
unfolding put_char
put_char-IsOnScreen fg c s on = ground arith

pub write_char-IsOnScreen : (c : ℕ) (s : Shell) → IsOnScreen s → IsOnScreen (write_char c s)
unfolding write_char
write_char-IsOnScreen c s on = elim (Bool-cases (c == 10 || c == 13)) [
  | inl line_break ↦ rw line_break (newline-IsOnScreen s on)
  | inr other ↦ rw other (put_char-IsOnScreen 15 c s on)
]

write_from-IsOnScreen :
    (buf left i : ℕ) (s : Shell) → IsOnScreen s → IsOnScreen (write_from buf left i s)
unfolding write_from
write_from-IsOnScreen buf zero i s on = on
write_from-IsOnScreen buf (suc left) i s on =
    write_from-IsOnScreen buf left (i + 1) (write_char (s.mem (buf + i)) s)
      (write_char-IsOnScreen (s.mem (buf + i)) s on)

-- Whatever text it is given, `write` leaves a cursor that is on the screen on the screen.
pub write-IsOnScreen : (buf len : ℕ) (s : Shell) → IsOnScreen s → IsOnScreen (write buf len s)
unfolding write
write-IsOnScreen buf len s on = write_from-IsOnScreen buf len 0 s on

pub write_prompt-IsOnScreen :
    (cs : List ℕ) (s : Shell) → IsOnScreen s → IsOnScreen (write_prompt cs s)
unfolding write_prompt
write_prompt-IsOnScreen [] s on = on
write_prompt-IsOnScreen (c ∷ cs) s on = elim (Bool-cases (c == 10)) [
  | inl line_break ↦
      rw line_break (write_prompt-IsOnScreen cs (newline s) (newline-IsOnScreen s on))
  | inr other ↦
      rw other (write_prompt-IsOnScreen cs (put_char 3 c s) (put_char-IsOnScreen 3 c s on))
]

clear_screen-IsOnScreen : (s : Shell) → IsOnScreen (clear_screen s)
unfolding clear_screen
clear_screen-IsOnScreen s = ground arith

-- With the cursor on the screen `back_space` keeps the row and blanks one cell: away from the first
-- column it steps back by one and blanks that cell; in the first column it leaves the screen, as
-- the column wraps to `2 ^ 32 - 1`.
pub back_space_col :
    (s : Shell)
    → IsOnScreen s
    → ((back_space s).fb_row ≡ s.fb_row)
      × ((back_space s).fb_col ≡ (if s.fb_col == 0 then minus_one else s.fb_col - 1))
      × ((back_space s).mem
          ≡ write_cell
              (if s.fb_col == 0
                then (s.fb_row * 80 + 65535) % 65536
                else s.fb_row * 80 + s.fb_col - 1)
              0x20
              15
              0
              s.mem)
unfolding back_space
back_space_col s on = ground arith

put_char_inner :
    (fg c : ℕ) (s : Shell)
    → IsOnScreen s
    → s.fb_col < fb_width - 1
    → ((put_char fg c s).fb_col ≡ s.fb_col + 1)
      × ((put_char fg c s).fb_row ≡ s.fb_row)
      × ((put_char fg c s).mem ≡ write_cell (s.fb_row * 80 + s.fb_col) c fg 0 s.mem)
unfolding put_char
put_char_inner fg c s on inner = rw (lt→ltb s.fb_col 79 inner) (ground arith)

write_cell_again :
    (i c fg bg c' fg' bg' : ℕ) (m : Memory)
    → write_cell i c fg bg (write_cell i c' fg' bg' m) ≡ write_cell i c fg bg m
unfolding write_cell
write_cell_again i c fg bg c' fg' bg' m = fun_ext λ b. ground arith

-- With the cursor on the screen and not in the last column, writing a character and taking it back
-- returns the cursor and leaves the memory with that one cell blank.
pub back_space-put_char :
    (fg c : ℕ) (s : Shell)
    → IsOnScreen s
    → s.fb_col < fb_width - 1
    → let s' = back_space (put_char fg c s) in
      (s'.fb_col ≡ s.fb_col)
      × (s'.fb_row ≡ s.fb_row)
      × (s'.mem ≡ write_cell (s.fb_row * 80 + s.fb_col) 0x20 15 0 s.mem)
back_space-put_char fg c s on inner =
    let typed = put_char fg c s in
    let (col, row, mem) = put_char_inner fg c s on inner in
    let (row', col', mem') = back_space_col typed (put_char-IsOnScreen fg c s on) in
    let later : (typed.fb_col == 0) ≡ false = ground arith in
    let cell : (if typed.fb_col == 0
          then (typed.fb_row * 80 + 65535) % 65536
          else typed.fb_row * 80 + typed.fb_col - 1)
        ≡ s.fb_row * 80 + s.fb_col =
      ground arith in
    (
      ground arith,
      row' ∙ row,
      mem'
          ∙ ap₂ (λ i m. write_cell i 0x20 15 0 m) cell mem
          ∙ write_cell_again (s.fb_row * 80 + s.fb_col) 0x20 15 0 c fg 0 s.mem,
    )
