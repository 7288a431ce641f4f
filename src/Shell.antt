-- ===== src/Shell.antt =====
-- kernel/lib/shell.c: the text console on the VGA frame buffer.
pub mod Cursor
pub mod Scroll
pub mod Frame
use pyramid_kernel.Prelude.{
  ℕ, zero, suc, ◌+◌, ◌-◌, ◌*◌, ◌/◌, bit_and, bit_or, List, [], ◌∷◌, ◌==◌, if◌then◌else◌, ◌||◌, ltb,
  u8, u16, add32, sub32, mul32,
}
use pyramid_kernel.Memory.{Memory, store8}
use pyramid_kernel.Memory.Bytes.{memmove}

abbrev pub fb_black : ℕ
fb_black = 0

abbrev pub fb_white : ℕ
fb_white = 15

abbrev pub fb_base_address : ℕ
fb_base_address = 0xb_8000

abbrev pub fb_width : ℕ
fb_width = 80

abbrev pub fb_height : ℕ
fb_height = 25

abbrev pub fb_command_port : ℕ
fb_command_port = 0x3d4

abbrev pub fb_data_port : ℕ
fb_data_port = 0x3d5

abbrev pub fb_high_byte_command : ℕ
fb_high_byte_command = 14

abbrev pub fb_low_byte_command : ℕ
fb_low_byte_command = 15

-- The memory, the cursor, and what `outb` has sent, the latest first, as port and byte.
pub record Shell : Type 0 where
  pub mem : Memory
  pub fb_col : ℕ
  pub fb_row : ℕ
  pub sent : List (ℕ × ℕ)

unfoldable pub outb : (port byte : ℕ) → Shell → Shell
outb port byte s = record s { sent = (port, u8 byte) ∷ s.sent }

-- `fb + 2 * i` for a `short i`, given by its bit pattern.
abbrev pub cell_at : ℕ → ℕ
cell_at i = if ltb i 0x8000 then fb_base_address + 2 * i else fb_base_address + 2 * i - 2 * 0x1_0000

unfoldable pub write_cell : (i c fg bg : ℕ) → Memory → Memory
write_cell i c fg bg m =
    store8 (store8 m (cell_at i) (u8 c)) (cell_at i + 1)
      (u8 (bit_or (bit_and bg 0xf * 16) (bit_and fg 0xf)))

unfoldable pub move_cursor : ℕ → Shell → Shell
unfolding outb
move_cursor pos s = outb fb_data_port (bit_and pos 0xff) (
    outb fb_command_port fb_low_byte_command
      (outb fb_data_port (bit_and (pos / 256) 0xff) (outb fb_command_port fb_high_byte_command s)))

-- `fb_col + (fb_row * FB_WIDTH)`, cut to 16 bits by the variable or the parameter that takes it.
abbrev pub position : Shell → ℕ
position s = u16 (add32 s.fb_col (mul32 s.fb_row fb_width))

abbrev pub blank : ℕ
blank = 0x20

-- `write_cell(i, ' ', FB_WHITE, FB_BLACK)` for `left` cells from `i` on.
unfoldable pub clear_cells : (left i : ℕ) → Memory → Memory
unfolding write_cell
clear_cells zero i m = m
clear_cells (suc left) i m = clear_cells left (i + 1) (write_cell i blank fb_white fb_black m)

unfoldable pub clear_row : (row : ℕ) → Memory → Memory
clear_row row m = clear_cells fb_width (row * fb_width) m

unfoldable pub scroll_down : Memory → Memory
unfolding clear_row
scroll_down m = clear_row (fb_height - 1) (
    memmove m fb_base_address (fb_base_address + 2 * fb_width) (fb_width * 2 * (fb_height * 2 - 1)))

-- The last statement of each function that moves the cursor.
unfoldable pub show_cursor : Shell → Shell
unfolding move_cursor
show_cursor s = move_cursor (position s) s

unfoldable pub newline : Shell → Shell
unfolding scroll_down show_cursor
newline s =
    show_cursor
      (record (if ltb s.fb_row (fb_height - 1)
        then record s { fb_row = s.fb_row + 1 }
        else record s { mem = scroll_down s.mem }) { fb_col = 0 })

unfoldable pub advance_pos : Shell → Shell
unfolding newline
advance_pos s =
    show_cursor
      (if ltb s.fb_col (fb_width - 1) then record s { fb_col = s.fb_col + 1 } else newline s)

unfoldable pub back_pos : Shell → Shell
unfolding show_cursor
back_pos s =
    if s.fb_col == 0
    then (if s.fb_row == 0
        then s
        else show_cursor (record s { fb_col = fb_width - 1; fb_row = s.fb_row - 1 }))
    else show_cursor (record s { fb_col = s.fb_col - 1 })

-- A character that is no line break, in the colour `fg`.
unfoldable pub put_char : (fg c : ℕ) → Shell → Shell
unfolding write_cell advance_pos
put_char fg c s = advance_pos (record s { mem = write_cell (position s) c fg fb_black s.mem })

-- The body of the loop of `write`.
unfoldable pub write_char : ℕ → Shell → Shell
unfolding newline put_char
write_char c s = if c == 10 || c == 13 then newline s else put_char fb_white c s

unfoldable pub write_from : (buf left i : ℕ) → Shell → Shell
unfolding write_char
write_from buf zero i s = s
write_from buf (suc left) i s = write_from buf left (i + 1) (write_char (s.mem (buf + i)) s)

unfoldable pub write : (buf len : ℕ) → Shell → Shell
unfolding write_from
write buf len s = write_from buf len 0 s

-- The loop of `init_prompt` over the characters of the prompt.
unfoldable pub write_prompt : List ℕ → Shell → Shell
unfolding newline put_char
write_prompt [] s = s
write_prompt (c ∷ cs) s = write_prompt cs (if c == 10 then newline s else put_char 3 c s)

unfoldable pub clear_screen : Shell → Shell
unfolding clear_cells move_cursor
clear_screen s =
    move_cursor 0
      (record s { mem = clear_cells (fb_width * fb_height) 0 s.mem; fb_col = 0; fb_row = 0 })

unfoldable pub back_space : Shell → Shell
unfolding write_cell show_cursor
back_space s =
    let s' = record s { fb_col = sub32 s.fb_col 1 } in
    show_cursor (record s' { mem = write_cell (position s') blank fb_white fb_black s'.mem })
