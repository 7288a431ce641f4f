-- ===== src/Tests/Screens.antt =====
-- kernel/lib/shell.c on an empty screen.
use pyramid_kernel.Prelude.{ℕ, ◌+◌, ◌-◌, ◌*◌, ◌<◌, ◌≡◌, arith, inl, []}
use pyramid_kernel.Memory.{Memory}
use pyramid_kernel.Shell.{
  Shell, fb_width, fb_height, write, write_cell, put_char, back_space, scroll_down,
}
use pyramid_kernel.Shell.Cursor.{IsOnScreen, write-IsOnScreen, back_space-put_char}
use pyramid_kernel.Shell.Scroll.{row_byte, scroll_down_lem}
use pyramid_kernel.Shell.Frame.{write_outside}

-- Seven in each byte, which is the text too.
abbrev sevens : Memory
sevens _ = 7

-- The cursor is at the end of the last row.
abbrev bottom : Shell
bottom = record { mem = sevens; fb_col = 79; fb_row = 24; sent = [] }

abbrev top : Shell
top = record bottom { fb_col = 0; fb_row = 0 }

bottom-IsOnScreen : IsOnScreen bottom
bottom-IsOnScreen = record { col = omega arith; row = omega arith }

top-IsOnScreen : IsOnScreen top
top-IsOnScreen = record { col = omega arith; row = omega arith }

write-IsOnScreen_example : IsOnScreen (write 0x1000 3 bottom)
write-IsOnScreen_example = write-IsOnScreen 0x1000 3 bottom bottom-IsOnScreen

write_outside_example : (write 0x1000 3 bottom).mem 0x1000 ≡ 7
write_outside_example = write_outside 0x1000 3 0x1000 bottom bottom-IsOnScreen (inl (omega arith))

back_space-put_char_example :
    let s' = back_space (put_char 15 b'x' top) in
    (s'.fb_col ≡ 0) × (s'.fb_row ≡ 0) × (s'.mem ≡ write_cell (0 * 80 + 0) 0x20 15 0 sevens)
back_space-put_char_example = back_space-put_char 15 b'x' top top-IsOnScreen (omega arith)

scroll_down_lem_example :
    ((r j : ℕ)
      → r < fb_height - 1
      → j < 160
      → scroll_down sevens (row_byte r j) ≡ sevens (row_byte (r + 1) j))
    × ((c : ℕ)
        → c < fb_width
        → (scroll_down sevens (row_byte (fb_height - 1) (2 * c)) ≡ 0x20)
          × (scroll_down sevens (row_byte (fb_height - 1) (2 * c + 1)) ≡ 15))
scroll_down_lem_example = scroll_down_lem sevens
