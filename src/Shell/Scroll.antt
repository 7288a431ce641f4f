-- ===== src/Shell/Scroll.antt =====
-- kernel/lib/shell.c: `scroll_down` moves the rows of the screen up by one and blanks the last.
use pyramid_kernel.Prelude.{
  ℕ, zero, suc, ◌+◌, ◌-◌, ◌*◌, ◌≤◌, ◌<◌, ◌≡◌, refl, arith, ◌==◌, if◌then◌else◌, ◌∙◌, ◌⊎◌, ap,
}
use native.Mathlib.Decide.{ℕ_discrete}
use pyramid_kernel.Memory.{Memory}
use pyramid_kernel.Memory.Bytes.{memmove, memmove_lem}
use pyramid_kernel.Shell.{
  write_cell, clear_cells, clear_row, scroll_down, fb_base_address, fb_width, fb_height,
}

-- The byte `j` (of 160) of row `r`.
abbrev pub row_byte : ℕ → ℕ → ℕ
row_byte r j = fb_base_address + 160 * r + j

write_cell_lem :
    (i b : ℕ) (m : Memory)
    → i < 0x8000
    → write_cell i 0x20 15 0 m b ≡ (
        if b == fb_base_address + 2 * i + 1
        then 15
        else if b == fb_base_address + 2 * i
        then 0x20
        else m b)
unfolding write_cell
write_cell_lem i b m low = ground arith

pub clear_cells_outside :
    (left i b : ℕ) (m : Memory)
    → i + left < 0x8000
    → (b < fb_base_address + 2 * i) ⊎ (fb_base_address + 2 * (i + left) ≤ b)
    → clear_cells left i m b ≡ m b
unfolding clear_cells
clear_cells_outside zero i b m low out = refl
clear_cells_outside (suc left) i b m low out =
    clear_cells_outside left (i + 1) b (write_cell i 0x20 15 0 m) (omega arith) (omega arith)
    ∙ ground (arith, write_cell_lem i b m (omega arith))

-- Each cell is a space, white on black.
pub clear_cells_inside :
    (left i k : ℕ) (m : Memory)
    → i + left < 0x8000
    → i ≤ k
    → k < i + left
    → (clear_cells left i m (fb_base_address + 2 * k) ≡ 0x20)
      × (clear_cells left i m (fb_base_address + 2 * k + 1) ≡ 15)
unfolding clear_cells
clear_cells_inside zero i k m low from to = absurd (omega arith)
clear_cells_inside (suc left) i k m low from to =
    let m' = write_cell i 0x20 15 0 m in
    elim (ℕ_discrete k i) [
      | yes e ↦ (
        clear_cells_outside left (i + 1) (fb_base_address + 2 * k) m' (omega arith) (omega arith)
            ∙ ground (arith, write_cell_lem i (fb_base_address + 2 * k) m (omega arith)),
        clear_cells_outside left (i + 1) (fb_base_address + 2 * k + 1) m' (omega arith)
              (omega arith)
            ∙ ground (arith, write_cell_lem i (fb_base_address + 2 * k + 1) m (omega arith)),
      )
      | no ne ↦ clear_cells_inside left (i + 1) k m' (omega arith) (omega arith) to'
    ]
  where
    to' : k < i + 1 + left
    to' = omega arith

-- After `scroll_down` each row but the last shows what the row below it showed; each cell of the last
-- row is a space, white on black.
pub scroll_down_lem :
    (m : Memory)
    → ((r j : ℕ)
        → r < fb_height - 1
        → j < 160
        → scroll_down m (row_byte r j) ≡ m (row_byte (r + 1) j))
      × ((c : ℕ)
          → c < fb_width
          → (scroll_down m (row_byte (fb_height - 1) (2 * c)) ≡ 0x20)
            × (scroll_down m (row_byte (fb_height - 1) (2 * c + 1)) ≡ 15))
unfolding scroll_down
scroll_down_lem m = (
  λ r j above inside.
      let m₁ = memmove m fb_base_address (fb_base_address + 160) 7840 in
      clear_cells_outside 80 1920 (row_byte r j) m₁ (omega arith) (omega arith)
      ∙ ap m₁ {x = row_byte r j} {y = fb_base_address + (160 * r + j)} (omega arith)
      ∙ (memmove_lem m fb_base_address (fb_base_address + 160) 7840 (omega arith)).0 (160 * r + j)
          (omega arith)
      ∙ ap m {x = fb_base_address + 160 + (160 * r + j)} {y = row_byte (r + 1) j} (omega arith),
  λ c inside.
      let m₁ = memmove m fb_base_address (fb_base_address + 160) 7840 in
      let cell =
        clear_cells_inside 80 1920 (1920 + c) m₁ (omega arith) (omega arith) (omega arith) in
      (
        ap (clear_row 24 m₁) {x = row_byte 24 (2 * c)} {y = fb_base_address + 2 * (1920 + c)}
              (omega arith)
            ∙ cell.0,
        ap (clear_row 24 m₁) {x = row_byte 24 (2 * c + 1)}
              {y = fb_base_address + 2 * (1920 + c) + 1} (omega arith)
            ∙ cell.1,
      ),
)

-- Beyond the screen it writes up to 3840 bytes further, as many as it copies from.
pub scroll_down_outside :
    (b : ℕ) (m : Memory)
    → (b < fb_base_address) ⊎ (fb_base_address + 7840 ≤ b)
    → scroll_down m b ≡ m b
unfolding scroll_down
scroll_down_outside b m out =
    clear_cells_outside 80 1920 b (memmove m fb_base_address (fb_base_address + 160) 7840)
      (omega arith) (omega arith)
    ∙ (memmove_lem m fb_base_address (fb_base_address + 160) 7840 (omega arith)).1 b (omega arith)
