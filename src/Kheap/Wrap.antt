-- ===== src/Kheap/Wrap.antt =====
-- kernel/mm/kheap.c: the search for a hole where the data has to start at a page boundary.
use pyramid_kernel.Prelude.{
  ℕ, ◌+◌, ◌-◌, ◌%◌, ◌^◌, ◌≤◌, ◌<◌, ◌≡◌, ◌==◌, arith, true, false, ltb, leb, add32, bit_and,
  if◌then◌else◌,
}
use pyramid_kernel.Prelude.Bits.{bit_and-page}
use pyramid_kernel.Memory.{Memory, IsBytes, load32-lt}
use pyramid_kernel.Kheap.{size_of, hole_fits}

-- What is left of the hole from the page boundary on, if there is one in it.
abbrev pub aligned_rest : (header : ℕ) → Memory → ℕ
aligned_rest header m = size_of m header - (4096 - (header + 12) % 4096)

module _ (size page_align header : ℕ) (m : Memory) (aligned : 0 < page_align)
    (low : 4096 ≤ header + 12) (high : header + 12 < 2 ^ 32) (bytes : IsBytes m) where
  above_page : (bit_and (add32 header 12) 0xffff_f000 == 0) ≡ false
  above_page =
      let there : add32 header 12 ≡ header + 12 = omega arith in
      rw there (ground (arith, bit_and-page (header + 12) high))

  -- In a memory of bytes, for a request of at most 4 GiB less a page at a page boundary, and a hole
  -- whose data starts at 4096 or later: a hole that reaches the boundary behind its header serves
  -- exactly if `size` bytes are left from there, and a hole that ends in front of it serves always,
  -- since the difference wraps.
  pub hole_fits_aligned :
      size ≤ 2 ^ 32 - 4096
      → hole_fits size page_align header m ≡ (
          if ltb (size_of m header) (4096 - (header + 12) % 4096)
          then true
          else leb size (aligned_rest header m))
  unfolding hole_fits
  hole_fits_aligned most = ground (arith, above_page, load32-lt m (header + 8) bytes)
