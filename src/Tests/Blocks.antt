-- ===== src/Tests/Blocks.antt =====
-- kernel/mm/kheap.c: a block that is released alone, and a hole that is too small.
use pyramid_kernel.Prelude.{
  ◌+◌, ◌-◌, ◌%◌, ◌≡◌, refl, arith, inl, inr, true, if◌then◌else◌, ltb, leb,
}
use pyramid_kernel.Memory.{Memory, load32, store32}
use pyramid_kernel.Tests.Small.{kernel_of, zeros-IsBytes}
use pyramid_kernel.Kernel.{Kernel, ok}
use pyramid_kernel.Kheap.{write_header, hole_fits, size_of}
use pyramid_kernel.Kheap.Blocks.{write_header-IsBytes, write_header-HeaderAt}
use pyramid_kernel.Kheap.Kmalloc.{kmalloc_ap}
use pyramid_kernel.Kheap.Release.{free}
use pyramid_kernel.Kheap.Lone.{IsLone, Freed, free-Freed}
use pyramid_kernel.Kheap.Wrap.{aligned_rest, hole_fits_aligned}

-- One block of 50 bytes at 100.
abbrev one_block : Memory
one_block = write_header 100 0 50 (λ _. 0)

one_block-IsLone : IsLone (kernel_of 0 one_block) 100 50
unfolding load32 store32 write_header
one_block-IsLone = record {
  block = write_header-HeaderAt 100 0 50 (λ _. 0) (omega arith);
  left = inl (omega arith);
  right = inr refl;
  fits = omega arith;
  in_heap = omega arith;
  in_memory = omega arith;
  behind_index = omega arith;
  bytes = write_header-IsBytes 100 0 50 (λ _. 0) (omega arith) zeros-IsBytes;
}

free-Freed_example :
    (k' : Kernel) × (free (kmalloc_ap 1) (100 + 12) (kernel_of 0 one_block) ≡ ok tt k')
    × Freed (kernel_of 0 one_block) 100 50 k'
free-Freed_example = free-Freed (kmalloc_ap 1) (kernel_of 0 one_block) 100 50 one_block-IsLone

-- A hole of 40 bytes at 0x2000, and a request for 1 GiB at a page boundary.
abbrev small_hole : Memory
small_hole = write_header 0x2000 1 40 (λ _. 0)

hole_fits_aligned_example : hole_fits 0x4000_0000 1 0x2000 small_hole ≡ (
    if ltb (size_of small_hole 0x2000) (4096 - (0x2000 + 12) % 4096)
    then true
    else leb 0x4000_0000 (aligned_rest 0x2000 small_hole))
hole_fits_aligned_example =
    hole_fits_aligned 0x4000_0000 1 0x2000 small_hole (omega arith) (omega arith) (omega arith)
      (write_header-IsBytes 0x2000 1 40 (λ _. 0) (omega arith) zeros-IsBytes) (omega arith)
