-- ===== src/Tests/Releases.antt =====
-- kernel/mm/kheap.c: blocks that are released beside a hole, and the ends of loops and of recursion.
use pyramid_kernel.Prelude.{ℕ, ◌+◌, ◌≡◌, refl, arith, inl}
use pyramid_kernel.Memory.{Memory, IsBytes, load32, store32, store32-IsBytes}
use pyramid_kernel.OrderedArray.{lookup_ordered_array}
use pyramid_kernel.Tests.Small.{kernel_of, zeros-IsBytes}
use pyramid_kernel.OrderedArray.Remove.{erase_at}
use pyramid_kernel.Kernel.{Kernel, ok, out_of_fuel}
use pyramid_kernel.Kheap.{write_header, write_footer, find_smallest_hole}
use pyramid_kernel.Kheap.Blocks.{FooterAt, write_header-IsBytes, write_footer-IsBytes}
use pyramid_kernel.Kheap.Resize.{contract, contract_size}
use pyramid_kernel.Kheap.Alloc.{alloc}
use pyramid_kernel.Kheap.Release.{free, find_header}
use pyramid_kernel.Kheap.Kmalloc.{kmalloc, kmalloc_ap}
use pyramid_kernel.Kheap.JoinLeft.{AreNeighbours}
use pyramid_kernel.Kheap.FreeRight.{IsBeforeHole, FreedRight, free-FreedRight}
use pyramid_kernel.Kheap.Undo.{CanUndo, Undone, free-alloc}
use pyramid_kernel.Kheap.Ends.{Ends, resized, contract-Ends}
use pyramid_kernel.Kheap.Endless.{IsStuck, kmalloc-endless}

-- 50 bytes at 100 and 60 bytes at 150, with the marks given; the index holds `item`.
abbrev two_blocks : (first_hole second_hole item : ℕ) → Memory
two_blocks first_hole second_hole item = write_footer 202 150 (
    write_footer 142 100
      (write_header 150 second_hole 60 (write_header 100 first_hole 50 (store32 (λ _. 0) 16 item))))

two_blocks-AreNeighbours :
    (first_hole second_hole item : ℕ)
    → first_hole + second_hole ≡ 1
    → AreNeighbours (two_blocks first_hole second_hole item) 100 first_hole 50 150 second_hole 60
unfolding load32 store32 write_header write_footer
two_blocks-AreNeighbours first_hole second_hole item one = record {
  left_header = record { magic = refl; hole = ground arith; span = refl };
  left_footer = record { magic = refl; owner = refl };
  right_header = record { magic = refl; hole = ground arith; span = refl };
  adjacent = refl;
  left_fits = omega arith;
  right_fits = omega arith;
  in_memory = omega arith;
}

last_footer :
    (first_hole second_hole item : ℕ) → FooterAt (two_blocks first_hole second_hole item) 202 150
unfolding load32 store32 write_header write_footer
last_footer first_hole second_hole item = record { magic = refl; owner = refl }

two_blocks-IsBytes : IsBytes (two_blocks 0 1 150)
two_blocks-IsBytes =
    let m₁ = store32 (λ _. 0) 16 150 in
    let m₂ = write_header 100 0 50 m₁ in
    let m₃ = write_header 150 1 60 m₂ in
    write_footer-IsBytes 202 150 (write_footer 142 100 m₃) (
      write_footer-IsBytes 142 100 m₃ (
        write_header-IsBytes 150 1 60 m₂ (omega arith) (
          write_header-IsBytes 100 0 50 m₁ (omega arith)
            (store32-IsBytes (λ _. 0) 16 150 zeros-IsBytes))))

first-IsBeforeHole : IsBeforeHole (kernel_of 1 (two_blocks 0 1 150)) 100 50 150 60 0
unfolding load32 store32 write_header write_footer find_header lookup_ordered_array
first-IsBeforeHole = record {
  neighbours = two_blocks-AreNeighbours 0 1 150 refl;
  footer = last_footer 0 1 150;
  left = inl (omega arith);
  within = omega arith;
  found = refl;
  behind_index = omega arith;
  in_heap = omega arith;
  in_memory = omega arith;
  bytes = two_blocks-IsBytes;
}

free-FreedRight_example :
    (k' : Kernel) × (free (kmalloc_ap 1) (100 + 12) (kernel_of 1 (two_blocks 0 1 150)) ≡ ok tt k')
    × FreedRight (kernel_of 1 (two_blocks 0 1 150)) 100 50 150 60 0 k'
free-FreedRight_example =
    free-FreedRight (kmalloc_ap 1) (kernel_of 1 (two_blocks 0 1 150)) 100 50 150 60 0
      first-IsBeforeHole

-- One hole of 150 bytes at 100, which the index holds.
abbrev one_hole : Memory
one_hole = write_header 100 1 150 (store32 (λ _. 0) 16 100)

one_hole-CanUndo : CanUndo (kernel_of 1 one_hole) 0 60 100 150
unfolding load32 store32 write_header lookup_ordered_array erase_at
one_hole-CanUndo = record {
  split = record {
    within = omega arith;
    position = refl;
    span = refl;
    large = omega arith;
    in_heap = omega arith;
    in_memory = omega arith;
    behind_index = omega arith;
    bytes =
        write_header-IsBytes 100 1 150 (store32 (λ _. 0) 16 100) (omega arith)
          (store32-IsBytes (λ _. 0) 16 100 zeros-IsBytes);
  };
  behind_index = omega arith;
  inside = omega arith;
  left = inl (omega arith);
  fresh = tt;
}

one_hole_found : find_smallest_hole (60 + 20) 0 (kernel_of 1 one_hole).heap one_hole ≡ 0
unfolding find_smallest_hole load32 store32 write_header
one_hole_found = refl

free-alloc_example :
    (p : ℕ) × (k₁ : Kernel) × (k₂ : Kernel) × (alloc (kmalloc_ap 1) 1 60 0 (kernel_of 1 one_hole)
      ≡ ok p k₁)
    × (free (kmalloc_ap 1) p k₁ ≡ ok tt k₂)
    × Undone (kernel_of 1 one_hole) 0 60 100 150 k₂
free-alloc_example =
    free-alloc (kmalloc_ap 1) 0 0 60 100 150 (kernel_of 1 one_hole) (omega arith) one_hole_found
      one_hole-CanUndo

-- A heap of 0x7_3000 bytes in which every page has a table.
abbrev large_kernel : Kernel
large_kernel =
    let k = kernel_of 0 (λ _. 1) in
    record k { heap = record k.heap { start_address = 0x1000; end_address = 0x7_4000 } }

contract-Ends_example :
    Ends
      (λ r k'. (r ≡ contract_size 0x200) × (k'.heap ≡ resized large_kernel (contract_size 0x200)))
      (contract (kmalloc_ap 1) 0x200 large_kernel)
contract-Ends_example = contract-Ends (kmalloc_ap 1) 0x200 large_kernel

-- A heap without a hole, and a directory without a table.
full_kernel-IsStuck : IsStuck (kernel_of 0 (λ _. 0))
unfolding find_smallest_hole load32
full_kernel-IsStuck = record {
  set_up = omega arith;
  no_table = refl;
  no_hole = refl;
  room = omega arith;
}

nothing_found : find_smallest_hole (100 + 20) 0 (kernel_of 0 (λ _. 0)).heap (λ _. 0) ≡ 0xffff_ffff
unfolding find_smallest_hole
nothing_found = refl

kmalloc-endless_example : kmalloc 9 100 (kernel_of 0 (λ _. 0)) ≡ out_of_fuel
kmalloc-endless_example =
    kmalloc-endless 9 100 (kernel_of 0 (λ _. 0)) full_kernel-IsStuck (omega arith) nothing_found
