-- ===== src/Tests/Chains.antt =====
-- kernel/mm/kheap.c: a heap of two or three neighbours, as a chain.
use pyramid_kernel.Prelude.{ℕ, ◌+◌, ◌<◌, ◌≡◌, refl, arith, inl, inr, [], ◌∷◌}
use pyramid_kernel.Memory.{Memory, IsBytes, load32, store32, store32-IsBytes}
use pyramid_kernel.OrderedArray.{lookup_ordered_array}
use pyramid_kernel.OrderedArray.Count.{count}
use pyramid_kernel.Tests.Small.{kernel_of}
use pyramid_kernel.Kernel.{Kernel, ok}
use pyramid_kernel.Kheap.{write_header, write_footer}
use pyramid_kernel.Kheap.Blocks.{write_header-IsBytes, write_footer-IsBytes}
use pyramid_kernel.Kheap.Alloc.{alloc}
use pyramid_kernel.Kheap.Release.{free, find_header}
use pyramid_kernel.Kheap.Kmalloc.{kmalloc_ap}
use pyramid_kernel.Kheap.Lone.{IsLone}
use pyramid_kernel.Kheap.FreeRight.{IsBeforeHole}
use pyramid_kernel.Kheap.Chain.{hole, block, Chain, holes}
use pyramid_kernel.Kheap.Allocation.{WellFormed, Allocated}
use pyramid_kernel.Kheap.Refines.{alloc-Allocated}
use pyramid_kernel.Kheap.Deallocation.{free_alone-WellFormed}
use pyramid_kernel.Kheap.Rejoin.{free_before-WellFormed}
use pyramid_kernel.Kheap.Lost.{IsSandwich, Lost, free-free-Lost}

-- 50 bytes at 100, 60 bytes at 150 and 90 bytes at 210, with the marks given; the index has `item`.
abbrev three : (first second third item : ℕ) → Memory
three first second third item = write_footer 292 210 (
    write_footer 202 150 (
      write_footer 142 100 (
        write_header 210 third 90
          (write_header 150 second 60 (write_header 100 first 50 (store32 (λ _. 0) 16 item))))))

three-IsBytes :
    (first second third item : ℕ)
    → first < 256
    → second < 256
    → third < 256
    → IsBytes (three first second third item)
three-IsBytes first second third item f s t =
    let m₁ = store32 (λ _. 0) 16 item in
    let m₂ = write_header 100 first 50 m₁ in
    let m₃ = write_header 150 second 60 m₂ in
    let m₄ = write_header 210 third 90 m₃ in
    let m₅ = write_footer 142 100 m₄ in
    let m₆ = write_footer 202 150 m₅ in
    write_footer-IsBytes 292 210 m₆ (
      write_footer-IsBytes 202 150 m₅ (
        write_footer-IsBytes 142 100 m₄ (
          write_header-IsBytes 210 third 90 m₃ t (
            write_header-IsBytes 150 second 60 m₂ s (
              write_header-IsBytes 100 first 50 m₁ f
                (store32-IsBytes (λ _. 0) 16 item (λ b. omega arith)))))))

-- A block, a hole and a block.
abbrev middle_hole : Memory
middle_hole = three 0 1 0 150

middle_hole-WellFormed : WellFormed (kernel_of 1 middle_hole) (block 50 ∷ hole 60 ∷ block 90 ∷ [])
unfolding Chain holes count load32 store32 write_header write_footer
middle_hole-WellFormed = record {
  chain = (
    record { magic = refl; hole = refl; span = refl },
    omega arith,
    (
      record { magic = refl; hole = refl; span = refl },
      omega arith,
      (record { magic = refl; hole = refl; span = refl }, omega arith, refl),
    ),
  );
  index = λ x. refl;
  behind_index = omega arith;
  in_memory = omega arith;
  bytes = three-IsBytes 0 1 0 150 (omega arith) (omega arith) (omega arith);
}

alloc-Allocated_example :
    (p : ℕ) × (k' : Kernel) × (alloc (kmalloc_ap 1) 1 20 0 (kernel_of 1 middle_hole) ≡ ok p k')
    × Allocated 20 (kernel_of 1 middle_hole) (block 50 ∷ hole 60 ∷ block 90 ∷ []) p k'
unfolding lookup_ordered_array load32 store32 write_header write_footer
alloc-Allocated_example =
    alloc-Allocated (kmalloc_ap 1) 0 20 0 (kernel_of 1 middle_hole)
      (block 50 ∷ hole 60 ∷ block 90 ∷ []) middle_hole-WellFormed (omega arith) (omega arith)

middle_hole-IsBeforeHole : IsBeforeHole (kernel_of 1 middle_hole) 100 50 (100 + 50) 60 0
unfolding load32 store32 write_header write_footer find_header lookup_ordered_array
middle_hole-IsBeforeHole = record {
  neighbours = record {
    left_header = record { magic = refl; hole = refl; span = refl };
    left_footer = record { magic = refl; owner = refl };
    right_header = record { magic = refl; hole = refl; span = refl };
    adjacent = refl;
    left_fits = omega arith;
    right_fits = omega arith;
    in_memory = omega arith;
  };
  footer = record { magic = refl; owner = refl };
  left = inl (omega arith);
  within = omega arith;
  found = refl;
  behind_index = omega arith;
  in_heap = omega arith;
  in_memory = omega arith;
  bytes = three-IsBytes 0 1 0 150 (omega arith) (omega arith) (omega arith);
}

free_before-WellFormed_example :
    (k' : Kernel) × (free (kmalloc_ap 1) (100 + 12) (kernel_of 1 middle_hole) ≡ ok tt k')
    × WellFormed k' (hole 110 ∷ block 90 ∷ [])
free_before-WellFormed_example =
    free_before-WellFormed (kmalloc_ap 1) (kernel_of 1 middle_hole) [] (block 90 ∷ []) 50 60 0
      middle_hole-WellFormed middle_hole-IsBeforeHole

-- A hole and two blocks.
abbrev first_hole : Memory
first_hole = three 1 0 0 100

-- Three blocks.
abbrev full : Memory
full = three 0 0 0 0

full-WellFormed : WellFormed (kernel_of 0 full) (block 50 ∷ block 60 ∷ block 90 ∷ [])
unfolding Chain holes count load32 store32 write_header write_footer
full-WellFormed = record {
  chain = (
    record { magic = refl; hole = refl; span = refl },
    omega arith,
    (
      record { magic = refl; hole = refl; span = refl },
      omega arith,
      (record { magic = refl; hole = refl; span = refl }, omega arith, refl),
    ),
  );
  index = λ x. refl;
  behind_index = omega arith;
  in_memory = omega arith;
  bytes = three-IsBytes 0 0 0 0 (omega arith) (omega arith) (omega arith);
}

full-IsLone : IsLone (kernel_of 0 full) 150 60
unfolding load32 store32 write_header write_footer
full-IsLone = record {
  block = record { magic = refl; hole = refl; span = refl };
  left = inr (omega arith, omega arith);
  right = inr refl;
  fits = omega arith;
  in_heap = omega arith;
  in_memory = omega arith;
  behind_index = omega arith;
  bytes = three-IsBytes 0 0 0 0 (omega arith) (omega arith) (omega arith);
}

free_alone-WellFormed_example :
    (k' : Kernel) × (free (kmalloc_ap 1) (150 + 12) (kernel_of 0 full) ≡ ok tt k')
    × WellFormed k' (block 50 ∷ hole 60 ∷ block 90 ∷ [])
free_alone-WellFormed_example =
    free_alone-WellFormed (kmalloc_ap 1) (kernel_of 0 full) (block 50 ∷ []) (block 90 ∷ []) 60
      full-WellFormed full-IsLone (omega arith)

-- A heap that goes on behind the third block.
abbrev longer : Kernel
longer = let k = kernel_of 1 middle_hole in record k { heap = record k.heap { end_address = 400 } }

longer-IsSandwich : IsSandwich longer 100 50 150 60 210 90 0
unfolding load32 store32 write_header write_footer find_header lookup_ordered_array count
longer-IsSandwich = record {
  before = record {
    neighbours = middle_hole-IsBeforeHole.neighbours;
    footer = middle_hole-IsBeforeHole.footer;
    left = inl (omega arith);
    within = omega arith;
    found = refl;
    behind_index = omega arith;
    in_heap = omega arith;
    in_memory = omega arith;
    bytes = middle_hole-IsBeforeHole.bytes;
  };
  adjacent = refl;
  block = record { magic = refl; hole = refl; span = refl };
  footer = record { magic = refl; owner = refl };
  fits = omega arith;
  right = inr refl;
  in_heap = omega arith;
  once = refl;
  apart = λ x listed other. absurd (ground arith);
}

free-free-Lost_example :
    (k₁ : Kernel) × (k₂ : Kernel) × (free (kmalloc_ap 1) (100 + 12) longer ≡ ok tt k₁)
    × (free (kmalloc_ap 1) (210 + 12) k₁ ≡ ok tt k₂)
    × Lost 100 50 150 60 210 90 k₁ k₂
free-free-Lost_example =
    free-free-Lost (kmalloc_ap 1) longer 100 50 150 60 210 90 0 longer-IsSandwich
