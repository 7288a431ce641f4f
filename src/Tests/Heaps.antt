-- ===== src/Tests/Heaps.antt =====
-- kernel/mm/kheap.c on a heap of one hole, and on a kernel that has no heap yet.
use pyramid_kernel.Prelude.{◌+◌, ◌/◌, ◌≤◌, ◌<◌, ◌≡◌, refl, arith}
use pyramid_kernel.Memory.{Memory, IsBytes, load32, store32, store32-IsBytes}
use pyramid_kernel.OrderedArray.{lookup_ordered_array}
use pyramid_kernel.Kernel.{Heap, Kernel, ok, ◌>>◌}
use pyramid_kernel.Paging.{section_at, section_size}
use pyramid_kernel.Kheap.{header_t_less_than, write_header, find_smallest_hole, size_of}
use pyramid_kernel.Kheap.Blocks.{write_header-IsBytes}
use pyramid_kernel.Kheap.Alloc.{alloc}
use pyramid_kernel.Kheap.Kmalloc.{kmalloc_ap}
use pyramid_kernel.Kheap.Create.{IsFresh, create_heap-IsFresh}
use pyramid_kernel.Kheap.Setup.{create_heap, set_up_frame_allocations, set_up_page_directory}
use pyramid_kernel.Kheap.Search.{find_smallest_hole_smallest}
use pyramid_kernel.Kheap.Overlap.{directory_in_bitset}
use pyramid_kernel.Kheap.Split.{IsSplit, Split, alloc-Split}

-- The index at 16 holds one item, the hole of 200 bytes at 100.
abbrev one_hole : Memory
one_hole = write_header 100 1 200 (store32 (λ _. 0) 16 100)

abbrev small_heap : Heap
small_heap = record {
  index = record { array = 16; size = 1; max_size = 8; less_than = header_t_less_than };
  start_address = 100;
  end_address = 300;
  max_address = 300;
  supervisor = 0;
  readonly = 0;
}

abbrev small_kernel : Kernel
small_kernel = record {
  mem = one_hole;
  placement_address = 4096;
  kheap = 8;
  heap = small_heap;
  kernel_directory = 0;
  current_directory = 0;
  frame_allocations = 0;
  num_of_frames = 0;
}

abbrev early_kernel : Kernel
early_kernel = record small_kernel { placement_address = 5000; kheap = 0 }

one_hole-IsBytes : IsBytes one_hole
one_hole-IsBytes =
    write_header-IsBytes 100 1 200 (store32 (λ _. 0) 16 100) (omega arith)
      (store32-IsBytes (λ _. 0) 16 100 (λ b. omega arith))

first_hole : lookup_ordered_array 0 small_heap.index one_hole ≡ 100
unfolding lookup_ordered_array load32 store32 write_header
first_hole = refl

hole_span : size_of one_hole 100 ≡ 200
unfolding load32 store32 write_header
hole_span = refl

hole_found : find_smallest_hole 120 0 small_heap one_hole ≡ 0
unfolding find_smallest_hole load32 store32 write_header
hole_found = refl

small_kernel-IsSplit : IsSplit small_kernel 0 100 100 200
small_kernel-IsSplit = record {
  within = omega arith;
  position = first_hole;
  span = hole_span;
  large = omega arith;
  in_heap = omega arith;
  in_memory = omega arith;
  behind_index = omega arith;
  bytes = one_hole-IsBytes;
}

alloc-Split_example :
    (k' : Kernel) × (alloc (kmalloc_ap 2) 1 100 0 small_kernel ≡ ok (100 + 12) k')
    × Split small_kernel 0 100 100 200 k'
alloc-Split_example =
    alloc-Split (kmalloc_ap 2) 0 0 100 100 200 small_kernel (omega arith) hole_found
      small_kernel-IsSplit

find_smallest_hole_smallest_example :
    let i = find_smallest_hole 120 0 small_heap one_hole in
    (i < 1)
    × (120 ≤ size_of one_hole (lookup_ordered_array i small_heap.index one_hole))
    × (size_of one_hole (lookup_ordered_array i small_heap.index one_hole)
        ≤ size_of one_hole (lookup_ordered_array 0 small_heap.index one_hole))
find_smallest_hole_smallest_example =
    find_smallest_hole_smallest 120 small_heap one_hole 0 (omega arith) (tt, tt) (omega arith)
      (rw (first_hole, hole_span) (omega arith))

directory_in_bitset_example :
    (k' : Kernel) × ((set_up_frame_allocations 1 >> set_up_page_directory 1) early_kernel
      ≡ ok tt k')
    × (k'.frame_allocations < k'.kernel_directory)
    × (k'.kernel_directory < section_at k'.frame_allocations (k'.num_of_frames / section_size))
directory_in_bitset_example = directory_in_bitset 0 early_kernel refl (omega arith) (omega arith)

early_kernel-IsBytes : IsBytes early_kernel.mem
early_kernel-IsBytes = one_hole-IsBytes

create_heap-IsFresh_example :
    (k' : Kernel) × (create_heap 1 0xc000_0000 0xc010_0000 0xcfff_f000 0 0 early_kernel
      ≡ ok 5000 k')
    × IsFresh 0xc000_0000 0xc010_0000 k'
create_heap-IsFresh_example =
    create_heap-IsFresh 0 0xc000_0000 0xc010_0000 0xcfff_f000 0 0 early_kernel refl (omega arith)
      (omega arith) (omega arith) (omega arith) early_kernel-IsBytes
