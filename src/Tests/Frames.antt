-- ===== src/Tests/Frames.antt =====
-- kernel/mm/paging.c on a bitset of two sections and an empty page directory.
use pyramid_kernel.Prelude.{ℕ, ◌+◌, ◌*◌, ◌/◌, ◌<◌, ◌≡◌, refl, arith, inl, inr}
use pyramid_kernel.Memory.{Memory, IsBytes, load32, store32, store32-IsBytes}
use pyramid_kernel.OrderedArray.{standard_lessthan_predicate}
use pyramid_kernel.Kernel.{Heap, Kernel, ok}
use pyramid_kernel.Paging.{
  first_free_frame, alloc_frame, free_frame, get_page, page_in, section_size, frame_of,
}
use pyramid_kernel.Paging.FirstFree.{FirstFree, first_free_frame-FirstFree}
use pyramid_kernel.Paging.Frames.{used}
use pyramid_kernel.Paging.Free.{
  Allocated, covered, alloc_frame-Allocated, alloc_frame_exhausted, free_frame_leaks,
}
use pyramid_kernel.Paging.Pages.{Made, Leaves, get_page-Made}
use pyramid_kernel.Kheap.Kmalloc.{kmalloc_int, kmalloc_ap, align_placement, place}

-- Frames 0 to 31, 32 and 34 are used; the entry at 16 is empty, and the one at 20 holds frame 34.
abbrev entries : Memory
entries = store32 (λ _. 0) 20 0x22003

abbrev bitset : Memory
bitset = store32 (store32 entries 0x100 0xffff_ffff) 0x104 5

abbrev no_heap : Heap
no_heap = record {
  index = record { array = 0; size = 0; max_size = 0; less_than = standard_lessthan_predicate };
  start_address = 0;
  end_address = 0;
  max_address = 0;
  supervisor = 0;
  readonly = 0;
}

abbrev two_sections : Kernel
two_sections = record {
  mem = bitset;
  placement_address = 0x4800;
  kheap = 0;
  heap = no_heap;
  kernel_directory = 0x2000;
  current_directory = 0x2000;
  frame_allocations = 0x100;
  num_of_frames = 64;
}

-- All of the 32 frames are used.
abbrev one_section : Kernel
one_section = record two_sections { num_of_frames = 32 }

bitset-IsBytes : IsBytes bitset
bitset-IsBytes = store32-IsBytes (store32 entries 0x100 0xffff_ffff) 0x104 5 (
    store32-IsBytes entries 0x100 0xffff_ffff
      (store32-IsBytes (λ _. 0) 20 0x22003 λ b. omega arith))

lowest_free : first_free_frame two_sections ≡ 33
unfolding first_free_frame load32 store32
lowest_free = refl

none_free : first_free_frame one_section ≡ 32
unfolding first_free_frame load32 store32
none_free = refl

empty_entry : frame_of (load32 bitset 16) ≡ 0
unfolding load32 store32
empty_entry = refl

held_entry : frame_of (load32 bitset 20) ≡ 34
unfolding load32 store32
held_entry = refl

first_free_frame-FirstFree_example :
    FirstFree bitset 0x100 0 (64 / section_size) (first_free_frame two_sections)
first_free_frame-FirstFree_example = first_free_frame-FirstFree two_sections

alloc_frame-Allocated_example :
    (k' : Kernel) × (alloc_frame 16 0 1 two_sections ≡ ok tt k')
    × Allocated two_sections 16 1 (first_free_frame two_sections) k'
alloc_frame-Allocated_example =
    alloc_frame-Allocated 16 0 1 two_sections (inl (omega arith)) empty_entry bitset-IsBytes
      (omega arith) (rw lowest_free (omega arith))

all_used : (f : ℕ) → f < covered one_section → used 0x100 f bitset ≡ 1
all_used f below =
    (first_free_frame-FirstFree one_section).used_below f (omega arith)
      (rw none_free (omega (arith, below)))

alloc_frame_exhausted_example :
    (k' : Kernel) × (alloc_frame 16 0 1 one_section ≡ ok tt k')
    × (frame_of (load32 k'.mem 16) ≡ covered one_section)
alloc_frame_exhausted_example =
    alloc_frame_exhausted 16 0 1 one_section (inl (omega arith)) empty_entry bitset-IsBytes
      (omega arith) all_used

free_frame_leaks_example :
    let frame = frame_of (load32 bitset 20) in
    (k' : Kernel) × (free_frame 20 two_sections ≡ ok tt k')
    × (frame_of (load32 k'.mem 20) ≡ 0)
    × (used 0x100 frame k'.mem ≡ used 0x100 frame bitset)
    × (used 0x100 (frame / 4096) k'.mem ≡ 0)
free_frame_leaks_example =
    free_frame_leaks 20 two_sections (inl (omega arith)) bitset-IsBytes
      (rw held_entry (omega arith)) (rw held_entry (omega arith))

no_table : load32 bitset (0x2000 + 4 * 768) ≡ 0
unfolding load32 store32
no_table = refl

next_page :
    kmalloc_ap 1 4096 two_sections
    ≡ ok (0x5000, 0x5000) (record two_sections { placement_address = 0x6000 })
unfolding kmalloc_ap kmalloc_int place align_placement
next_page = refl

get_page-Made_example :
    (k' : Kernel) × (get_page (kmalloc_ap 1) 0xc000_1000 1 0x2000 two_sections
      ≡ ok (page_in 0x5000 (0xc000_1000 / 0x1000)) k')
    × Made 0x2000 0xc000_1000 0x5000 0x5000 k'
    × ((again : ℕ)
        → get_page (kmalloc_ap 1) 0xc000_1000 again 0x2000 k'
          ≡ ok (page_in 0x5000 (0xc000_1000 / 0x1000)) k')
    × Leaves 0x2000 0xc000_1000 0x5000 (record two_sections { placement_address = 0x6000 }) k'
get_page-Made_example =
    get_page-Made (kmalloc_ap 1) 0xc000_1000 1 0x2000 0x5000 0x5000 two_sections
      (record two_sections { placement_address = 0x6000 }) (omega arith) (omega arith) no_table
      next_page (omega arith) (omega arith) (omega arith) (inr (omega arith))
