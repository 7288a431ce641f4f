-- ===== src/Kheap.antt =====
-- kernel/mm/kheap.c: the block headers and footers in memory, and the search for a hole.
pub mod Blocks
pub mod Resize
pub mod Ends
pub mod Endless
pub mod Alloc
pub mod Release
pub mod Kmalloc
pub mod Setup
pub mod Arrays
pub mod Search
pub mod Rounding
pub mod Early
pub mod Overlap
pub mod Split
pub mod JoinLeft
pub mod JoinRight
pub mod Marked
pub mod Lone
pub mod FreeLeft
pub mod FreeRight
pub mod Undo
pub mod Whole
pub mod Chain
pub mod Allocation
pub mod Refines
pub mod Deallocation
pub mod Rejoin
pub mod RejoinLeft
pub mod Lost
pub mod Wrap
pub mod Create
pub mod MapHeap
pub mod Paged
pub mod Identity
pub mod HeapPages
pub mod FirstTables
pub mod IdentityMap
use pyramid_kernel.Prelude.{
  ℕ, zero, suc, ◌+◌, ◌-◌, ◌%◌, bit_and, Bool, ◌==◌, if◌then◌else◌, not, ltb, leb, add32, sub32,
  minus_one,
}
use pyramid_kernel.Memory.{Memory, load32, store32, store8}
use pyramid_kernel.OrderedArray.{OrderedArray, LessThan, lookup_ordered_array}
use pyramid_kernel.Kernel.{Heap}

abbrev pub heap_magic : ℕ
heap_magic = 0x1238_90ab

abbrev pub heap_index_size : ℕ
heap_index_size = 0x20000

abbrev pub heap_min_size : ℕ
heap_min_size = 0x70000

abbrev pub kheap_start : ℕ
kheap_start = 0xc000_0000

abbrev pub kheap_initial_size : ℕ
kheap_initial_size = 0x10_0000

-- `sizeof(header_t)`: magic at 0, is_hole at 4 (one byte, and three of padding), size at 8.
abbrev pub header_size : ℕ
header_size = 12

-- `sizeof(footer_t)`: magic at 0, header at 4.
abbrev pub footer_size : ℕ
footer_size = 8

abbrev pub magic_of : Memory → ℕ → ℕ
magic_of m header = load32 m header

abbrev pub is_hole_of : Memory → ℕ → ℕ
is_hole_of m header = m (header + 4)

abbrev pub size_of : Memory → ℕ → ℕ
size_of m header = load32 m (header + 8)

abbrev pub set_size : ℕ → ℕ → Memory → Memory
set_size header size m = store32 m (header + 8) size

-- The three fields of a header.
unfoldable pub write_header : (header is_hole size : ℕ) → Memory → Memory
write_header header is_hole size m =
    set_size header size (store8 (store32 m header heap_magic) (header + 4) is_hole)

-- The two fields of a footer.
unfoldable pub write_footer : (footer header : ℕ) → Memory → Memory
write_footer footer header m = store32 (store32 m footer heap_magic) (footer + 4) header

unfoldable pub header_t_less_than : LessThan
header_t_less_than m a b = if ltb (size_of m a) (size_of m b) then 1 else 0

-- The body of the search: does the hole take `size` bytes, from a page boundary on if asked?
unfoldable pub hole_fits : (size page_align header : ℕ) → Memory → Bool
hole_fits size page_align header m =
    if ltb 0 page_align
    then (let data_at = add32 header header_size in
        let offset =
          if not (bit_and data_at 0xffff_f000 == 0) then 0x1000 - data_at % 0x1000 else 0 in
        leb size (sub32 (size_of m header) offset))
    else leb size (size_of m header)

-- The loop, with `left` holes to go: where it stops.
unfoldable pub find_hole_from :
    (size page_align : ℕ) → OrderedArray → Memory → (left iterator : ℕ) → ℕ
unfolding hole_fits lookup_ordered_array
find_hole_from size page_align index m zero iterator = iterator
find_hole_from size page_align index m (suc left) iterator =
    if hole_fits size page_align (lookup_ordered_array iterator index m) m
    then iterator
    else find_hole_from size page_align index m left (iterator + 1)

-- `(uint32_t)-1` if no hole is found.
unfoldable pub find_smallest_hole : (size page_align : ℕ) → Heap → Memory → ℕ
unfolding find_hole_from
find_smallest_hole size page_align heap m =
    let iterator = find_hole_from size page_align heap.index m heap.index.size 0 in
    if iterator == heap.index.size then minus_one else iterator
