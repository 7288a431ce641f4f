-- ===== src/Kheap/Whole.antt =====
-- kernel/mm/kheap.c: `alloc` on a hole that is too small to be split.
use pyramid_kernel.Prelude.{
  ℕ, refl, ◌+◌, ◌-◌, ◌^◌, ◌≤◌, ◌<◌, ◌≡◌, ◌⊎◌, arith, ◌==◌, ◌∙◌, add32, sub32, ltb, true, false,
  minus_one, suc,
}
use pyramid_kernel.Memory.{Memory, IsBytes}
use pyramid_kernel.OrderedArray.{OrderedArray, item_at, lookup_ordered_array, remove_ordered_array}
use pyramid_kernel.OrderedArray.Cells.{contents, cells_ext}
use pyramid_kernel.OrderedArray.Remove.{
  erase_at, remove_ordered_array-contents, remove_ordered_array-IsBytes,
}
use pyramid_kernel.Kernel.{Kernel, ok}
use pyramid_kernel.Kheap.{find_smallest_hole, size_of, write_header, write_footer}
use pyramid_kernel.Kheap.Blocks.{
  HeaderAt, FooterAt, HeaderAt-ext, write_header_outside, write_header-HeaderAt,
  write_footer_outside, write_footer-FooterAt, write_header-IsBytes, write_footer-IsBytes,
}
use pyramid_kernel.Paging.{KmallocAp}
use pyramid_kernel.Kheap.Alloc.{alloc, take_hole, index_remove}

-- The request and the hole: hole number `i`, at `pos` with `hole_size` bytes, lies in the heap and
-- behind the index, and exceeds the block by less than the size of an empty hole.
pub record IsWhole (k : Kernel) (i size pos hole_size : ℕ) : Type 0 where
  pub within : i < k.heap.index.size
  pub position : lookup_ordered_array i k.heap.index k.mem ≡ pos
  pub span : size_of k.mem pos ≡ hole_size
  pub fits : size + 20 ≤ hole_size
  pub tight : hole_size < size + 40
  pub in_heap : pos + hole_size ≤ k.heap.end_address
  pub in_memory : k.heap.end_address < 2 ^ 32
  pub behind_index : item_at k.heap.index.array k.heap.index.size ≤ pos
  pub bytes : IsBytes k.mem

-- What `alloc` has done with the hole: all of it is a block with header and footer, and the index no
-- longer has it; no byte outside the hole and the index is written.
pub record Whole (k : Kernel) (i pos hole_size : ℕ) (k' : Kernel) : Type 0 where
  pub block : HeaderAt k'.mem pos 0 hole_size
  pub block_end : FooterAt k'.mem (pos + hole_size - 8) pos
  pub index : contents k'.heap.index k'.mem ≡ erase_at i (contents k.heap.index k.mem)
  pub heap :
      k'.heap ≡ record k.heap { index = record k.heap.index { size = sub32 k.heap.index.size 1 } }
  pub bytes : IsBytes k'.mem
  pub others :
      (b : ℕ)
      → ((b < k.heap.index.array) ⊎ (item_at k.heap.index.array k.heap.index.size ≤ b))
      → ((b < pos) ⊎ (pos + hole_size ≤ b))
      → k'.mem b ≡ k.mem b

module _ (k : Kernel) (i size pos hole_size : ℕ) (whole : IsWhole k i size pos hole_size) where
  open whole use {within, position, span, fits, tight, in_heap, in_memory, behind_index, bytes}

  abbrev unindexed : OrderedArray × Memory
  unindexed = remove_ordered_array i k.heap.index k.mem

  abbrev headed : Memory
  headed = write_header pos 0 hole_size unindexed.1

  abbrev whole_memory : Memory
  whole_memory = write_footer (pos + hole_size - 8) pos headed

  abbrev whole_kernel : Kernel
  whole_kernel = record k { mem = whole_memory; heap = record k.heap { index = unindexed.0 } }

  take_hole-whole : take_hole size (size + 20) 0 i k ≡ ok (pos + 12) whole_kernel
  unfolding take_hole index_remove
  take_hole-whole =
      let spare : sub32 hole_size (size + 20) ≡ hole_size - size - 20 = omega arith in
      let small : ltb (hole_size - size - 20) 20 ≡ true = ground arith in
      let footer_at : add32 (add32 pos 12) (add32 size (hole_size - size - 20))
          ≡ pos + hole_size - 8 =
        omega arith in
      let nothing_left : ltb 0 (sub32 hole_size hole_size) ≡ false = ground arith in
      ground (arith, position, span, spare, small, footer_at, nothing_left)

  removed :
      (contents unindexed.0 unindexed.1 ≡ erase_at i (contents k.heap.index k.mem))
      × ((b : ℕ)
          → (b < item_at k.heap.index.array i) ⊎ (item_at k.heap.index.array k.heap.index.size ≤ b)
          → unindexed.1 b ≡ k.mem b)
  removed = remove_ordered_array-contents i k.heap.index k.mem within (omega arith) bytes

  whole_memory_outside :
      (b : ℕ) → (b < pos) ⊎ (pos + hole_size ≤ b) → whole_memory b ≡ unindexed.1 b
  whole_memory_outside b away =
      write_footer_outside (pos + hole_size - 8) pos b headed (omega arith)
      ∙ write_header_outside pos 0 hole_size b unindexed.1 (omega arith)

  kept_cells : contents unindexed.0 whole_memory ≡ contents unindexed.0 unindexed.1
  unfolding remove_ordered_array
  kept_cells =
      cells_ext whole_memory unindexed.1 k.heap.index.array 0 (sub32 k.heap.index.size 1)
        λ b low high. whole_memory_outside b (omega arith)

  taken-Whole : Whole k i pos hole_size whole_kernel
  taken-Whole = record {
    block =
        HeaderAt-ext headed whole_memory pos 0 hole_size
          (λ b low high. write_footer_outside (pos + hole_size - 8) pos b headed (omega arith))
          (write_header-HeaderAt pos 0 hole_size unindexed.1 (omega arith));
    block_end = write_footer-FooterAt (pos + hole_size - 8) pos headed (omega arith);
    index = kept_cells ∙ removed.0;
    heap = unfold remove_ordered_array in refl;
    bytes = write_footer-IsBytes (pos + hole_size - 8) pos headed (
        write_header-IsBytes pos 0 hole_size unindexed.1 (omega arith)
          (remove_ordered_array-IsBytes i k.heap.index k.mem bytes));
    others = λ b apart away. whole_memory_outside b away ∙ removed.1 b (omega arith);
  }

-- For a request without alignment, in an index of fewer than `2 ^ 32 - 1` holes whose first large
-- enough hole is the one of `IsWhole` (in the heap, behind the index, with fewer than 20 bytes to
-- spare): `alloc` returns the address behind the header, with all of that hole as the block.
pub alloc-Whole :
    (kmalloc_ap : KmallocAp) (fuel i size pos hole_size : ℕ) (k : Kernel)
    → k.heap.index.size < minus_one
    → find_smallest_hole (size + 20) 0 k.heap k.mem ≡ i
    → IsWhole k i size pos hole_size
    → (k' : Kernel) × (alloc kmalloc_ap (suc fuel) size 0 k ≡ ok (pos + 12) k')
      × Whole k i pos hole_size k'
unfolding alloc
alloc-Whole kmalloc_ap fuel i size pos hole_size k small found whole =
    let needed : add32 size 20 ≡ size + 20 =
      omega (arith, whole.fits, whole.in_heap, whole.in_memory) in
    let some_hole : (i == minus_one) ≡ false = ground (arith, whole.within) in
    (
      whole_kernel k i size pos hole_size whole,
      rw (needed, found, some_hole) (take_hole-whole k i size pos hole_size whole),
      taken-Whole k i size pos hole_size whole,
    )
