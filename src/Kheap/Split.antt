-- ===== src/Kheap/Split.antt =====
-- kernel/mm/kheap.c: `alloc` on a hole that is large enough to be split.
use pyramid_kernel.Prelude.{
  ℕ, ◌+◌, ◌-◌, ◌^◌, ◌≤◌, ◌<◌, ◌≡◌, ◌⊎◌, arith, ◌==◌, ◌∙◌, ap, refl, add32, sub32, false, minus_one,
  suc,
}
use pyramid_kernel.Memory.{Memory, IsBytes}
use pyramid_kernel.OrderedArray.{
  OrderedArray, item_at, lookup_ordered_array, insert_ordered_array, remove_ordered_array,
}
use pyramid_kernel.OrderedArray.Cells.{contents, cells_ext}
use pyramid_kernel.OrderedArray.Insert.{insert_before, insert_ordered_array-contents}
use pyramid_kernel.OrderedArray.Remove.{
  erase_at, remove_ordered_array-contents, remove_ordered_array-IsBytes,
}
use pyramid_kernel.OrderedArray.Undo.{insert_ordered_array-IsBytes}
use pyramid_kernel.Kernel.{Kernel, ok}
use pyramid_kernel.Kheap.{find_smallest_hole, size_of, write_header, write_footer}
use pyramid_kernel.Kheap.Blocks.{
  HeaderAt, FooterAt, HeaderAt-ext, FooterAt-ext, write_header_outside, write_header-HeaderAt,
  write_footer_outside, write_footer-FooterAt, write_header-IsBytes, write_footer-IsBytes,
}
use pyramid_kernel.Paging.{KmallocAp}
use pyramid_kernel.Kheap.Alloc.{alloc, take_hole, index_insert, index_remove}

-- The request and the hole: hole number `i`, at `pos` with `hole_size` bytes, lies in the heap and
-- behind the index, and exceeds the block by at least the size of an empty hole.
pub record IsSplit (k : Kernel) (i size pos hole_size : ℕ) : Type 0 where
  pub within : i < k.heap.index.size
  pub position : lookup_ordered_array i k.heap.index k.mem ≡ pos
  pub span : size_of k.mem pos ≡ hole_size
  pub large : size + 40 ≤ hole_size
  pub in_heap : pos + hole_size ≤ k.heap.end_address
  pub in_memory : k.heap.end_address < 2 ^ 32
  pub behind_index : item_at k.heap.index.array k.heap.index.size ≤ pos
  pub bytes : IsBytes k.mem

module _ (k : Kernel) (i size pos hole_size : ℕ) where
  -- The memory without the hole's item, and with the four structures written.
  abbrev pub unindexed : OrderedArray × Memory
  unindexed = remove_ordered_array i k.heap.index k.mem

  abbrev block_memory : Memory
  block_memory = write_footer (pos + 12 + size) pos (write_header pos 0 (size + 20) unindexed.1)

  abbrev pub split_memory : Memory
  split_memory =
      write_footer (pos + hole_size - 8) (pos + size + 20)
        (write_header (pos + size + 20) 1 (hole_size - size - 20) block_memory)

  abbrev pub indexed : OrderedArray × Memory
  indexed = insert_ordered_array (pos + size + 20) unindexed.0 split_memory

  abbrev pub split_kernel : Kernel
  split_kernel = record k { mem = indexed.1; heap = record k.heap { index = indexed.0 } }

  module _ (split : IsSplit k i size pos hole_size) where
    take_hole-split : take_hole size (size + 20) 0 i k ≡ ok (pos + 12) split_kernel
    unfolding take_hole index_insert index_remove
    take_hole-split =
        let rest : sub32 hole_size (size + 20) ≡ hole_size - size - 20 =
          omega (arith, split.large, split.in_heap, split.in_memory) in
        ground (arith, rest, split.position, split.span)

    open split use {within, position, span, large, in_heap, in_memory, behind_index, bytes}

    removed :
        (contents unindexed.0 unindexed.1 ≡ erase_at i (contents k.heap.index k.mem))
        × ((b : ℕ)
            → (b < item_at k.heap.index.array i)
              ⊎ (item_at k.heap.index.array k.heap.index.size ≤ b)
            → unindexed.1 b ≡ k.mem b)
    removed = remove_ordered_array-contents i k.heap.index k.mem within (omega arith) bytes

    unindexed-IsBytes : IsBytes unindexed.1
    unindexed-IsBytes = remove_ordered_array-IsBytes i k.heap.index k.mem bytes

    block_memory-IsBytes : IsBytes block_memory
    block_memory-IsBytes =
        write_footer-IsBytes (pos + 12 + size) pos (write_header pos 0 (size + 20) unindexed.1)
          (write_header-IsBytes pos 0 (size + 20) unindexed.1 (omega arith) unindexed-IsBytes)

    split_memory-IsBytes : IsBytes split_memory
    split_memory-IsBytes =
        write_footer-IsBytes (pos + hole_size - 8) (pos + size + 20)
          (write_header (pos + size + 20) 1 (hole_size - size - 20) block_memory)
          (write_header-IsBytes (pos + size + 20) 1 (hole_size - size - 20) block_memory
            (omega arith) block_memory-IsBytes)

    -- In front of the new hole only the block was written.
    split_memory_front : (b : ℕ) → b < pos + size + 20 → split_memory b ≡ block_memory b
    split_memory_front b below =
        write_footer_outside (pos + hole_size - 8) (pos + size + 20) b
          (write_header (pos + size + 20) 1 (hole_size - size - 20) block_memory) (omega arith)
        ∙ write_header_outside (pos + size + 20) 1 (hole_size - size - 20) b block_memory
            (omega arith)

    -- Outside the old hole the four structures change nothing.
    split_memory_outside :
        (b : ℕ) → (b < pos) ⊎ (pos + hole_size ≤ b) → split_memory b ≡ unindexed.1 b
    split_memory_outside b apart =
        write_footer_outside (pos + hole_size - 8) (pos + size + 20) b
          (write_header (pos + size + 20) 1 (hole_size - size - 20) block_memory) (omega arith)
        ∙ write_header_outside (pos + size + 20) 1 (hole_size - size - 20) b block_memory
            (omega arith)
        ∙ write_footer_outside (pos + 12 + size) pos b (write_header pos 0 (size + 20) unindexed.1)
            (omega arith)
        ∙ write_header_outside pos 0 (size + 20) b unindexed.1 (omega arith)

    block_header : HeaderAt split_memory pos 0 (size + 20)
    block_header =
        HeaderAt-ext (write_header pos 0 (size + 20) unindexed.1) split_memory pos 0 (size + 20)
          (λ b low high.
            split_memory_front b (omega arith)
            ∙ write_footer_outside (pos + 12 + size) pos b
                (write_header pos 0 (size + 20) unindexed.1) (omega arith))
          (write_header-HeaderAt pos 0 (size + 20) unindexed.1 (omega arith))

    block_footer : FooterAt split_memory (pos + 12 + size) pos
    block_footer =
        FooterAt-ext block_memory split_memory (pos + 12 + size) pos
          (λ b low high. split_memory_front b (omega arith))
          (write_footer-FooterAt (pos + 12 + size) pos (write_header pos 0 (size + 20) unindexed.1)
            (omega arith))

    hole_header : HeaderAt split_memory (pos + size + 20) 1 (hole_size - size - 20)
    hole_header =
        let written = write_header (pos + size + 20) 1 (hole_size - size - 20) block_memory in
        HeaderAt-ext written split_memory (pos + size + 20) 1 (hole_size - size - 20)
          (λ b low high.
            write_footer_outside (pos + hole_size - 8) (pos + size + 20) b written (omega arith))
          (write_header-HeaderAt (pos + size + 20) 1 (hole_size - size - 20) block_memory
            (omega arith))

    hole_footer : FooterAt split_memory (pos + hole_size - 8) (pos + size + 20)
    hole_footer =
        write_footer-FooterAt (pos + hole_size - 8) (pos + size + 20)
          (write_header (pos + size + 20) 1 (hole_size - size - 20) block_memory) (omega arith)

    -- The array's record keeps its place and loses an item.
    inserted :
        (contents indexed.0 indexed.1
          ≡ insert_before
              (k.heap.index.less_than split_memory)
              (pos + size + 20)
              (contents unindexed.0 split_memory))
        × ((b : ℕ)
            → (b < k.heap.index.array)
              ⊎ (item_at k.heap.index.array (sub32 k.heap.index.size 1 + 1) ≤ b)
            → indexed.1 b ≡ split_memory b)
    unfolding remove_ordered_array
    inserted =
        insert_ordered_array-contents (pos + size + 20) unindexed.0 split_memory (omega arith)
          (omega arith) split_memory-IsBytes

    kept_cells : contents unindexed.0 split_memory ≡ contents unindexed.0 unindexed.1
    unfolding remove_ordered_array
    kept_cells =
        cells_ext split_memory unindexed.1 k.heap.index.array 0 (sub32 k.heap.index.size 1)
          λ b low high. split_memory_outside b (omega arith)

    indexed_outside : (b : ℕ) → pos ≤ b → indexed.1 b ≡ split_memory b
    indexed_outside b low = inserted.1 b (omega arith)

-- What `alloc` has done with the hole: a block of `size` bytes of data in front and a hole with the
-- rest behind it, both with header and footer; the index holds the new hole in place of the old one,
-- and the heap is as it was beside; no byte outside the hole and the index is written.
pub record Split (k : Kernel) (i size pos hole_size : ℕ) (k' : Kernel) : Type 0 where
  pub block : HeaderAt k'.mem pos 0 (size + 20)
  pub block_end : FooterAt k'.mem (pos + 12 + size) pos
  pub rest : HeaderAt k'.mem (pos + size + 20) 1 (hole_size - size - 20)
  pub rest_end : FooterAt k'.mem (pos + hole_size - 8) (pos + size + 20)
  pub index :
      contents k'.heap.index k'.mem
      ≡ insert_before
          (k.heap.index.less_than (split_memory k i size pos hole_size))
          (pos + size + 20)
          (erase_at i (contents k.heap.index k.mem))
  pub heap :
      k'.heap
      ≡ record k.heap { index = record k.heap.index { size = add32 (sub32 k.heap.index.size 1) 1 } }
  pub bytes : IsBytes k'.mem
  pub others :
      (b : ℕ)
      → ((b < k.heap.index.array) ⊎ (item_at k.heap.index.array k.heap.index.size ≤ b))
      → ((b < pos) ⊎ (pos + hole_size ≤ b))
      → k'.mem b ≡ k.mem b

-- For a request without alignment, on a hole as in `IsSplit`, the part of `alloc` behind the search
-- returns the address behind the block's header, with the hole split as `Split` says.
pub take_hole-Split :
    (k : Kernel) (i size pos hole_size : ℕ)
    → IsSplit k i size pos hole_size
    → (k' : Kernel) × (take_hole size (size + 20) 0 i k ≡ ok (pos + 12) k')
      × Split k i size pos hole_size k'
take_hole-Split k i size pos hole_size split =
    let outside = indexed_outside k i size pos hole_size split in
    let k' = split_kernel k i size pos hole_size in
    let m = split_memory k i size pos hole_size in
    (
      k',
      take_hole-split k i size pos hole_size split,
      record {
        block =
            HeaderAt-ext m k'.mem pos 0 (size + 20) (λ b low high. outside b low)
              (block_header k i size pos hole_size split);
        block_end =
            FooterAt-ext m k'.mem (pos + 12 + size) pos (λ b low high. outside b (omega arith))
              (block_footer k i size pos hole_size split);
        rest =
            HeaderAt-ext m k'.mem (pos + size + 20) 1 (hole_size - size - 20)
              (λ b low high. outside b (omega arith)) (hole_header k i size pos hole_size split);
        rest_end =
            FooterAt-ext m k'.mem (pos + hole_size - 8) (pos + size + 20)
              (λ b low high. outside b (omega (arith, split.large)))
              (hole_footer k i size pos hole_size split);
        index =
            (inserted k i size pos hole_size split).0
            ∙ ap (insert_before (k.heap.index.less_than m) (pos + size + 20)) (
                kept_cells k i size pos hole_size split ∙ (removed k i size pos hole_size split).0);
        heap = unfold remove_ordered_array in unfold insert_ordered_array in refl;
        bytes =
            insert_ordered_array-IsBytes (pos + size + 20) (unindexed k i size pos hole_size).0 m
              (split_memory-IsBytes k i size pos hole_size split);
        others = λ b apart away.
            (inserted k i size pos hole_size split).1 b
              (omega (arith, split.within, split.behind_index, split.in_heap, split.in_memory))
            ∙ split_memory_outside k i size pos hole_size split b away
            ∙ (removed k i size pos hole_size split).1 b (omega (arith, split.within));
      },
    )

-- For a request without alignment, in an index of fewer than `2 ^ 32 - 1` holes whose first large
-- enough hole is the one of `IsSplit` (in the heap, behind the index, with 20 bytes or more to
-- spare): `alloc` returns the address behind the header, with that hole split as `Split` says, and
-- does not grow the heap.
pub alloc-Split :
    (kmalloc_ap : KmallocAp) (fuel i size pos hole_size : ℕ) (k : Kernel)
    → k.heap.index.size < minus_one
    → find_smallest_hole (size + 20) 0 k.heap k.mem ≡ i
    → IsSplit k i size pos hole_size
    → (k' : Kernel) × (alloc kmalloc_ap (suc fuel) size 0 k ≡ ok (pos + 12) k')
      × Split k i size pos hole_size k'
unfolding alloc
alloc-Split kmalloc_ap fuel i size pos hole_size k small found split =
    let taken = take_hole-Split k i size pos hole_size split in
    let needed : add32 size 20 ≡ size + 20 =
      omega (arith, split.large, split.in_heap, split.in_memory) in
    let some_hole : (i == minus_one) ≡ false = ground (arith, split.within) in
    (taken.0, rw (needed, found, some_hole) taken.1, taken.2)
