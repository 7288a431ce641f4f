-- ===== src/Kheap/Alloc.antt =====
-- kernel/mm/kheap.c: `alloc`. It grows the heap if no hole serves, and cuts the block from a hole.
use pyramid_kernel.Prelude.{
  ℕ, zero, suc, ◌+◌, ◌-◌, bit_and, ◌==◌, if◌then◌else◌, not, ◌&&◌, ltb, add32, sub32, minus_one,
}
use pyramid_kernel.Memory.{Memory}
use pyramid_kernel.OrderedArray.{
  OrderedArray, lookup_ordered_array, insert_ordered_array, remove_ordered_array,
}
use pyramid_kernel.Kernel.{ok, out_of_fuel, Cmd, pure, ◌>>=◌, ◌>>◌, get}
use pyramid_kernel.Paging.{KmallocAp}
use pyramid_kernel.Kheap.{
  header_size, footer_size, size_of, set_size, write_header, write_footer, find_smallest_hole,
}
use pyramid_kernel.Kheap.Resize.{heap_length, expand}

-- A change of the memory alone.
abbrev pub modify : (Memory → Memory) → Cmd (Unit {0})
modify f k = ok tt (record k { mem = f k.mem })

-- `insert_ordered_array` and `remove_ordered_array` on `heap->index`.
unfoldable pub index_insert : ℕ → Cmd (Unit {0})
index_insert item k =
    let (index, m) = insert_ordered_array item k.heap.index k.mem in
    ok tt (record k { mem = m; heap = record k.heap { index = index } })

unfoldable pub index_remove : ℕ → Cmd (Unit {0})
index_remove i k =
    let (index, m) = remove_ordered_array i k.heap.index k.mem in
    ok tt (record k { mem = m; heap = record k.heap { index = index } })

-- The scan for the header with the highest address, with `left` items to go: its index, from `idx`.
unfoldable pub endmost_header : OrderedArray → Memory → (left iterator idx value : ℕ) → ℕ
endmost_header index m zero iterator idx value = idx
endmost_header index m (suc left) iterator idx value =
    let tmp = lookup_ordered_array iterator index m in
    let further = ltb value tmp in
    endmost_header index m left (iterator + 1) (if further then iterator else idx)
      (if further then tmp else value)

-- The new space as a hole of its own.
unfoldable pub add_last_hole : (old_end grown : ℕ) → Cmd (Unit {0})
add_last_hole old_end grown = do
  modify (write_header old_end 1 grown)
  k ← get
  modify (write_footer (sub32 (add32 old_end (size_of k.mem old_end)) footer_size) old_end)
  index_insert old_end

-- The new space added to the endmost hole.
unfoldable pub extend_last_hole : (header grown : ℕ) → Cmd (Unit {0})
extend_last_hole header grown = do
  k ← get
  modify (set_size header (add32 (size_of k.mem header) grown))
  k' ← get
  modify (write_footer (sub32 (add32 header (size_of k'.mem header)) footer_size) header)

unfoldable pub grow : KmallocAp → (new_size : ℕ) → Cmd (Unit {0})
unfolding endmost_header add_last_hole extend_last_hole
grow kmalloc_ap new_size = do
  k ← get
  let old_length = heap_length k
  let old_end = k.heap.end_address
  expand kmalloc_ap (add32 old_length new_size)
  k' ← get
  let grown = sub32 (heap_length k') old_length
  let idx = endmost_header k'.heap.index k'.mem k'.heap.index.size 0 minus_one 0
  if idx == minus_one
      then add_last_hole old_end grown
      else extend_last_hole (lookup_ordered_array idx k'.heap.index k'.mem) grown

-- The block's position, and the size of the hole that it is cut from, after a hole is made in front
-- so that the data starts at a page boundary.
unfoldable pub cut_front : (hole_pos hole_size : ℕ) → Cmd (ℕ × ℕ)
cut_front hole_pos hole_size = do
  let offset = bit_and hole_pos 0xfff
  let new_location = sub32 (sub32 (add32 hole_pos 0x1000) offset) header_size
  modify (write_header hole_pos 1 (sub32 (0x1000 - offset) header_size))
  modify (write_footer (sub32 new_location footer_size) hole_pos)
  k ← get
  pure (new_location, sub32 hole_size (size_of k.mem hole_pos))

-- The rest of the hole, behind the block.
unfoldable pub cut_back : (hole_header rest : ℕ) → Cmd (Unit {0})
cut_back hole_header rest = do
  modify (write_header hole_header 1 rest)
  k ← get
  let hole_footer = sub32 (add32 hole_header rest) footer_size
  if ltb hole_footer k.heap.end_address
      then modify (write_footer hole_footer hole_header)
      else pure tt
  index_insert hole_header

-- `alloc` from line 219 on, with the index of the hole that was found.
unfoldable pub take_hole : (size new_size page_align iterator : ℕ) → Cmd ℕ
unfolding cut_front cut_back
take_hole size new_size page_align iterator = do
  k ← get
  let hole_pos = lookup_ordered_array iterator k.heap.index k.mem
  let hole_size = size_of k.mem hole_pos
  let whole = ltb (sub32 hole_size new_size) (header_size + footer_size)
  let size' = if whole then add32 size (sub32 hole_size new_size) else size
  let new_size' = if whole then hole_size else new_size
  (pos, left) ←
      (if not (page_align == 0) && not (bit_and hole_pos 0xffff_f000 == 0)
        then cut_front hole_pos hole_size
        else (index_remove iterator >> pure (hole_pos, hole_size)))
  modify (write_header pos 0 new_size')
  modify (write_footer (add32 (add32 pos header_size) size') pos)
  if ltb 0 (sub32 left new_size')
      then cut_back (add32 (add32 (add32 pos header_size) size') footer_size) (sub32 left new_size')
      else pure tt
  pure (add32 pos header_size)

unfoldable pub alloc : KmallocAp → (fuel size page_align : ℕ) → Cmd ℕ
unfolding grow take_hole
alloc kmalloc_ap zero size page_align = λ _. out_of_fuel
alloc kmalloc_ap (suc fuel) size page_align = do
  k ← get
  let new_size = add32 size (header_size + footer_size)
  let iterator = find_smallest_hole new_size page_align k.heap k.mem
  let again = alloc kmalloc_ap fuel size page_align
  if iterator == minus_one
      then (grow kmalloc_ap new_size >> again)
      else take_hole size new_size page_align iterator
