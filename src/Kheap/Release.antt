-- ===== src/Kheap/Release.antt =====
-- kernel/mm/kheap.c: `free`, which joins a block with the holes beside it.
use pyramid_kernel.Prelude.{
  ℕ, zero, suc, ◌+◌, Bool, ◌==◌, if◌then◌else◌, not, ◌&&◌, ltb, add32, sub32,
}
use pyramid_kernel.Memory.{Memory, load32, store32, store8}
use pyramid_kernel.OrderedArray.{OrderedArray, lookup_ordered_array}
use pyramid_kernel.Kernel.{Cmd, pure, ◌>>=◌, ◌>>◌, get}
use pyramid_kernel.Paging.{KmallocAp}
use pyramid_kernel.Kheap.{
  heap_magic, header_size, footer_size, magic_of, is_hole_of, size_of, set_size, write_footer,
}
use pyramid_kernel.Kheap.Resize.{heap_length, contract}
use pyramid_kernel.Kheap.Alloc.{modify, index_insert, index_remove}

-- `footer->header`
abbrev pub header_of : Memory → ℕ → ℕ
header_of m footer = load32 m (footer + 4)

-- The search of the index for a header, with `left` items to go; it ends at the size if it fails.
unfoldable pub find_header : (header : ℕ) → OrderedArray → Memory → (left iterator : ℕ) → ℕ
find_header header index m zero iterator = iterator
find_header header index m (suc left) iterator =
    if lookup_ordered_array iterator index m == header
    then iterator
    else find_header header index m left (iterator + 1)

-- The block that is being released: its header, its footer, and whether it still has to go into the
-- index.
pub record Span : Type 0 where
  pub header : ℕ
  pub footer : ℕ
  pub do_add : Bool

unfoldable pub unify_left : (header footer : ℕ) → Cmd Span
unify_left header footer = do
  k ← get
  let test_footer = sub32 header footer_size
  let left = header_of k.mem test_footer
  if magic_of k.mem test_footer == heap_magic && is_hole_of k.mem left == 1
      then (do
        let cache_size = size_of k.mem header
        modify (λ m. store32 m (footer + 4) left)
        modify (λ m. set_size left (add32 (size_of m left) cache_size) m)
        pure (record { header = left; footer = footer; do_add = Bool.false }))
      else pure (record { header = header; footer = footer; do_add = Bool.true })

-- The result is the footer.
unfoldable pub unify_right : (header footer : ℕ) → Cmd ℕ
unfolding find_header
unify_right header footer = do
  k ← get
  let test_header = add32 footer footer_size
  if magic_of k.mem test_header == heap_magic && not (is_hole_of k.mem test_header == 0)
      then (do
        modify (λ m. set_size header (add32 (size_of m header) (size_of m test_header)) m)
        k' ← get
        let footer' = sub32 (add32 test_header (size_of k'.mem test_header)) footer_size
        index_remove (find_header test_header k'.heap.index k'.mem k'.heap.index.size 0)
        pure footer')
      else pure footer

-- The block reaches the end of the heap, which may shrink. `test_header` is what `unify_right`
-- looked at.
unfoldable pub shrink_end : KmallocAp → (header test_header : ℕ) → Cmd (Unit {0})
shrink_end kmalloc_ap header test_header = do
  k ← get
  let old_length = heap_length k
  new_length ← contract kmalloc_ap (sub32 header k.heap.start_address)
  k' ← get
  let lost = sub32 old_length new_length
  let size = size_of k'.mem header
  let iterator = find_header test_header k'.heap.index k'.mem k'.heap.index.size 0
  if ltb 0 (sub32 size lost)
      then (do
        modify (set_size header (sub32 size lost))
        k'' ← get
        modify (write_footer (sub32 (add32 header (size_of k''.mem header)) footer_size) header))
      else if ltb iterator k'.heap.index.size
      then index_remove iterator
      else pure tt

-- `free`, past the test for the null pointer.
unfoldable pub release : KmallocAp → (p : ℕ) → Cmd (Unit {0})
unfolding unify_left unify_right shrink_end
release kmalloc_ap p = do
  k ← get
  let header = sub32 p header_size
  let footer = sub32 (add32 header (size_of k.mem header)) footer_size
  modify (λ m. store8 m (header + 4) 1)
  span ← unify_left header footer
  footer' ← unify_right span.header span.footer
  k' ← get
  (if add32 footer' footer_size == k'.heap.end_address
      then shrink_end kmalloc_ap span.header (add32 span.footer footer_size)
      else pure tt)
  (if span.do_add then index_insert span.header else pure tt)

unfoldable pub free : KmallocAp → (p : ℕ) → Cmd (Unit {0})
unfolding release
free kmalloc_ap p = if p == 0 then pure tt else release kmalloc_ap p
