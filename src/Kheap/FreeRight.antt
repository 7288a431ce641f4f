-- ===== src/Kheap/FreeRight.antt =====
-- kernel/mm/kheap.c: `free` of a block with a hole on its right.
use pyramid_kernel.Prelude.{
  ℕ, ◌+◌, ◌-◌, ◌^◌, ◌≤◌, ◌<◌, ◌≡◌, ◌⊎◌, arith, ◌∙◌, ap, add32, sub32, true,
}
use mathlib.Core.Path.{subst}
use pyramid_kernel.Memory.{Memory, IsBytes}
use pyramid_kernel.OrderedArray.{OrderedArray, item_at, insert_ordered_array}
use pyramid_kernel.OrderedArray.Cells.{contents, cells_ext}
use pyramid_kernel.OrderedArray.Insert.{insert_before, insert_ordered_array-contents}
use pyramid_kernel.OrderedArray.Remove.{erase_at}
use pyramid_kernel.OrderedArray.Undo.{insert_ordered_array-IsBytes}
use pyramid_kernel.Kernel.{Kernel, Heap, ok}
use pyramid_kernel.Paging.{KmallocAp}
use pyramid_kernel.Kheap.{size_of}
use pyramid_kernel.Kheap.Blocks.{HeaderAt, FooterAt, HeaderAt-ext, FooterAt-ext}
use pyramid_kernel.Kheap.Alloc.{index_insert}
use pyramid_kernel.Kheap.Release.{free, find_header, unify_right}
use pyramid_kernel.Kheap.JoinLeft.{AreNeighbours}
use pyramid_kernel.Kheap.JoinRight.{JoinedRight, unify_right-JoinedRight, find_header-ext}
use pyramid_kernel.Kheap.Marked.{
  NoHoleBefore, marked, marked_kernel, marked_outside, marked-HeaderAt, unify_left-alone,
  free-steps,
}

-- A block of `size` bytes at `header`, behind the index, between something that is no hole and a hole
-- of `next_size` bytes at `next`, which is number `i` of the index and not at the end of the heap.
pub record IsBeforeHole (k : Kernel) (header size next next_size i : ℕ) : Type 0 where
  pub neighbours : AreNeighbours k.mem header 0 size next 1 next_size
  pub footer : FooterAt k.mem (next + next_size - 8) next
  pub left : NoHoleBefore k.mem header
  pub within : i < k.heap.index.size
  pub found : find_header next k.heap.index k.mem k.heap.index.size 0 ≡ i
  pub behind_index : item_at k.heap.index.array k.heap.index.size + 8 ≤ header
  pub in_heap : next + next_size < k.heap.end_address
  pub in_memory : k.heap.end_address < 2 ^ 32
  pub bytes : IsBytes k.mem

-- One hole is left, of both sizes; its footer still points to the header of the hole that was joined.
-- The index has the hole, at its place by the order on the memory `joined`, where it has its new size
-- and only the index differs beside; apart from these no byte is written.
pub record FreedRight (k : Kernel) (header size next next_size i : ℕ) (k' : Kernel) : Type 0 where
  pub hole : HeaderAt k'.mem header 1 (size + next_size)
  pub stale_footer : FooterAt k'.mem (next + next_size - 8) next
  pub heap :
      k'.heap
      ≡ record k.heap { index = record k.heap.index { size = add32 (sub32 k.heap.index.size 1) 1 } }
  pub bytes : IsBytes k'.mem
  pub joined : Memory
  pub joined_size : size_of joined header ≡ size + next_size
  pub index :
      contents k'.heap.index k'.mem
      ≡ insert_before
          (k.heap.index.less_than joined)
          header
          (erase_at i (contents k.heap.index k.mem))
  pub joined_others :
      (b : ℕ)
      → (b < header + 4) ⊎ (header + 12 ≤ b)
      → (b < k.heap.index.array) ⊎ (item_at k.heap.index.array k.heap.index.size ≤ b)
      → joined b ≡ k.mem b
  pub others :
      (b : ℕ)
      → (b < header + 4) ⊎ (header + 12 ≤ b)
      → (b < k.heap.index.array) ⊎ (item_at k.heap.index.array k.heap.index.size ≤ b)
      → k'.mem b ≡ k.mem b

module _ (k : Kernel) (header size next next_size i : ℕ)
    (before : IsBeforeHole k header size next next_size i) where
  open before use {neighbours, footer, left, within, found, behind_index, in_heap, in_memory, bytes}

  abbrev with_mark : Kernel
  with_mark = marked_kernel k header

  marked-AreNeighbours : AreNeighbours with_mark.mem header 1 size next 1 next_size
  marked-AreNeighbours =
      let adjacent : header + size ≡ next = neighbours.adjacent in
      let fits : 20 ≤ size = neighbours.left_fits in
      record {
        left_header = marked-HeaderAt k header 0 size neighbours.left_header;
        left_footer =
            FooterAt-ext k.mem with_mark.mem (next - 8) header
              (λ b low high. marked_outside k header b (omega arith)) neighbours.left_footer;
        right_header =
            HeaderAt-ext k.mem with_mark.mem next 1 next_size
              (λ b low high. marked_outside k header b (omega arith)) neighbours.right_header;
        adjacent = adjacent;
        left_fits = fits;
        right_fits = neighbours.right_fits;
        in_memory = neighbours.in_memory;
      }

  marked-footer : FooterAt with_mark.mem (next + next_size - 8) next
  marked-footer =
      let adjacent : header + size ≡ next = neighbours.adjacent in
      let fits : 20 ≤ size = neighbours.left_fits in
      let fits_next : 20 ≤ next_size = neighbours.right_fits in
      FooterAt-ext k.mem with_mark.mem (next + next_size - 8) next
        (λ b low high. marked_outside k header b (omega arith)) footer

  marked_found : find_header next k.heap.index with_mark.mem k.heap.index.size 0 ≡ i
  marked_found =
      find_header-ext next k.heap.index k.mem with_mark.mem k.heap.index.size 0
        (λ b low high. marked_outside k header b (omega arith))
      ∙ found

  -- The joined block goes into the index.
  module _ (k₂ : Kernel) (join : JoinedRight with_mark header 1 size next next_size i k₂) where
    abbrev entered : OrderedArray × Memory
    entered = insert_ordered_array header k₂.heap.index k₂.mem

    abbrev freed_kernel : Kernel
    freed_kernel = record k₂ { mem = entered.1; heap = record k₂.heap { index = entered.0 } }

    same_array : k₂.heap.index.array ≡ k.heap.index.array
    same_array = ap (λ (h : Heap). h.index.array) join.heap

    one_less : k₂.heap.index.size ≡ sub32 k.heap.index.size 1
    one_less = ap (λ (h : Heap). h.index.size) join.heap

    same_order : k₂.heap.index.less_than ≡ k.heap.index.less_than
    same_order = ap (λ (h : Heap). h.index.less_than) join.heap

    entered_lem :
        (contents entered.0 entered.1
          ≡ insert_before (k₂.heap.index.less_than k₂.mem) header (contents k₂.heap.index k₂.mem))
        × ((b : ℕ)
            → (b < k₂.heap.index.array) ⊎ (item_at k₂.heap.index.array (k₂.heap.index.size + 1) ≤ b)
            → entered.1 b ≡ k₂.mem b)
    entered_lem =
        insert_ordered_array-contents header k₂.heap.index k₂.mem (omega (arith, one_less))
          (omega arith) join.bytes

    entered_outside :
        (b : ℕ)
        → (b < k.heap.index.array) ⊎ (item_at k.heap.index.array k.heap.index.size ≤ b)
        → entered.1 b ≡ k₂.mem b
    entered_outside b away = entered_lem.1 b (omega (arith, same_array, one_less, within))

    right_order :
        contents entered.0 entered.1
        ≡ insert_before
            (k.heap.index.less_than k₂.mem)
            header
            (erase_at i (contents k.heap.index k.mem))
    right_order =
        entered_lem.0
        ∙ ap (λ less. insert_before (less k₂.mem) header (contents k₂.heap.index k₂.mem)) same_order
        ∙ ap (insert_before (k.heap.index.less_than k₂.mem) header) join.index
        ∙ ap (λ xs. insert_before (k.heap.index.less_than k₂.mem) header (erase_at i xs))
            (cells_ext (marked k header) k.mem k.heap.index.array 0 k.heap.index.size
              (λ b low high. marked_outside k header b (omega arith)))

    joined_outside :
        (b : ℕ)
        → (b < header + 4) ⊎ (header + 12 ≤ b)
        → (b < k.heap.index.array) ⊎ (item_at k.heap.index.array k.heap.index.size ≤ b)
        → k₂.mem b ≡ k.mem b
    joined_outside b out away =
        join.others b (omega arith) away ∙ marked_outside k header b (omega arith)

    entered_heap : freed_kernel.heap ≡ record k.heap {
      index = record k.heap.index { size = add32 (sub32 k.heap.index.size 1) 1 };
    }
    unfolding insert_ordered_array
    entered_heap =
        ap (λ (h : Heap). record h { index = record h.index { size = add32 h.index.size 1 } })
          join.heap

    joined-FreedRight : FreedRight k header size next next_size i freed_kernel
    joined-FreedRight =
        let adjacent : header + size ≡ next = neighbours.adjacent in
        record {
          hole =
              HeaderAt-ext k₂.mem entered.1 header 1 (size + next_size)
                (λ b low high. entered_outside b (omega arith)) join.block;
          stale_footer =
              FooterAt-ext k₂.mem entered.1 (next + next_size - 8) next
                (λ b low high. entered_outside b (omega (arith, neighbours.right_fits)))
                join.stale_footer;
          heap = entered_heap;
          bytes = insert_ordered_array-IsBytes header k₂.heap.index k₂.mem join.bytes;
          joined = k₂.mem;
          joined_size = join.block.span;
          index = right_order;
          joined_others = joined_outside;
          others = λ b out away. entered_outside b away ∙ joined_outside b out away;
        }

    free-joined :
        (kmalloc_ap : KmallocAp)
        → unify_right header (next - 8) with_mark ≡ ok (next + next_size - 8) k₂
        → free kmalloc_ap (header + 12) k ≡ ok tt freed_kernel
    unfolding index_insert
    free-joined kmalloc_ap e =
        let adjacent : header + size ≡ next = neighbours.adjacent in
        let same_end : k₂.heap.end_address ≡ k.heap.end_address =
          ap (λ (h : Heap). h.end_address) join.heap in
        let footer_at : next - 8 ≡ header + size - 8 = omega arith in
        free-steps kmalloc_ap k with_mark k₂ header 0 size (next + next_size - 8)
          (record { header = header; footer = header + size - 8; do_add = true })
          neighbours.left_header neighbours.left_fits (omega arith)
          (unify_left-alone k header (header + size - 8) (omega arith) (omega arith) left)
          (subst (λ f. unify_right header f with_mark ≡ ok (next + next_size - 8) k₂) footer_at e)
          (ground (arith, same_end))

-- `free` of a block as in `IsBeforeHole` (behind the index, between something that is no hole and a
-- hole of the index with header and footer, which is not at the end of the heap) returns. One hole of
-- both sizes is left, which the index has in place of the one that was joined. Apart from the header
-- and the index no byte is written, so that the hole's footer still points to the old header.
pub free-FreedRight :
    (kmalloc_ap : KmallocAp) (k : Kernel) (header size next next_size i : ℕ)
    → IsBeforeHole k header size next next_size i
    → (k' : Kernel) × (free kmalloc_ap (header + 12) k ≡ ok tt k')
      × FreedRight k header size next next_size i k'
free-FreedRight kmalloc_ap k header size next next_size i before =
    let (k₂, e, join) =
      unify_right-JoinedRight (marked_kernel k header) header 1 size next next_size i
        (marked-AreNeighbours k header size next next_size i before)
        (marked-footer k header size next next_size i before) before.within
        (marked_found k header size next next_size i before) (λ b. ground (arith, before.bytes b))
        (omega (arith, before.behind_index)) in
    (
      freed_kernel k header size next next_size i before k₂ join,
      free-joined k header size next next_size i before k₂ join kmalloc_ap e,
      joined-FreedRight k header size next next_size i before k₂ join,
    )
