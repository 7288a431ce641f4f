-- ===== src/Kheap/FreeLeft.antt =====
-- kernel/mm/kheap.c: `free` of a block with a hole on its left.
use pyramid_kernel.Prelude.{ℕ, ◌+◌, ◌-◌, ◌^◌, ◌≤◌, ◌<◌, ◌≡◌, ◌≢◌, ◌⊎◌, arith, ◌∙◌, ap, false}
use mathlib.Core.Path.{subst}
use pyramid_kernel.Memory.{IsBytes}
use pyramid_kernel.Kernel.{Kernel, Heap, ok}
use pyramid_kernel.Paging.{KmallocAp}
use pyramid_kernel.Kheap.Blocks.{HeaderAt, FooterAt, HeaderAt-ext, FooterAt-ext}
use pyramid_kernel.Kheap.Release.{free}
use pyramid_kernel.Kheap.JoinLeft.{AreNeighbours, JoinedLeft, unify_left-JoinedLeft}
use pyramid_kernel.Kheap.Marked.{
  NoHoleAt, NoHoleAt-ext, marked_kernel, marked_outside, marked-HeaderAt, unify_right-alone,
  free-steps,
}

-- A block of `size` bytes at `header`, not at the end of the heap, between a hole of `left_size` bytes
-- at `left` and something that is no hole.
pub record IsBehindHole (k : Kernel) (left left_size header size : ℕ) : Type 0 where
  pub neighbours : AreNeighbours k.mem left 1 left_size header 0 size
  pub footer : FooterAt k.mem (header + size - 8) header
  pub right : NoHoleAt k.mem (header + size)
  pub in_heap : header + size < k.heap.end_address
  pub in_memory : k.heap.end_address < 2 ^ 32

-- One hole is left, of both sizes, with header and footer; the index is as it was, and apart from
-- the block's mark, the hole's size and the footer no byte is written.
pub record FreedLeft (k : Kernel) (left left_size header size : ℕ) (k' : Kernel) : Type 0 where
  pub hole : HeaderAt k'.mem left 1 (left_size + size)
  pub footer : FooterAt k'.mem (header + size - 8) left
  pub heap : k'.heap ≡ k.heap
  pub bytes : IsBytes k.mem → IsBytes k'.mem
  pub others :
      (b : ℕ)
      → b ≢ header + 4
      → (b < left + 8) ⊎ (left + 12 ≤ b)
      → (b < header + size - 4) ⊎ (header + size ≤ b)
      → k'.mem b ≡ k.mem b

module _ (k : Kernel) (left left_size header size : ℕ)
    (behind : IsBehindHole k left left_size header size) where
  open behind use {neighbours, footer, right, in_heap, in_memory}

  abbrev with_mark : Kernel
  with_mark = marked_kernel k header

  marked-AreNeighbours : AreNeighbours with_mark.mem left 1 left_size header 1 size
  marked-AreNeighbours =
      let adjacent : left + left_size ≡ header = neighbours.adjacent in
      let fits : 20 ≤ left_size = neighbours.left_fits in
      record {
        left_header =
            HeaderAt-ext k.mem with_mark.mem left 1 left_size
              (λ b low high. marked_outside k header b (omega arith)) neighbours.left_header;
        left_footer =
            FooterAt-ext k.mem with_mark.mem (header - 8) left
              (λ b low high. marked_outside k header b (omega arith)) neighbours.left_footer;
        right_header = marked-HeaderAt k header 0 size neighbours.right_header;
        adjacent = adjacent;
        left_fits = fits;
        right_fits = neighbours.right_fits;
        in_memory = neighbours.in_memory;
      }

  marked-footer : FooterAt with_mark.mem (header + size - 8) header
  marked-footer =
      let fits : 20 ≤ size = neighbours.right_fits in
      FooterAt-ext k.mem with_mark.mem (header + size - 8) header
        (λ b low high. marked_outside k header b (omega arith)) footer

  joined-FreedLeft :
      (k₁ : Kernel)
      → JoinedLeft with_mark left left_size header size k₁
      → FreedLeft k left left_size header size k₁
  joined-FreedLeft k₁ joined = record {
    hole = joined.hole;
    footer = joined.footer;
    heap = joined.index;
    bytes = λ bytes. joined.bytes (λ b. ground (arith, bytes b));
    others = λ b other out away. joined.others b out away ∙ marked_outside k header b other;
  }

  -- What lies behind the block is untouched.
  still_alone :
      (k₁ : Kernel)
      → JoinedLeft with_mark left left_size header size k₁
      → NoHoleAt k₁.mem (header + size - 8 + 8)
  still_alone k₁ joined =
      let fits : 20 ≤ size = neighbours.right_fits in
      let adjacent : left + left_size ≡ header = neighbours.adjacent in
      let fits_left : 20 ≤ left_size = neighbours.left_fits in
      subst (NoHoleAt k₁.mem) {x = header + size} {y = header + size - 8 + 8} (omega arith) (
        NoHoleAt-ext k.mem k₁.mem (header + size)
          (λ b low high.
            joined.others b (omega arith) (omega arith) ∙ marked_outside k header b (omega arith))
          right)

pub free-FreedLeft :
    (kmalloc_ap : KmallocAp) (k : Kernel) (left left_size header size : ℕ)
    → IsBehindHole k left left_size header size
    → (k' : Kernel) × (free kmalloc_ap (header + 12) k ≡ ok tt k')
      × FreedLeft k left left_size header size k'
free-FreedLeft kmalloc_ap k left left_size header size behind =
    let near = behind.neighbours in
    let below : header + size < k.heap.end_address = behind.in_heap in
    let fits : 20 ≤ size = near.right_fits in
    let (k₁, e, joined) =
      unify_left-JoinedLeft (marked_kernel k header) left left_size header 1 size
        (marked-AreNeighbours k left left_size header size behind)
        (marked-footer k left left_size header size behind) in
    let same_end : k₁.heap.end_address ≡ k.heap.end_address =
      ap (λ (h : Heap). h.end_address) joined.index in
    (
      k₁,
      free-steps kmalloc_ap k k₁ k₁ header 0 size (header + size - 8)
          (record { header = left; footer = header + size - 8; do_add = false }) near.right_header
          fits near.in_memory e
          (unify_right-alone left (header + size - 8) k₁ (omega (arith, near.in_memory))
            (still_alone k left left_size header size behind k₁ joined))
          (ground (arith, same_end, behind.in_memory)),
      joined-FreedLeft k left left_size header size behind k₁ joined,
    )
