-- ===== src/Kheap/Lone.antt =====
-- kernel/mm/kheap.c: `free` of a block between blocks.
use pyramid_kernel.Prelude.{
  ℕ, refl, ◌+◌, ◌-◌, ◌^◌, ◌≤◌, ◌<◌, ◌≡◌, ◌≢◌, ◌⊎◌, inl, inr, arith, ◌∙◌, ap, add32, true,
}
use pyramid_kernel.Memory.{Memory, IsBytes, load32, load32_ext}
use pyramid_kernel.OrderedArray.{OrderedArray, item_at, insert_ordered_array}
use pyramid_kernel.OrderedArray.Cells.{contents, cells_ext}
use pyramid_kernel.OrderedArray.Insert.{insert_before, insert_ordered_array-contents}
use pyramid_kernel.OrderedArray.Undo.{insert_ordered_array-IsBytes}
use pyramid_kernel.Kernel.{Kernel, ok}
use pyramid_kernel.Paging.{KmallocAp}
use pyramid_kernel.Kheap.Blocks.{HeaderAt}
use pyramid_kernel.Kheap.Alloc.{index_insert}
use pyramid_kernel.Kheap.Release.{free}
use pyramid_kernel.Kheap.Marked.{
  NoHoleBefore, NoHoleAt, marked, marked_kernel, marked_outside, marked_word, marked-NoHoleAt,
  unify_left-alone, unify_right-alone, free-steps,
}
use mathlib.Core.Path.{subst}

-- A block of `size` bytes at `header`, behind the index (with room for one more item) and in front of
-- the heap's last byte, with no hole beside it: what lies in front is no footer, or belongs to
-- something else that is no hole; what lies behind is no header, or no hole.
pub record IsLone (k : Kernel) (header size : ℕ) : Type 0 where
  pub block : HeaderAt k.mem header 0 size
  pub left : NoHoleBefore k.mem header
  pub right : NoHoleAt k.mem (header + size)
  pub fits : 20 ≤ size
  pub in_heap : header + size < k.heap.end_address
  pub in_memory : k.heap.end_address < 2 ^ 32
  pub behind_index : item_at k.heap.index.array (k.heap.index.size + 1) + 8 ≤ header
  pub bytes : IsBytes k.mem

module _ (k : Kernel) (header : ℕ) where
  abbrev pub entered : OrderedArray × Memory
  entered = insert_ordered_array header k.heap.index (marked k header)

  abbrev pub freed_kernel : Kernel
  freed_kernel = record k { mem = entered.1; heap = record k.heap { index = entered.0 } }

  module _ (size : ℕ) (lone : IsLone k header size) where
    open lone use {block, left, right, fits, in_heap, in_memory, behind_index, bytes}

    free-lone : (kmalloc_ap : KmallocAp) → free kmalloc_ap (header + 12) k ≡ ok tt freed_kernel
    unfolding index_insert
    free-lone kmalloc_ap =
        let behind : NoHoleAt (marked k header) (header + size - 8 + 8) =
          subst (NoHoleAt (marked k header)) {x = header + size} {y = header + size - 8 + 8}
            (omega arith) (marked-NoHoleAt k header (header + size) (omega arith) right) in
        free-steps kmalloc_ap k (marked_kernel k header) (marked_kernel k header) header 0 size
          (header + size - 8)
          (record { header = header; footer = header + size - 8; do_add = true }) block fits
          (omega arith)
          (unify_left-alone k header (header + size - 8) (omega arith) (omega arith) left)
          (unify_right-alone header (header + size - 8) (marked_kernel k header) (omega arith)
            behind)
          (ground arith)

    entered_lem :
        (contents entered.0 entered.1
          ≡ insert_before
              (k.heap.index.less_than (marked k header))
              header
              (contents k.heap.index (marked k header)))
        × ((b : ℕ)
            → (b < k.heap.index.array) ⊎ (item_at k.heap.index.array (k.heap.index.size + 1) ≤ b)
            → entered.1 b ≡ marked k header b)
    entered_lem =
        insert_ordered_array-contents header k.heap.index (marked k header) (omega arith)
          (omega arith) λ b. ground (arith, bytes b)

    word_kept :
        (a : ℕ)
        → header ≤ a
        → (a + 4 ≤ header + 4) ⊎ (header + 5 ≤ a)
        → load32 entered.1 a ≡ load32 k.mem a
    word_kept a low apart =
        load32_ext entered.1 (marked k header) a
          (λ b above below. entered_lem.1 b (inr (omega arith)))
        ∙ marked_word k header a apart

-- What `free` has done: the block is a hole of its size, the index has it at its place, the heap is as
-- it was beside, and apart from the block's mark and the index no byte is written.
pub record Freed (k : Kernel) (header size : ℕ) (k' : Kernel) : Type 0 where
  pub hole : HeaderAt k'.mem header 1 size
  pub index :
      contents k'.heap.index k'.mem
      ≡ insert_before
          (k.heap.index.less_than (marked k header))
          header
          (contents k.heap.index k.mem)
  pub heap :
      k'.heap ≡ record k.heap { index = record k.heap.index { size = add32 k.heap.index.size 1 } }
  pub bytes : IsBytes k'.mem
  pub others :
      (b : ℕ)
      → b ≢ header + 4
      → (b < k.heap.index.array) ⊎ (item_at k.heap.index.array (k.heap.index.size + 1) ≤ b)
      → k'.mem b ≡ k.mem b

-- `free` of a block as in `IsLone` (with header, inside the heap and behind the index, with no hole
-- beside it) returns: the block is a hole then, the index has it in front of the first hole that is
-- not less, and apart from the mark and the index no byte is written.
pub free-Freed :
    (kmalloc_ap : KmallocAp) (k : Kernel) (header size : ℕ)
    → IsLone k header size
    → (k' : Kernel) × (free kmalloc_ap (header + 12) k ≡ ok tt k') × Freed k header size k'
free-Freed kmalloc_ap k header size lone =
    let put = entered_lem k header size lone in
    let word = word_kept k header size lone in
    (
      freed_kernel k header,
      free-lone k header size lone kmalloc_ap,
      record {
        hole = record {
          magic = word header (omega arith) (inl (omega arith)) ∙ lone.block.magic;
          hole = put.1 (header + 4) (inr (omega (arith, lone.behind_index))) ∙ ground arith;
          span = word (header + 8) (omega arith) (inr (omega arith)) ∙ lone.block.span;
        };
        index =
            put.0
            ∙ ap (insert_before (k.heap.index.less_than (marked k header)) header) (
                cells_ext (marked k header) k.mem k.heap.index.array 0 k.heap.index.size
                  λ b low high. marked_outside k header b (omega (arith, lone.behind_index)));
        heap = unfold insert_ordered_array in refl;
        bytes =
            insert_ordered_array-IsBytes header k.heap.index (marked k header)
              (λ b. ground (arith, lone.bytes b));
        others = λ b other apart. put.1 b apart ∙ marked_outside k header b other;
      },
    )
