-- ===== src/Kheap/Deallocation.antt =====
-- kernel/mm/kheap.c: `free` on a well-formed heap, of a block that has no hole beside it.
use pyramid_kernel.Prelude.{ℕ, ◌+◌, ◌≤◌, ◌<◌, ◌≡◌, inr, arith, ◌∙◌, sym, ap, List, ◌∷◌, ◌++◌, add32}
use mathlib.Core.Path.{subst}
use pyramid_kernel.Memory.{IsBytes}
use pyramid_kernel.OrderedArray.{item_at}
use pyramid_kernel.OrderedArray.Cells.{contents}
use pyramid_kernel.OrderedArray.Count.{count, count-insert_before}
use pyramid_kernel.Kernel.{Kernel, Heap, ok}
use pyramid_kernel.Paging.{KmallocAp}
use pyramid_kernel.Kheap.Release.{free}
use pyramid_kernel.Kheap.Marked.{marked}
use pyramid_kernel.Kheap.Lone.{IsLone, Freed, free-Freed}
use pyramid_kernel.Kheap.Chain.{
  Block, hole, block, Chain, holes, after, Chain-le, Chain-ext, Chain-++, Chain-split,
  count-holes_++,
}
use pyramid_kernel.Kheap.Allocation.{WellFormed}

-- From the address behind `front` on the chain `old` has become `new`, and the index has followed.
pub record Follows (k k₁ : Kernel) (front old new : List Block) : Type 0 where
  pub chain : Chain k₁.mem (after k.heap.start_address front) new k.heap.end_address
  pub front_kept :
      (b : ℕ) → k.heap.start_address ≤ b → b < after k.heap.start_address front → k₁.mem b ≡ k.mem b
  pub counted :
      (y : ℕ)
      → count y (contents k₁.heap.index k₁.mem)
          + count y (holes (after k.heap.start_address front) old)
        ≡ count y (holes (after k.heap.start_address front) new)
          + count y (contents k.heap.index k.mem)
  pub same_start : k₁.heap.start_address ≡ k.heap.start_address
  pub same_end : k₁.heap.end_address ≡ k.heap.end_address
  pub behind_index : item_at k₁.heap.index.array k₁.heap.index.size ≤ k.heap.start_address
  pub bytes : IsBytes k₁.mem

pub Follows-WellFormed :
    (k k₁ : Kernel) (front old new : List Block)
    → WellFormed k (front ++ old)
    → Follows k k₁ front old new
    → WellFormed k₁ (front ++ new)
Follows-WellFormed k k₁ front old new well follows =
    let start = k.heap.start_address in
    let stop = k.heap.end_address in
    let mid = after start front in
    let (first, rest) = Chain-split k.mem start stop front old well.chain in
    let kept = Chain-ext k.mem k₁.mem start mid front follows.front_kept first in
    record {
      chain =
          subst (λ p. Chain k₁.mem p (front ++ new) k₁.heap.end_address) (sym follows.same_start)
            (subst (Chain k₁.mem start (front ++ new)) (sym follows.same_end)
              (Chain-++ k₁.mem start mid stop front new kept follows.chain));
      index = λ y.
          let here : count y (contents k₁.heap.index k₁.mem)
              ≡ count y (holes start (front ++ new)) =
            omega (
              arith,
              follows.counted y,
              well.index y,
              count-holes_++ k.mem y start mid front old first,
              count-holes_++ k₁.mem y start mid front new kept,
            ) in
          here ∙ ap (λ p. count y (holes p (front ++ new))) (sym follows.same_start);
      behind_index = omega (arith, follows.behind_index, follows.same_start);
      in_memory = omega (arith, follows.same_end, well.in_memory);
      bytes = follows.bytes;
    }

module _ (k : Kernel) (front back : List Block) (size : ℕ) where
  abbrev header : ℕ
  header = after k.heap.start_address front

  module _ (well : WellFormed k (front ++ (block size ∷ back))) where
    abbrev start : ℕ
    start = k.heap.start_address

    abbrev stop : ℕ
    stop = k.heap.end_address

    parts : Chain k.mem start front header × Chain k.mem header (block size ∷ back) stop
    parts = Chain-split k.mem start stop front (block size ∷ back) well.chain

    low : start ≤ header
    low = Chain-le k.mem start header front parts.0

    -- With one more item the index still lies in front of the heap.
    alone-Follows :
        (k₁ : Kernel)
        → item_at k.heap.index.array (k.heap.index.size + 1) ≤ start
        → Freed k header size k₁
        → Follows k k₁ front (block size ∷ back) (hole size ∷ back)
    unfolding Chain holes count
    alone-Follows k₁ room freed =
        let rest = parts.1 in
        let fits : 20 ≤ size = rest.1 in
        let bound = Chain-le k.mem (header + size) stop back rest.2 in
        let grown : k₁.heap.index.size ≡ add32 k.heap.index.size 1 =
          ap (λ (h : Heap). h.index.size) freed.heap in
        let same_array : k₁.heap.index.array ≡ k.heap.index.array =
          ap (λ (h : Heap). h.index.array) freed.heap in
        let above : item_at k.heap.index.array (k.heap.index.size + 1) ≤ header =
          omega (arith, low) in
        record {
          chain = (
            freed.hole,
            fits,
            Chain-ext k.mem k₁.mem (header + size) stop back
                (λ b from to. freed.others b (omega arith) (inr (omega arith))) rest.2,
          );
          front_kept = λ b from to. freed.others b (omega arith) (inr (omega arith));
          counted = λ y. omega (
            arith,
            ap (count y) freed.index
                ∙ count-insert_before (k.heap.index.less_than (marked k header)) y header
                    (contents k.heap.index k.mem),
          );
          same_start = ap (λ (h : Heap). h.start_address) freed.heap;
          same_end = ap (λ (h : Heap). h.end_address) freed.heap;
          behind_index = omega (arith, grown, same_array, room, low, bound, well.in_memory);
          bytes = freed.bytes;
        }

-- On a well-formed heap whose index has room for one more item in front of the heap, `free` of a block of
-- the chain with no hole beside it that is not the last of the heap (`IsLone`) returns, and the heap is
-- well formed with a hole in the block's place.
pub free_alone-WellFormed :
    (kmalloc_ap : KmallocAp) (k : Kernel) (front back : List Block) (size : ℕ)
    → WellFormed k (front ++ (block size ∷ back))
    → IsLone k (after k.heap.start_address front) size
    → item_at k.heap.index.array (k.heap.index.size + 1) ≤ k.heap.start_address
    → (k' : Kernel) × (free kmalloc_ap (after k.heap.start_address front + 12) k ≡ ok tt k')
      × WellFormed k' (front ++ (hole size ∷ back))
free_alone-WellFormed kmalloc_ap k front back size well lone room =
    let (k₁, e, freed) = free-Freed kmalloc_ap k (header k front back size) size lone in
    (
      k₁,
      e,
      Follows-WellFormed k k₁ front (block size ∷ back) (hole size ∷ back) well
          (alone-Follows k front back size well k₁ room freed),
    )
