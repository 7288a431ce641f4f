-- ===== src/Kheap/Rejoin.antt =====
-- kernel/mm/kheap.c: `free` on a well-formed heap, of a block in front of a hole.
use pyramid_kernel.Prelude.{
  ℕ, zero, suc, ◌+◌, ◌≤◌, ◌<◌, ◌≡◌, inl, inr, arith, ◌∙◌, sym, ap, List, ◌∷◌, ◌++◌, ◌==◌,
  if◌then◌else◌, add32, sub32, Bool-cases,
}
use mathlib.Core.Path.{subst}
use pyramid_kernel.Memory.{Memory}
use pyramid_kernel.OrderedArray.{OrderedArray, lookup_ordered_array}
use pyramid_kernel.OrderedArray.Cells.{contents}
use pyramid_kernel.OrderedArray.Remove.{erase_at}
use pyramid_kernel.OrderedArray.Count.{count, count-insert_before, count-erase_contents}
use pyramid_kernel.Kernel.{Kernel, Heap, ok}
use pyramid_kernel.Paging.{KmallocAp}
use pyramid_kernel.Kheap.Release.{free, find_header}
use pyramid_kernel.Kheap.FreeRight.{IsBeforeHole, FreedRight, free-FreedRight}
use pyramid_kernel.Kheap.Chain.{
  Block, hole, block, Chain, holes, after, Chain-le, Chain-ext, Chain-split,
}
use pyramid_kernel.Kheap.Allocation.{WellFormed}
use pyramid_kernel.Kheap.Deallocation.{Follows, Follows-WellFormed}

-- What the search finds, if it ends before the size, is the header.
lookup-find_header :
    (header : ℕ) (index : OrderedArray) (m : Memory) (left i : ℕ)
    → find_header header index m left i < i + left
    → lookup_ordered_array (find_header header index m left i) index m ≡ header
unfolding find_header
lookup-find_header header index m zero i within = absurd (omega arith)
lookup-find_header header index m (suc left) i within =
    elim (Bool-cases (lookup_ordered_array i index m == header)) [
      | inl found ↦ rw found (ground arith)
      | inr further ↦ rw further (lookup-find_header header index m left (i + 1) (ground arith))
    ]

-- In the index the joined hole takes the place of the one behind the block.
pub counted-FreedRight :
    (k k₁ : Kernel) (header size next next_size i : ℕ)
    → IsBeforeHole k header size next next_size i
    → FreedRight k header size next next_size i k₁
    → (y : ℕ)
    → ◌≡◌ {A = ℕ}
        (count y (contents k₁.heap.index k₁.mem) + (if next == y then 1 else 0))
        ((if header == y then 1 else 0) + count y (contents k.heap.index k.mem))
counted-FreedRight k k₁ header size next next_size i before freed y =
    let item : lookup_ordered_array i k.heap.index k.mem ≡ next =
      ap (λ j. lookup_ordered_array j k.heap.index k.mem) (sym before.found)
      ∙ lookup-find_header next k.heap.index k.mem k.heap.index.size 0
          (omega (arith, before.found, before.within)) in
    let taken : ◌≡◌ {A = ℕ}
        (count y (erase_at i (contents k.heap.index k.mem)) + (if next == y then 1 else 0))
        (count y (contents k.heap.index k.mem)) =
      ap (λ (t : ℕ). count y (erase_at i (contents k.heap.index k.mem)) + (if t == y then 1 else 0))
        (sym item)
      ∙ count-erase_contents y i k.heap.index k.mem before.within in
    let put : count y (contents k₁.heap.index k₁.mem)
        ≡ (if header == y then 1 else 0) + count y (erase_at i (contents k.heap.index k.mem)) =
      ap (count y) freed.index
      ∙ count-insert_before (k.heap.index.less_than freed.joined) y header
          (erase_at i (contents k.heap.index k.mem)) in
    omega (arith, taken, put)

module _ (k k₁ : Kernel) (front back : List Block) (size next_size i : ℕ) where
  abbrev header : ℕ
  header = after k.heap.start_address front

  module _ (well : WellFormed k (front ++ (block size ∷ hole next_size ∷ back)))
      (before : IsBeforeHole k header size (header + size) next_size i)
      (freed : FreedRight k header size (header + size) next_size i k₁) where
    parts :
        Chain k.mem k.heap.start_address front header
        × Chain k.mem header (block size ∷ hole next_size ∷ back) k.heap.end_address
    parts =
        Chain-split k.mem k.heap.start_address k.heap.end_address front
          (block size ∷ hole next_size ∷ back) well.chain

    low : k.heap.start_address ≤ header
    low = Chain-le k.mem k.heap.start_address header front parts.0

    right-counted :
        (y : ℕ)
        → count y (contents k₁.heap.index k₁.mem)
            + count y (holes header (block size ∷ hole next_size ∷ back))
          ≡ count y (holes header (hole (size + next_size) ∷ back))
            + count y (contents k.heap.index k.mem)
    unfolding holes count
    right-counted y =
        let rest : count y (holes (header + size + next_size) back)
            ≡ count y (holes (header + (size + next_size)) back) =
          ap (λ p. count y (holes p back)) {x = header + size + next_size}
            {y = header + (size + next_size)} (omega arith) in
        omega (
          arith,
          counted-FreedRight k k₁ header size (header + size) next_size i before freed y,
          rest,
        )

    right-Follows :
        Follows k k₁ front (block size ∷ hole next_size ∷ back) (hole (size + next_size) ∷ back)
    unfolding Chain
    right-Follows =
        let rest = parts.1 in
        let fits : 20 ≤ size = rest.1 in
        let fits_next : 20 ≤ next_size = rest.2.1 in
        let bound = Chain-le k.mem (header + size + next_size) k.heap.end_address back rest.2.2 in
        let same_size : k₁.heap.index.size ≡ add32 (sub32 k.heap.index.size 1) 1 =
          ap (λ (h : Heap). h.index.size) freed.heap in
        let same_array : k₁.heap.index.array ≡ k.heap.index.array =
          ap (λ (h : Heap). h.index.array) freed.heap in
        record {
          chain = (
            freed.hole,
            omega arith,
            subst (λ p. Chain k₁.mem p back k.heap.end_address) {x = header + size + next_size}
                {y = header + (size + next_size)} (omega arith)
                (Chain-ext k.mem k₁.mem (header + size + next_size) k.heap.end_address back
                  (λ b from to.
                    freed.others b (omega arith) (inr (omega (arith, well.behind_index, low))))
                  rest.2.2),
          );
          front_kept =
              λ b from to. freed.others b (omega arith) (inr (omega (arith, well.behind_index)));
          counted = right-counted;
          same_start = ap (λ (h : Heap). h.start_address) freed.heap;
          same_end = ap (λ (h : Heap). h.end_address) freed.heap;
          behind_index = omega (
            arith, same_size, same_array, well.behind_index, before.within, low, bound,
            well.in_memory,
          );
          bytes = freed.bytes;
        }

-- On a well-formed heap `free` of a block of the chain that has no hole on its left, and on its right a
-- hole that is not the last of the heap (`IsBeforeHole`), returns, and the heap is well formed with one
-- hole of both sizes.
pub free_before-WellFormed :
    (kmalloc_ap : KmallocAp) (k : Kernel) (front back : List Block) (size next_size i : ℕ)
    → WellFormed k (front ++ (block size ∷ hole next_size ∷ back))
    → let header = after k.heap.start_address front in
      IsBeforeHole k header size (header + size) next_size i
      → (k' : Kernel) × (free kmalloc_ap (header + 12) k ≡ ok tt k')
        × WellFormed k' (front ++ (hole (size + next_size) ∷ back))
free_before-WellFormed kmalloc_ap k front back size next_size i well before =
    let start = after k.heap.start_address front in
    let (k₁, e, freed) =
      free-FreedRight kmalloc_ap k start size (start + size) next_size i before in
    (
      k₁,
      e,
      Follows-WellFormed k k₁ front (block size ∷ hole next_size ∷ back)
          (hole (size + next_size) ∷ back) well
          (right-Follows k k₁ front back size next_size i well before freed),
    )
