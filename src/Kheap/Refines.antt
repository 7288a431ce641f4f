-- ===== src/Kheap/Refines.antt =====
-- kernel/mm/kheap.c: `alloc` on a well-formed heap with a hole that is large enough.
use pyramid_kernel.Prelude.{
  ℕ, suc, refl, ◌+◌, ◌-◌, ◌≤◌, ◌<◌, ◌≡◌, inl, inr, arith, ◌∙◌, ap, List, [], ◌∷◌, ◌==◌,
  if◌then◌else◌, minus_one, add32, sub32,
}
use native.Mathlib.Decide.{dec_lt}
use mathlib.Core.Path.{subst}
use pyramid_kernel.OrderedArray.{lookup_ordered_array}
use pyramid_kernel.OrderedArray.Cells.{contents}
use pyramid_kernel.OrderedArray.Remove.{erase_at}
use pyramid_kernel.OrderedArray.Count.{count, count-insert_before, count-erase_contents}
use pyramid_kernel.Kernel.{Kernel, Heap, ok}
use pyramid_kernel.Paging.{KmallocAp}
use pyramid_kernel.Kheap.{find_smallest_hole, size_of, hole_fits}
use pyramid_kernel.Kheap.Blocks.{HeaderAt}
use pyramid_kernel.Kheap.Alloc.{alloc}
use pyramid_kernel.Kheap.Search.{find_smallest_hole_first}
use pyramid_kernel.Kheap.Split.{IsSplit, Split, alloc-Split, split_memory}
use pyramid_kernel.Kheap.Whole.{IsWhole, Whole, alloc-Whole}
use pyramid_kernel.Kheap.Chain.{Block, hole, block, Chain, holes, whole, split, Chain-le}
use pyramid_kernel.Kheap.Allocation.{
  WellFormed, Replaces, Allocated, spot, spot-inside, carved-Allocated,
}

module _ (size i : ℕ) (k : Kernel) (bs : List Block) (well : WellFormed k bs)
    (within : i < k.heap.index.size) where
  abbrev x : ℕ
  x = spot size i k bs well within

  abbrev s : ℕ
  s = size_of k.mem x

  inside : (k.heap.start_address ≤ x) × (x + s ≤ k.heap.end_address) × (20 ≤ s)
  inside = spot-inside size i k bs well within

  -- The hole is split.
  module _ (large : size + 40 ≤ s) where
    two-IsSplit : IsSplit k i size x s
    two-IsSplit = record {
      within = within;
      position = refl;
      span = refl;
      large = large;
      in_heap = inside.1;
      in_memory = well.in_memory;
      behind_index = omega (arith, well.behind_index, inside.0);
      bytes = well.bytes;
    }

    abbrev two : List Block
    two = block (size + 20) ∷ hole (s - size - 20) ∷ []

    two-Replaces :
        (k₁ : Kernel) → Split k i size x s k₁ → Replaces k.mem k₁.mem k.heap.start_address x s two
    unfolding Chain
    two-Replaces k₁ after = record {
      chain = (
        after.block,
        omega arith,
        (
          subst (λ p. HeaderAt k₁.mem p 1 (s - size - 20)) {x = x + size + 20} {y = x + (size + 20)}
              (omega arith) after.rest,
          omega arith,
          omega arith,
        ),
      );
      others = λ b above away. after.others b (inr (omega (arith, well.behind_index))) away;
    }

    two-counted :
        (k₁ : Kernel)
        → Split k i size x s k₁
        → (y : ℕ)
        → count y (contents k₁.heap.index k₁.mem) + (if x == y then 1 else 0)
          ≡ count y (holes x two) + count y (contents k.heap.index k.mem)
    unfolding holes count
    two-counted k₁ after y =
        let put : count y (contents k₁.heap.index k₁.mem)
            ≡ (if x + size + 20 == y then 1 else 0)
              + count y (erase_at i (contents k.heap.index k.mem)) =
          ap (count y) after.index
          ∙ count-insert_before (k.heap.index.less_than (split_memory k i size x s)) y
              (x + size + 20) (erase_at i (contents k.heap.index k.mem)) in
        let place : ◌≡◌ {A = ℕ} (if x + size + 20 == y then 1 else 0)
            (if x + (size + 20) == y then 1 else 0) =
          ap (λ (p : ℕ). if p == y then 1 else 0) {x = x + size + 20} {y = x + (size + 20)}
            (omega arith) in
        omega (arith, put, place, count-erase_contents y i k.heap.index k.mem within)

    two-Allocated : (k₁ : Kernel) → Split k i size x s k₁ → Allocated size k bs (x + 12) k₁
    two-Allocated k₁ after =
        let same_size : k₁.heap.index.size ≡ add32 (sub32 k.heap.index.size 1) 1 =
          ap (λ (h : Heap). h.index.size) after.heap in
        let same_array : k₁.heap.index.array ≡ k.heap.index.array =
          ap (λ (h : Heap). h.index.array) after.heap in
        carved-Allocated size i s k k₁ bs two well within refl (split s large)
          (two-Replaces k₁ after) (ap (λ (h : Heap). h.start_address) after.heap)
          (ap (λ (h : Heap). h.end_address) after.heap)
          (omega (arith, same_size, same_array, well.behind_index, inside, well.in_memory))
          after.bytes (two-counted k₁ after)

  -- All of the hole becomes the block.
  module _ (fits : size + 20 ≤ s) (tight : s < size + 40) where
    one-IsWhole : IsWhole k i size x s
    one-IsWhole = record {
      within = within;
      position = refl;
      span = refl;
      fits = fits;
      tight = tight;
      in_heap = inside.1;
      in_memory = well.in_memory;
      behind_index = omega (arith, well.behind_index, inside.0);
      bytes = well.bytes;
    }

    one-counted :
        (k₁ : Kernel)
        → Whole k i x s k₁
        → (y : ℕ)
        → count y (contents k₁.heap.index k₁.mem) + (if x == y then 1 else 0)
          ≡ count y (holes x (block s ∷ [])) + count y (contents k.heap.index k.mem)
    unfolding holes count
    one-counted k₁ after y =
        omega (arith, ap (count y) after.index, count-erase_contents y i k.heap.index k.mem within)

    one-Allocated : (k₁ : Kernel) → Whole k i x s k₁ → Allocated size k bs (x + 12) k₁
    unfolding Chain
    one-Allocated k₁ after =
        let one_less : k₁.heap.index.size ≡ sub32 k.heap.index.size 1 =
          ap (λ (h : Heap). h.index.size) after.heap in
        let same_array : k₁.heap.index.array ≡ k.heap.index.array =
          ap (λ (h : Heap). h.index.array) after.heap in
        carved-Allocated size i s k k₁ bs (block s ∷ []) well within refl (whole s fits tight)
          (record {
            chain = (after.block, omega arith, refl);
            others = λ b above away. after.others b (inr (omega (arith, well.behind_index))) away;
          })
          (ap (λ (h : Heap). h.start_address) after.heap)
          (ap (λ (h : Heap). h.end_address) after.heap)
          (omega (arith, one_less, same_array, well.behind_index, inside, well.in_memory))
          after.bytes (one-counted k₁ after)

  -- `alloc` with the hole that the search has found.
  found-Allocated :
      (kmalloc_ap : KmallocAp) (fuel : ℕ)
      → k.heap.index.size < minus_one
      → find_smallest_hole (size + 20) 0 k.heap k.mem ≡ i
      → size + 20 ≤ s
      → (p : ℕ) × (k' : Kernel) × (alloc kmalloc_ap (suc fuel) size 0 k ≡ ok p k')
        × Allocated size k bs p k'
  found-Allocated kmalloc_ap fuel small found fits = elim (dec_lt s (size + 40)) [
    | yes tight ↦
        let (k₁, e, after) =
          alloc-Whole kmalloc_ap fuel i size x s k small found (one-IsWhole fits tight) in
        (x + 12, k₁, e, one-Allocated fits tight k₁ after)
    | no roomy ↦
        let large : size + 40 ≤ s = omega arith in
        let (k₁, e, after) =
          alloc-Split kmalloc_ap fuel i size x s k small found (two-IsSplit large) in
        (x + 12, k₁, e, two-Allocated large k₁ after)
  ]

-- On a well-formed heap, with item `j` of the index a hole that is large enough, `alloc` without
-- alignment returns, and implements the specification `Allocates`: one hole of the chain becomes the
-- block, all of it if fewer than 20 bytes would be left, and else its front with a hole behind it; the
-- result is the address behind the block's header, and the heap is well formed with the new chain.
pub alloc-Allocated :
    (kmalloc_ap : KmallocAp) (fuel size j : ℕ) (k : Kernel) (bs : List Block)
    → WellFormed k bs
    → j < k.heap.index.size
    → size + 20 ≤ size_of k.mem (lookup_ordered_array j k.heap.index k.mem)
    → (p : ℕ) × (k' : Kernel) × (alloc kmalloc_ap (suc fuel) size 0 k ≡ ok p k')
      × Allocated size k bs p k'
unfolding hole_fits
alloc-Allocated kmalloc_ap fuel size j k bs well within fits =
    let first = Chain-le k.mem k.heap.start_address k.heap.end_address bs well.chain in
    let small : k.heap.index.size < minus_one = omega (arith, well.behind_index, well.in_memory) in
    elim (find_smallest_hole_first (size + 20) 0 k.heap k.mem small) [
      | inl found ↦
          found-Allocated size (find_smallest_hole (size + 20) 0 k.heap k.mem) k bs well found.0
            kmalloc_ap fuel small refl (ground (arith, found.1))
      | inr nothing ↦ absurd (ground (arith, nothing.1 j within))
    ]
