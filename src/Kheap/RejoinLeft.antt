-- ===== src/Kheap/RejoinLeft.antt =====
-- kernel/mm/kheap.c: `free` on a well-formed heap, of a block behind a hole.
use pyramid_kernel.Prelude.{ℕ, List}
use pyramid_kernel.Kernel.{Kernel}
use pyramid_kernel.Kheap.Chain.{Block, Chain, after}

module _ (k k₁ : Kernel) (front back : List Block) (left_size size : ℕ) where
  abbrev left : ℕ
  left = after k.heap.start_address front
