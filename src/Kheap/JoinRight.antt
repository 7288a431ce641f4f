-- ===== src/Kheap/JoinRight.antt =====
-- kernel/mm/kheap.c: how `free` joins a block with the hole on its right.
use pyramid_kernel.Prelude.{
  ℕ, zero, suc, refl, ◌+◌, ◌-◌, ◌≤◌, ◌<◌, ◌≡◌, ◌⊎◌, inr, arith, ◌∙◌, ap, add32, sub32,
}
use pyramid_kernel.Memory.{
  Memory, IsBytes, load32, load32_ext, store32_outside, store32-IsBytes, load32-store32_self,
}
use pyramid_kernel.OrderedArray.{item_at, remove_ordered_array, OrderedArray, lookup_ordered_array}
use pyramid_kernel.OrderedArray.Cells.{contents, cells_ext}
use pyramid_kernel.OrderedArray.Remove.{
  erase_at, remove_ordered_array-contents, remove_ordered_array-IsBytes,
}
use pyramid_kernel.Kernel.{Kernel, ok}
use pyramid_kernel.Kheap.{size_of, set_size}
use pyramid_kernel.Kheap.Blocks.{HeaderAt, FooterAt, FooterAt-ext}
use pyramid_kernel.Kheap.Alloc.{index_remove}
use pyramid_kernel.Kheap.Release.{find_header, unify_right}
use pyramid_kernel.Kheap.JoinLeft.{AreNeighbours}

-- `find_header` reads the index alone.
pub find_header-ext :
    (header : ℕ) (index : OrderedArray) (m m' : Memory) (left i : ℕ)
    → ((b : ℕ) → item_at index.array i ≤ b → b < item_at index.array (i + left) → m' b ≡ m b)
    → find_header header index m' left i ≡ find_header header index m left i
unfolding find_header lookup_ordered_array
find_header-ext header index m m' zero i same = refl
find_header-ext header index m m' (suc left) i same =
    let item : load32 m' (item_at index.array i) ≡ load32 m (item_at index.array i) =
      load32_ext m' m (item_at index.array i) (λ b low high. same b low (omega arith)) in
    let rest : find_header header index m' left (i + 1) ≡ find_header header index m left (i + 1) =
      find_header-ext header index m m' left (i + 1)
        (λ b low high. same b (omega arith) (omega arith)) in
    rw (item, rest) refl

-- The memory after a join on the right, but for the index.
abbrev right_joined : (left header : ℕ) → Memory → Memory
right_joined left header m = set_size left (add32 (size_of m left) (size_of m header)) m

-- What a join on the right has done: the block's header has both sizes, and the index has lost the
-- hole's header, number `i`; the footer at the end still points to the hole's header, and not to the
-- block's. Beside the size and the index no byte is written.
pub record JoinedRight (k : Kernel) (left left_hole left_size header size i : ℕ) (k' : Kernel)
    : Type 0 where
  pub block : HeaderAt k'.mem left left_hole (left_size + size)
  pub stale_footer : FooterAt k'.mem (header + size - 8) header
  pub index : contents k'.heap.index k'.mem ≡ erase_at i (contents k.heap.index k.mem)
  pub heap :
      k'.heap ≡ record k.heap { index = record k.heap.index { size = sub32 k.heap.index.size 1 } }
  pub bytes : IsBytes k'.mem
  pub others :
      (b : ℕ)
      → (b < left + 8) ⊎ (left + 12 ≤ b)
      → (b < k.heap.index.array) ⊎ (item_at k.heap.index.array k.heap.index.size ≤ b)
      → k'.mem b ≡ k.mem b

module _ (k : Kernel) (left left_hole left_size header size i : ℕ)
    (near : AreNeighbours k.mem left left_hole left_size header 1 size)
    (within : i < k.heap.index.size)
    (found : find_header header k.heap.index k.mem k.heap.index.size 0 ≡ i) (bytes : IsBytes k.mem)
    (behind : item_at k.heap.index.array k.heap.index.size ≤ left) where
  open near use {left_header, left_footer, right_header, adjacent, left_fits, right_fits, in_memory}

  abbrev right_memory : Memory
  right_memory = right_joined left header k.mem

  right_memory_outside : (b : ℕ) → (b < left + 8) ⊎ (left + 12 ≤ b) → right_memory b ≡ k.mem b
  right_memory_outside b out =
      store32_outside k.mem (left + 8) (add32 (size_of k.mem left) (size_of k.mem header)) b
        (omega arith)

  still_found : find_header header k.heap.index right_memory k.heap.index.size 0 ≡ i
  still_found =
      find_header-ext header k.heap.index k.mem right_memory k.heap.index.size 0
        (λ b low high. right_memory_outside b (omega arith))
      ∙ found

  right_kept : size_of right_memory header ≡ size
  right_kept =
      load32_ext right_memory k.mem (header + 8)
        (λ b low high. right_memory_outside b (omega arith))
      ∙ right_header.span

  abbrev right_kernel : Kernel
  right_kernel =
      let (index, m) = remove_ordered_array i k.heap.index right_memory in
      record k { mem = m; heap = record k.heap { index = index } }

  unify_right-joined : unify_right left (header - 8) k ≡ ok (header + size - 8) right_kernel
  unfolding unify_right index_remove
  unify_right-joined =
      let behind_footer : add32 (header - 8) 8 ≡ header = omega arith in
      ground (arith, behind_footer, right_header.magic, right_header.hole, still_found, right_kept)

  right_removed :
      (contents right_kernel.heap.index right_kernel.mem
        ≡ erase_at i (contents k.heap.index right_memory))
      × ((b : ℕ)
          → (b < item_at k.heap.index.array i) ⊎ (item_at k.heap.index.array k.heap.index.size ≤ b)
          → right_kernel.mem b ≡ right_memory b)
  right_removed =
      remove_ordered_array-contents i k.heap.index right_memory within (omega arith)
        (store32-IsBytes k.mem (left + 8) (add32 (size_of k.mem left) (size_of k.mem header)) bytes)

  -- Behind the index only the size of the block was written.
  right_outside :
      (b : ℕ) → left ≤ b → (b < left + 8) ⊎ (left + 12 ≤ b) → right_kernel.mem b ≡ k.mem b
  right_outside b low out = right_removed.1 b (inr (omega arith)) ∙ right_memory_outside b out

  right_record :
      FooterAt k.mem (header + size - 8) header
      → JoinedRight k left left_hole left_size header size i right_kernel
  right_record foot = record {
    block = record {
      magic =
          load32_ext right_kernel.mem k.mem left (λ b low high. right_outside b low (omega arith))
          ∙ left_header.magic;
      hole = right_outside (left + 4) (omega arith) (omega arith) ∙ left_header.hole;
      span =
          load32_ext right_kernel.mem right_memory (left + 8)
            (λ b low high. right_removed.1 b (inr (omega arith)))
          ∙ load32-store32_self k.mem (left + 8) (add32 (size_of k.mem left) (size_of k.mem header))
              (omega arith)
          ∙ omega (arith, left_header.span, right_header.span);
    };
    stale_footer =
        FooterAt-ext k.mem right_kernel.mem (header + size - 8) header
          (λ b low high. right_outside b (omega arith) (omega arith)) foot;
    index =
        right_removed.0
        ∙ ap (erase_at i) (
            cells_ext right_memory k.mem k.heap.index.array 0 k.heap.index.size
              λ b low high. right_memory_outside b (omega arith));
    heap = unfold remove_ordered_array in refl;
    bytes = remove_ordered_array-IsBytes i k.heap.index right_memory (
        store32-IsBytes k.mem (left + 8) (add32 (size_of k.mem left) (size_of k.mem header)) bytes);
    others = λ b out away. right_removed.1 b (omega arith) ∙ right_memory_outside b out;
  }

-- In a memory of bytes, for a block behind the index, and a hole with header and footer behind it
-- that the search finds as item `i`: `unify_right` returns the hole's footer, the block has both
-- sizes, the index no longer has the hole, and beside this nothing changes. But the footer still points to the hole's header,
-- and not to the block's.
pub unify_right-JoinedRight :
    (k : Kernel) (left left_hole left_size header size i : ℕ)
    → AreNeighbours k.mem left left_hole left_size header 1 size
    → FooterAt k.mem (header + size - 8) header
    → i < k.heap.index.size
    → find_header header k.heap.index k.mem k.heap.index.size 0 ≡ i
    → IsBytes k.mem
    → item_at k.heap.index.array k.heap.index.size ≤ left
    → (k' : Kernel) × (unify_right left (header - 8) k ≡ ok (header + size - 8) k')
      × JoinedRight k left left_hole left_size header size i k'
unify_right-JoinedRight k left left_hole left_size header size i near foot within found bytes
      behind =
    (
      right_kernel k left left_hole left_size header size i near within found bytes behind,
      unify_right-joined k left left_hole left_size header size i near within found bytes behind,
      right_record k left left_hole left_size header size i near within found bytes behind foot,
    )
