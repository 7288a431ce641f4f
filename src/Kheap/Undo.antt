-- ===== src/Kheap/Undo.antt =====
-- kernel/mm/kheap.c: `free` of a block that `alloc` has just split from a hole.
use pyramid_kernel.Prelude.{
  ℕ, zero, suc, ◌+◌, ◌-◌, ◌≤◌, ◌<◌, ◌≡◌, ◌≢◌, ◌⊎◌, inl, inr, arith, ◌==◌, ◌∙◌, ap, sym, minus_one,
  length, Bool-cases, List,
}
use mathlib.Core.Path.{subst}
use pyramid_kernel.Memory.{Memory, load32, load32_ext}
use pyramid_kernel.OrderedArray.{OrderedArray, LessThan, item_at, lookup_ordered_array}
use pyramid_kernel.OrderedArray.Cells.{cells, contents, length-cells}
use pyramid_kernel.OrderedArray.Insert.{insert_before}
use pyramid_kernel.OrderedArray.Remove.{erase_at}
use pyramid_kernel.OrderedArray.Undo.{
  index_of, IsNoneOf, index_of-insert_before, length-insert_before,
}
use pyramid_kernel.Kernel.{Kernel, Heap, ok}
use pyramid_kernel.Paging.{KmallocAp}
use pyramid_kernel.Kheap.{heap_magic, magic_of, is_hole_of, size_of, find_smallest_hole}
use pyramid_kernel.Kheap.Blocks.{HeaderAt, FooterAt}
use pyramid_kernel.Kheap.Alloc.{alloc}
use pyramid_kernel.Kheap.Release.{free, find_header, header_of}
use pyramid_kernel.Kheap.Split.{IsSplit, Split, alloc-Split, split_memory}
use pyramid_kernel.Kheap.Marked.{NoHoleBefore}
use pyramid_kernel.Kheap.FreeRight.{IsBeforeHole, FreedRight, free-FreedRight}

-- The search reads the index as a list.
find_header-index_of :
    (header : ℕ) (index : OrderedArray) (m : Memory) (left i : ℕ)
    → find_header header index m left i ≡ i + index_of header (cells m index.array i left)
unfolding find_header index_of lookup_ordered_array
find_header-index_of header index m zero i = omega arith
find_header-index_of header index m (suc left) i =
    elim (Bool-cases (load32 m (item_at index.array i) == header)) [
      | inl here ↦ rw here (omega arith)
      | inr further ↦ rw further (find_header-index_of header index m left (i + 1) ∙ omega arith)
    ]

-- The hole lies behind the index, with 8 bytes between for a footer, and not at the end of the heap.
-- What lies in front of it is no footer, or that of a block between the index and the hole; and the
-- index has no item at the place of the rest.
pub record CanUndo (k : Kernel) (i size pos hole_size : ℕ) : Type 0 where
  pub split : IsSplit k i size pos hole_size
  pub behind_index : item_at k.heap.index.array k.heap.index.size + 8 ≤ pos
  pub inside : pos + hole_size < k.heap.end_address
  pub left :
      (magic_of k.mem (pos - 8) ≢ heap_magic)
      ⊎ ((is_hole_of k.mem (header_of k.mem (pos - 8)) ≢ 1)
          × (item_at k.heap.index.array k.heap.index.size ≤ header_of k.mem (pos - 8))
          × (header_of k.mem (pos - 8) + 12 ≤ pos))
  pub fresh : IsNoneOf (pos + size + 20) (erase_at i (contents k.heap.index k.mem))

-- The hole is there again, with its size and its place in the index by the order on the memory
-- `joined`; its footer points to where the rest began. No byte outside the hole and the index differs.
pub record Undone (k : Kernel) (i size pos hole_size : ℕ) (k' : Kernel) : Type 0 where
  pub hole : HeaderAt k'.mem pos 1 hole_size
  pub stale_footer : FooterAt k'.mem (pos + hole_size - 8) (pos + size + 20)
  pub joined : Memory
  pub index :
      contents k'.heap.index k'.mem
      ≡ insert_before (k.heap.index.less_than joined) pos (erase_at i (contents k.heap.index k.mem))
  pub joined_size : size_of joined pos ≡ hole_size
  pub others :
      (b : ℕ)
      → (b < k.heap.index.array) ⊎ (item_at k.heap.index.array k.heap.index.size ≤ b)
      → (b < pos) ⊎ (pos + hole_size ≤ b)
      → (k'.mem b ≡ k.mem b) × (joined b ≡ k.mem b)

module _ (k : Kernel) (i size pos hole_size : ℕ) (can : CanUndo k i size pos hole_size)
    (k₁ : Kernel) (after : Split k i size pos hole_size k₁) where
  open can use {split, behind_index, inside, left, fresh}

  abbrev rest_pos : ℕ
  rest_pos = pos + size + 20

  abbrev rest_size : ℕ
  rest_size = hole_size - size - 20

  abbrev less : ℕ → ℕ → ℕ
  less = k.heap.index.less_than (split_memory k i size pos hole_size)

  abbrev kept : List ℕ
  kept = erase_at i (contents k.heap.index k.mem)

  same_size : k₁.heap.index.size ≡ k.heap.index.size
  same_size =
      ap (λ (h : Heap). h.index.size) after.heap
      ∙ omega (arith, split.within, behind_index, inside, split.in_memory)

  same_array : k₁.heap.index.array ≡ k.heap.index.array
  same_array = ap (λ (h : Heap). h.index.array) after.heap

  same_end : k₁.heap.end_address ≡ k.heap.end_address
  same_end = ap (λ (h : Heap). h.end_address) after.heap

  same_order : k₁.heap.index.less_than ≡ k.heap.index.less_than
  same_order = ap (λ (h : Heap). h.index.less_than) after.heap

  found :
      find_header rest_pos k₁.heap.index k₁.mem k₁.heap.index.size 0
      ≡ index_of rest_pos (insert_before less rest_pos kept)
  found = omega (
    arith,
    find_header-index_of rest_pos k₁.heap.index k₁.mem k₁.heap.index.size 0,
    ap (index_of rest_pos) after.index,
  )

  undone_lists :
      erase_at
        (index_of rest_pos (insert_before less rest_pos kept))
        (contents k₁.heap.index k₁.mem)
      ≡ kept
  undone_lists =
      ap (erase_at (index_of rest_pos (insert_before less rest_pos kept))) after.index
      ∙ (index_of-insert_before less rest_pos kept fresh).1

  abbrev number : ℕ
  number = index_of rest_pos (insert_before less rest_pos kept)

  number-lt : number < k₁.heap.index.size
  number-lt =
      let counted : k₁.heap.index.size ≡ suc (length kept) =
        sym (length-cells k₁.mem k₁.heap.index.array 0 k₁.heap.index.size)
        ∙ ap length after.index
        ∙ length-insert_before less rest_pos kept in
      omega (arith, counted, (index_of-insert_before less rest_pos kept fresh).0)

  outside :
      (b : ℕ)
      → item_at k.heap.index.array k.heap.index.size ≤ b
      → (b < pos) ⊎ (pos + hole_size ≤ b)
      → k₁.mem b ≡ k.mem b
  outside b above away = after.others b (inr above) away

  after-before : NoHoleBefore k₁.mem pos
  after-before =
      let magic : magic_of k₁.mem (pos - 8) ≡ magic_of k.mem (pos - 8) =
        load32_ext k₁.mem k.mem (pos - 8) λ b low high. outside b (omega arith) (omega arith) in
      let owner : header_of k₁.mem (pos - 8) ≡ header_of k.mem (pos - 8) =
        load32_ext k₁.mem k.mem (pos - 8 + 4) λ b low high. outside b (omega arith) (omega arith) in
      elim left [
        | inl nothing ↦ inl (λ e. nothing (sym magic ∙ e))
        | inr (block, low, high) ↦
            let hole : is_hole_of k₁.mem (header_of k.mem (pos - 8))
                ≡ is_hole_of k.mem (header_of k.mem (pos - 8)) =
              outside (header_of k.mem (pos - 8) + 4) (omega arith) (omega arith) in
            inr (
              (λ e. block (sym hole ∙ ap (is_hole_of k₁.mem) (sym owner) ∙ e)),
              λ e. absurd (omega (arith, owner)),
            )
      ]

  after-IsBeforeHole : IsBeforeHole k₁ pos (size + 20) rest_pos rest_size number
  after-IsBeforeHole =
      let total : pos + size + 20 + (hole_size - size - 20) ≡ pos + hole_size =
        omega (arith, split.large) in
      record {
        neighbours = record {
          left_header = after.block;
          left_footer =
              subst (λ f. FooterAt k₁.mem f pos) {x = pos + 12 + size} {y = pos + size + 20 - 8}
                (omega arith) after.block_end;
          right_header = after.rest;
          adjacent = omega arith;
          left_fits = omega arith;
          right_fits = omega (arith, split.large);
          in_memory = omega (arith, total, inside, split.in_memory);
        };
        footer =
            subst (λ f. FooterAt k₁.mem f rest_pos) {x = pos + hole_size - 8}
              {y = rest_pos + rest_size - 8} (omega (arith, total)) after.rest_end;
        left = after-before;
        within = number-lt;
        found = found;
        behind_index = omega (arith, same_array, same_size, behind_index);
        in_heap = omega (arith, same_end, total, inside);
        in_memory = omega (arith, same_end, split.in_memory);
        bytes = after.bytes;
      }

  freed-Undone :
      (k₂ : Kernel)
      → FreedRight k₁ pos (size + 20) rest_pos rest_size number k₂
      → Undone k i size pos hole_size k₂
  freed-Undone k₂ freed =
      let total : size + 20 + rest_size ≡ hole_size = omega (arith, split.large) in
      record {
        hole = subst (HeaderAt k₂.mem pos 1) total freed.hole;
        stale_footer =
            subst (λ f. FooterAt k₂.mem f rest_pos) {x = rest_pos + rest_size - 8}
              {y = pos + hole_size - 8} (omega (arith, total)) freed.stale_footer;
        joined = freed.joined;
        joined_size = freed.joined_size ∙ total;
        index =
            freed.index
            ∙ ap
                (λ (o : LessThan).
                  insert_before (o freed.joined) pos
                    (erase_at number (contents k₁.heap.index k₁.mem)))
                same_order
            ∙ ap (insert_before (k.heap.index.less_than freed.joined) pos) undone_lists;
        others = λ b apart away. (
          freed.others b (omega (arith, split.large)) (omega (arith, same_array, same_size))
              ∙ after.others b apart away,
          freed.joined_others b (omega (arith, split.large)) (omega (arith, same_array, same_size))
              ∙ after.others b apart away,
        );
      }

-- For a request without alignment that the first large enough hole serves with 20 bytes or more to spare,
-- in a state as in `CanUndo` (an index of fewer than `2 ^ 32 - 1` holes; the hole behind the index, not
-- at the end of the heap, with no other hole in front of it; no item of the index inside the hole
-- where the rest begins): `alloc` returns a block, and `free` of it returns. The hole is there again
-- with its size, and in the index in its place by size; no byte outside the hole and the index differs
-- from before. But the hole's footer points to where the rest began.
pub free-alloc :
    (kmalloc_ap : KmallocAp) (fuel i size pos hole_size : ℕ) (k : Kernel)
    → k.heap.index.size < minus_one
    → find_smallest_hole (size + 20) 0 k.heap k.mem ≡ i
    → CanUndo k i size pos hole_size
    → (p : ℕ) × (k₁ : Kernel) × (k₂ : Kernel) × (alloc kmalloc_ap (suc fuel) size 0 k ≡ ok p k₁)
      × (free kmalloc_ap p k₁ ≡ ok tt k₂)
      × Undone k i size pos hole_size k₂
free-alloc kmalloc_ap fuel i size pos hole_size k small found can =
    let (k₁, e, after) = alloc-Split kmalloc_ap fuel i size pos hole_size k small found can.split in
    let (k₂, e', freed) =
      free-FreedRight kmalloc_ap k₁ pos (size + 20) (pos + size + 20) (hole_size - size - 20)
        (number k i size pos hole_size can k₁ after)
        (after-IsBeforeHole k i size pos hole_size can k₁ after) in
    (pos + 12, k₁, k₂, e, e', freed-Undone k i size pos hole_size can k₁ after k₂ freed)
