-- ===== src/Kheap/Search.antt =====
-- kernel/mm/kheap.c: what `find_smallest_hole` finds.
use pyramid_kernel.Prelude.{
  ℕ, zero, suc, ◌+◌, ◌≤◌, ◌<◌, ◌≡◌, ◌⊎◌, inl, inr, arith, true, false, ◌==◌, Bool-cases, minus_one,
  leb, ap, ◌∙◌, refl, Bool,
}
use native.Mathlib.Decide.{ℕ_discrete, dec_lt}
use native.Mathlib.Nat.{le_of_eq}
use pyramid_kernel.Memory.{Memory, load32}
use pyramid_kernel.OrderedArray.{OrderedArray, lookup_ordered_array, item_at}
use pyramid_kernel.OrderedArray.Cells.{cells, contents}
use pyramid_kernel.OrderedArray.Sorted.{NoneLess, IsSorted}
use pyramid_kernel.Kernel.{Heap}
use pyramid_kernel.Kheap.{
  hole_fits, find_hole_from, find_smallest_hole, size_of, header_t_less_than,
}

-- Whether hole number `i` of the index serves.
abbrev pub serves : (size page_align i : ℕ) → OrderedArray → Memory → Bool
serves size page_align i index m = hole_fits size page_align (lookup_ordered_array i index m) m

module _ (size page_align : ℕ) (index : OrderedArray) (m : Memory) where
  -- The loop stops at the first hole that serves, or at the end.
  record Stops (left start j : ℕ) : Type 0 where
    low : start ≤ j
    high : j ≤ start + left
    not_before : (i : ℕ) → start ≤ i → i < j → serves size page_align i index m ≡ false
    at : j < start + left → serves size page_align j index m ≡ true

  find_hole_from-Stops :
      (left start : ℕ) → Stops left start (find_hole_from size page_align index m left start)
  unfolding find_hole_from
  find_hole_from-Stops zero start = record {
    low = omega arith;
    high = omega arith;
    not_before = λ i from to. absurd (omega arith);
    at = λ h. absurd (omega arith);
  }
  find_hole_from-Stops (suc left) start = elim (Bool-cases (serves size page_align start index m)) [
    | inl fits ↦ rw fits (record {
      low = omega arith;
      high = omega arith;
      not_before = λ i from to. absurd (omega arith);
      at = λ h. fits;
    })
    | inr small ↦
        let rest = find_hole_from-Stops left (start + 1) in
        rw small (record {
          low = omega (arith, rest.low);
          high = omega (arith, rest.high);
          not_before = λ i from to. elim (ℕ_discrete i start) [
            | yes e ↦ ap (λ t. serves size page_align t index m) e ∙ small
            | no ne ↦ rest.not_before i (omega arith) to
          ];
          at = λ h. rest.at (omega arith);
        })
  ]

-- Over an index of fewer than `2 ^ 32 - 1` holes, `find_smallest_hole` answers with the first hole
-- that passes the test for `size` bytes (from a page boundary on, if asked), or with `(uint32_t)-1`
-- if no hole does.
pub find_smallest_hole_first :
    (size page_align : ℕ) (heap : Heap) (m : Memory)
    → heap.index.size < minus_one
    → let i = find_smallest_hole size page_align heap m in
      ((i < heap.index.size)
        × (serves size page_align i heap.index m ≡ true)
        × ((j : ℕ) → j < i → serves size page_align j heap.index m ≡ false))
      ⊎ ((i ≡ minus_one)
          × ((j : ℕ) → j < heap.index.size → serves size page_align j heap.index m ≡ false))
unfolding find_smallest_hole
find_smallest_hole_first size page_align heap m small =
    let n = heap.index.size in
    let i = find_hole_from size page_align heap.index m n 0 in
    let stops = find_hole_from-Stops size page_align heap.index m n 0 in
    elim (ℕ_discrete i n) [
      | yes e ↦
          let end : (i == n) ≡ true = ground arith in
          rw end (inr (refl, λ j h. stops.not_before j (omega arith) (omega arith)))
      | no ne ↦
          let end : (i == n) ≡ false = ground arith in
          let high = stops.high in
          rw end
            (inl (omega arith, stops.at (omega arith), λ j h. stops.not_before j (omega arith) h))
    ]

NoneLess-cells :
    (less_than : ℕ → ℕ → ℕ) (x : ℕ) (m : Memory) (array start n j : ℕ)
    → NoneLess less_than x (cells m array start n)
    → start ≤ j
    → j < start + n
    → less_than (load32 m (item_at array j)) x ≡ 0
NoneLess-cells less_than x m array start zero j h low high = absurd (omega arith)
NoneLess-cells less_than x m array start (suc n) j h low high = elim (ℕ_discrete j start) [
  | yes e ↦ ap (λ t. less_than (load32 m (item_at array t)) x) e ∙ h.0
  | no ne ↦ NoneLess-cells less_than x m array (start + 1) n j h.1 (omega arith) (omega arith)
]

IsSorted-cells :
    (less_than : ℕ → ℕ → ℕ) (m : Memory) (array start n i j : ℕ)
    → IsSorted less_than (cells m array start n)
    → start ≤ i
    → i < j
    → j < start + n
    → less_than (load32 m (item_at array j)) (load32 m (item_at array i)) ≡ 0
IsSorted-cells less_than m array start zero i j h low mid high = absurd (omega arith)
IsSorted-cells less_than m array start (suc n) i j h low mid high = elim (ℕ_discrete i start) [
  | yes e ↦
      ap (λ t. less_than (load32 m (item_at array j)) (load32 m (item_at array t))) e
      ∙ NoneLess-cells less_than (load32 m (item_at array start)) m array (start + 1) n j h.0
          (omega arith) (omega arith)
  | no ne ↦ IsSorted-cells less_than m array (start + 1) n i j h.1 (omega arith) mid (omega arith)
]

header_order : (m : Memory) (a b : ℕ) → header_t_less_than m a b ≡ 0 → size_of m b ≤ size_of m a
unfolding header_t_less_than
header_order m a b h = ground arith

serves_by_size :
    (size i : ℕ) (index : OrderedArray) (m : Memory)
    → serves size 0 i index m ≡ leb size (size_of m (lookup_ordered_array i index m))
unfolding hole_fits
serves_by_size size i index m = refl

-- Over an index of fewer than `2 ^ 32 - 1` holes that is sorted by size, and with a hole `j` that
-- is large enough, the search for a request without alignment finds a hole that is large enough and
-- no larger than `j`.
pub find_smallest_hole_smallest :
    (size : ℕ) (heap : Heap) (m : Memory) (j : ℕ)
    → heap.index.size < minus_one
    → IsSorted (header_t_less_than m) (contents heap.index m)
    → j < heap.index.size
    → size ≤ size_of m (lookup_ordered_array j heap.index m)
    → let i = find_smallest_hole size 0 heap m in
      (i < heap.index.size)
      × (size ≤ size_of m (lookup_ordered_array i heap.index m))
      × (size_of m (lookup_ordered_array i heap.index m)
          ≤ size_of m (lookup_ordered_array j heap.index m))
unfolding lookup_ordered_array
find_smallest_hole_smallest size heap m j small sorted within large =
    elim (find_smallest_hole_first size 0 heap m small) [
      | inl found ↦
          let i = find_smallest_hole size 0 heap m in
          let big : size ≤ size_of m (load32 m (item_at heap.index.array i)) =
            ground (arith, serves_by_size size i heap.index m, found) in
          (
            found.0,
            big,
            elim (ℕ_discrete i j) [
              | yes e ↦ le_of_eq (ap (λ t. size_of m (load32 m (item_at heap.index.array t))) e)
              | no ne ↦ elim (dec_lt i j) [
                | yes before ↦
                    header_order m (load32 m (item_at heap.index.array j))
                      (load32 m (item_at heap.index.array i))
                      (IsSorted-cells (header_t_less_than m) m heap.index.array 0 heap.index.size i
                        j sorted (omega arith) before (omega arith))
                | no after ↦
                    absurd
                      (ground (arith, serves_by_size size j heap.index m, found.2 j (omega arith)))
              ]
            ],
          )
      | inr none_left ↦
          absurd (ground (arith, serves_by_size size j heap.index m, none_left.1 j within))
    ]
