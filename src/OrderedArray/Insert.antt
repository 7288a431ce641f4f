-- ===== src/OrderedArray/Insert.antt =====
-- kernel/mm/ordered_array.c: `insert_ordered_array` against insertion into a list.
use pyramid_kernel.Prelude.{
  ℕ, zero, suc, ◌+◌, ◌-◌, ◌^◌, ◌≤◌, ◌<◌, ◌≡◌, refl, ap, ap₂, ◌∙◌, ◌⊎◌, inl, inr, List, [], ◌∷◌,
  arith, ◌==◌, if◌then◌else◌, Bool-cases, ==_iff, true, false, add32,
}
use pyramid_kernel.Memory.{
  Memory, IsBytes, load32, store32, load32_ext, store32_outside, store32-IsBytes, load32-lt,
  load32-store32_self,
}
use pyramid_kernel.OrderedArray.{
  OrderedArray, item_at, find_position, shift_up, place_item, insert_ordered_array,
}
use pyramid_kernel.OrderedArray.Cells.{cells, contents, cells-store32}

-- The specification: `x` in front of the first item that is not less than it.
unfoldable pub insert_before : (ℕ → ℕ → ℕ) → ℕ → List ℕ → List ℕ
insert_before less_than x [] = x ∷ []
insert_before less_than x (y ∷ ys) =
    if less_than y x == 0 then x ∷ y ∷ ys else y ∷ insert_before less_than x ys

shift_up_outside :
    (array left i tmp b : ℕ) (m : Memory)
    → (b < item_at array (i + 1)) ⊎ (item_at array (i + 1 + left) ≤ b)
    → shift_up array left i tmp m b ≡ m b
unfolding shift_up
shift_up_outside array zero i tmp b m apart = refl
shift_up_outside array (suc left) i tmp b m apart =
    shift_up_outside array left (i + 1) (load32 m (item_at array (i + 1))) b
      (store32 m (item_at array (i + 1)) tmp) (omega arith)
    ∙ store32_outside m (item_at array (i + 1)) tmp b (omega arith)

shift_up-cells :
    (array left i tmp : ℕ) (m : Memory)
    → IsBytes m
    → tmp < 2 ^ 32
    → cells (shift_up array (suc left) i tmp m) array (i + 1) (suc left)
      ≡ tmp ∷ cells m array (i + 1) left
unfolding shift_up
shift_up-cells array zero i tmp m bytes fits =
    ap (λ x. x ∷ []) (load32-store32_self m (item_at array (i + 1)) tmp fits)
shift_up-cells array (suc left) i tmp m bytes fits =
    let next = load32 m (item_at array (i + 1)) in
    let m' = store32 m (item_at array (i + 1)) tmp in
    ap₂ ◌∷◌
      (load32_ext (shift_up array (suc left) (i + 1) next m') m' (item_at array (i + 1))
          (λ b low high. shift_up_outside array (suc left) (i + 1) next b m' (omega arith))
        ∙ load32-store32_self m (item_at array (i + 1)) tmp fits)
      (shift_up-cells array left (i + 1) next m'
          (store32-IsBytes m (item_at array (i + 1)) tmp bytes)
          (load32-lt m (item_at array (i + 1)) bytes)
        ∙ ap (λ xs. next ∷ xs)
            (cells-store32 m array (i + 1 + 1) left (item_at array (i + 1)) tmp (omega arith)))

module _ (array size item i : ℕ) (m : Memory) where
  place_item_last : i ≡ size → place_item array size item i m ≡ store32 m (item_at array i) item
  unfolding place_item
  place_item_last last = rw ((==_iff i size).1 last, ← last)

  place_item_inner :
      (left : ℕ)
      → i + suc left ≡ size
      → place_item array size item i m
        ≡ shift_up array
            (suc left)
            i
            (load32 m (item_at array i))
            (store32 m (item_at array i) item)
  unfolding place_item
  place_item_inner left e =
      let inner : (i == size) ≡ false = ground arith in
      let rounds : size - i ≡ suc left = omega arith in rw (inner, rounds)

find_position_end :
    (less_than : ℕ → ℕ → ℕ) (m : Memory) (array item i : ℕ)
    → find_position less_than m array item 0 i ≡ i
unfolding find_position
find_position_end less_than m array item i = refl

module _ (less_than : ℕ → ℕ → ℕ) (m : Memory) (array item left i : ℕ) where
  find_position_here :
      (less_than (load32 m (item_at array i)) item == 0) ≡ true
      → find_position less_than m array item (suc left) i ≡ i
  unfolding find_position
  find_position_here here = rw here

  find_position_further :
      (less_than (load32 m (item_at array i)) item == 0) ≡ false
      → find_position less_than m array item (suc left) i
        ≡ find_position less_than m array item left (i + 1)
  unfolding find_position
  find_position_further further = rw further

-- The position lies between the start and the end.
pub find_position_bounds :
    (less_than : ℕ → ℕ → ℕ) (m : Memory) (array item left i : ℕ)
    → let j = find_position less_than m array item left i in (i ≤ j) × (j ≤ i + left)
unfolding find_position
find_position_bounds less_than m array item zero i = omega arith
find_position_bounds less_than m array item (suc left) i =
    ground (arith, find_position_bounds less_than m array item left (i + 1))

-- Nothing below the position is written.
place_item_below :
    (array size item i b : ℕ) (m : Memory)
    → i ≤ size
    → b < item_at array i
    → place_item array size item i m b ≡ m b
unfolding place_item
place_item_below array size item i b m within below = elim (Bool-cases (i == size)) [
  | inl last ↦ rw last (store32_outside m (item_at array size) item b (omega arith))
  | inr inner ↦ rw inner (
      shift_up_outside array (size - i) i (load32 m (item_at array i)) b
        (store32 m (item_at array i) item) (omega arith)
      ∙ store32_outside m (item_at array i) item b (omega arith))
]

shift_up_stored :
    (array left item i : ℕ) (m : Memory)
    → IsBytes m
    → item < 2 ^ 32
    → let m' =
        shift_up array
          (suc left)
          i
          (load32 m (item_at array i))
          (store32 m (item_at array i) item) in
      cells m' array i (suc (suc left)) ≡ item ∷ cells m array i (suc left)
shift_up_stored array left item i m bytes fits =
    let tmp = load32 m (item_at array i) in
    let m₁ = store32 m (item_at array i) item in
    let bytes₁ = store32-IsBytes m (item_at array i) item bytes in
    ap₂ ◌∷◌
      (load32_ext (shift_up array (suc left) i tmp m₁) m₁ (item_at array i)
          (λ b low high. shift_up_outside array (suc left) i tmp b m₁ (omega arith))
        ∙ load32-store32_self m (item_at array i) item fits)
      (shift_up-cells array left i tmp m₁ bytes₁ (load32-lt m (item_at array i) bytes)
        ∙ ap (λ xs. tmp ∷ xs)
            (cells-store32 m array (i + 1) left (item_at array i) item (omega arith)))

-- Put at `i`, the item pushes the rest up by one.
place_item-cells :
    (array size item i left : ℕ) (m : Memory)
    → i + left ≡ size
    → IsBytes m
    → item < 2 ^ 32
    → cells (place_item array size item i m) array i (suc left) ≡ item ∷ cells m array i left
place_item-cells array size item i zero m e bytes fits =
    ap (λ m'. cells m' array i 1) (place_item_last array size item i m (omega arith))
    ∙ ap (λ x. x ∷ []) (load32-store32_self m (item_at array i) item fits)
place_item-cells array size item i (suc left) m e bytes fits =
    ap (λ m'. cells m' array i (suc (suc left))) (place_item_inner array size item i m left e)
    ∙ shift_up_stored array left item i m bytes fits

insert-cells :
    (less_than : ℕ → ℕ → ℕ) (array size item left i : ℕ) (m : Memory)
    → i + left ≡ size
    → IsBytes m
    → item < 2 ^ 32
    → cells
        (place_item array size item (find_position less_than m array item left i) m)
        array
        i
        (suc left)
      ≡ insert_before less_than item (cells m array i left)
unfolding insert_before
insert-cells less_than array size item zero i m e bytes fits =
    ap (λ j. cells (place_item array size item j m) array i 1)
      (find_position_end less_than m array item i)
    ∙ place_item-cells array size item i zero m e bytes fits
insert-cells less_than array size item (suc left) i m e bytes fits =
    elim (Bool-cases (less_than (load32 m (item_at array i)) item == 0)) [
      | inl here ↦
          ap (λ j. cells (place_item array size item j m) array i (suc (suc left)))
            (find_position_here less_than m array item left i here)
          ∙ place_item-cells array size item i (suc left) m e bytes fits
          ∙ rw here
      | inr further ↦
          let j = find_position less_than m array item left (i + 1) in
          let range : (i + 1 ≤ j) × (j ≤ i + 1 + left) =
            find_position_bounds less_than m array item left (i + 1) in
          ap (λ k. cells (place_item array size item k m) array i (suc (suc left)))
            (find_position_further less_than m array item left i further)
          ∙ ap₂ ◌∷◌
              (load32_ext (place_item array size item j m) m (item_at array i)
                (λ b low high. place_item_below array size item j b m (omega arith) (omega arith)))
              (insert-cells less_than array size item left (i + 1) m (omega arith) bytes fits)
          ∙ rw further
    ]

place_item_outside :
    (array size item i b : ℕ) (m : Memory)
    → i ≤ size
    → item_at array (size + 1) ≤ b
    → place_item array size item i m b ≡ m b
unfolding place_item
place_item_outside array size item i b m within above = elim (Bool-cases (i == size)) [
  | inl last ↦ rw last (store32_outside m (item_at array size) item b (omega arith))
  | inr inner ↦ rw inner (
      shift_up_outside array (size - i) i (load32 m (item_at array i)) b
        (store32 m (item_at array i) item) (omega arith)
      ∙ store32_outside m (item_at array i) item b (omega arith))
]

-- In a memory of bytes, for a 32-bit item, and if `size + 1` does not wrap, `insert_ordered_array`
-- puts the item in front of the first item that is not less than it and keeps the others in order.
-- It writes no byte outside the items `array[0], …, array[size]`, the last of which lies past the
-- items that were there.
pub insert_ordered_array-contents :
    (item : ℕ) (a : OrderedArray) (m : Memory)
    → a.size + 1 < 2 ^ 32
    → item < 2 ^ 32
    → IsBytes m
    → let (a', m') = insert_ordered_array item a m in
      (contents a' m' ≡ insert_before (a.less_than m) item (contents a m))
      × ((b : ℕ) → (b < a.array) ⊎ (item_at a.array (a.size + 1) ≤ b) → m' b ≡ m b)
unfolding insert_ordered_array
insert_ordered_array-contents item a m small fits bytes =
    let j = find_position (a.less_than m) m a.array item a.size 0 in
    let range : (0 ≤ j) × (j ≤ 0 + a.size) =
      find_position_bounds (a.less_than m) m a.array item a.size 0 in
    let grown : add32 a.size 1 ≡ suc a.size = omega arith in
    let m' = place_item a.array a.size item j m in
    (
      ap (λ n. cells m' a.array 0 n) grown
          ∙ insert-cells (a.less_than m) a.array a.size item a.size 0 m (omega arith) bytes fits,
      λ b apart. elim apart [
        | inl low ↦ place_item_below a.array a.size item j b m (omega arith) (omega arith)
        | inr high ↦ place_item_outside a.array a.size item j b m (omega arith) high
      ],
    )
