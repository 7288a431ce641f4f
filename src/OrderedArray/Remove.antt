-- ===== src/OrderedArray/Remove.antt =====
-- kernel/mm/ordered_array.c: `remove_ordered_array` against removal from a list.
use pyramid_kernel.Prelude.{
  ℕ, zero, suc, ◌+◌, ◌-◌, ◌^◌, ◌≤◌, ◌<◌, ◌≡◌, refl, ap, ap₂, ◌∙◌, ◌⊎◌, List, [], ◌∷◌, arith, sub32,
  sym,
}
use pyramid_kernel.Memory.{
  Memory, IsBytes, load32, store32, load32_ext, store32_outside, store32-IsBytes, load32-lt,
  load32-store32_self,
}
use pyramid_kernel.OrderedArray.{OrderedArray, item_at, shift_down, remove_ordered_array}
use pyramid_kernel.OrderedArray.Cells.{cells, contents, cells-store32}

-- The specification: the list without its item `i`.
unfoldable pub erase_at : ℕ → List ℕ → List ℕ
erase_at i [] = []
erase_at zero (x ∷ xs) = xs
erase_at (suc i) (x ∷ xs) = x ∷ erase_at i xs

shift_down_outside :
    (array left i b : ℕ) (m : Memory)
    → (b < item_at array i) ⊎ (item_at array (i + left) ≤ b)
    → shift_down array left i m b ≡ m b
unfolding shift_down
shift_down_outside array zero i b m apart = refl
shift_down_outside array (suc left) i b m apart =
    shift_down_outside array left (i + 1) b
      (store32 m (item_at array i) (load32 m (item_at array (i + 1)))) (omega arith)
    ∙ store32_outside m (item_at array i) (load32 m (item_at array (i + 1))) b (omega arith)

shift_down-IsBytes :
    (array left i : ℕ) (m : Memory) → IsBytes m → IsBytes (shift_down array left i m)
unfolding shift_down
shift_down-IsBytes array zero i m bytes = bytes
shift_down-IsBytes array (suc left) i m bytes =
    shift_down-IsBytes array left (i + 1)
      (store32 m (item_at array i) (load32 m (item_at array (i + 1))))
      (store32-IsBytes m (item_at array i) (load32 m (item_at array (i + 1))) bytes)

-- Each item is overwritten by the one behind it.
shift_down-cells :
    (array left n i : ℕ) (m : Memory)
    → n ≤ left
    → IsBytes m
    → cells (shift_down array left i m) array i n ≡ cells m array (i + 1) n
unfolding shift_down
shift_down-cells array left zero i m within bytes = refl
shift_down-cells array zero (suc n) i m within bytes = absurd (omega arith)
shift_down-cells array (suc left) (suc n) i m within bytes =
    let behind = load32 m (item_at array (i + 1)) in
    let m' = store32 m (item_at array i) behind in
    ap₂ ◌∷◌
      (load32_ext (shift_down array left (i + 1) m') m' (item_at array i)
          (λ b low high. shift_down_outside array left (i + 1) b m' (omega arith))
        ∙ load32-store32_self m (item_at array i) behind
            (load32-lt m (item_at array (i + 1)) bytes))
      (shift_down-cells array left n (i + 1) m' (omega arith)
          (store32-IsBytes m (item_at array i) behind bytes)
        ∙ cells-store32 m array (i + 1 + 1) n (item_at array i) behind (omega arith))

-- With `k` items kept in front of the one at `j`, and `n` items left in all.
remove-cells :
    (array k base left n j : ℕ) (m : Memory)
    → j ≡ base + k
    → n ≡ k + left
    → IsBytes m
    → cells (shift_down array (suc left) j m) array base n ≡ erase_at k (cells m array base (suc n))
unfolding erase_at
remove-cells array zero base left n j m e f bytes =
    ap (λ i. cells (shift_down array (suc left) i m) array base n) {x = j} {y = base} (omega arith)
    ∙ shift_down-cells array (suc left) n base m (omega arith) bytes
remove-cells array (suc k) base left zero j m e f bytes = absurd (omega arith)
remove-cells array (suc k) base left (suc n) j m e f bytes =
    ap₂ ◌∷◌
      (load32_ext (shift_down array (suc left) j m) m (item_at array base)
        (λ b low high. shift_down_outside array (suc left) j b m (omega arith)))
      (remove-cells array k (base + 1) left n j m (omega arith) (omega arith) bytes)

-- In a memory of bytes and at an index in range, `remove_ordered_array` takes that item out and
-- keeps the others in order. It writes no byte outside `array[i], …, array[size-1]`.
pub remove_ordered_array-contents :
    (i : ℕ) (a : OrderedArray) (m : Memory)
    → i < a.size
    → a.size < 2 ^ 32
    → IsBytes m
    → let (a', m') = remove_ordered_array i a m in
      (contents a' m' ≡ erase_at i (contents a m))
      × ((b : ℕ) → (b < item_at a.array i) ⊎ (item_at a.array a.size ≤ b) → m' b ≡ m b)
unfolding remove_ordered_array
remove_ordered_array-contents i a m within small bytes =
    let left : ℕ = a.size - i - 1 in
    let n : ℕ = a.size - 1 in
    let rounds : a.size - i ≡ suc left = omega arith in
    let shrunk : sub32 a.size 1 ≡ n = omega arith in
    let all : a.size ≡ suc n = omega arith in
    (
      ap₂ (λ l k. cells (shift_down a.array l i m) a.array 0 k) rounds shrunk
          ∙ remove-cells a.array i 0 left n i m (omega arith) (omega arith) bytes
          ∙ ap (λ k. erase_at i (cells m a.array 0 k)) (sym all),
      λ b apart. shift_down_outside a.array (a.size - i) i b m (omega arith),
    )

-- Past the end `remove_ordered_array` still drops the last item: only `size` changes. On an empty
-- array `size` wraps to `2 ^ 32 - 1`.
pub remove_ordered_array_past_end :
    (i : ℕ) (a : OrderedArray) (m : Memory)
    → a.size ≤ i
    → remove_ordered_array i a m ≡ (record a { size = sub32 a.size 1 }, m)
unfolding remove_ordered_array
remove_ordered_array_past_end i a m past =
    let rounds : a.size - i ≡ 0 = omega arith in
    ap (λ l. (record a { size = sub32 a.size 1 }, shift_down a.array l i m)) rounds

pub remove_ordered_array-IsBytes :
    (i : ℕ) (a : OrderedArray) (m : Memory) → IsBytes m → IsBytes (remove_ordered_array i a m).1
unfolding remove_ordered_array
remove_ordered_array-IsBytes i a m bytes = shift_down-IsBytes a.array (a.size - i) i m bytes
