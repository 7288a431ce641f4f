-- ===== src/OrderedArray/Count.antt =====
-- kernel/mm/ordered_array.c: how often an item occurs, whatever the order.
use pyramid_kernel.Prelude.{
  ℕ, zero, suc, refl, ◌+◌, ◌<◌, ◌≡◌, arith, ◌∙◌, sym, ap, List, [], ◌∷◌, length, get_or, ◌==◌,
  if◌then◌else◌, Bool-cases, inl, inr,
}
use pyramid_kernel.Memory.{Memory, load32}
use pyramid_kernel.OrderedArray.{OrderedArray, item_at, lookup_ordered_array}
use pyramid_kernel.OrderedArray.Cells.{cells, contents, length-cells}
use pyramid_kernel.OrderedArray.Insert.{insert_before}
use pyramid_kernel.OrderedArray.Remove.{erase_at}

unfoldable pub count : ℕ → List ℕ → ℕ
count x [] = 0
count x (y ∷ ys) = (if y == x then 1 else 0) + count x ys

pub count-insert_before :
    (less_than : ℕ → ℕ → ℕ) (x item : ℕ) (ys : List ℕ)
    → count x (insert_before less_than item ys) ≡ (if item == x then 1 else 0) + count x ys
unfolding count insert_before
count-insert_before less_than x item [] = refl
count-insert_before less_than x item (y ∷ ys) = elim (Bool-cases (less_than y item == 0)) [
  | inl first ↦ rw first refl
  | inr later ↦ rw later (omega (arith, count-insert_before less_than x item ys))
]

pub count-erase_at :
    (x i : ℕ) (ys : List ℕ)
    → i < length ys
    → count x (erase_at i ys) + (if get_or ys i 0 == x then 1 else 0) ≡ count x ys
unfolding count erase_at
count-erase_at x i [] within = absurd (omega arith)
count-erase_at x zero (y ∷ ys) within = omega arith
count-erase_at x (suc i) (y ∷ ys) within = omega (arith, count-erase_at x i ys (omega arith))

get_or-cells :
    (m : Memory) (array start n i : ℕ)
    → i < n
    → get_or (cells m array start n) i 0 ≡ load32 m (item_at array (start + i))
get_or-cells m array start zero i within = absurd (omega arith)
get_or-cells m array start (suc n) zero within = ap (λ j. load32 m (item_at array j)) (omega arith)
get_or-cells m array start (suc n) (suc i) within =
    get_or-cells m array (start + 1) n i (omega arith)
    ∙ ap (λ j. load32 m (item_at array j)) (omega arith)

-- The item that is looked up is taken out of the index once.
pub count-erase_contents :
    (x i : ℕ) (a : OrderedArray) (m : Memory)
    → i < a.size
    → count x (erase_at i (contents a m)) + (if lookup_ordered_array i a m == x then 1 else 0)
      ≡ count x (contents a m)
unfolding lookup_ordered_array
count-erase_contents x i a m within =
    let item : get_or (contents a m) i 0 ≡ load32 m (item_at a.array i) =
      get_or-cells m a.array 0 a.size i within
      ∙ ap (λ j. load32 m (item_at a.array j)) (omega arith) in
    let counted =
      count-erase_at x i (contents a m) (omega (arith, length-cells m a.array 0 a.size)) in
    ap (λ y. count x (erase_at i (contents a m)) + (if y == x then 1 else 0)) (sym item) ∙ counted

pub count-lookup :
    (i : ℕ) (a : OrderedArray) (m : Memory)
    → i < a.size
    → 0 < count (lookup_ordered_array i a m) (contents a m)
count-lookup i a m within =
    let item = lookup_ordered_array i a m in ground (arith, count-erase_contents item i a m within)
