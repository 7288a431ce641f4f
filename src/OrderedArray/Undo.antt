-- ===== src/OrderedArray/Undo.antt =====
-- kernel/mm/ordered_array.c: a removal of the item that was just inserted.
use pyramid_kernel.Prelude.{
  ℕ, zero, suc, refl, ◌+◌, ◌-◌, ◌≤◌, ◌≡◌, ◌≢◌, arith, ap, List, [], ◌∷◌, length, ◌==◌,
  if◌then◌else◌, Bool-cases, inl, inr, true, false,
}
use pyramid_kernel.Memory.{Memory, IsBytes, load32, store32, store32-IsBytes}
use pyramid_kernel.OrderedArray.{
  OrderedArray, item_at, shift_up, place_item, find_position, insert_ordered_array,
}
use pyramid_kernel.OrderedArray.Insert.{insert_before}
use pyramid_kernel.OrderedArray.Remove.{erase_at}

-- The number of the first item that is `x`, or the length.
unfoldable pub index_of : ℕ → List ℕ → ℕ
index_of x [] = 0
index_of x (y ∷ ys) = if y == x then 0 else suc (index_of x ys)

-- `x` is none of the items.
abbrev pub IsNoneOf : ℕ → List ℕ → Type 0
IsNoneOf x [] = Unit {0}
IsNoneOf x (y ∷ ys) = (y ≢ x) × IsNoneOf x ys

pub length-insert_before :
    (less_than : ℕ → ℕ → ℕ) (x : ℕ) (ys : List ℕ)
    → length (insert_before less_than x ys) ≡ suc (length ys)
unfolding insert_before
length-insert_before less_than x [] = refl
length-insert_before less_than x (y ∷ ys) = elim (Bool-cases (less_than y x == 0)) [
  | inl first ↦ rw first refl
  | inr later ↦ rw later (ap suc (length-insert_before less_than x ys))
]

pub index_of-insert_before :
    (less_than : ℕ → ℕ → ℕ) (x : ℕ) (ys : List ℕ)
    → IsNoneOf x ys
    → (index_of x (insert_before less_than x ys) ≤ length ys)
      × (erase_at (index_of x (insert_before less_than x ys)) (insert_before less_than x ys) ≡ ys)
unfolding index_of insert_before erase_at
index_of-insert_before less_than x [] fresh =
    let here : (x == x) ≡ true = ground arith in rw here (omega arith, refl)
index_of-insert_before less_than x (y ∷ ys) fresh = elim (Bool-cases (less_than y x == 0)) [
  | inl first ↦ let here : (x == x) ≡ true = ground arith in rw (first, here) (omega arith, refl)
  | inr later ↦
      let other : (y == x) ≡ false = ground (arith, fresh.0) in
      let rest = index_of-insert_before less_than x ys fresh.1 in
      rw (later, other) (omega (arith, rest.0), ap (λ zs. y ∷ zs) rest.1)
]

shift_up-IsBytes :
    (array left i tmp : ℕ) (m : Memory) → IsBytes m → IsBytes (shift_up array left i tmp m)
unfolding shift_up
shift_up-IsBytes array zero i tmp m bytes = bytes
shift_up-IsBytes array (suc left) i tmp m bytes =
    shift_up-IsBytes array left (i + 1) (load32 m (item_at array (i + 1)))
      (store32 m (item_at array (i + 1)) tmp) (store32-IsBytes m (item_at array (i + 1)) tmp bytes)

pub insert_ordered_array-IsBytes :
    (item : ℕ) (a : OrderedArray) (m : Memory)
    → IsBytes m
    → IsBytes (insert_ordered_array item a m).1
unfolding insert_ordered_array place_item
insert_ordered_array-IsBytes item a m bytes =
    let i = find_position (a.less_than m) m a.array item a.size 0 in
    elim (Bool-cases (i == a.size)) [
      | inl last ↦ rw last (store32-IsBytes m (item_at a.array a.size) item bytes)
      | inr inner ↦ rw inner (
          shift_up-IsBytes a.array (a.size - i) i (load32 m (item_at a.array i))
            (store32 m (item_at a.array i) item) (store32-IsBytes m (item_at a.array i) item bytes))
    ]
