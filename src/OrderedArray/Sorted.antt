-- ===== src/OrderedArray/Sorted.antt =====
-- kernel/mm/ordered_array.h: the order of the items between calls.
use pyramid_kernel.Prelude.{
  ℕ, zero, suc, ◌+◌, ◌^◌, ◌<◌, ◌≡◌, ◌≢◌, inl, inr, List, [], ◌∷◌, arith, ◌==◌, Bool-cases,
}
use pyramid_kernel.Memory.{Memory, IsBytes}
use pyramid_kernel.OrderedArray.{
  OrderedArray, standard_lessthan_predicate, insert_ordered_array, remove_ordered_array,
}
use pyramid_kernel.OrderedArray.Cells.{contents}
use pyramid_kernel.OrderedArray.Insert.{insert_before, insert_ordered_array-contents}
use pyramid_kernel.OrderedArray.Remove.{erase_at, remove_ordered_array-contents}

-- What a predicate has to satisfy for sorting to make sense: a strict weak order.
pub record IsStrictWeakOrder (less_than : ℕ → ℕ → ℕ) : Type 0 where
  pub asymmetric : (x y : ℕ) → less_than x y ≢ 0 → less_than y x ≡ 0
  pub negatively_transitive :
      (x y z : ℕ) → less_than x y ≡ 0 → less_than y z ≡ 0 → less_than x z ≡ 0

abbrev pub NoneLess : (ℕ → ℕ → ℕ) → ℕ → List ℕ → Type 0
NoneLess less_than x [] = Unit
NoneLess less_than x (y ∷ ys) = (less_than y x ≡ 0) × NoneLess less_than x ys

-- No item is less than one in front of it.
abbrev pub IsSorted : (ℕ → ℕ → ℕ) → List ℕ → Type 0
IsSorted less_than [] = Unit
IsSorted less_than (x ∷ xs) = NoneLess less_than x xs × IsSorted less_than xs

module _ {less_than : ℕ → ℕ → ℕ} (order : IsStrictWeakOrder less_than) where
  NoneLess-trans :
      (x y : ℕ) (xs : List ℕ)
      → less_than y x ≡ 0
      → NoneLess less_than y xs
      → NoneLess less_than x xs
  NoneLess-trans x y [] e h = tt
  NoneLess-trans x y (z ∷ zs) e h =
      (order.negatively_transitive z y x h.0 e, NoneLess-trans x y zs e h.1)

  NoneLess-insert_before :
      (x y : ℕ) (xs : List ℕ)
      → less_than x y ≡ 0
      → NoneLess less_than y xs
      → NoneLess less_than y (insert_before less_than x xs)
  unfolding insert_before
  NoneLess-insert_before x y [] e h = (e, tt)
  NoneLess-insert_before x y (z ∷ zs) e h = elim (Bool-cases (less_than z x == 0)) [
    | inl here ↦ rw here (e, h)
    | inr further ↦ rw further (h.0, NoneLess-insert_before x y zs e h.1)
  ]

  insert_before-IsSorted :
      (x : ℕ) (xs : List ℕ)
      → IsSorted less_than xs
      → IsSorted less_than (insert_before less_than x xs)
  unfolding insert_before
  insert_before-IsSorted x [] h = (tt, tt)
  insert_before-IsSorted x (y ∷ ys) h = elim (Bool-cases (less_than y x == 0)) [
    | inl here ↦
        let e : less_than y x ≡ 0 = ground arith in rw here ((e, NoneLess-trans x y ys e h.0), h)
    | inr further ↦
        let e : less_than x y ≡ 0 = order.asymmetric y x (ground arith) in
        rw further (NoneLess-insert_before x y ys e h.0, insert_before-IsSorted x ys h.1)
  ]

NoneLess-erase_at :
    (less_than : ℕ → ℕ → ℕ) (x i : ℕ) (xs : List ℕ)
    → NoneLess less_than x xs
    → NoneLess less_than x (erase_at i xs)
unfolding erase_at
NoneLess-erase_at less_than x i [] h = tt
NoneLess-erase_at less_than x zero (y ∷ ys) h = h.1
NoneLess-erase_at less_than x (suc i) (y ∷ ys) h = (h.0, NoneLess-erase_at less_than x i ys h.1)

erase_at-IsSorted :
    (less_than : ℕ → ℕ → ℕ) (i : ℕ) (xs : List ℕ)
    → IsSorted less_than xs
    → IsSorted less_than (erase_at i xs)
unfolding erase_at
erase_at-IsSorted less_than i [] h = tt
erase_at-IsSorted less_than zero (x ∷ xs) h = h.1
erase_at-IsSorted less_than (suc i) (x ∷ xs) h =
    (NoneLess-erase_at less_than x i xs h.0, erase_at-IsSorted less_than i xs h.1)

-- In a memory of bytes, under a predicate that is a strict weak order there, and with room in
-- `size`, `insert_ordered_array` of a 32-bit item keeps the items sorted by the predicate.
pub insert_ordered_array-IsSorted :
    (item : ℕ) (a : OrderedArray) (m : Memory)
    → IsStrictWeakOrder (a.less_than m)
    → a.size + 1 < 2 ^ 32
    → item < 2 ^ 32
    → IsBytes m
    → IsSorted (a.less_than m) (contents a m)
    → let (a', m') = insert_ordered_array item a m in IsSorted (a.less_than m) (contents a' m')
insert_ordered_array-IsSorted item a m order small fits bytes sorted =
    rw (insert_ordered_array-contents item a m small fits bytes).0
      (insert_before-IsSorted order item (contents a m) sorted)

-- In a memory of bytes and at an index in range, `remove_ordered_array` keeps the items sorted, by
-- any predicate.
pub remove_ordered_array-IsSorted :
    (i : ℕ) (a : OrderedArray) (m : Memory)
    → i < a.size
    → a.size < 2 ^ 32
    → IsBytes m
    → IsSorted (a.less_than m) (contents a m)
    → let (a', m') = remove_ordered_array i a m in IsSorted (a.less_than m) (contents a' m')
remove_ordered_array-IsSorted i a m within small bytes sorted =
    rw (remove_ordered_array-contents i a m within small bytes).0
      (erase_at-IsSorted (a.less_than m) i (contents a m) sorted)

-- The predicate that the header offers is such an order.
pub standard_lessthan_predicate-IsStrictWeakOrder :
    (m : Memory) → IsStrictWeakOrder (standard_lessthan_predicate m)
unfolding standard_lessthan_predicate
standard_lessthan_predicate-IsStrictWeakOrder m = record {
  asymmetric = λ x y h. ground arith;
  negatively_transitive = λ x y z h k. ground arith;
}
