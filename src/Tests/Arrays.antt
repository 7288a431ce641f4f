-- ===== src/Tests/Arrays.antt =====
-- kernel/mm/ordered_array.c and the memory functions of kernel/lib/string.c on two items.
use pyramid_kernel.Prelude.{ℕ, ◌≤◌, ◌<◌, ◌≡◌, refl, arith, ◌⊎◌, [], ◌∷◌}
use pyramid_kernel.Memory.{Memory, IsBytes, load32, store32, store32-IsBytes}
use pyramid_kernel.OrderedArray.{
  OrderedArray, item_at, standard_lessthan_predicate, insert_ordered_array, remove_ordered_array,
}
use pyramid_kernel.OrderedArray.Cells.{contents}
use pyramid_kernel.OrderedArray.Insert.{insert_before, insert_ordered_array-contents}
use pyramid_kernel.OrderedArray.Remove.{erase_at, remove_ordered_array-contents}
use pyramid_kernel.OrderedArray.Sorted.{
  IsSorted, insert_ordered_array-IsSorted, standard_lessthan_predicate-IsStrictWeakOrder,
}

-- 3 and 7, from address 16 on.
abbrev board : Memory
board = store32 (store32 (λ _. 0) 16 3) 20 7

abbrev items : OrderedArray
items = record { array = 16; size = 2; max_size = 8; less_than = standard_lessthan_predicate }

board-IsBytes : IsBytes board
board-IsBytes =
    store32-IsBytes (store32 (λ _. 0) 16 3) 20 7 (store32-IsBytes (λ _. 0) 16 3 (λ b. omega arith))

items-IsSorted : IsSorted (standard_lessthan_predicate board) (contents items board)
unfolding load32 store32 standard_lessthan_predicate
items-IsSorted = ((refl, tt), (tt, tt))

insert_run : let (a, m) = insert_ordered_array 5 items board in contents a m ≡ 3 ∷ 5 ∷ 7 ∷ []
unfolding insert_ordered_array load32 store32 standard_lessthan_predicate
insert_run = refl

insert_ordered_array-contents_example :
    let (a', m') = insert_ordered_array 5 items board in
    (contents a' m' ≡ insert_before (standard_lessthan_predicate board) 5 (contents items board))
    × ((b : ℕ) → (b < 16) ⊎ (item_at 16 3 ≤ b) → m' b ≡ board b)
insert_ordered_array-contents_example =
    insert_ordered_array-contents 5 items board (omega arith) (omega arith) board-IsBytes

remove_ordered_array-contents_example :
    let (a', m') = remove_ordered_array 0 items board in
    (contents a' m' ≡ erase_at 0 (contents items board))
    × ((b : ℕ) → (b < item_at 16 0) ⊎ (item_at 16 2 ≤ b) → m' b ≡ board b)
remove_ordered_array-contents_example =
    remove_ordered_array-contents 0 items board (omega arith) (omega arith) board-IsBytes

insert_ordered_array-IsSorted_example :
    let (a', m') = insert_ordered_array 5 items board in
    IsSorted (standard_lessthan_predicate board) (contents a' m')
insert_ordered_array-IsSorted_example =
    insert_ordered_array-IsSorted 5 items board
      (standard_lessthan_predicate-IsStrictWeakOrder board) (omega arith) (omega arith)
      board-IsBytes items-IsSorted
