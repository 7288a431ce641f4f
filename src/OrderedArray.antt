-- ===== src/OrderedArray.antt =====
-- kernel/mm/ordered_array.c: an array of 32-bit items in memory that insertion keeps sorted.
-- A function that updates `*array` returns the new record, beside the new memory.
pub mod Cells
pub mod Insert
pub mod Remove
pub mod Undo
pub mod Count
pub mod Sorted
use pyramid_kernel.Prelude.{
  ℕ, zero, suc, ◌+◌, ◌-◌, ◌*◌, ◌==◌, if◌then◌else◌, ltb, add32, sub32, mul32,
}
use pyramid_kernel.Memory.{Memory, load32, store32}
use pyramid_kernel.Memory.Bytes.{memset}

-- `lessthan_predicate_t`: a predicate over items. It may read the memory that items point to, and
-- answers 0 or not.
abbrev pub LessThan : Type 0
LessThan = Memory → ℕ → ℕ → ℕ

-- `ordered_array_t`. `array` is the address of the first item.
pub record OrderedArray : Type 0 where
  pub array : ℕ
  pub size : ℕ
  pub max_size : ℕ
  pub less_than : LessThan

-- The address of `array[i]`.
abbrev pub item_at : ℕ → ℕ → ℕ
item_at array i = array + 4 * i

unfoldable pub standard_lessthan_predicate : LessThan
standard_lessthan_predicate m a b = if ltb a b then 1 else 0

-- `create_ordered_array` is the same over an address that `kmalloc` returns.
unfoldable pub place_ordered_array : ℕ → ℕ → LessThan → Memory → OrderedArray × Memory
place_ordered_array addr max_size less_than m = (
  record { array = addr; size = 0; max_size = max_size; less_than = less_than },
  memset m addr 0 (mul32 max_size 4),
)

-- `while (iterator < size && less_than(array[iterator], item)) iterator++`, with `left` items to go.
unfoldable pub find_position : (ℕ → ℕ → ℕ) → Memory → ℕ → ℕ → (left iterator : ℕ) → ℕ
find_position less_than m array item zero i = i
find_position less_than m array item (suc left) i =
    if less_than (load32 m (item_at array i)) item == 0
    then i
    else find_position less_than m array item left (i + 1)

-- The loop that moves the items from `iterator` on up by one; `tmp` is the item in hand.
unfoldable pub shift_up : ℕ → (left iterator tmp : ℕ) → Memory → Memory
shift_up array zero i tmp m = m
shift_up array (suc left) i tmp m =
    shift_up array left (i + 1) (load32 m (item_at array (i + 1)))
      (store32 m (item_at array (i + 1)) tmp)

-- What `insert_ordered_array` writes, once the position is known.
unfoldable pub place_item : ℕ → (size item iterator : ℕ) → Memory → Memory
unfolding shift_up
place_item array size item i m =
    if i == size
    then store32 m (item_at array size) item
    else shift_up array (size - i) i (load32 m (item_at array i)) (store32 m (item_at array i) item)

unfoldable pub insert_ordered_array : ℕ → OrderedArray → Memory → OrderedArray × Memory
unfolding find_position place_item
insert_ordered_array item a m =
    let i = find_position (a.less_than m) m a.array item a.size 0 in
    (record a { size = add32 a.size 1 }, place_item a.array a.size item i m)

unfoldable pub lookup_ordered_array : ℕ → OrderedArray → Memory → ℕ
lookup_ordered_array i a m = load32 m (item_at a.array i)

-- `while (i < size) { array[i] = array[i+1]; i++; }`.
unfoldable pub shift_down : ℕ → (left i : ℕ) → Memory → Memory
shift_down array zero i m = m
shift_down array (suc left) i m =
    shift_down array left (i + 1) (store32 m (item_at array i) (load32 m (item_at array (i + 1))))

-- `size--` wraps at 0.
unfoldable pub remove_ordered_array : ℕ → OrderedArray → Memory → OrderedArray × Memory
unfolding shift_down
remove_ordered_array i a m =
    (record a { size = sub32 a.size 1 }, shift_down a.array (a.size - i) i m)
