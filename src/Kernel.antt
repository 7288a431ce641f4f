-- ===== src/Kernel.antt =====
-- The kernel's memory-management state: the globals of kernel/mm/paging.c and kernel/mm/kheap.c over
-- one memory, and commands on it. A command ends in a value, or it does not return: `panicked` is
-- the endless loop of `PANIC`, `fault` an access to a heap through `kheap` before there is one, and
-- `out_of_fuel` a chain of calls longer than the model follows.
use pyramid_kernel.Prelude.{ℕ}
use pyramid_kernel.Memory.{Memory, load32, store32}
use pyramid_kernel.OrderedArray.{OrderedArray}

-- `heap_t`. The one heap of the kernel is `*kheap`, which `alloc`, `free` and what they call take as
-- `heap`; its fields stand here and not in `mem`, so no write to memory changes them: the model does not
-- see a `heap_t` that the index or the blocks overlap. (`init_paging` puts it at `placement_address`, and
-- the heap at `KHEAP_START`.)
pub record Heap : Type 0 where
  pub index : OrderedArray
  pub start_address : ℕ
  pub end_address : ℕ
  pub max_address : ℕ
  pub supervisor : ℕ
  pub readonly : ℕ

pub record Kernel : Type 0 where
  pub mem : Memory
  pub placement_address : ℕ
  -- the pointer: 0 until the heap is set up
  pub kheap : ℕ
  -- what it points to
  pub heap : Heap
  pub kernel_directory : ℕ
  pub current_directory : ℕ
  pub frame_allocations : ℕ
  pub num_of_frames : ℕ

pub data Run (A : Type 0) : Type 0 where
  ok : A → Kernel → Run A
  panicked fault out_of_fuel : Run A

abbrev pub Cmd : Type 0 → Type 0
Cmd A = Kernel → Run A

abbrev pub pure : {A : Type 0} → A → Cmd A
pure = ok

abbrev pub and_then : {A B : Type 0} → Run A → (A → Cmd B) → Run B
and_then (ok a k) f = f a k
and_then panicked f = panicked
and_then fault f = fault
and_then out_of_fuel f = out_of_fuel

infixl 5 ◌>>=◌ ◌>>◌
abbrev pub ◌>>=◌ : {A B : Type 0} → Cmd A → (A → Cmd B) → Cmd B
c >>= f = λ k. and_then (c k) f

abbrev pub ◌>>◌ : {B : Type 0} → Cmd (Unit {0}) → Cmd B → Cmd B
c >> d = c >>= λ _. d

-- The whole state, to read globals from.
abbrev pub get : Cmd Kernel
get k = ok k k

abbrev pub put : Kernel → Cmd (Unit {0})
put k _ = ok tt k

-- `*(uint32_t *)p` and its assignment. They succeed for the null pointer too, since the first page is
-- mapped as the others are.
unfoldable pub read : ℕ → Cmd ℕ
read p k = ok (load32 k.mem p) k

unfoldable pub write : ℕ → ℕ → Cmd (Unit {0})
write p v k = ok tt (record k { mem = store32 k.mem p v })

-- The same at known places, such as the elements of an array that a global points to.
abbrev pub peek : ℕ → Cmd ℕ
peek p k = ok (load32 k.mem p) k

abbrev pub poke : ℕ → ℕ → Cmd (Unit {0})
poke p v k = ok tt (record k { mem = store32 k.mem p v })
