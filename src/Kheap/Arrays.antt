-- ===== src/Kheap/Arrays.antt =====
-- kernel/mm/ordered_array.c: arrays in memory from `kmalloc`.
use pyramid_kernel.Prelude.{ℕ, mul32}
use pyramid_kernel.OrderedArray.{OrderedArray, LessThan, place_ordered_array}
use pyramid_kernel.Kernel.{Cmd, pure, ◌>>=◌, ◌>>◌, get, put}
use pyramid_kernel.Kheap.Kmalloc.{kmalloc, kfree}

unfoldable pub create_ordered_array : (fuel max_size : ℕ) → LessThan → Cmd OrderedArray
create_ordered_array fuel max_size less_than = do
  addr ← kmalloc fuel (mul32 max_size 4)
  k ← get
  let (to_ret, m) = place_ordered_array addr max_size less_than k.mem
  put (record k { mem = m })
  pure to_ret

unfoldable pub destroy_ordered_array : (fuel : ℕ) → OrderedArray → Cmd (Unit {0})
destroy_ordered_array fuel array = kfree fuel array.array
