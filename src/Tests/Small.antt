-- ===== src/Tests/Small.antt =====
-- A small kernel for the runs of kernel/mm/kheap.c.
use pyramid_kernel.Prelude.{ℕ, arith}
use pyramid_kernel.Memory.{Memory, IsBytes}
use pyramid_kernel.Kernel.{Kernel}
use pyramid_kernel.Kheap.{header_t_less_than}

-- A heap from 100 to 300 with its index of `items` items at 16.
abbrev pub kernel_of : (items : ℕ) → Memory → Kernel
kernel_of items m = record {
  mem = m;
  placement_address = 4096;
  kheap = 8;
  heap = record {
    index = record { array = 16; size = items; max_size = 8; less_than = header_t_less_than };
    start_address = 100;
    end_address = 300;
    max_address = 300;
    supervisor = 0;
    readonly = 0;
  };
  kernel_directory = 0x1_0000;
  current_directory = 0x1_0000;
  frame_allocations = 0;
  num_of_frames = 0;
}

pub zeros-IsBytes : IsBytes (λ _. 0)
zeros-IsBytes b = omega arith
