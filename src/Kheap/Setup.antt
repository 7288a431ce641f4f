-- ===== src/Kheap/Setup.antt =====
-- kernel/mm/kheap.c, `create_heap`, and kernel/mm/paging.c, the steps of `init_paging`. (That
-- function also registers the handler of page faults and turns paging on.)
use pyramid_kernel.Prelude.{ℕ, zero, suc, ◌/◌, if◌then◌else◌, ltb, add32, sub32, mul32}
use pyramid_kernel.Memory.Bytes.{memset}
use pyramid_kernel.OrderedArray.{place_ordered_array}
use pyramid_kernel.Kernel.{out_of_fuel, Cmd, pure, ◌>>=◌, ◌>>◌, get, put}
use pyramid_kernel.Paging.{frame_size, section_size, size_of_physical_memory, alloc_frame, get_page}
use pyramid_kernel.Kheap.{
  heap_index_size, kheap_start, kheap_initial_size, header_t_less_than, write_header,
}
use pyramid_kernel.Kheap.Resize.{round_up}
use pyramid_kernel.Kheap.Alloc.{modify, index_insert}
use pyramid_kernel.Kheap.Kmalloc.{kmalloc, kmalloc_a, kmalloc_ap}

-- `sizeof(heap_t)`: the index of 16 bytes, three addresses, two flags and padding.
abbrev pub sizeof_heap : ℕ
sizeof_heap = 32

-- The result is the pointer; the fields are those of the state's `heap`.
unfoldable pub create_heap : (fuel start end_addr max supervisor readonly : ℕ) → Cmd ℕ
unfolding round_up
create_heap fuel start end_addr max supervisor readonly = do
  heap ← kmalloc fuel sizeof_heap
  k ← get
  let (index, m) = place_ordered_array start heap_index_size header_t_less_than k.mem
  let start' = round_up (add32 start (mul32 4 heap_index_size))
  put (record k {
    mem = m;
    heap = record {
      index = index;
      start_address = start';
      end_address = end_addr;
      max_address = max;
      supervisor = supervisor;
      readonly = readonly;
    };
  })
  modify (write_header start' 1 (sub32 end_addr start'))
  index_insert start'
  pure heap

-- `kmalloc` counts bytes, and gets the number of frames by 32: a quarter of what the bitset takes.
unfoldable pub set_up_frame_allocations : ℕ → Cmd (Unit {0})
set_up_frame_allocations fuel = do
  k ← get
  put (record k { num_of_frames = size_of_physical_memory / frame_size })
  k' ← get
  base ← kmalloc fuel (k'.num_of_frames / section_size)
  k'' ← get
  put (record k'' {
    frame_allocations = base;
    mem = memset k''.mem base 0 (k''.num_of_frames / section_size);
  })

-- `sizeof(page_directory_t)`
abbrev pub sizeof_directory : ℕ
sizeof_directory = 8192

unfoldable pub set_up_page_directory : ℕ → Cmd (Unit {0})
set_up_page_directory fuel = do
  dir ← kmalloc_a fuel sizeof_directory
  k ← get
  put (record k {
    kernel_directory = dir;
    mem = memset k.mem dir 0 sizeof_directory;
    current_directory = dir;
  })

-- `for (i = KHEAP_START; i < KHEAP_START+KHEAP_INITIAL_SIZE; i += FRAME_SIZE)`, with `left` rounds.
unfoldable pub map_heap_from : (fuel left i : ℕ) → Cmd (Unit {0})
map_heap_from fuel zero i = pure tt
map_heap_from fuel (suc left) i = do
  k ← get
  _ ← get_page (kmalloc_ap fuel) i 1 k.kernel_directory
  map_heap_from fuel left (add32 i frame_size)

unfoldable pub map_heap_pages : ℕ → Cmd (Unit {0})
unfolding map_heap_from
map_heap_pages fuel = map_heap_from fuel (kheap_initial_size / frame_size) kheap_start

unfoldable pub allocate_heap_from : (fuel left i : ℕ) → Cmd (Unit {0})
allocate_heap_from fuel zero i = pure tt
allocate_heap_from fuel (suc left) i = do
  k ← get
  page ← get_page (kmalloc_ap fuel) i 1 k.kernel_directory
  alloc_frame page 0 0
  allocate_heap_from fuel left (add32 i frame_size)

unfoldable pub allocate_heap_pages : ℕ → Cmd (Unit {0})
unfolding allocate_heap_from
allocate_heap_pages fuel = allocate_heap_from fuel (kheap_initial_size / frame_size) kheap_start

-- The loop reads `placement_address`, which `get_page` may move, in each round.
unfoldable pub identity_map_from : (fuel rounds i : ℕ) → Cmd (Unit {0})
identity_map_from fuel zero i = λ _. out_of_fuel
identity_map_from fuel (suc rounds) i =
    let rest = identity_map_from fuel rounds (add32 i frame_size) in
    do
      k ← get
      if ltb i (add32 k.placement_address frame_size)
          then (do
            page ← get_page (kmalloc_ap fuel) i 1 k.kernel_directory
            alloc_frame page 0 0
            rest)
          else pure tt

-- `rounds` bounds the loop: there are `2 ^ 20` pages.
unfoldable pub identity_map : (fuel rounds : ℕ) → Cmd (Unit {0})
unfolding identity_map_from
identity_map fuel rounds = identity_map_from fuel rounds 0
