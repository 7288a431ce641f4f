-- ===== src/Kheap/Overlap.antt =====
-- kernel/mm/paging.c: where `set_up_frame_allocations` and `set_up_page_directory` put the bitset and
-- the directory.
use pyramid_kernel.Prelude.{ℕ, suc, ◌+◌, ◌*◌, ◌/◌, ◌^◌, ◌≤◌, ◌<◌, ◌≡◌, arith}
use pyramid_kernel.Prelude.Bits.{bit_and-page}
use pyramid_kernel.Memory.Bytes.{memset}
use pyramid_kernel.Kernel.{Kernel, ok, ◌>>◌}
use pyramid_kernel.Paging.{section_size, section_at}
use pyramid_kernel.Kheap.Kmalloc.{kmalloc, kmalloc_a}
use pyramid_kernel.Kheap.Setup.{set_up_frame_allocations, set_up_page_directory}

module _ (fuel sz : ℕ) (k : Kernel) (unset : k.kheap ≡ 0) (high : 4096 ≤ k.placement_address)
    (room : k.placement_address + 4096 + sz < 2 ^ 32) where
  pub kmalloc-early :
      kmalloc (suc fuel) sz k
      ≡ ok k.placement_address (record k { placement_address = k.placement_address + sz })
  unfolding kmalloc
  kmalloc-early = ground (arith, bit_and-page k.placement_address)

  pub kmalloc_a-early :
      let addr = k.placement_address / 4096 * 4096 + 4096 in
      kmalloc_a (suc fuel) sz k ≡ ok addr (record k { placement_address = addr + sz })
  unfolding kmalloc_a
  kmalloc_a-early = ground (arith, bit_and-page k.placement_address)

-- The state after the first step: 2048 bytes are taken for the bitset.
abbrev pub after_bitset : Kernel → Kernel
after_bitset k = record k {
  num_of_frames = 65536;
  placement_address = k.placement_address + 2048;
  frame_allocations = k.placement_address;
  mem = memset k.mem k.placement_address 0 2048;
}

pub bitset_lem :
    (fuel : ℕ) (k : Kernel)
    → k.kheap ≡ 0
    → 4096 ≤ k.placement_address
    → k.placement_address + 6144 < 2 ^ 32
    → set_up_frame_allocations (suc fuel) k ≡ ok tt (after_bitset k)
unfolding set_up_frame_allocations
bitset_lem fuel k unset high room =
    ground
      (arith, kmalloc-early fuel 2048 (record k { num_of_frames = 65536 }) unset high (omega arith))

-- Without a heap, with `placement_address` behind the first page and 64 KiB in front of the end of
-- the address space, the two steps return, and the page directory starts inside the bitset: behind
-- its start, and in front of the end of its last section.
pub directory_in_bitset :
    (fuel : ℕ) (k : Kernel)
    → k.kheap ≡ 0
    → 4096 ≤ k.placement_address
    → k.placement_address + 65536 < 2 ^ 32
    → (k' : Kernel) × ((set_up_frame_allocations (suc fuel) >> set_up_page_directory (suc fuel)) k
        ≡ ok tt k')
      × (k'.frame_allocations < k'.kernel_directory)
      × (k'.kernel_directory < section_at k'.frame_allocations (k'.num_of_frames / section_size))
unfolding set_up_page_directory
directory_in_bitset fuel k unset high room =
    let k₁ = after_bitset k in
    let dir = k₁.placement_address / 4096 * 4096 + 4096 in
    (
      record k₁ {
        placement_address = dir + 8192;
        kernel_directory = dir;
        mem = memset k₁.mem dir 0 8192;
        current_directory = dir;
      },
      ground (
        arith,
        bitset_lem fuel k unset high (omega arith),
        kmalloc_a-early fuel 8192 k₁ unset (omega arith) (omega arith),
      ),
      omega arith,
      omega arith,
    )
