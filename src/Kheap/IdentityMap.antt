-- ===== src/Kheap/IdentityMap.antt =====
-- kernel/mm/paging.c: the steps of `init_paging` up to the loop that maps the kernel's pages, in order.
use pyramid_kernel.Prelude.{
  ℕ, zero, suc, ◌+◌, ◌*◌, ◌/◌, ◌≤◌, ◌<◌, ◌≡◌, arith, ◌∙◌, ap, refl, ltb, add32, true,
}
use pyramid_kernel.Memory.{Memory, IsBytes, load32}
use pyramid_kernel.Kernel.{Kernel, ok, ◌>>◌}
use pyramid_kernel.Paging.{get_page}
use pyramid_kernel.Paging.Frames.{used}
use pyramid_kernel.Kheap.Kmalloc.{kmalloc_ap}
use pyramid_kernel.Kheap.Setup.{
  set_up_frame_allocations, set_up_page_directory, map_heap_pages, identity_map_from, identity_map,
}
use pyramid_kernel.Kheap.Overlap.{after_bitset, bitset_lem}
use pyramid_kernel.Kheap.MapHeap.{after_directory, directory_lem, map_heap_pages_lem}
use pyramid_kernel.Kheap.Identity.{Identity, identity_map_from-Identity, low_page}
use pyramid_kernel.Kheap.FirstTables.{FirstTables, first_tables, with_table}

-- In its first round the second loop makes its table, and goes on as if that had been there.
identity_map_from_first :
    (fuel rounds page : ℕ) (k k' : Kernel)
    → get_page (kmalloc_ap fuel) 0 1 k.kernel_directory k ≡ ok page k'
    → get_page (kmalloc_ap fuel) 0 1 k'.kernel_directory k' ≡ ok page k'
    → k.placement_address ≤ 0x40_0000
    → k'.placement_address ≤ 0x40_0000
    → identity_map_from fuel (suc rounds) 0 k ≡ identity_map_from fuel (suc rounds) 0 k'
unfolding identity_map_from
identity_map_from_first fuel rounds page k k' made again small small' =
    let test : ltb 0 (add32 k.placement_address 4096) ≡ true = ground arith in
    let test' : ltb 0 (add32 k'.placement_address 4096) ≡ true = ground arith in
    rw (test, test', made, again) refl

-- Every address below `placement_address + 4096` is mapped to itself: `get_page` finds its entry, which
-- is present, holds the frame of the address's own number, and has no other flag; this frame is used.
pub record MapsItself (fuel : ℕ) (k : Kernel) : Type 0 where
  pub maps :
      (address make : ℕ)
      → address < k.placement_address + 4096
      → (page : ℕ) × (get_page (kmalloc_ap fuel) address make k.kernel_directory k ≡ ok page k)
        × (load32 k.mem page ≡ 4096 * (address / 4096) + 1)
        × (used k.frame_allocations (address / 4096) k.mem ≡ 1)

Identity-MapsItself :
    (fuel low heap n : ℕ) (k : Kernel)
    → Identity low heap n k
    → k.placement_address + 4096 ≤ 4096 * n
    → n ≤ 1024
    → MapsItself fuel k
Identity-MapsItself fuel low heap n k state far small = record {
  maps = λ address make below. (
    low + 4 * (address / 4096),
    low_page fuel low heap n address make k state.paged (omega arith),
    state.held (address / 4096) (omega arith),
    state.marked (address / 4096) (omega arith),
  );
}

-- The three steps in front of the loop.
pub tables_lem :
    (fuel heap low : ℕ) (k : Kernel) (m₃ m₄ : Memory)
    → k.kheap ≡ 0
    → 4096 ≤ k.placement_address
    → k.placement_address + 0x1_0000 ≤ 0x40_0000
    → FirstTables (suc fuel) k heap low m₃ m₄
    → (set_up_frame_allocations (suc fuel) k ≡ ok tt (after_bitset k))
      × (set_up_page_directory (suc fuel) (after_bitset k) ≡ ok tt (after_directory k))
      × (map_heap_pages (suc fuel) (after_directory k) ≡ ok tt (with_table k heap m₃))
tables_lem fuel heap low k m₃ m₄ unset high room tables = (
  bitset_lem fuel k unset high (omega arith),
  directory_lem fuel k unset high (omega arith),
  map_heap_pages_lem (suc fuel) heap (after_directory k) (with_table k heap m₃) tables.heap_page
      tables.heap_there,
)

pub identity_map_lem :
    (fuel rounds heap low : ℕ) (k : Kernel) (m₃ m₄ : Memory)
    → k.placement_address + 0x1_0000 ≤ 0x40_0000
    → 1024 ≤ rounds
    → FirstTables fuel k heap low m₃ m₄
    → (end : ℕ) × (k' : Kernel) × (identity_map fuel rounds (with_table k heap m₃) ≡ ok tt k')
      × Identity low heap end k'
      × (k'.placement_address + 4096 ≤ 4096 * end)
      × (end ≤ 1024)
      × (k'.placement_address ≡ low + 4096)
unfolding identity_map
identity_map_lem fuel zero heap low k m₃ m₄ room enough tables = absurd (omega arith)
identity_map_lem fuel (suc rounds) heap low k m₃ m₄ room enough tables =
    let state = tables.identity in
    let k₄ = with_table k low m₄ in
    let (end, k', e, state', far, small, same) =
      identity_map_from-Identity fuel low heap (suc rounds) 0 k₄ state (omega (arith, tables.near))
        (omega arith) (omega (arith, tables.near)) in
    let place : k'.placement_address ≡ low + 4096 = ap (λ (s : Kernel). s.placement_address) same in
    (
      end,
      k',
      identity_map_from_first fuel rounds (low + 4 * 0) (with_table k heap m₃) k₄ tables.low_page
            (low_page fuel low heap 0 0 1 k₄ state.paged (omega arith))
            (omega (arith, tables.near, tables.ordered)) (omega (arith, tables.near))
          ∙ e,
      state',
      omega (arith, place),
      small,
      place,
    )

-- Without a heap, in a memory of bytes, with `placement_address` behind the first page and 64 KiB in
-- front of the end of the first 4 MiB, and with 1024 rounds or more: the steps of `init_paging` up to
-- the loop that maps the kernel's pages return, the loop ends, and every address below the final
-- `placement_address + 4096` is mapped to itself, whichever tables they made on the way.
pub identity_map-MapsItself :
    (fuel rounds : ℕ) (k : Kernel)
    → k.kheap ≡ 0
    → 4096 ≤ k.placement_address
    → k.placement_address + 0x1_0000 ≤ 0x40_0000
    → 1024 ≤ rounds
    → IsBytes k.mem
    → (k' : Kernel) × ((set_up_frame_allocations (suc fuel)
            >> (set_up_page_directory (suc fuel)
                >> (map_heap_pages (suc fuel) >> identity_map (suc fuel) rounds)))
          k
        ≡ ok tt k')
      × MapsItself (suc fuel) k'
identity_map-MapsItself fuel rounds k unset high room enough bytes =
    let (heap, low, m₃, m₄, tables) = first_tables fuel k unset high room bytes in
    let (bitset, directory, heap_pages) = tables_lem fuel heap low k m₃ m₄ unset high room tables in
    let (end, k', e, state, far, small, place) =
      identity_map_lem (suc fuel) rounds heap low k m₃ m₄ room enough tables in
    (
      k',
      rw (bitset, directory, heap_pages) e,
      Identity-MapsItself (suc fuel) low heap end k' state far small,
    )
