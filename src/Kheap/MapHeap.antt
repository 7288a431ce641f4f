-- ===== src/Kheap/MapHeap.antt =====
-- kernel/mm/paging.c: the directory that `init_paging` sets up, and the first loop, `map_heap_pages`.
use pyramid_kernel.Prelude.{
  ℕ, zero, suc, refl, ◌+◌, ◌*◌, ◌/◌, ◌^◌, ◌≤◌, ◌<◌, ◌≡◌, ◌≢◌, inr, arith, ◌∙◌, ap, sym, add32, true,
}
use mathlib.Core.Path.{subst}
use pyramid_kernel.Memory.{load32, load32_ext}
use pyramid_kernel.Memory.Bytes.{memset, memset_lem}
use pyramid_kernel.Kernel.{Kernel, ok}
use pyramid_kernel.Paging.{get_page, page_in}
use pyramid_kernel.Paging.Pages.{slot, get_page_present, get_page-Made, Made, Leaves}
use pyramid_kernel.Kheap.{kheap_start, kheap_initial_size}
use pyramid_kernel.Kheap.Kmalloc.{kmalloc_ap}
use pyramid_kernel.Kheap.Early.{kmalloc_int_early}
use pyramid_kernel.Kheap.Overlap.{after_bitset, kmalloc_a-early}
use pyramid_kernel.Kheap.Setup.{set_up_page_directory, map_heap_from, map_heap_pages}

-- An address of the heap's first 4 MiB.
abbrev pub IsHeapAddress : ℕ → Type 0
IsHeapAddress address = (kheap_start ≤ address) × (address < kheap_start + 0x40_0000)

-- They share one slot of the directory.
heap_slot : (dir address : ℕ) → IsHeapAddress address → slot dir address ≡ slot dir kheap_start
heap_slot dir address h = omega arith

module _ (fuel : ℕ) (k : Kernel)
    (present : load32 k.mem (slot k.kernel_directory kheap_start) ≢ 0) where
  pub heap_page_present :
      (address make : ℕ)
      → IsHeapAddress address
      → get_page (kmalloc_ap fuel) address make k.kernel_directory k
        ≡ ok (page_in (load32 k.mem (slot k.kernel_directory kheap_start)) (address / 0x1000)) k
  heap_page_present address make h =
      let same = heap_slot k.kernel_directory address h in
      get_page_present (kmalloc_ap fuel) address make k.kernel_directory k
        (subst (λ p. load32 k.mem p ≢ 0) (sym same) present)
      ∙ ap (λ p. ok (page_in (load32 k.mem p) (address / 0x1000)) k) same

  -- With the table there the loop changes nothing.
  map_heap_from_present :
      (left i : ℕ)
      → kheap_start ≤ i
      → i + left * 0x1000 ≤ kheap_start + kheap_initial_size
      → map_heap_from fuel left i k ≡ ok tt k
  unfolding map_heap_from
  map_heap_from_present zero i low high = refl
  map_heap_from_present (suc left) i low high =
      let here : IsHeapAddress i = (low, omega arith) in
      let next : add32 i 0x1000 ≡ i + 0x1000 = omega arith in
      rw (heap_page_present i 1 here, next)
        (map_heap_from_present left (i + 0x1000) (omega arith) (omega arith))

-- Without a heap `kmalloc_ap` cuts a page off, whose physical address is its address.
pub kmalloc_ap-early :
    (fuel : ℕ) (k : Kernel)
    → k.kheap ≡ 0
    → 4096 ≤ k.placement_address
    → k.placement_address + 8192 < 2 ^ 32
    → (addr : ℕ) × (kmalloc_ap (suc fuel) 4096 k
        ≡ ok (addr, addr) (record k { placement_address = addr + 4096 }))
      × (k.placement_address ≤ addr)
      × (addr ≤ k.placement_address + 4096)
unfolding kmalloc_ap
kmalloc_ap-early fuel k unset high room =
    let (addr, e, low, near, aligned) =
      kmalloc_int_early fuel 4096 1 true k unset high (omega arith) in
    (addr, rw e refl, low, near)

-- The page that `kmalloc_ap` cuts off without a heap.
abbrev pub next_page : Kernel → ℕ
next_page k = k.placement_address / 4096 * 4096 + 4096

-- The state after the second step: the directory, all zero, at the page boundary behind the bitset.
abbrev pub after_directory : Kernel → Kernel
after_directory k =
    let k₁ = after_bitset k in
    record k₁ {
      placement_address = next_page k₁ + 8192;
      kernel_directory = next_page k₁;
      mem = memset k₁.mem (next_page k₁) 0 8192;
      current_directory = next_page k₁;
    }

pub load32_zero : (p : ℕ) → load32 (λ _. 0) p ≡ 0
unfolding load32
load32_zero p = omega arith

module _ (fuel : ℕ) (k : Kernel) (unset : k.kheap ≡ 0) (high : 4096 ≤ k.placement_address)
    (room : k.placement_address + 65536 < 2 ^ 32) where
  abbrev k₂ : Kernel
  k₂ = after_directory k

  pub directory_lem : set_up_page_directory (suc fuel) (after_bitset k) ≡ ok tt k₂
  unfolding set_up_page_directory
  directory_lem =
      ground (arith, kmalloc_a-early fuel 8192 (after_bitset k) unset (omega arith) (omega arith))

  no_table : load32 k₂.mem (slot k₂.kernel_directory kheap_start) ≡ 0
  no_table =
      let k₁ = after_bitset k in
      load32_ext k₂.mem (λ _. 0) (slot k₂.kernel_directory kheap_start)
        (λ b low below. ground (arith, memset_lem k₁.mem (next_page k₁) 0 8192 b))
      ∙ load32_zero (slot k₂.kernel_directory kheap_start)

  table_call :
      (addr : ℕ) × (kmalloc_ap (suc fuel) 4096 k₂
        ≡ ok (addr, addr) (record k₂ { placement_address = addr + 4096 }))
      × (k₂.placement_address ≤ addr)
      × (addr ≤ k₂.placement_address + 4096)
  table_call = kmalloc_ap-early fuel k₂ unset (omega arith) (omega arith)

  pub first_page :
      (table : ℕ) × (k₃ : Kernel) × (get_page
          (kmalloc_ap (suc fuel))
          kheap_start
          1
          k₂.kernel_directory
          k₂
        ≡ ok (page_in table (kheap_start / 0x1000)) k₃)
      × Made k₂.kernel_directory kheap_start table table k₃
      × (table ≢ 0)
      × Leaves k₂.kernel_directory kheap_start table
          (record k₂ { placement_address = table + 4096 })
          k₃
      × (k₂.placement_address ≤ table)
      × (table ≤ k₂.placement_address + 4096)
  first_page =
      let (table, call, low, near) = table_call in
      let (k₃, e, made, again, leaves) =
        get_page-Made (kmalloc_ap (suc fuel)) kheap_start 1 k₂.kernel_directory table table k₂
          (record k₂ { placement_address = table + 4096 }) (omega arith) (omega arith) no_table call
          (omega arith) (omega arith) (omega arith) (inr (omega arith)) in
      (table, k₃, e, made, omega arith, leaves, low, near)

-- The first round makes the table, and the others find it.
pub map_heap_pages_lem :
    (fuel table : ℕ) (k k₃ : Kernel)
    → get_page (kmalloc_ap fuel) kheap_start 1 k.kernel_directory k
      ≡ ok (page_in table (kheap_start / 0x1000)) k₃
    → load32 k₃.mem (slot k₃.kernel_directory kheap_start) ≢ 0
    → map_heap_pages fuel k ≡ ok tt k₃
unfolding map_heap_pages map_heap_from
map_heap_pages_lem fuel table k k₃ first present =
    rw first
      (map_heap_from_present fuel k₃ present 255 (kheap_start + 0x1000) (omega arith) (omega arith))
