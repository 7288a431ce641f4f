-- ===== src/Boot/Start.antt =====
-- kernel/mm/paging.c, `init_paging`: the machine that it leaves.
use pyramid_kernel.Prelude.{ℕ, suc, ◌+◌, ◌≤◌, ◌≡◌, ◌≢◌, arith, ◌∙◌, ap, refl, some}
use pyramid_kernel.Prelude.Bits.{test_bit, test_bit-or, test_bit-lt}
use pyramid_kernel.Memory.{IsBytes}
use pyramid_kernel.Interrupts.{register_interrupt_handler}
use pyramid_kernel.Kernel.{Kernel, ok}
use pyramid_kernel.Paging.{table_physical}
use pyramid_kernel.Kheap.{kheap_start, kheap_initial_size}
use pyramid_kernel.Kheap.Setup.{
  set_up_frame_allocations, set_up_page_directory, map_heap_pages, identity_map,
  allocate_heap_pages,
}
use pyramid_kernel.Kheap.Create.{IsFresh, created, create_heap-created, created-IsFresh}
use pyramid_kernel.Kheap.HeapPages.{allocate_heap_from-Paged}
use pyramid_kernel.Kheap.FirstTables.{first_tables}
use pyramid_kernel.Kheap.IdentityMap.{tables_lem, identity_map_lem}
use pyramid_kernel.Boot.{
  Machine, on_kernel, page_fault_handler, running, enable_paging, init_paging,
}

-- The machine `m'` after `init_paging` on `m`: a heap of one hole over the 1 MiB from `KHEAP_START` on,
-- paging switched on with the kernel's directory, and a handler of page faults; no other handler, and
-- not the console or the descriptor tables, is changed.
pub record Started (m m' : Machine) : Type 0 where
  pub heap : IsFresh kheap_start (kheap_start + kheap_initial_size) m'.kernel
  pub heap_set : m'.kernel.kheap ≢ 0
  pub loaded : m'.kernel.current_directory ≡ m'.kernel.kernel_directory
  pub cr3_lem : m'.cr3 ≡ table_physical m'.kernel.kernel_directory 0
  pub paging_on : test_bit m'.cr0 31 ≡ 1
  pub handler : m'.handlers 14 ≡ some page_fault_handler
  pub other_handlers : (i : ℕ) → i ≢ 14 → m'.handlers i ≡ m.handlers i
  pub others : (m'.console ≡ m.console) × (m'.gdt ≡ m.gdt) × (m'.idt ≡ m.idt)

-- The fresh heap is one whatever `kheap` points to.
IsFresh-kheap :
    (start end_addr p : ℕ) (k : Kernel)
    → IsFresh start end_addr k
    → IsFresh start end_addr (record k { kheap = p })
IsFresh-kheap start end_addr p k fresh = record {
  only_hole = fresh.only_hole;
  index = fresh.index;
  first = fresh.first;
  last = fresh.last;
  well_formed = record {
    chain = fresh.well_formed.chain;
    index = fresh.well_formed.index;
    behind_index = fresh.well_formed.behind_index;
    in_memory = fresh.well_formed.in_memory;
    bytes = fresh.well_formed.bytes;
  };
}

-- The machine that `init_paging` leaves when `k` is the kernel's state in front of `create_heap`.
abbrev started : Machine → Kernel → Machine
started m k =
    let m₆ = record m {
      kernel = k;
      handlers = register_interrupt_handler 14 page_fault_handler m.handlers;
    } in
    let m₇ = enable_paging k.kernel_directory m₆ in
    let k₈ = created kheap_start (kheap_start + kheap_initial_size) 0xcfff_f000 0 0 m₇.kernel in
    record m₇ { kernel = record k₈ { kheap = k.placement_address } }

started-Started :
    (m : Machine) (k : Kernel)
    → k.kheap ≡ 0
    → 4096 ≤ k.placement_address
    → k.placement_address ≤ 0x40_0000
    → IsBytes k.mem
    → Started m (started m k)
unfolding enable_paging register_interrupt_handler
started-Started m k unset high low bytes = record {
  heap = IsFresh-kheap _ _ k.placement_address _ (
      created-IsFresh 0 kheap_start (kheap_start + kheap_initial_size) 0xcfff_f000 0 0
        (record k { current_directory = k.kernel_directory }) unset high (omega arith) (omega arith)
        (omega arith) bytes);
  heap_set = omega arith;
  loaded = refl;
  cr3_lem = refl;
  paging_on = test_bit-or m.cr0 0x8000_0000 31 ∙ omega (arith, test_bit-lt m.cr0 31);
  handler = refl;
  other_handlers = λ i ne. ground arith;
  others = (refl, refl, refl);
}

-- With the steps returning, `init_paging` does.
init_paging-started :
    (fuel rounds : ℕ) (m : Machine) (k₁ k₂ k₃ k₄ k₅ : Kernel)
    → set_up_frame_allocations (suc fuel) m.kernel ≡ ok tt k₁
    → set_up_page_directory (suc fuel) k₁ ≡ ok tt k₂
    → map_heap_pages (suc fuel) k₂ ≡ ok tt k₃
    → identity_map (suc fuel) rounds k₃ ≡ ok tt k₄
    → allocate_heap_pages (suc fuel) k₄ ≡ ok tt k₅
    → k₅.kheap ≡ 0
    → 4096 ≤ k₅.placement_address
    → k₅.placement_address ≤ 0x40_0000
    → init_paging (suc fuel) rounds m ≡ running (started m k₅)
unfolding init_paging enable_paging
init_paging-started fuel rounds m k₁ k₂ k₃ k₄ k₅ e₁ e₂ e₃ e₄ e₅ unset high low =
    rw
      (
        on_kernel,
        e₁,
        e₂,
        e₃,
        e₄,
        e₅,
        create_heap-created kheap_start (kheap_start + kheap_initial_size) 0xcfff_f000 0 0
            (record k₅ { current_directory = k₅.kernel_directory }) fuel unset high (omega arith)
            (omega arith),
      )
      refl

-- Without a heap, in a memory of bytes, with `placement_address` behind the first page and 64 KiB in
-- front of the end of the first 4 MiB, and with 1024 rounds or more of the loop that maps the kernel's
-- pages: `init_paging` returns, no matter what the memory holds. It leaves a well-formed heap of one
-- hole, paging on with the kernel's directory, and the handler of page faults; no other handler, and not
-- the console or the descriptor tables, is changed.
pub init_paging-Started :
    (fuel rounds : ℕ) (m : Machine)
    → m.kernel.kheap ≡ 0
    → 4096 ≤ m.kernel.placement_address
    → m.kernel.placement_address + 0x1_0000 ≤ 0x40_0000
    → 1024 ≤ rounds
    → IsBytes m.kernel.mem
    → (m' : Machine) × (init_paging (suc fuel) rounds m ≡ running m') × Started m m'
unfolding allocate_heap_pages
init_paging-Started fuel rounds m unset high room enough bytes =
    let k = m.kernel in
    let (heap, low, m₃, m₄, tables) = first_tables fuel k unset high room bytes in
    let (bitset, directory, heap_pages) = tables_lem fuel heap low k m₃ m₄ unset high room tables in
    let (end, k₄, mapped, state, far, small, place) =
      identity_map_lem (suc fuel) rounds heap low k m₃ m₄ room enough tables in
    let (end', k₅, allocated, paged, same) =
      allocate_heap_from-Paged (suc fuel) low heap 256 end kheap_start k₄ state.paged (omega arith)
        (omega arith) (omega arith) in
    let place' : k₅.placement_address ≡ low + 4096 =
      ap (λ (s : Kernel). s.placement_address) same ∙ place in
    let above : 4096 ≤ k₅.placement_address = omega (arith, place') in
    let below : k₅.placement_address ≤ 0x40_0000 = omega (arith, place', tables.near) in
    (
      started m k₅,
      init_paging-started fuel rounds m _ _ _ k₄ k₅ bitset directory heap_pages mapped allocated
          paged.no_heap above below,
      started-Started m k₅ paged.no_heap above below paged.bytes,
    )
