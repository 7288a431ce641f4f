-- ===== src/Kheap/Early.antt =====
-- kernel/mm/kheap.c: `kmalloc_int` before the heap is set up, and what kernel/mm/paging.c gets from it.
use pyramid_kernel.Prelude.{
  ℕ, suc, ◌+◌, ◌*◌, ◌/◌, ◌%◌, ◌^◌, ◌≤◌, ◌<◌, ◌≡◌, arith, Bool, ◌==◌, if◌then◌else◌, none, some,
}
use pyramid_kernel.Prelude.Bits.{bit_and-page}
use pyramid_kernel.Kernel.{Kernel, ok}
use pyramid_kernel.Kheap.Kmalloc.{kmalloc_int}

-- Without a heap, with `placement_address` behind the first page, and with room up to the end of
-- the address space, `kmalloc_int` returns a block that starts at `placement_address` or at most a
-- page behind it, on a page boundary if asked; it stores its address through `phys`, moves
-- `placement_address` to its end, and changes nothing else.
pub kmalloc_int_early :
    (fuel sz align : ℕ) (phys : Bool) (k : Kernel)
    → k.kheap ≡ 0
    → 4096 ≤ k.placement_address
    → k.placement_address + 4096 + sz < 2 ^ 32
    → (addr : ℕ) × (kmalloc_int (suc fuel) sz align phys k
        ≡ ok
            (addr, (if phys then some addr else none))
            (record k { placement_address = addr + sz }))
      × (k.placement_address ≤ addr)
      × (addr ≤ k.placement_address + 4096)
      × (addr % 4096 ≡ (if align == 1 then 0 else k.placement_address % 4096))
unfolding kmalloc_int
kmalloc_int_early fuel sz align phys k unset high room =
    let p = k.placement_address in
    let page = bit_and-page p (omega arith) in
    (
      (if align == 1 then p / 4096 * 4096 + 4096 else p),
      ground (arith, page),
      ground arith,
      ground arith,
      ground arith,
    )
