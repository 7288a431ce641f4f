-- ===== src/Kheap/Endless.antt =====
-- kernel/mm/kheap.c: the heap at a boundary of page tables. `expand` needs a new table, for which
-- `get_page` calls `kmalloc_ap`, for which `alloc` calls `expand` again.
use pyramid_kernel.Prelude.{
  ℕ, zero, suc, refl, ◌+◌, ◌/◌, ◌^◌, ◌<◌, ◌≡◌, ◌≢◌, arith, add32, ltb, ◌==◌, true, false, minus_one,
  u8, Bool,
}
use pyramid_kernel.Kernel.{Kernel, out_of_fuel}
use pyramid_kernel.Memory.{load32}
use pyramid_kernel.Paging.{KmallocAp, get_page, make_table}
use pyramid_kernel.Paging.Pages.{slot}
use pyramid_kernel.Kheap.{find_smallest_hole}
use pyramid_kernel.Kheap.Resize.{expand, expand_loop, map_page, round_up, heap_length}
use pyramid_kernel.Kheap.Alloc.{alloc, grow}
use pyramid_kernel.Kheap.Kmalloc.{kmalloc, kmalloc_ap, kmalloc_int}
use pyramid_kernel.Kheap.Rounding.{round_up_lem}

-- The kernel has a heap, the page at its end has no page table, no hole serves for a page at a page
-- boundary, and the heap may grow by two pages and the size asked for.
pub record IsStuck (k : Kernel) : Type 0 where
  pub set_up : k.kheap ≢ 0
  pub no_table :
      load32 k.mem (slot k.kernel_directory (add32 k.heap.start_address (heap_length k))) ≡ 0
  pub no_hole : find_smallest_hole (4096 + 20) 1 k.heap k.mem ≡ minus_one
  pub room : heap_length k + 0x4000 < 2 ^ 32

module _ (kmalloc_ap : KmallocAp) (k : Kernel) (stuck : IsStuck k)
    (call : kmalloc_ap 4096 k ≡ out_of_fuel) where
  open stuck use {no_table, room}

  make_table-endless : (dir index : ℕ) → make_table kmalloc_ap dir index k ≡ out_of_fuel
  unfolding make_table
  make_table-endless dir index = ground (arith, call)

  get_page-endless :
      get_page kmalloc_ap (add32 k.heap.start_address (heap_length k)) 1 k.kernel_directory k
      ≡ out_of_fuel
  unfolding get_page
  get_page-endless = ground (
    arith,
    make_table-endless k.kernel_directory
        (add32 k.heap.start_address (heap_length k) / 0x1000 / 1024),
  )

  map_page-endless : map_page kmalloc_ap (heap_length k) k ≡ out_of_fuel
  unfolding map_page
  map_page-endless = ground (arith, get_page-endless)

  expand_loop-endless :
      (fuel new_size : ℕ)
      → heap_length k < new_size
      → expand_loop kmalloc_ap (suc fuel) new_size (heap_length k) k ≡ out_of_fuel
  unfolding expand_loop
  expand_loop-endless fuel new_size more =
      let test : ltb (heap_length k) new_size ≡ true = ground arith in
      rw (test, map_page-endless) refl

  expand-endless :
      (n : ℕ) → heap_length k < n → n + 0x1000 < 2 ^ 32 → expand kmalloc_ap n k ≡ out_of_fuel
  unfolding expand
  expand-endless n more fits =
      let above : heap_length k < round_up n = ground (arith, round_up_lem n (omega arith)) in
      let start : round_up n / 0x1000 + 2 ≡ suc (round_up n / 0x1000 + 1) = omega arith in
      let loop : expand_loop kmalloc_ap (round_up n / 0x1000 + 2) (round_up n) (heap_length k) k
          ≡ out_of_fuel =
        rw start (expand_loop-endless (round_up n / 0x1000 + 1) (round_up n) above) in
      rw loop refl

  grow-endless :
      (n : ℕ) → 0 < n → n + heap_length k + 0x1000 < 2 ^ 32 → grow kmalloc_ap n k ≡ out_of_fuel
  unfolding grow
  grow-endless n some_size fits =
      let sum : add32 (heap_length k) n ≡ heap_length k + n = omega arith in
      let call : expand kmalloc_ap (add32 (heap_length k) n) k ≡ out_of_fuel =
        rw sum (expand-endless (heap_length k + n) (omega arith) (omega arith)) in
      rw call refl

  alloc-endless :
      (fuel size page_align : ℕ)
      → size + 20 + heap_length k + 0x1000 < 2 ^ 32
      → find_smallest_hole (size + 20) page_align k.heap k.mem ≡ minus_one
      → alloc kmalloc_ap (suc fuel) size page_align k ≡ out_of_fuel
  unfolding alloc
  alloc-endless fuel size page_align fits no_hole =
      let sum : add32 size 20 ≡ size + 20 = omega arith in
      rw (sum, no_hole, grow-endless (size + 20) (omega arith) (omega arith)) refl

module _ (k : Kernel) (stuck : IsStuck k) where
  open stuck use {set_up, no_hole, room}

  alloc_out :
      (fuel size page_align : ℕ)
      → size + 20 + heap_length k + 0x1000 < 2 ^ 32
      → find_smallest_hole (size + 20) page_align k.heap k.mem ≡ minus_one
      → kmalloc_ap fuel 4096 k ≡ out_of_fuel
      → alloc (kmalloc_ap fuel) fuel size page_align k ≡ out_of_fuel
  unfolding alloc
  alloc_out zero size page_align fits nothing call = refl
  alloc_out (suc fuel) size page_align fits nothing call =
      alloc-endless (kmalloc_ap (suc fuel)) k stuck call fuel size page_align fits nothing

  kmalloc_int-endless :
      (fuel size align : ℕ) (phys : Bool)
      → size + 20 + heap_length k + 0x1000 < 2 ^ 32
      → find_smallest_hole (size + 20) (u8 align) k.heap k.mem ≡ minus_one
      → kmalloc_ap fuel 4096 k ≡ out_of_fuel
      → kmalloc_int (suc fuel) size align phys k ≡ out_of_fuel
  unfolding kmalloc_int kmalloc_ap
  kmalloc_int-endless fuel size align phys fits nothing call =
      let served : (k.kheap == 0) ≡ false = ground arith in
      rw (served, alloc_out fuel size (u8 align) fits nothing call) refl

  -- The call for a page table calls itself.
  kmalloc_ap-endless : (fuel : ℕ) → kmalloc_ap fuel 4096 k ≡ out_of_fuel
  unfolding kmalloc_ap kmalloc_int
  kmalloc_ap-endless zero = refl
  kmalloc_ap-endless (suc fuel) =
      rw (kmalloc_int-endless fuel 4096 1 true (omega arith) no_hole (kmalloc_ap-endless fuel)) refl

-- In a state as in `IsStuck` (the page at the end of the heap has no page table, and no hole serves
-- for one) `kmalloc` of a size for which there is no hole, and by which the heap may grow, never
-- returns: however deep the calls may be nested, they need more.
pub kmalloc-endless :
    (fuel size : ℕ) (k : Kernel)
    → IsStuck k
    → size + 20 + heap_length k + 0x1000 < 2 ^ 32
    → find_smallest_hole (size + 20) 0 k.heap k.mem ≡ minus_one
    → kmalloc fuel size k ≡ out_of_fuel
unfolding kmalloc kmalloc_int
kmalloc-endless zero size k stuck fits nothing = refl
kmalloc-endless (suc fuel) size k stuck fits nothing =
    rw
      (kmalloc_int-endless k stuck fuel size 0 false fits nothing (kmalloc_ap-endless k stuck fuel))
      refl
