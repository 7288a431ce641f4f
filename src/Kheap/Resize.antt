-- ===== src/Kheap/Resize.antt =====
-- kernel/mm/kheap.c: `expand` and `contract`, which map and unmap the pages at the end of the heap.
use pyramid_kernel.Prelude.{
  ℕ, zero, suc, ◌+◌, ◌/◌, bit_and, ◌==◌, if◌then◌else◌, not, ltb, add32, sub32,
}
use pyramid_kernel.Kernel.{Kernel, ok, out_of_fuel, Cmd, pure, ◌>>=◌, ◌>>◌, get}
use pyramid_kernel.Paging.{KmallocAp, get_page, alloc_frame, free_frame}
use pyramid_kernel.Kheap.{heap_min_size}

-- `if ((n & 0xFFFFF000) != 0) { n &= 0xFFFFF000; n += 0x1000; }`
unfoldable pub round_up : ℕ → ℕ
round_up n = if not (bit_and n 0xffff_f000 == 0) then add32 (bit_and n 0xffff_f000) 0x1000 else n

-- What `contract` does to its argument before the loop.
unfoldable pub contract_size : ℕ → ℕ
contract_size n =
    let n' = if not (bit_and n 0x1000 == 0) then add32 (bit_and n 0x1000) 0x1000 else n in
    if ltb n' heap_min_size then heap_min_size else n'

abbrev pub heap_length : Kernel → ℕ
heap_length k = sub32 k.heap.end_address k.heap.start_address

abbrev pub set_end : ℕ → Cmd (Unit {0})
set_end length k =
    ok tt (record k { heap = record k.heap { end_address = add32 k.heap.start_address length } })

module _ (kmalloc_ap : KmallocAp) where
  -- The body for the page at offset `i`.
  unfoldable pub map_page : ℕ → Cmd (Unit {0})
  map_page i = do
    k ← get
    page ← get_page kmalloc_ap (add32 k.heap.start_address i) 1 k.kernel_directory
    k' ← get
    alloc_frame page (if not (k'.heap.supervisor == 0) then 1 else 0)
        (if not (k'.heap.readonly == 0) then 0 else 1)

  unfoldable pub expand_loop : (fuel new_size i : ℕ) → Cmd (Unit {0})
  expand_loop zero new_size i = λ _. out_of_fuel
  expand_loop (suc fuel) new_size i =
      let rest = expand_loop fuel new_size (add32 i 0x1000) in
      if ltb i new_size then map_page i >> rest else pure tt

  unfoldable pub expand : ℕ → Cmd (Unit {0})
  unfolding expand_loop round_up
  expand n = do
    k ← get
    let new_size = round_up n
    expand_loop (new_size / 0x1000 + 2) new_size (heap_length k)
    set_end new_size

  unfoldable pub unmap_page : ℕ → Cmd (Unit {0})
  unmap_page i = do
    k ← get
    page ← get_page kmalloc_ap (add32 k.heap.start_address i) 0 k.kernel_directory
    free_frame page

  unfoldable pub contract_loop : (fuel new_size i : ℕ) → Cmd (Unit {0})
  contract_loop zero new_size i = λ _. out_of_fuel
  contract_loop (suc fuel) new_size i =
      let rest = contract_loop fuel new_size (sub32 i 0x1000) in
      if ltb new_size i then unmap_page i >> rest else pure tt

  unfoldable pub contract : ℕ → Cmd ℕ
  unfolding contract_loop contract_size
  contract n = do
    k ← get
    let new_size = contract_size n
    let i = sub32 (heap_length k) 0x1000
    contract_loop (i / 0x1000 + 2) new_size i
    set_end new_size
    pure new_size
