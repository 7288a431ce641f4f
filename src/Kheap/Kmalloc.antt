-- ===== src/Kheap/Kmalloc.antt =====
-- kernel/mm/kheap.c: `kmalloc_int` and the functions over it. Before the heap is set up blocks are
-- cut off at `placement_address`; then `alloc` serves them. `alloc`, `get_page` and `kmalloc_ap`
-- call one another, so `kmalloc_int` takes fuel: the depth of that nesting and of `alloc`'s calls
-- of itself.
use mathlib.Core.Option
use pyramid_kernel.Prelude.{
  ℕ, zero, suc, ◌*◌, bit_and, Bool, true, false, ◌==◌, if◌then◌else◌, not, ◌&&◌, add32, u8, u32,
  Option, none, some,
}
use pyramid_kernel.Kernel.{fault, out_of_fuel, Cmd, pure, ◌>>=◌, ◌>>◌, get, put, read}
use pyramid_kernel.Paging.{KmallocAp, get_page, frame_of}
use pyramid_kernel.Kheap.Alloc.{alloc}
use pyramid_kernel.Kheap.Release.{free}

-- `align == 1` and the address is not below the first page: on to the next page boundary.
unfoldable pub align_placement : (align placement : ℕ) → ℕ
align_placement align placement =
    if align == 1 && not (bit_and placement 0xffff_f000 == 0)
    then add32 (bit_and placement 0xffff_f000) 0x1000
    else placement

-- The branch without a heap: the address is also the physical one.
unfoldable pub place : (sz align : ℕ) → Cmd ℕ
unfolding align_placement
place sz align = do
  k ← get
  let tmp = align_placement align k.placement_address
  put (record k { placement_address = add32 tmp sz })
  pure tmp

-- The physical address of `addr`.
unfoldable pub physical : KmallocAp → ℕ → Cmd ℕ
physical kmalloc_ap addr = do
  k ← get
  page ← get_page kmalloc_ap addr 0 k.kernel_directory
  entry ← read page
  pure (add32 (u32 (frame_of entry * 0x1000)) (bit_and addr 0xfff))

-- `phys` is stored through in each call with a pointer, so the default is never taken.
abbrev and_phys : Cmd (ℕ × Option ℕ) → Cmd (ℕ × ℕ)
and_phys call = do (addr, at) ← call; pure (addr, Option.get_or at 0)

-- The address, and what is stored through `phys` if that is not null.
unfoldable pub kmalloc_int : (fuel sz align : ℕ) → (phys : Bool) → Cmd (ℕ × Option ℕ)
unfolding place physical
kmalloc_int zero sz align phys = λ _. out_of_fuel
kmalloc_int (suc fuel) sz align phys =
    let kmalloc_ap : KmallocAp = λ n. and_phys (kmalloc_int fuel n 1 true) in
    do
      k ← get
      if k.kheap == 0
          then (do addr ← place sz align; pure (addr, if phys then some addr else none))
          else (do
            addr ← alloc kmalloc_ap fuel sz (u8 align)
            if phys
                then (do at ← physical kmalloc_ap addr; pure (addr, some at))
                else pure (addr, none))

unfoldable pub kmalloc_a : (fuel sz : ℕ) → Cmd ℕ
unfolding kmalloc_int
kmalloc_a fuel sz = do (addr, _) ← kmalloc_int fuel sz 1 false; pure addr

unfoldable pub kmalloc_p : ℕ → KmallocAp
unfolding kmalloc_int
kmalloc_p fuel sz = and_phys (kmalloc_int fuel sz 0 true)

unfoldable pub kmalloc_ap : ℕ → KmallocAp
unfolding kmalloc_int
kmalloc_ap fuel sz = and_phys (kmalloc_int fuel sz 1 true)

unfoldable pub kmalloc : (fuel sz : ℕ) → Cmd ℕ
unfolding kmalloc_int
kmalloc fuel sz = do (addr, _) ← kmalloc_int fuel sz 0 false; pure addr

-- `free(p, kheap)`: with no heap a pointer that is not null leads to an access through `kheap`.
unfoldable pub kfree : (fuel p : ℕ) → Cmd (Unit {0})
kfree fuel p = do
  k ← get
  if k.kheap == 0 && not (p == 0) then (λ _. fault) else free (kmalloc_ap fuel) p
