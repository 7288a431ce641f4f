-- ===== src/Paging.antt =====
-- kernel/mm/paging.c: the bitset of physical frames, page-table entries, and the page directory.
pub mod Frames
pub mod FirstFree
pub mod Free
pub mod Pages
use pyramid_kernel.Prelude.{
  ℕ, zero, suc, ◌+◌, ◌-◌, ◌*◌, ◌/◌, ◌%◌, ◌^◌, bit_and, bit_or, ◌==◌, if◌then◌else◌, not, mul32, u32,
  not32, minus_one, ◌&&◌, Option, none, some,
}
use pyramid_kernel.Memory.{Memory, load32, store32}
use pyramid_kernel.Memory.Bytes.{memset}
use pyramid_kernel.Kernel.{
  Kernel, Run, ok, panicked, Cmd, pure, ◌>>=◌, ◌>>◌, get, put, read, write, peek, poke,
}

abbrev pub frame_size : ℕ
frame_size = 4096

abbrev pub section_size : ℕ
section_size = 32

-- `SIZE_OF_PHYSICAL_MEMORY`
abbrev pub size_of_physical_memory : ℕ
size_of_physical_memory = 0x1000_0000

-- The address of `frame_allocations[section]`.
abbrev pub section_at : ℕ → ℕ → ℕ
section_at base section = base + 4 * section

-- `base` is `frame_allocations`.
unfoldable pub set_frame : (base addr : ℕ) → Memory → Memory
set_frame base addr m =
    let frame = addr / frame_size in
    let p = section_at base (frame / section_size) in
    store32 m p (bit_or (load32 m p) (2 ^ (frame % section_size)))

unfoldable pub clear_frame : (base addr : ℕ) → Memory → Memory
clear_frame base addr m =
    let frame = addr / frame_size in
    let p = section_at base (frame / section_size) in
    store32 m p (bit_and (load32 m p) (not32 (2 ^ (frame % section_size))))

-- The inner loop, with `left` bits to go: the first bit from `idx` on that is clear.
unfoldable pub first_clear_bit : ℕ → (left idx : ℕ) → Option ℕ
first_clear_bit word zero idx = none
first_clear_bit word (suc left) idx =
    if bit_and word (2 ^ idx) == 0 then some idx else first_clear_bit word left (idx + 1)

-- The outer loop, with `left` sections to go.
unfoldable pub first_free_from : Memory → ℕ → (left section : ℕ) → ℕ
unfolding first_clear_bit
first_free_from m base zero section = section * section_size
first_free_from m base (suc left) section =
    let word = load32 m (section_at base section) in
    let rest = first_free_from m base left (section + 1) in
    if word == 0xffff_ffff then rest else elim (first_clear_bit word section_size 0) [
      | some idx ↦ section * section_size + idx
      | none ↦ rest
    ]

unfoldable pub first_free_frame : Kernel → ℕ
unfolding first_free_from
first_free_frame k = first_free_from k.mem k.frame_allocations (k.num_of_frames / section_size) 0

-- The bit fields of `page_t`, a packed 32-bit entry: present 0, rw 1, us 2, frame 12 to 31.
abbrev pub frame_of : ℕ → ℕ
frame_of entry = entry / 4096

abbrev pub with_frame : ℕ → ℕ → ℕ
with_frame entry frame = entry % 4096 + frame % 2 ^ 20 * 4096

-- The entry with its fields present, rw and us written.
abbrev pub with_flags : ℕ → (present rw us : ℕ) → ℕ
with_flags entry present rw us = entry / 8 * 8 + us * 4 + rw * 2 + present

abbrev pub page_present : ℕ
page_present = 1

abbrev pub page_read_write : ℕ
page_read_write = 1

abbrev pub page_read_only : ℕ
page_read_only = 0

abbrev pub page_user : ℕ
page_user = 0

abbrev pub page_supervisor : ℕ
page_supervisor = 0

-- `set_frame` and `clear_frame` on the kernel's bitset.
abbrev pub mark_frame : ℕ → Cmd (Unit {0})
mark_frame addr k = ok tt (record k { mem = set_frame k.frame_allocations addr k.mem })

abbrev pub unmark_frame : ℕ → Cmd (Unit {0})
unmark_frame addr k = ok tt (record k { mem = clear_frame k.frame_allocations addr k.mem })

-- `page` is the address of the entry.
unfoldable pub alloc_frame : (page is_supervisor is_writeable : ℕ) → Cmd (Unit {0})
unfolding read write
alloc_frame page is_supervisor is_writeable = do
  entry ← read page
  if not (frame_of entry == 0) then pure tt else do
    k ← get
    let free_frame = first_free_frame k
    if free_frame == minus_one then (λ _. panicked) else do
      let rw_bit = if not (is_writeable == 0) then page_read_write else page_read_only
      let us_bit = if not (is_supervisor == 0) then page_supervisor else page_user
      write page (with_frame (with_flags entry page_present rw_bit us_bit) free_frame)
      mark_frame (mul32 free_frame frame_size)

unfoldable pub free_frame : ℕ → Cmd (Unit {0})
unfolding read write
free_frame page = do
  entry ← read page
  let frame = frame_of entry
  if frame == 0
      then pure tt
      else do unmark_frame frame; entry' ← read page; write page (with_frame entry' 0)

-- Addresses in `page_directory_t`: `page_tables_virtual[i]` and `page_tables_physical[i]`.
abbrev pub table_virtual : ℕ → ℕ → ℕ
table_virtual dir i = dir + 4 * i

abbrev pub table_physical : ℕ → ℕ → ℕ
table_physical dir i = dir + 4096 + 4 * i

-- `kmalloc_ap` as the caller sees it: the address, and what it stores through `phys`.
abbrev pub KmallocAp : Type 0
KmallocAp = ℕ → Cmd (ℕ × ℕ)

-- The address of `pages[address % 1024]` in the table.
abbrev pub page_in : (table address : ℕ) → ℕ
page_in table address = table + 4 * (address % 1024)

-- The branch of `get_page` that makes the table.
unfoldable pub make_table : KmallocAp → (dir table_idx : ℕ) → Cmd (Unit {0})
make_table kmalloc_ap dir table_idx = do
  (table, tmp) ← kmalloc_ap 4096
  poke (table_virtual dir table_idx) table
  table' ← peek (table_virtual dir table_idx)
  k ← get
  put (record k { mem = memset k.mem table' 0 0x1000 })
  poke (table_physical dir table_idx) (bit_or tmp 0x7)

unfoldable pub get_page : KmallocAp → (address make dir : ℕ) → Cmd ℕ
unfolding make_table
get_page kmalloc_ap address make dir = do
  let number = address / 0x1000
  let table_idx = number / 1024
  table ← peek (table_virtual dir table_idx)
  if not (table == 0)
      then pure (page_in table number)
      else if not (make == 0)
      then (do
        make_table kmalloc_ap dir table_idx
        table' ← peek (table_virtual dir table_idx)
        pure (page_in table' number))
      else pure 0
