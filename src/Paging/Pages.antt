-- ===== src/Paging/Pages.antt =====
-- kernel/mm/paging.c: what `get_page` answers, with the page table there, missing, or made.
use pyramid_kernel.Prelude.{ℕ, ◌+◌, ◌/◌, ◌^◌, ◌≤◌, ◌<◌, ◌≡◌, ◌≢◌, ◌⊎◌, arith, ◌∙◌, ap, refl, bit_or}
use pyramid_kernel.Prelude.Bits.{bit_or-lt}
use pyramid_kernel.Memory.{
  Memory, IsBytes, load32, store32, store32-IsBytes, load32_ext, store32_outside,
  load32-store32_self, load32-store32_ne,
}
use pyramid_kernel.Memory.Bytes.{memset, memset_lem, memset-IsBytes}
use pyramid_kernel.Kernel.{Kernel, ok}
use pyramid_kernel.Paging.{KmallocAp, get_page, make_table, page_in, table_virtual, table_physical}

-- The slot of the address in `page_tables_virtual`.
abbrev pub slot : (dir address : ℕ) → ℕ
slot dir address = table_virtual dir (address / 0x1000 / 1024)

module _ (kmalloc_ap : KmallocAp) (address make dir : ℕ) (k : Kernel) where
  -- With the table there, `get_page` returns the entry's address and changes nothing.
  pub get_page_present :
      load32 k.mem (slot dir address) ≢ 0
      → get_page kmalloc_ap address make dir k
        ≡ ok (page_in (load32 k.mem (slot dir address)) (address / 0x1000)) k
  unfolding get_page
  get_page_present present = ground arith

  -- Without it, and with `make` 0, it returns the null pointer and changes nothing.
  pub get_page_missing :
      load32 k.mem (slot dir address) ≡ 0
      → make ≡ 0
      → get_page kmalloc_ap address make dir k ≡ ok 0 k
  unfolding get_page
  get_page_missing missing no_make = ground arith

-- The memory after the table is made at `table`, from the one that `kmalloc_ap` leaves.
abbrev pub made_memory : (dir index table phys : ℕ) → Memory → Memory
made_memory dir index table phys m =
    store32 (memset (store32 m (table_virtual dir index) table) table 0 0x1000)
      (table_physical dir index) (bit_or phys 0x7)

-- What `get_page` has made: the directory points to the table, by its virtual address and, with the
-- flags PRESENT, RW and US, by its physical one; the table is empty.
pub record Made (dir address table phys : ℕ) (k' : Kernel) : Type 0 where
  pub virtual : load32 k'.mem (slot dir address) ≡ table
  pub physical : load32 k'.mem (table_physical dir (address / 0x1000 / 1024)) ≡ bit_or phys 0x7
  pub empty : (b : ℕ) → table ≤ b → b < table + 0x1000 → k'.mem b ≡ 0

module _ (dir index table phys : ℕ) (m : Memory) (low : index < 1024) (fits : table < 2 ^ 32)
    (apart : (table + 0x1000 ≤ dir) ⊎ (dir + 8192 ≤ table)) where
  abbrev linked : Memory
  linked = store32 m (table_virtual dir index) table

  cleared_outside :
      (b : ℕ) → (b < table) ⊎ (table + 0x1000 ≤ b) → memset linked table 0 0x1000 b ≡ linked b
  cleared_outside b out = ground (arith, memset_lem linked table 0 0x1000 b)

  made-linked : load32 (memset linked table 0 0x1000) (table_virtual dir index) ≡ table
  made-linked =
      load32_ext (memset linked table 0 0x1000) linked (table_virtual dir index)
        (λ b from to. cleared_outside b (omega arith))
      ∙ load32-store32_self m (table_virtual dir index) table fits

  made-virtual : load32 (made_memory dir index table phys m) (table_virtual dir index) ≡ table
  made-virtual =
      load32-store32_ne (memset linked table 0 0x1000) (table_physical dir index) (bit_or phys 0x7)
        (table_virtual dir index) (omega arith)
      ∙ made-linked

  made-empty : (b : ℕ) → table ≤ b → b < table + 0x1000 → made_memory dir index table phys m b ≡ 0
  made-empty b from to =
      store32_outside (memset linked table 0 0x1000) (table_physical dir index) (bit_or phys 0x7) b
        (omega arith)
      ∙ ground (arith, memset_lem linked table 0 0x1000 b)

make_table_lem :
    (kmalloc_ap : KmallocAp) (dir index table phys : ℕ) (k k₁ : Kernel)
    → kmalloc_ap 4096 k ≡ ok (table, phys) k₁
    → load32 (store32 k₁.mem (table_virtual dir index) table) (table_virtual dir index) ≡ table
    → make_table kmalloc_ap dir index k
      ≡ ok tt (record k₁ { mem = made_memory dir index table phys k₁.mem })
unfolding make_table
make_table_lem kmalloc_ap dir index table phys k k₁ call linked_at = ground arith

get_page-make :
    (kmalloc_ap : KmallocAp) (address make dir table phys : ℕ) (k k₁ : Kernel)
    → make ≢ 0
    → load32 k.mem (slot dir address) ≡ 0
    → let k' = record k₁ { mem = made_memory dir (address / 0x1000 / 1024) table phys k₁.mem } in
      make_table kmalloc_ap dir (address / 0x1000 / 1024) k ≡ ok tt k'
      → load32 k'.mem (slot dir address) ≡ table
      → get_page kmalloc_ap address make dir k ≡ ok (page_in table (address / 0x1000)) k'
unfolding get_page
get_page-make kmalloc_ap address make dir table phys k k₁ makes missing made virtual_at =
    ground arith

-- What `get_page` leaves alone when it makes a table: all but the table's page and the two slots of the
-- directory.
pub record Leaves (dir address table : ℕ) (k₁ k' : Kernel) : Type 0 where
  pub same : k' ≡ record k₁ { mem = k'.mem }
  pub others :
      (b : ℕ)
      → (b < table) ⊎ (table + 0x1000 ≤ b)
      → (b < slot dir address) ⊎ (slot dir address + 4 ≤ b)
      → (b < slot dir address + 4096) ⊎ (slot dir address + 4100 ≤ b)
      → k'.mem b ≡ k₁.mem b
  pub bytes : IsBytes k₁.mem → IsBytes k'.mem

made-Leaves :
    (dir address table phys : ℕ) (k₁ : Kernel)
    → Leaves dir address table k₁
        (record k₁ { mem = made_memory dir (address / 0x1000 / 1024) table phys k₁.mem })
made-Leaves dir address table phys k₁ =
    let index = address / 0x1000 / 1024 in
    let m₁ = store32 k₁.mem (table_virtual dir index) table in
    let m₂ = memset m₁ table 0 0x1000 in
    record {
      same = refl;
      others = λ b out away far.
          store32_outside m₂ (table_physical dir index) (bit_or phys 0x7) b (omega arith)
          ∙ (let kept : m₂ b ≡ m₁ b = ground (arith, memset_lem m₁ table 0 0x1000 b) in kept)
          ∙ store32_outside k₁.mem (table_virtual dir index) table b (omega arith);
      bytes = λ bytes. store32-IsBytes m₂ (table_physical dir index) (bit_or phys 0x7) (
          memset-IsBytes m₁ table 0 0x1000
            (store32-IsBytes k₁.mem (table_virtual dir index) table bytes));
    }

-- For a 32-bit address in a directory that has no table for it, with `make` not 0
-- and `kmalloc_ap` returning a page (32-bit addresses, not null, apart from the directory):
-- `get_page` links that page as the table, empties it, and returns the entry's address in it. From
-- then on it returns the same address, makes no table and changes nothing, whatever `make` is. Beside
-- what `kmalloc_ap` does it writes the table's page and its two slots alone.
pub get_page-Made :
    (kmalloc_ap : KmallocAp) (address make dir table phys : ℕ) (k k₁ : Kernel)
    → make ≢ 0
    → address < 2 ^ 32
    → load32 k.mem (slot dir address) ≡ 0
    → kmalloc_ap 4096 k ≡ ok (table, phys) k₁
    → table ≢ 0
    → table < 2 ^ 32
    → phys < 2 ^ 32
    → (table + 0x1000 ≤ dir) ⊎ (dir + 8192 ≤ table)
    → (k' : Kernel) × (get_page kmalloc_ap address make dir k
        ≡ ok (page_in table (address / 0x1000)) k')
      × Made dir address table phys k'
      × ((again : ℕ)
          → get_page kmalloc_ap address again dir k' ≡ ok (page_in table (address / 0x1000)) k')
      × Leaves dir address table k₁ k'
get_page-Made kmalloc_ap address make dir table phys k k₁ makes small missing call nonzero fits
      fits_phys apart =
    let index = address / 0x1000 / 1024 in
    let k' = record k₁ { mem = made_memory dir index table phys k₁.mem } in
    let linked_at = load32-store32_self k₁.mem (table_virtual dir index) table fits in
    let virtual_at = made-virtual dir index table phys k₁.mem (omega arith) fits apart in
    (
      k',
      get_page-make kmalloc_ap address make dir table phys k k₁ makes missing
          (make_table_lem kmalloc_ap dir index table phys k k₁ call linked_at) virtual_at,
      record {
        virtual = virtual_at;
        physical =
            load32-store32_self
              (memset (store32 k₁.mem (table_virtual dir index) table) table 0 0x1000)
              (table_physical dir index) (bit_or phys 0x7)
              (bit_or-lt 32 phys 7 fits_phys (omega arith));
        empty = made-empty dir index table phys k₁.mem (omega arith) fits apart;
      },
      λ again.
          get_page_present kmalloc_ap address again dir k' (ground (arith, virtual_at))
          ∙ ap (λ t. ok (page_in t (address / 0x1000)) k') virtual_at,
      made-Leaves dir address table phys k₁,
    )
