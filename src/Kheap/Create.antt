-- ===== src/Kheap/Create.antt =====
-- kernel/mm/kheap.c: the heap that `create_heap` sets up.
use pyramid_kernel.Prelude.{
  ℕ, suc, refl, ◌+◌, ◌-◌, ◌*◌, ◌/◌, ◌^◌, ◌≤◌, ◌<◌, ◌≡◌, ◌⊎◌, inr, arith, ap, ◌∙◌, [], ◌∷◌, sub32,
  add32,
}
use mathlib.Core.Path.{subst}
use pyramid_kernel.Memory.{Memory, IsBytes}
use pyramid_kernel.Memory.Bytes.{memset, memset-IsBytes}
use pyramid_kernel.OrderedArray.{OrderedArray, item_at, insert_ordered_array, place_ordered_array}
use pyramid_kernel.OrderedArray.Cells.{contents}
use pyramid_kernel.OrderedArray.Insert.{insert_before, insert_ordered_array-contents}
use pyramid_kernel.OrderedArray.Undo.{insert_ordered_array-IsBytes}
use pyramid_kernel.OrderedArray.Count.{count}
use pyramid_kernel.Kernel.{Kernel, ok}
use pyramid_kernel.Kheap.{header_t_less_than, heap_index_size, write_header}
use pyramid_kernel.Kheap.Blocks.{
  HeaderAt, HeaderAt-ext, write_header-HeaderAt, write_header-IsBytes,
}
use pyramid_kernel.Kheap.Alloc.{index_insert}
use pyramid_kernel.Kheap.Chain.{hole, Chain, holes}
use pyramid_kernel.Kheap.Allocation.{WellFormed}
use pyramid_kernel.Kheap.Resize.{round_up}
use pyramid_kernel.Kheap.Rounding.{round_up_lem}
use pyramid_kernel.Kheap.Setup.{create_heap}
use pyramid_kernel.Kheap.Overlap.{kmalloc-early}

-- Where the data starts: behind the index, at the page boundary after its end.
abbrev pub data_start : (start : ℕ) → ℕ
data_start start = (start + 0x8_0000) / 4096 * 4096 + 4096

module _ (start end_addr max supervisor readonly : ℕ) (k : Kernel) where
  abbrev empty_index : OrderedArray
  empty_index = record {
    array = start;
    size = 0;
    max_size = heap_index_size;
    less_than = header_t_less_than;
  }

  abbrev cleared : Memory
  cleared = memset k.mem start 0 0x8_0000

  abbrev first_hole : Memory
  first_hole = write_header (data_start start) 1 (sub32 end_addr (data_start start)) cleared

  abbrev entered : OrderedArray × Memory
  entered = insert_ordered_array (data_start start) empty_index first_hole

  abbrev pub created : Kernel
  created = record k {
    mem = entered.1;
    placement_address = k.placement_address + 32;
    heap = record {
      index = entered.0;
      start_address = data_start start;
      end_address = end_addr;
      max_address = max;
      supervisor = supervisor;
      readonly = readonly;
    };
  }

  module _ (fuel : ℕ) (unset : k.kheap ≡ 0) (high : 4096 ≤ k.placement_address)
      (room : k.placement_address + 4128 < 2 ^ 32) (fits : start + 0x8_1000 < 2 ^ 32) where
    data_start-round_up : round_up (add32 start 0x8_0000) ≡ data_start start
    data_start-round_up =
        let whole : add32 start 0x8_0000 ≡ start + 0x8_0000 = omega arith in
        rw whole (round_up_lem (start + 0x8_0000) (omega arith) ∙ ground arith)

    pub create_heap-created :
        create_heap (suc fuel) start end_addr max supervisor readonly k
        ≡ ok k.placement_address created
    unfolding create_heap index_insert place_ordered_array
    create_heap-created =
        rw (kmalloc-early fuel 32 k unset high (omega arith), data_start-round_up) refl

    module _ (enough : data_start start + 20 ≤ end_addr) (in_memory : end_addr < 2 ^ 32)
        (bytes : IsBytes k.mem) where
      first_hole-IsBytes : IsBytes first_hole
      first_hole-IsBytes =
          write_header-IsBytes (data_start start) 1 (sub32 end_addr (data_start start)) cleared
            (omega arith) (memset-IsBytes k.mem start 0 0x8_0000 bytes)

      entered_lem :
          (contents entered.0 entered.1
            ≡ insert_before (header_t_less_than first_hole) (data_start start) [])
          × ((b : ℕ) → (b < start) ⊎ (item_at start 1 ≤ b) → entered.1 b ≡ first_hole b)
      entered_lem =
          insert_ordered_array-contents (data_start start) empty_index first_hole (omega arith)
            (omega arith) first_hole-IsBytes

      created_hole : HeaderAt entered.1 (data_start start) 1 (end_addr - data_start start)
      created_hole =
          let all : sub32 end_addr (data_start start) ≡ end_addr - data_start start = omega arith in
          HeaderAt-ext first_hole entered.1 (data_start start) 1 (end_addr - data_start start)
            (λ b low high. entered_lem.1 b (inr (omega arith)))
            (subst (λ size. HeaderAt first_hole (data_start start) 1 size) all
              (write_header-HeaderAt (data_start start) 1 (sub32 end_addr (data_start start))
                cleared (omega arith)))

-- A heap of one hole, from the data's start to the end, which is the one item of the index; it is well
-- formed.
pub record IsFresh (start end_addr : ℕ) (k' : Kernel) : Type 0 where
  pub only_hole : HeaderAt k'.mem (data_start start) 1 (end_addr - data_start start)
  pub index : contents k'.heap.index k'.mem ≡ data_start start ∷ []
  pub first : k'.heap.start_address ≡ data_start start
  pub last : k'.heap.end_address ≡ end_addr
  pub well_formed : WellFormed k' (hole (end_addr - data_start start) ∷ [])

created-WellFormed :
    (start end_addr max supervisor readonly : ℕ) (k : Kernel)
    → data_start start + 20 ≤ end_addr
    → end_addr < 2 ^ 32
    → IsBytes k.mem
    → let k' = created start end_addr max supervisor readonly k in
      HeaderAt k'.mem (data_start start) 1 (end_addr - data_start start)
      → contents k'.heap.index k'.mem ≡ data_start start ∷ []
      → WellFormed k' (hole (end_addr - data_start start) ∷ [])
unfolding Chain holes insert_ordered_array
created-WellFormed start end_addr max supervisor readonly k enough in_memory bytes hole_at only =
    record {
      chain = (hole_at, omega arith, omega arith);
      index = λ x. ap (count x) only;
      behind_index = omega arith;
      in_memory = in_memory;
      bytes =
          insert_ordered_array-IsBytes (data_start start)
            (empty_index start end_addr max supervisor readonly k)
            (first_hole start end_addr max supervisor readonly k)
            (write_header-IsBytes (data_start start) 1 (sub32 end_addr (data_start start))
              (cleared start end_addr max supervisor readonly k) (omega arith)
              (memset-IsBytes k.mem start 0 0x8_0000 bytes));
    }

pub created-IsFresh :
    (fuel start end_addr max supervisor readonly : ℕ) (k : Kernel)
    → k.kheap ≡ 0
    → 4096 ≤ k.placement_address
    → k.placement_address + 4128 < 2 ^ 32
    → data_start start + 20 ≤ end_addr
    → end_addr < 2 ^ 32
    → IsBytes k.mem
    → IsFresh start end_addr (created start end_addr max supervisor readonly k)
unfolding insert_before insert_ordered_array
created-IsFresh fuel start end_addr max supervisor readonly k unset high room enough in_memory
      bytes =
    let fits : start + 0x8_1000 < 2 ^ 32 = omega arith in
    let hole_at =
      created_hole start end_addr max supervisor readonly k fuel unset high room fits enough
        in_memory bytes in
    let only =
      (entered_lem start end_addr max supervisor readonly k fuel unset high room fits enough
        in_memory bytes).0 in
    record {
      only_hole = hole_at;
      index = only;
      first = refl;
      last = refl;
      well_formed =
          created-WellFormed start end_addr max supervisor readonly k enough in_memory bytes hole_at
            only;
    }

-- Without a heap, with `placement_address` behind the first page and room for the heap's structure,
-- in a memory of bytes, and with an `end_addr` that leaves room for the index, the rest of its last
-- page and an empty block: `create_heap` returns the structure's address, and the heap is one hole,
-- from the page boundary behind the index (a further one, if the index ends at one) to `end_addr`,
-- which is the one item of the index; it is well formed.
pub create_heap-IsFresh :
    (fuel start end_addr max supervisor readonly : ℕ) (k : Kernel)
    → k.kheap ≡ 0
    → 4096 ≤ k.placement_address
    → k.placement_address + 4128 < 2 ^ 32
    → data_start start + 20 ≤ end_addr
    → end_addr < 2 ^ 32
    → IsBytes k.mem
    → (k' : Kernel) × (create_heap (suc fuel) start end_addr max supervisor readonly k
        ≡ ok k.placement_address k')
      × IsFresh start end_addr k'
create_heap-IsFresh fuel start end_addr max supervisor readonly k unset high room enough in_memory
      bytes =
    (
      created start end_addr max supervisor readonly k,
      create_heap-created start end_addr max supervisor readonly k fuel unset high room
          (omega arith),
      created-IsFresh fuel start end_addr max supervisor readonly k unset high room enough in_memory
          bytes,
    )
