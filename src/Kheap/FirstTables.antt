-- ===== src/Kheap/FirstTables.antt =====
-- kernel/mm/paging.c: the bitset, the directory and the two tables that `init_paging` has made before the
-- first `alloc_frame`.
use pyramid_kernel.Prelude.{
  ℕ, suc, ◌+◌, ◌*◌, ◌/◌, ◌%◌, ◌≤◌, ◌<◌, ◌≡◌, ◌≢◌, inl, inr, arith, ◌∙◌, ap, refl,
}
use mathlib.Core.Path.{subst}
use pyramid_kernel.Prelude.Bits.{test_bit, test_bit-zero}
use pyramid_kernel.Memory.{Memory, IsBytes, load32, load32_ext}
use pyramid_kernel.Memory.Bytes.{memset, memset_lem, memset-IsBytes}
use pyramid_kernel.Kernel.{Kernel, ok}
use pyramid_kernel.Paging.{get_page, page_in, section_size, section_at}
use pyramid_kernel.Paging.Frames.{used}
use pyramid_kernel.Paging.Pages.{slot, Made, Leaves, get_page-Made}
use pyramid_kernel.Kheap.{kheap_start}
use pyramid_kernel.Kheap.Kmalloc.{kmalloc_ap}
use pyramid_kernel.Kheap.Overlap.{after_bitset}
use pyramid_kernel.Kheap.MapHeap.{
  after_directory, next_page, kmalloc_ap-early, load32_zero, first_page,
}
use pyramid_kernel.Kheap.Paged.{own_frames}
use pyramid_kernel.Kheap.Identity.{Identity}

-- With its section all zero a frame has no mark.
zero_section :
    (base f : ℕ) (m : Memory)
    → ((b : ℕ) → base ≤ b → b < base + 2048 → m b ≡ 0)
    → f < own_frames
    → used base f m ≡ 0
zero_section base f m blank own =
    let p = section_at base (f / section_size) in
    let word : load32 m p ≡ 0 =
      load32_ext m (λ _. 0) p (λ b low high. blank b (omega arith) (omega arith)) ∙ load32_zero p in
    ap (λ w. test_bit w (f % section_size)) word ∙ test_bit-zero (f % section_size)

module _ (k : Kernel) where
  abbrev dir : ℕ
  dir = next_page (after_bitset k)

  -- The bitset is still blank when the directory is set up behind its 2048 bytes.
  blank_bitset :
      (b : ℕ)
      → k.placement_address ≤ b
      → b < k.placement_address + 2048
      → (after_directory k).mem b ≡ 0
  blank_bitset b low high =
      let m₁ = (after_bitset k).mem in
      let outside : memset m₁ dir 0 8192 b ≡ m₁ b = ground (arith, memset_lem m₁ dir 0 8192 b) in
      outside ∙ ground (arith, memset_lem k.mem k.placement_address 0 2048 b)

  blank_directory : (b : ℕ) → dir ≤ b → b < dir + 8192 → (after_directory k).mem b ≡ 0
  blank_directory b low high = ground (arith, memset_lem (after_bitset k).mem dir 0 8192 b)

  module _ (heap low : ℕ) (m₃ m₄ : Memory) (unset : k.kheap ≡ 0) (heap_low : dir + 8192 ≤ heap)
      (low_low : heap + 4096 ≤ low) where
    abbrev k₃ : Kernel
    k₃ = record (after_directory k) { placement_address = heap + 4096; mem = m₃ }

    abbrev k₄ : Kernel
    k₄ = record (after_directory k) { placement_address = low + 4096; mem = m₄ }

    module _
        (first : Leaves dir kheap_start heap
          (record (after_directory k) { placement_address = heap + 4096 })
          k₃)
        (second : Leaves dir 0 low (record k₃ { placement_address = low + 4096 }) k₄)
        (heap_made : Made dir kheap_start heap heap k₃) (low_made : Made dir 0 low low k₄)
        (bytes₄ : IsBytes m₄) where
      kept_heap : load32 m₄ (slot dir kheap_start) ≡ heap
      kept_heap =
          load32_ext m₄ m₃ (slot dir kheap_start) (λ b from to.
            second.others b (inl (omega arith)) (inr (omega arith)) (inl (omega arith)))
          ∙ heap_made.virtual

      blank₄ : (b : ℕ) → k.placement_address ≤ b → b < k.placement_address + 2048 → m₄ b ≡ 0
      blank₄ b from to =
          second.others b (inl (omega arith)) (inl (omega arith)) (inl (omega arith))
          ∙ first.others b (inl (omega arith)) (inl (omega arith)) (inl (omega arith))
          ∙ blank_bitset b from to

      -- Before the first round no frame is marked and no page is mapped.
      first-Identity : Identity low heap 0 k₄
      first-Identity = record {
        paged = record {
          no_heap = unset;
          frames = refl;
          behind = omega arith;
          low_behind = omega arith;
          heap_behind = heap_low;
          low_at = low_made.virtual;
          heap_at = kept_heap;
          unmarked = λ f _ own. zero_section k.placement_address f m₄ blank₄ own;
          bytes = bytes₄;
        };
        marked = λ f below. absurd (omega arith);
        held = λ j below. absurd (omega arith);
        empty = λ j _ own.
            load32_ext m₄ (λ _. 0) (low + 4 * j)
              (λ b from to. low_made.empty b (omega arith) (omega arith))
            ∙ load32_zero (low + 4 * j);
      }

    -- Nor has the directory a table for the first 4 MiB after the one for the heap is made.
    no_low_table :
        Leaves dir kheap_start heap
          (record (after_directory k) { placement_address = heap + 4096 })
          k₃
        → load32 m₃ (slot dir 0) ≡ 0
    no_low_table first =
        load32_ext m₃ (λ _. 0) (slot dir 0)
          (λ b from to.
            first.others b (inl (omega arith)) (inl (omega arith)) (inl (omega arith))
            ∙ blank_directory b (omega arith) (omega arith))
        ∙ load32_zero (slot dir 0)

-- The state with its last table at `table`, and `mem` for its memory.
abbrev pub with_table : Kernel → (table : ℕ) → Memory → Kernel
with_table k table m = record (after_directory k) { placement_address = table + 4096; mem = m }

-- The two `get_page`s that make a table, as the first rounds of the first and second loop call them.
pub record FirstTables (fuel : ℕ) (k : Kernel) (heap low : ℕ) (m₃ m₄ : Memory) : Type 0 where
  pub heap_page :
      get_page (kmalloc_ap fuel) kheap_start 1 (next_page (after_bitset k)) (after_directory k)
      ≡ ok (page_in heap (kheap_start / 0x1000)) (with_table k heap m₃)
  pub heap_there : load32 m₃ (slot (next_page (after_bitset k)) kheap_start) ≢ 0
  pub low_page :
      get_page (kmalloc_ap fuel) 0 1 (next_page (after_bitset k)) (with_table k heap m₃)
      ≡ ok (low + 4 * 0) (with_table k low m₄)
  pub identity : Identity low heap 0 (with_table k low m₄)
  pub ordered : heap + 0x1000 ≤ low
  pub near : low ≤ k.placement_address + 0x6800

pub first_tables :
    (fuel : ℕ) (k : Kernel)
    → k.kheap ≡ 0
    → 4096 ≤ k.placement_address
    → k.placement_address + 0x1_0000 ≤ 0x40_0000
    → IsBytes k.mem
    → (heap low : ℕ) × (m₃ m₄ : Memory) × FirstTables (suc fuel) k heap low m₃ m₄
first_tables fuel k unset high room bytes =
    let dir = next_page (after_bitset k) in
    let (heap, k₃, e₃, made₃, nonzero₃, leaves₃, heap_low, heap_near) =
      first_page fuel k unset high (omega arith) in
    let m₃ = k₃.mem in
    let K₃ = with_table k heap m₃ in
    let E₃ : get_page (kmalloc_ap (suc fuel)) kheap_start 1 dir (after_directory k)
        ≡ ok (page_in heap (kheap_start / 0x1000)) K₃ =
      e₃ ∙ ap (ok (page_in heap (kheap_start / 0x1000))) leaves₃.same in
    let made : Made dir kheap_start heap heap K₃ =
      subst (λ s. Made dir kheap_start heap heap s) leaves₃.same made₃ in
    let leaves : Leaves dir kheap_start heap (with_table k heap (after_directory k).mem) K₃ =
      subst (λ s. Leaves dir kheap_start heap (with_table k heap (after_directory k).mem) s)
        leaves₃.same leaves₃ in
    let (low, call, low_low, low_near) =
      kmalloc_ap-early fuel K₃ unset (omega arith) (omega arith) in
    let (k₄, e₄, made₄, _, leaves₄) =
      get_page-Made (kmalloc_ap (suc fuel)) 0 1 dir low low K₃
        (record K₃ { placement_address = low + 4096 }) (omega arith) (omega arith)
        (no_low_table k heap low m₃ m₃ unset heap_low low_low leaves) call (omega arith)
        (omega arith) (omega arith) (inr (omega arith)) in
    let K₄ = with_table k low k₄.mem in
    let made' : Made dir 0 low low K₄ = subst (λ s. Made dir 0 low low s) leaves₄.same made₄ in
    let leaves' : Leaves dir 0 low (record K₃ { placement_address = low + 4096 }) K₄ =
      subst (λ s. Leaves dir 0 low (record K₃ { placement_address = low + 4096 }) s) leaves₄.same
        leaves₄ in
    (
      heap,
      low,
      m₃,
      k₄.mem,
      record {
        heap_page = E₃;
        heap_there = omega (arith, made.virtual, heap_low);
        low_page = e₄ ∙ ap (ok (page_in low 0)) leaves₄.same;
        identity =
            first-Identity k heap low m₃ k₄.mem unset heap_low low_low leaves leaves' made made' (
              leaves'.bytes (
                leaves.bytes (
                  memset-IsBytes (after_bitset k).mem dir 0 8192
                    (memset-IsBytes k.mem k.placement_address 0 2048 bytes))));
        ordered = low_low;
        near = omega arith;
      },
    )
