-- ===== src/Kheap/Marked.antt =====
-- kernel/mm/kheap.c: `free` by its steps. The block is marked as a hole, joined on its left, joined on
-- its right, and put into the index if no hole on its left has it there already.
use pyramid_kernel.Prelude.{
  ℕ, refl, ◌+◌, ◌-◌, ◌^◌, ◌≤◌, ◌<◌, ◌≡◌, ◌≢◌, ◌⊎◌, inl, inr, arith, ◌==◌, ◌∙◌, sym, add32, sub32,
  true, false, not, ◌&&◌, if◌then◌else◌,
}
use pyramid_kernel.Memory.{Memory, load32, store8, load32_ext}
use pyramid_kernel.Kernel.{Kernel, ok, pure}
use pyramid_kernel.Paging.{KmallocAp}
use pyramid_kernel.Kheap.{heap_magic, magic_of, is_hole_of, size_of}
use pyramid_kernel.Kheap.Blocks.{HeaderAt}
use pyramid_kernel.Kheap.Alloc.{index_insert}
use pyramid_kernel.Kheap.Release.{Span, header_of, free, release, unify_left, unify_right}

-- No hole ends in front of `header`: what lies there is no footer, or belongs to something else that is
-- no hole.
abbrev pub NoHoleBefore : Memory → (header : ℕ) → Type 0
NoHoleBefore m header =
    (magic_of m (header - 8) ≢ heap_magic)
    ⊎ ((is_hole_of m (header_of m (header - 8)) ≢ 1) × (header_of m (header - 8) ≢ header))

-- No hole starts at `next`: what lies there is no header, or no hole.
abbrev pub NoHoleAt : Memory → (next : ℕ) → Type 0
NoHoleAt m next = (magic_of m next ≢ heap_magic) ⊎ (is_hole_of m next ≡ 0)

pub NoHoleAt-ext :
    (m m' : Memory) (next : ℕ)
    → ((b : ℕ) → next ≤ b → b < next + 5 → m' b ≡ m b)
    → NoHoleAt m next
    → NoHoleAt m' next
NoHoleAt-ext m m' next same nothing =
    let magic : magic_of m' next ≡ magic_of m next =
      load32_ext m' m next λ b low high. same b low (omega arith) in
    let hole : is_hole_of m' next ≡ is_hole_of m next =
      same (next + 4) (omega arith) (omega arith) in
    elim nothing [ inl none ↦ inl (λ e. none (sym magic ∙ e)) | inr block ↦ inr (hole ∙ block) ]

module _ (k : Kernel) (header : ℕ) where
  abbrev pub marked : Memory
  marked = store8 k.mem (header + 4) 1

  abbrev pub marked_kernel : Kernel
  marked_kernel = record k { mem = marked }

  pub marked_outside : (b : ℕ) → b ≢ header + 4 → marked b ≡ k.mem b
  marked_outside b other = ground arith

  pub marked_word :
      (a : ℕ) → (a + 4 ≤ header + 4) ⊎ (header + 5 ≤ a) → load32 marked a ≡ load32 k.mem a
  marked_word a apart = load32_ext marked k.mem a λ b low high. marked_outside b (omega arith)

  pub marked-HeaderAt :
      (hole size : ℕ) → HeaderAt k.mem header hole size → HeaderAt marked header 1 size
  marked-HeaderAt hole size block = record {
    magic = marked_word header (inl (omega arith)) ∙ block.magic;
    hole = ground arith;
    span = marked_word (header + 8) (inr (omega arith)) ∙ block.span;
  }

  pub marked-NoHoleAt : (next : ℕ) → header + 8 ≤ next → NoHoleAt k.mem next → NoHoleAt marked next
  marked-NoHoleAt next behind nothing =
      NoHoleAt-ext k.mem marked next (λ b low high. marked_outside b (omega arith)) nothing

  left_alone :
      8 ≤ header
      → NoHoleBefore k.mem header
      → (magic_of marked (header - 8) == heap_magic)
          && (is_hole_of marked (header_of marked (header - 8)) == 1)
        ≡ false
  left_alone room before =
      let magic : magic_of marked (header - 8) ≡ magic_of k.mem (header - 8) =
        marked_word (header - 8) (inl (omega arith)) in
      let owner : header_of marked (header - 8) ≡ header_of k.mem (header - 8) =
        marked_word (header - 8 + 4) (inl (omega arith)) in
      elim before [
        | inl none ↦
            let no : (magic_of marked (header - 8) == heap_magic) ≡ false = ground arith in
            rw no refl
        | inr other ↦
            let hole : is_hole_of marked (header_of marked (header - 8))
                ≡ is_hole_of k.mem (header_of k.mem (header - 8)) =
              rw owner
                (marked_outside (header_of k.mem (header - 8) + 4) (omega (arith, other.1))) in
            ground (arith, hole, other.0)
      ]

  -- With no hole on the left the block stays as it is.
  pub unify_left-alone :
      (footer : ℕ)
      → 8 ≤ header
      → header < 2 ^ 32
      → NoHoleBefore k.mem header
      → unify_left header footer marked_kernel
        ≡ ok (record { header = header; footer = footer; do_add = true }) marked_kernel
  unfolding unify_left
  unify_left-alone footer room fits before =
      let front : sub32 header 8 ≡ header - 8 = omega arith in
      ground (arith, front, left_alone room before)

-- With no hole on the right too.
pub unify_right-alone :
    (header footer : ℕ) (k : Kernel)
    → footer + 8 < 2 ^ 32
    → NoHoleAt k.mem (footer + 8)
    → unify_right header footer k ≡ ok footer k
unfolding unify_right
unify_right-alone header footer k fits behind =
    let next : add32 footer 8 ≡ footer + 8 = omega arith in
    let test : (magic_of k.mem (footer + 8) == heap_magic)
          && not (is_hole_of k.mem (footer + 8) == 0)
        ≡ false =
      ground arith in
    rw (next, test) refl

-- `free` of a block with a header, by the results of the two joins, if it does not reach the heap's
-- end.
pub free-steps :
    (kmalloc_ap : KmallocAp) (k k₁ k₂ : Kernel) (header hole size footer : ℕ) (span : Span)
    → HeaderAt k.mem header hole size
    → 20 ≤ size
    → header + size < 2 ^ 32
    → unify_left header (header + size - 8) (marked_kernel k header) ≡ ok span k₁
    → unify_right span.header span.footer k₁ ≡ ok footer k₂
    → (add32 footer 8 == k₂.heap.end_address) ≡ false
    → free kmalloc_ap (header + 12) k
      ≡ (if span.do_add then index_insert span.header else pure tt) k₂
unfolding free release
free-steps kmalloc_ap k k₁ k₂ header hole size footer span block fits in_memory left right inside =
    let some_pointer : (header + 12 == 0) ≡ false = ground arith in
    let top : sub32 (header + 12) 12 ≡ header = omega arith in
    let foot : sub32 (add32 header (size_of k.mem header)) 8 ≡ header + size - 8 =
      omega (arith, block.span) in
    rw (some_pointer, top, foot, left, right, inside) refl
