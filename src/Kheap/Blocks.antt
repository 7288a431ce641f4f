-- ===== src/Kheap/Blocks.antt =====
-- kernel/mm/kheap.h: headers and footers as they stand in memory.
use pyramid_kernel.Prelude.{ℕ, ◌+◌, ◌^◌, ◌≤◌, ◌<◌, ◌≡◌, ◌⊎◌, arith, ◌∙◌}
use pyramid_kernel.Memory.{
  Memory, load32, store32, store8, IsBytes, load32_ext, store32_outside, load32-store32_self,
  load32-store32_ne, store32-IsBytes,
}
use pyramid_kernel.Kheap.{heap_magic, magic_of, is_hole_of, size_of, write_header, write_footer}

-- The fields of the header at an address.
pub record HeaderAt (m : Memory) (header is_hole size : ℕ) : Type 0 where
  pub magic : magic_of m header ≡ heap_magic
  pub hole : is_hole_of m header ≡ is_hole
  pub span : size_of m header ≡ size

-- The fields of the footer at an address.
pub record FooterAt (m : Memory) (footer header : ℕ) : Type 0 where
  pub magic : magic_of m footer ≡ heap_magic
  pub owner : load32 m (footer + 4) ≡ header

-- Memories that agree on it hold the same header.
pub HeaderAt-ext :
    (m m' : Memory) (header is_hole size : ℕ)
    → ((b : ℕ) → header ≤ b → b < header + 12 → m' b ≡ m b)
    → HeaderAt m header is_hole size
    → HeaderAt m' header is_hole size
HeaderAt-ext m m' header is_hole size same h = record {
  magic = load32_ext m' m header (λ b low high. same b low (omega arith)) ∙ h.magic;
  hole = same (header + 4) (omega arith) (omega arith) ∙ h.hole;
  span = load32_ext m' m (header + 8) (λ b low high. same b (omega arith) (omega arith)) ∙ h.span;
}

pub FooterAt-ext :
    (m m' : Memory) (footer header : ℕ)
    → ((b : ℕ) → footer ≤ b → b < footer + 8 → m' b ≡ m b)
    → FooterAt m footer header
    → FooterAt m' footer header
FooterAt-ext m m' footer header same f = record {
  magic = load32_ext m' m footer (λ b low high. same b low (omega arith)) ∙ f.magic;
  owner = load32_ext m' m (footer + 4) (λ b low high. same b (omega arith) (omega arith)) ∙ f.owner;
}

pub write_header_outside :
    (header is_hole size b : ℕ) (m : Memory)
    → (b < header) ⊎ (header + 12 ≤ b)
    → write_header header is_hole size m b ≡ m b
unfolding write_header
write_header_outside header is_hole size b m apart =
    store32_outside (store8 (store32 m header heap_magic) (header + 4) is_hole) (header + 8) size b
      (omega arith)
    ∙ ground (arith, store32_outside m header heap_magic b (omega arith))

pub write_header-HeaderAt :
    (header is_hole size : ℕ) (m : Memory)
    → size < 2 ^ 32
    → HeaderAt (write_header header is_hole size m) header is_hole size
unfolding write_header
write_header-HeaderAt header is_hole size m fits =
    let m₁ = store32 m header heap_magic in
    let m₂ = store8 m₁ (header + 4) is_hole in
    record {
      magic =
          load32-store32_ne m₂ (header + 8) size header (omega arith)
          ∙ load32_ext m₂ m₁ header (λ b low high. ground arith)
          ∙ load32-store32_self m header heap_magic (omega arith);
      hole = store32_outside m₂ (header + 8) size (header + 4) (omega arith) ∙ ground arith;
      span = load32-store32_self m₂ (header + 8) size fits;
    }

pub write_footer_outside :
    (footer header b : ℕ) (m : Memory)
    → (b < footer) ⊎ (footer + 8 ≤ b)
    → write_footer footer header m b ≡ m b
unfolding write_footer
write_footer_outside footer header b m apart =
    store32_outside (store32 m footer heap_magic) (footer + 4) header b (omega arith)
    ∙ store32_outside m footer heap_magic b (omega arith)

pub write_footer-FooterAt :
    (footer header : ℕ) (m : Memory)
    → header < 2 ^ 32
    → FooterAt (write_footer footer header m) footer header
unfolding write_footer
write_footer-FooterAt footer header m fits = record {
  magic =
      load32-store32_ne (store32 m footer heap_magic) (footer + 4) header footer (omega arith)
      ∙ load32-store32_self m footer heap_magic (omega arith);
  owner = load32-store32_self (store32 m footer heap_magic) (footer + 4) header fits;
}

pub write_header-IsBytes :
    (header is_hole size : ℕ) (m : Memory)
    → is_hole < 256
    → IsBytes m
    → IsBytes (write_header header is_hole size m)
unfolding write_header
write_header-IsBytes header is_hole size m byte bytes =
    store32-IsBytes (store8 (store32 m header heap_magic) (header + 4) is_hole) (header + 8) size
      λ b. ground (arith, store32-IsBytes m header heap_magic bytes b)

pub write_footer-IsBytes :
    (footer header : ℕ) (m : Memory) → IsBytes m → IsBytes (write_footer footer header m)
unfolding write_footer
write_footer-IsBytes footer header m bytes =
    store32-IsBytes (store32 m footer heap_magic) (footer + 4) header
      (store32-IsBytes m footer heap_magic bytes)
