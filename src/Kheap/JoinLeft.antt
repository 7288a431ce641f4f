-- ===== src/Kheap/JoinLeft.antt =====
-- kernel/mm/kheap.c: how `free` joins a block with the hole on its left.
use pyramid_kernel.Prelude.{
  ℕ, refl, ◌+◌, ◌-◌, ◌^◌, ◌≤◌, ◌<◌, ◌≡◌, ◌⊎◌, arith, ◌∙◌, add32, sub32, false,
}
use pyramid_kernel.Memory.{
  Memory, IsBytes, store32, store32-IsBytes, load32_ext, store32_outside, load32-store32_self,
  load32-store32_ne,
}
use pyramid_kernel.Kernel.{Kernel, ok}
use pyramid_kernel.Kheap.{size_of, set_size}
use pyramid_kernel.Kheap.Blocks.{HeaderAt, FooterAt}
use pyramid_kernel.Kheap.Release.{unify_left}

-- Two neighbours in the heap: one of `left_size` bytes at `left`, with a header and a footer, and
-- behind it one of `size` bytes at `header`.
pub record AreNeighbours (m : Memory) (left left_hole left_size header hole size : ℕ) : Type 0 where
  pub left_header : HeaderAt m left left_hole left_size
  pub left_footer : FooterAt m (header - 8) left
  pub right_header : HeaderAt m header hole size
  pub adjacent : left + left_size ≡ header
  pub left_fits : 20 ≤ left_size
  pub right_fits : 20 ≤ size
  pub in_memory : header + size < 2 ^ 32

-- The memory after a join on the left.
abbrev left_joined : (left header footer : ℕ) → Memory → Memory
left_joined left header footer m =
    let m₁ = store32 m (footer + 4) left in
    set_size left (add32 (size_of m₁ left) (size_of m header)) m₁

-- What a join on the left has done: one hole of both sizes, with the left one's header and the right
-- one's footer, which points to that header; no other byte is written.
pub record JoinedLeft (k : Kernel) (left left_size header size : ℕ) (k' : Kernel) : Type 0 where
  pub hole : HeaderAt k'.mem left 1 (left_size + size)
  pub footer : FooterAt k'.mem (header + size - 8) left
  pub index : (k'.heap ≡ k.heap)
  pub bytes : IsBytes k.mem → IsBytes k'.mem
  pub others :
      (b : ℕ)
      → (b < left + 8) ⊎ (left + 12 ≤ b)
      → (b < header + size - 4) ⊎ (header + size ≤ b)
      → k'.mem b ≡ k.mem b

module _ (k : Kernel) (left left_size header hole size : ℕ)
    (near : AreNeighbours k.mem left 1 left_size header hole size) where
  open near use {left_header, left_footer, right_header, adjacent, left_fits, right_fits, in_memory}

  unify_left-joined :
      unify_left header (header + size - 8) k
      ≡ ok
          (record { header = left; footer = header + size - 8; do_add = false })
          (record k { mem = left_joined left header (header + size - 8) k.mem })
  unfolding unify_left
  unify_left-joined =
      let before : sub32 header 8 ≡ header - 8 = omega arith in
      ground (arith, before, left_header.hole, left_footer.magic, left_footer.owner)

  joined_size : size_of (left_joined left header (header + size - 8) k.mem) left ≡ left_size + size
  joined_size =
      let m₁ = store32 k.mem (header + size - 8 + 4) left in
      let kept : size_of m₁ left ≡ left_size =
        load32-store32_ne k.mem (header + size - 8 + 4) left (left + 8) (omega arith)
        ∙ left_header.span in
      load32-store32_self m₁ (left + 8) (add32 (size_of m₁ left) (size_of k.mem header))
        (omega arith)
      ∙ omega (arith, kept, right_header.span)

  joined_outside :
      (b : ℕ)
      → (b < left + 8) ⊎ (left + 12 ≤ b)
      → (b < header + size - 4) ⊎ (header + size ≤ b)
      → left_joined left header (header + size - 8) k.mem b ≡ k.mem b
  joined_outside b out away =
      let m₁ = store32 k.mem (header + size - 8 + 4) left in
      store32_outside m₁ (left + 8) (add32 (size_of m₁ left) (size_of k.mem header)) b (omega arith)
      ∙ store32_outside k.mem (header + size - 8 + 4) left b (omega arith)

  left_record :
      FooterAt k.mem (header + size - 8) header
      → JoinedLeft k left left_size header size
          (record k { mem = left_joined left header (header + size - 8) k.mem })
  left_record foot =
      let m' = left_joined left header (header + size - 8) k.mem in
      let m₁ = store32 k.mem (header + size - 8 + 4) left in
      record {
        hole = record {
          magic =
              load32_ext m' k.mem left (λ b low high. joined_outside b (omega arith) (omega arith))
              ∙ left_header.magic;
          hole = joined_outside (left + 4) (omega arith) (omega arith) ∙ left_header.hole;
          span = joined_size;
        };
        footer = record {
          magic =
              load32_ext m' k.mem (header + size - 8)
                (λ b low high. joined_outside b (omega arith) (omega arith))
              ∙ foot.magic;
          owner =
              load32-store32_ne m₁ (left + 8) (add32 (size_of m₁ left) (size_of k.mem header))
                (header + size - 8 + 4) (omega arith)
              ∙ load32-store32_self k.mem (header + size - 8 + 4) left (omega arith);
        };
        index = refl;
        bytes = λ bytes.
            store32-IsBytes m₁ (left + 8) (add32 (size_of m₁ left) (size_of k.mem header))
              (store32-IsBytes k.mem (header + size - 8 + 4) left bytes);
        others = joined_outside;
      }

-- For a block with header and footer, and a hole with header and footer in front of it,
-- `unify_left` returns the hole's header, and that the index has it already: one hole of both sizes
-- is left, the footer points to its header, and no other byte is written.
pub unify_left-JoinedLeft :
    (k : Kernel) (left left_size header hole size : ℕ)
    → AreNeighbours k.mem left 1 left_size header hole size
    → FooterAt k.mem (header + size - 8) header
    → (k' : Kernel) × (unify_left header (header + size - 8) k
        ≡ ok (record { header = left; footer = header + size - 8; do_add = false }) k')
      × JoinedLeft k left left_size header size k'
unify_left-JoinedLeft k left left_size header hole size near foot = (
  record k { mem = left_joined left header (header + size - 8) k.mem },
  unify_left-joined k left left_size header hole size near,
  left_record k left left_size header hole size near foot,
)
