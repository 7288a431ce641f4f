-- ===== src/Kheap/Lost.antt =====
-- kernel/mm/kheap.c: what the footer that `free` does not rewrite leads to.
use pyramid_kernel.Prelude.{
  ℕ, ◌+◌, ◌-◌, ◌≤◌, ◌<◌, ◌≡◌, ◌≢◌, ◌⊎◌, inl, inr, arith, ◌∙◌, ap, add32, sub32, ◌==◌, if◌then◌else◌,
}
use native.Mathlib.Decide.{ℕ_discrete}
use pyramid_kernel.Memory.{load32_ext}
use pyramid_kernel.OrderedArray.Count.{count}
use pyramid_kernel.Kheap.{size_of}
use pyramid_kernel.Kheap.Rejoin.{counted-FreedRight}
use mathlib.Core.Path.{subst}
use pyramid_kernel.OrderedArray.{item_at}
use pyramid_kernel.OrderedArray.Cells.{contents, cells_ext}
use pyramid_kernel.Kernel.{Kernel, Heap, ok}
use pyramid_kernel.Paging.{KmallocAp}
use pyramid_kernel.Kheap.Blocks.{HeaderAt, FooterAt, HeaderAt-ext, FooterAt-ext}
use pyramid_kernel.Kheap.Release.{free}
use pyramid_kernel.Kheap.Marked.{NoHoleAt, NoHoleAt-ext}
use pyramid_kernel.Kheap.FreeLeft.{IsBehindHole, FreedLeft, free-FreedLeft}
use pyramid_kernel.Kheap.FreeRight.{IsBeforeHole, FreedRight, free-FreedRight}

-- The hole of an item of the index, behind the index, and in front of `from` or from `to` on.
abbrev Elsewhere : (from to x : ℕ) → Kernel → Type 0
Elsewhere from to x k =
    (item_at k.heap.index.array k.heap.index.size + 8 ≤ x)
    × (((x + 12 ≤ from) × (x + size_of k.mem x ≤ from)) ⊎ (to ≤ x))

-- Three neighbours: a block, a hole, and a block that has something else than a hole behind it and is
-- not the last of the heap. The hole is in the index once, and the others of the index lie apart from the
-- three.
pub record IsSandwich (k : Kernel) (header size next next_size last last_size i : ℕ) : Type 0 where
  pub before : IsBeforeHole k header size next next_size i
  pub adjacent : next + next_size ≡ last
  pub block : HeaderAt k.mem last 0 last_size
  pub footer : FooterAt k.mem (last + last_size - 8) last
  pub fits : 20 ≤ last_size
  pub right : NoHoleAt k.mem (last + last_size)
  pub in_heap : last + last_size < k.heap.end_address
  pub once : count next (contents k.heap.index k.mem) ≡ 1
  pub apart :
      (x : ℕ)
      → count x (contents k.heap.index k.mem) ≢ 0
      → x ≢ next
      → Elsewhere header (last + last_size) x k

-- The hole in the index did not grow by the last block: the space went to the header of the hole that
-- had been joined before. This is not in the index, and each hole that is ends in front of the last block
-- or starts behind it.
pub record Lost (header size next next_size last last_size : ℕ) (k₁ k₂ : Kernel) : Type 0 where
  pub indexed : HeaderAt k₂.mem header 1 (size + next_size)
  pub dead : HeaderAt k₂.mem next 1 (next_size + last_size)
  pub index : contents k₂.heap.index k₂.mem ≡ contents k₁.heap.index k₁.mem
  pub unlisted : count next (contents k₂.heap.index k₂.mem) ≡ 0
  pub nowhere :
      (x : ℕ)
      → count x (contents k₂.heap.index k₂.mem) ≢ 0
      → (x + size_of k₂.mem x ≤ last) ⊎ (last + last_size ≤ x)

module _ (k : Kernel) (header size next next_size last last_size i : ℕ)
    (sandwich : IsSandwich k header size next next_size last last_size i) (k₁ : Kernel)
    (freed : FreedRight k header size next next_size i k₁) where
  open sandwich use {before, adjacent, block, footer, fits, right, in_heap, once, apart}

  -- Behind the first block's header nothing has changed.
  kept : (b : ℕ) → header + 12 ≤ b → k₁.mem b ≡ k.mem b
  kept b above = freed.others b (inr above) (inr (omega (arith, before.behind_index)))

  same_end : k₁.heap.end_address ≡ k.heap.end_address
  same_end = ap (λ (h : Heap). h.end_address) freed.heap

  last-IsBehindHole : IsBehindHole k₁ next next_size last last_size
  last-IsBehindHole =
      let near : header + size ≡ next = before.neighbours.adjacent in
      let fits_first : 20 ≤ size = before.neighbours.left_fits in
      let fits_next : 20 ≤ next_size = before.neighbours.right_fits in
      record {
        neighbours = record {
          left_header =
              HeaderAt-ext k.mem k₁.mem next 1 next_size (λ b low high. kept b (omega arith))
                before.neighbours.right_header;
          left_footer =
              subst (λ f. FooterAt k₁.mem f next) {x = next + next_size - 8} {y = last - 8}
                (omega arith) freed.stale_footer;
          right_header =
              HeaderAt-ext k.mem k₁.mem last 0 last_size (λ b low high. kept b (omega arith)) block;
          adjacent = adjacent;
          left_fits = fits_next;
          right_fits = fits;
          in_memory = omega (arith, in_heap, before.in_memory);
        };
        footer =
            FooterAt-ext k.mem k₁.mem (last + last_size - 8) last
              (λ b low high. kept b (omega arith)) footer;
        right =
            NoHoleAt-ext k.mem k₁.mem (last + last_size) (λ b low high. kept b (omega arith)) right;
        in_heap = omega (arith, same_end, in_heap);
        in_memory = omega (arith, same_end, before.in_memory);
      }

  -- The two releases leave the sizes of the holes elsewhere.
  nowhere_else :
      (k₂ : Kernel)
      → FreedLeft k₁ next next_size last last_size k₂
      → (x : ℕ) → Elsewhere header (last + last_size) x k
      → (x + size_of k₂.mem x ≤ last) ⊎ (last + last_size ≤ x)
  nowhere_else k₂ again x (above, inr behind) = inr behind
  nowhere_else k₂ again x (above, inl (room, ends)) =
      let near : header + size ≡ next = before.neighbours.adjacent in
      let fits_first : 20 ≤ size = before.neighbours.left_fits in
      let fits_next : 20 ≤ next_size = before.neighbours.right_fits in
      let same : size_of k₂.mem x ≡ size_of k.mem x = load32_ext k₂.mem k.mem (x + 8) (λ b low high.
        again.others b (omega arith) (inl (omega arith)) (inl (omega arith))
        ∙ freed.others b (inl (omega arith)) (inr (omega arith))) in
      inl (omega arith)

  freed-Lost :
      (k₂ : Kernel)
      → FreedLeft k₁ next next_size last last_size k₂
      → Lost header size next next_size last last_size k₁ k₂
  freed-Lost k₂ again =
      let near : header + size ≡ next = before.neighbours.adjacent in
      let fits_first : 20 ≤ size = before.neighbours.left_fits in
      let fits_next : 20 ≤ next_size = before.neighbours.right_fits in
      let room : item_at k.heap.index.array k.heap.index.size + 8 ≤ header = before.behind_index in
      let same_size : k₁.heap.index.size ≡ add32 (sub32 k.heap.index.size 1) 1 =
        ap (λ (h : Heap). h.index.size) freed.heap in
      let same_array : k₁.heap.index.array ≡ k.heap.index.array =
        ap (λ (h : Heap). h.index.array) freed.heap in
      let index_end : item_at k₁.heap.index.array k₁.heap.index.size ≤ header =
        omega (arith, same_size, same_array, room, before.within, in_heap, before.in_memory) in
      let same_index : contents k₂.heap.index k₂.mem ≡ contents k₁.heap.index k₁.mem =
        ap (λ (h : Heap). contents h.index k₂.mem) again.heap
        ∙ cells_ext k₂.mem k₁.mem k₁.heap.index.array 0 k₁.heap.index.size
            (λ b low high. again.others b (omega arith) (omega arith) (omega arith)) in
      let joined =
        HeaderAt-ext k₁.mem k₂.mem header 1 (size + next_size)
          (λ b low high. again.others b (omega arith) (omega arith) (omega arith)) freed.hole in
      let counted : (y : ℕ)
          → ◌≡◌ {A = ℕ} (count y (contents k₂.heap.index k₂.mem) + (if next == y then 1 else 0))
              ((if header == y then 1 else 0) + count y (contents k.heap.index k.mem)) =
        λ y.
          ap (λ ys. count y ys + (if next == y then 1 else 0)) same_index
          ∙ counted-FreedRight k k₁ header size next next_size i before freed y in
      let unlisted : count next (contents k₂.heap.index k₂.mem) ≡ 0 =
        ground (arith, counted next, once) in
      record {
        indexed = joined;
        dead = again.hole;
        index = same_index;
        unlisted = unlisted;
        nowhere = λ x listed. elim (ℕ_discrete x header) [
          | yes e ↦
              let whole : size_of k₂.mem x ≡ size + next_size =
                ap (size_of k₂.mem) e ∙ joined.span in
              inl (omega arith)
          | no other ↦
              let ne : x ≢ next =
                λ e. listed (ap (λ y. count y (contents k₂.heap.index k₂.mem)) e ∙ unlisted) in
              let before_too : count x (contents k.heap.index k.mem) ≢ 0 =
                ground (arith, counted x) in
              nowhere_else k₂ again x (apart x before_too ne)
        ];
      }

-- For a block, a hole and a block as in `IsSandwich`, `free` of the first block and then of the last
-- return; but the last block's space is lost. The hole of the index, which reaches up to the last
-- block, keeps its size, and the index gets no item: the last block was joined to the header inside
-- that hole, to which the footer in front of the block still points. This header is not in the index, and
-- no hole of the index reaches into the last block.
pub free-free-Lost :
    (kmalloc_ap : KmallocAp) (k : Kernel) (header size next next_size last last_size i : ℕ)
    → IsSandwich k header size next next_size last last_size i
    → (k₁ : Kernel) × (k₂ : Kernel) × (free kmalloc_ap (header + 12) k ≡ ok tt k₁)
      × (free kmalloc_ap (last + 12) k₁ ≡ ok tt k₂)
      × Lost header size next next_size last last_size k₁ k₂
free-free-Lost kmalloc_ap k header size next next_size last last_size i sandwich =
    let (k₁, e₁, freed) =
      free-FreedRight kmalloc_ap k header size next next_size i sandwich.before in
    let (k₂, e₂, again) =
      free-FreedLeft kmalloc_ap k₁ next next_size last last_size
        (last-IsBehindHole k header size next next_size last last_size i sandwich k₁ freed) in
    (
      k₁,
      k₂,
      e₁,
      e₂,
      freed-Lost k header size next next_size last last_size i sandwich k₁ freed k₂ again,
    )
