-- ===== src/Kheap/Allocation.antt =====
-- kernel/mm/kheap.c: allocation on the chain of blocks, and the heaps that are well formed.
use pyramid_kernel.Prelude.{
  ℕ, refl, ◌+◌, ◌^◌, ◌≤◌, ◌<◌, ◌≡◌, ◌⊎◌, arith, ◌∙◌, sym, ap, List, [], ◌∷◌, ◌++◌, ◌==◌,
  if◌then◌else◌,
}
use native.Mathlib.Decide.{ℕ_discrete}
use mathlib.Core.Path.{subst}
use pyramid_kernel.Memory.{Memory, IsBytes}
use pyramid_kernel.OrderedArray.{item_at, lookup_ordered_array}
use pyramid_kernel.OrderedArray.Cells.{contents}
use pyramid_kernel.OrderedArray.Count.{count, count-lookup}
use pyramid_kernel.Kernel.{Kernel}
use pyramid_kernel.Kheap.{size_of}
use pyramid_kernel.Kheap.Blocks.{HeaderAt, HeaderAt-ext}
use pyramid_kernel.Kheap.Chain.{
  Block, hole, block, Chain, holes, Carves, Allocates, here, past_hole, past_block, Chain-hole,
  Chain-ext, Chain-++, count-holes_++,
}

-- The heap is a chain of blocks from its start to its end, the index has just the holes of the chain,
-- and lies in front of it.
pub record WellFormed (k : Kernel) (bs : List Block) : Type 0 where
  pub chain : Chain k.mem k.heap.start_address bs k.heap.end_address
  pub index :
      (x : ℕ) → count x (contents k.heap.index k.mem) ≡ count x (holes k.heap.start_address bs)
  pub behind_index : item_at k.heap.index.array k.heap.index.size ≤ k.heap.start_address
  pub in_memory : k.heap.end_address < 2 ^ 32
  pub bytes : IsBytes k.mem

-- The memory `m'` differs from `m` on the hole at `x`, of `s` bytes, where it has the chain `new`.
pub record Replaces (m m' : Memory) (start x s : ℕ) (new : List Block) : Type 0 where
  pub chain : Chain m' x new (x + s)
  pub others : (b : ℕ) → start ≤ b → (b < x) ⊎ (x + s ≤ b) → m' b ≡ m b

-- The chain with the hole carved, and its holes.
abbrev Replaced : (size : ℕ) → Memory → (pos x stop : ℕ) → (bs new : List Block) → Type 0
Replaced size m' pos x stop bs new =
    (bs' : List Block) × Allocates size pos bs x bs'
    × Chain m' pos bs' stop
    × ((y : ℕ)
        → count y (holes pos bs') + (if x == y then 1 else 0)
          ≡ count y (holes x new) + count y (holes pos bs))

module _ (size : ℕ) (m m' : Memory) (start x s : ℕ) (new : List Block) (sized : size_of m x ≡ s)
    (carves : Carves size s new) (replaces : Replaces m m' start x s new) where
  -- What lies in front of the hole keeps its header.
  kept_header :
      (pos t flag : ℕ)
      → start ≤ pos
      → pos + t ≤ x
      → 20 ≤ t
      → HeaderAt m pos flag t
      → HeaderAt m' pos flag t
  kept_header pos t flag low below large =
      HeaderAt-ext m m' pos flag t λ b above under. replaces.others b (omega arith) (omega arith)

  here-Replaced :
      (stop : ℕ) (bs : List Block)
      → start ≤ x
      → Chain m (x + s) bs stop
      → Replaced size m' x x stop (hole s ∷ bs) new
  unfolding holes count
  here-Replaced stop bs low rest = (
    new ++ bs,
    here s carves,
    Chain-++ m' x (x + s) stop new bs replaces.chain (
        Chain-ext m m' (x + s) stop bs
          (λ b above below. replaces.others b (omega arith) (omega arith)) rest),
    λ y. omega (arith, count-holes_++ m' y x (x + s) new bs replaces.chain),
  )

  replaced :
      (pos stop : ℕ) (bs : List Block)
      → start ≤ pos
      → Chain m pos bs stop
      → 0 < count x (holes pos bs)
      → Replaced size m' pos x stop bs new
  unfolding Chain holes count
  replaced pos stop [] low c some = absurd (omega arith)
  replaced pos stop (hole t ∷ bs) low c some = elim (ℕ_discrete x pos) [
    | yes e ↦
        let same : s ≡ t = sym sized ∙ ap (size_of m) e ∙ c.0.span in
        subst (λ p. Replaced size m' p x stop (hole t ∷ bs) new) e
          (subst (λ n. Replaced size m' x x stop (hole n ∷ bs) new) same
            (here-Replaced stop bs (omega arith)
              (subst (λ q. Chain m q bs stop) {x = pos + t} {y = x + s} (omega arith) c.2)))
    | no ne ↦
        let later : 0 < count x (holes (pos + t) bs) = ground arith in
        let below = Chain-hole m x (pos + t) stop bs c.2 later in
        let (bs', allocates, chain, counted) = replaced (pos + t) stop bs (omega arith) c.2 later in
        (
          hole t ∷ bs',
          past_hole t allocates,
          (kept_header pos t 1 low below.0 c.1 c.0, c.1, chain),
          λ y. omega (arith, counted y),
        )
  ]
  replaced pos stop (block t ∷ bs) low c some =
      let below = Chain-hole m x (pos + t) stop bs c.2 some in
      let (bs', allocates, chain, counted) = replaced (pos + t) stop bs (omega arith) c.2 some in
      (
        block t ∷ bs',
        past_block t allocates,
        (kept_header pos t 0 low below.0 c.1 c.0, c.1, chain),
        counted,
      )

-- The chain that `alloc` cuts, by the index's item `i`.
module _ (size i : ℕ) (k : Kernel) (bs : List Block) (well : WellFormed k bs)
    (within : i < k.heap.index.size) where
  open well use {chain, index, behind_index, in_memory, bytes}

  abbrev pub spot : ℕ
  spot = lookup_ordered_array i k.heap.index k.mem

  spot-hole : 0 < count spot (holes k.heap.start_address bs)
  spot-hole = omega (arith, index spot, count-lookup i k.heap.index k.mem within)

  pub spot-inside :
      (k.heap.start_address ≤ spot)
      × (spot + size_of k.mem spot ≤ k.heap.end_address)
      × (20 ≤ size_of k.mem spot)
  spot-inside = Chain-hole k.mem spot k.heap.start_address k.heap.end_address bs chain spot-hole

-- The block is at `spot`, `p` is the address behind its header, and the heap is well formed with the
-- chain of the specification.
pub record Allocated (size : ℕ) (k : Kernel) (bs : List Block) (p : ℕ) (k' : Kernel) : Type 0 where
  pub chain' : List Block
  pub spot : ℕ
  pub address : p ≡ spot + 12
  pub allocates : Allocates size k.heap.start_address bs spot chain'
  pub same_start : k'.heap.start_address ≡ k.heap.start_address
  pub same_end : k'.heap.end_address ≡ k.heap.end_address
  pub well_formed : WellFormed k' chain'

-- The memory and the index have changed at the hole alone.
pub carved-Allocated :
    (size i s : ℕ) (k k₁ : Kernel) (bs new : List Block) (well : WellFormed k bs)
    (within : i < k.heap.index.size)
    → let x = spot size i k bs well within in
      size_of k.mem x ≡ s
      → Carves size s new
      → Replaces k.mem k₁.mem k.heap.start_address x s new
      → k₁.heap.start_address ≡ k.heap.start_address
      → k₁.heap.end_address ≡ k.heap.end_address
      → item_at k₁.heap.index.array k₁.heap.index.size ≤ k.heap.start_address
      → IsBytes k₁.mem
      → ((y : ℕ)
          → count y (contents k₁.heap.index k₁.mem) + (if x == y then 1 else 0)
            ≡ count y (holes x new) + count y (contents k.heap.index k.mem))
      → Allocated size k bs (x + 12) k₁
carved-Allocated size i s k k₁ bs new well within sized carves replaces same_start same_end behind
      bytes counted =
    let start = k.heap.start_address in
    let x = spot size i k bs well within in
    let (bs', allocates, chain, kept) =
      replaced size k.mem k₁.mem start x s new sized carves replaces start k.heap.end_address bs
        (omega arith) well.chain (spot-hole size i k bs well within) in
    record {
      chain' = bs';
      spot = x;
      address = refl;
      allocates = allocates;
      same_start = same_start;
      same_end = same_end;
      well_formed = record {
        chain =
            subst (λ p. Chain k₁.mem p bs' k₁.heap.end_address) (sym same_start)
              (subst (Chain k₁.mem start bs') (sym same_end) chain);
        index = λ y.
            let here : count y (contents k₁.heap.index k₁.mem) ≡ count y (holes start bs') =
              omega (arith, counted y, kept y, well.index y) in
            here ∙ ap (λ p. count y (holes p bs')) (sym same_start);
        behind_index = omega (arith, behind, same_start);
        in_memory = omega (arith, same_end, well.in_memory);
        bytes = bytes;
      };
    }
