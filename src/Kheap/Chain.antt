-- ===== src/Kheap/Chain.antt =====
-- kernel/mm/kheap.c: the heap as a chain of blocks and holes that tiles its memory, each with its
-- header, and what it means to cut a block from a hole of the chain.
use pyramid_kernel.Prelude.{
  ℕ, refl, ◌+◌, ◌-◌, ◌≤◌, ◌<◌, ◌≡◌, arith, ◌∙◌, sym, ap, List, [], ◌∷◌, ◌++◌,
}
use native.Mathlib.Decide.{ℕ_discrete}
use mathlib.Core.Path.{subst}
use pyramid_kernel.Memory.{Memory}
use pyramid_kernel.OrderedArray.Count.{count}
use pyramid_kernel.Kheap.{size_of}
use pyramid_kernel.Kheap.Blocks.{HeaderAt, HeaderAt-ext}

pub data Block : Type 0 where
  hole : (size : ℕ) → Block
  block : (size : ℕ) → Block

-- The blocks lie one behind the other from `pos` to `stop`.
unfoldable pub Chain : Memory → (pos : ℕ) → List Block → (stop : ℕ) → Type 0
Chain m pos [] stop = pos ≡ stop
Chain m pos (hole size ∷ bs) stop =
    HeaderAt m pos 1 size × (20 ≤ size) × Chain m (pos + size) bs stop
Chain m pos (block size ∷ bs) stop =
    HeaderAt m pos 0 size × (20 ≤ size) × Chain m (pos + size) bs stop

-- The addresses of the holes.
unfoldable pub holes : (pos : ℕ) → List Block → List ℕ
holes pos [] = []
holes pos (hole size ∷ bs) = pos ∷ holes (pos + size) bs
holes pos (block size ∷ bs) = holes (pos + size) bs

-- What a hole of `s` bytes may become for a request of `size` bytes: one block, if there is no room for
-- a hole behind it, or a block and a hole.
pub data Carves (size : ℕ) : ℕ → List Block → Type 0 where
  whole : (s : ℕ) → size + 20 ≤ s → s < size + 40 → Carves size s (block s ∷ [])
  split : (s : ℕ) → size + 40 ≤ s → Carves size s (block (size + 20) ∷ hole (s - size - 20) ∷ [])

-- The specification of an allocation: the hole at `spot` is carved, and the others stay.
pub data Allocates (size : ℕ) : (pos : ℕ) → List Block → (spot : ℕ) → List Block → Type 0 where
  here :
      {pos : ℕ} {bs new : List Block} (s : ℕ)
      → Carves size s new
      → Allocates size pos (hole s ∷ bs) pos (new ++ bs)
  past_hole :
      {pos spot : ℕ} {bs bs' : List Block} (s : ℕ)
      → Allocates size (pos + s) bs spot bs'
      → Allocates size pos (hole s ∷ bs) spot (hole s ∷ bs')
  past_block :
      {pos spot : ℕ} {bs bs' : List Block} (s : ℕ)
      → Allocates size (pos + s) bs spot bs'
      → Allocates size pos (block s ∷ bs) spot (block s ∷ bs')

pub Chain-le : (m : Memory) (pos stop : ℕ) (bs : List Block) → Chain m pos bs stop → pos ≤ stop
unfolding Chain
Chain-le m pos stop [] c = omega (arith, c)
Chain-le m pos stop (hole s ∷ bs) c = omega (arith, Chain-le m (pos + s) stop bs c.2)
Chain-le m pos stop (block s ∷ bs) c = omega (arith, Chain-le m (pos + s) stop bs c.2)

-- Before the chain there is no hole of it.
pub count-holes_below :
    (m : Memory) (x pos stop : ℕ) (bs : List Block)
    → Chain m pos bs stop
    → x < pos
    → count x (holes pos bs) ≡ 0
unfolding Chain holes count
count-holes_below m x pos stop [] c below = refl
count-holes_below m x pos stop (hole s ∷ bs) c below =
    ground (arith, count-holes_below m x (pos + s) stop bs c.2 (omega arith))
count-holes_below m x pos stop (block s ∷ bs) c below =
    count-holes_below m x (pos + s) stop bs c.2 (omega arith)

-- A hole of the chain lies within it.
pub Chain-hole :
    (m : Memory) (x pos stop : ℕ) (bs : List Block)
    → Chain m pos bs stop
    → 0 < count x (holes pos bs)
    → (pos ≤ x) × (x + size_of m x ≤ stop) × (20 ≤ size_of m x)
unfolding Chain holes count
Chain-hole m x pos stop [] c some = absurd (omega arith)
Chain-hole m x pos stop (hole s ∷ bs) c some = elim (ℕ_discrete pos x) [
  | yes e ↦
      let size : size_of m x ≡ s = ap (size_of m) (sym e) ∙ c.0.span in
      (omega arith, omega (arith, size, Chain-le m (pos + s) stop bs c.2), omega (arith, size, c.1))
  | no ne ↦
      let (low, high, large) = Chain-hole m x (pos + s) stop bs c.2 (ground arith) in
      (omega arith, high, large)
]
Chain-hole m x pos stop (block s ∷ bs) c some =
    let (low, high, large) = Chain-hole m x (pos + s) stop bs c.2 some in (omega arith, high, large)

-- Memories that agree on the chain have the same chain.
pub Chain-ext :
    (m m' : Memory) (pos stop : ℕ) (bs : List Block)
    → ((b : ℕ) → pos ≤ b → b < stop → m' b ≡ m b)
    → Chain m pos bs stop
    → Chain m' pos bs stop
unfolding Chain
Chain-ext m m' pos stop [] same c = c
Chain-ext m m' pos stop (hole s ∷ bs) same c =
    let inside = Chain-le m (pos + s) stop bs c.2 in
    (
      HeaderAt-ext m m' pos 1 s (λ b low high. same b low (omega (arith, c.1))) c.0,
      c.1,
      Chain-ext m m' (pos + s) stop bs (λ b low high. same b (omega arith) high) c.2,
    )
Chain-ext m m' pos stop (block s ∷ bs) same c =
    let inside = Chain-le m (pos + s) stop bs c.2 in
    (
      HeaderAt-ext m m' pos 0 s (λ b low high. same b low (omega (arith, c.1))) c.0,
      c.1,
      Chain-ext m m' (pos + s) stop bs (λ b low high. same b (omega arith) high) c.2,
    )

pub Chain-++ :
    (m : Memory) (pos mid stop : ℕ) (fs bs : List Block)
    → Chain m pos fs mid
    → Chain m mid bs stop
    → Chain m pos (fs ++ bs) stop
unfolding Chain
Chain-++ m pos mid stop [] bs c d = subst (λ p. Chain m p bs stop) (sym c) d
Chain-++ m pos mid stop (hole s ∷ fs) bs c d = (c.0, c.1, Chain-++ m (pos + s) mid stop fs bs c.2 d)
Chain-++ m pos mid stop (block s ∷ fs) bs c d =
    (c.0, c.1, Chain-++ m (pos + s) mid stop fs bs c.2 d)

pub count-holes_++ :
    (m : Memory) (y pos mid : ℕ) (fs bs : List Block)
    → Chain m pos fs mid
    → count y (holes pos (fs ++ bs)) ≡ count y (holes pos fs) + count y (holes mid bs)
unfolding Chain holes count
count-holes_++ m y pos mid [] bs c = ap (λ p. count y (holes p bs)) c ∙ omega arith
count-holes_++ m y pos mid (hole s ∷ fs) bs c =
    omega (arith, count-holes_++ m y (pos + s) mid fs bs c.2)
count-holes_++ m y pos mid (block s ∷ fs) bs c = count-holes_++ m y (pos + s) mid fs bs c.2

-- Where the blocks end.
abbrev pub after : (pos : ℕ) → List Block → ℕ
after pos [] = pos
after pos (hole s ∷ bs) = after (pos + s) bs
after pos (block s ∷ bs) = after (pos + s) bs

pub Chain-split :
    (m : Memory) (pos stop : ℕ) (front bs : List Block)
    → Chain m pos (front ++ bs) stop
    → Chain m pos front (after pos front) × Chain m (after pos front) bs stop
unfolding Chain
Chain-split m pos stop [] bs c = (refl, c)
Chain-split m pos stop (hole s ∷ front) bs c =
    let (first, rest) = Chain-split m (pos + s) stop front bs c.2 in ((c.0, c.1, first), rest)
Chain-split m pos stop (block s ∷ front) bs c =
    let (first, rest) = Chain-split m (pos + s) stop front bs c.2 in ((c.0, c.1, first), rest)
