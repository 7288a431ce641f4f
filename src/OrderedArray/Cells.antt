-- ===== src/OrderedArray/Cells.antt =====
-- The items of an ordered array as a list, and the writes that leave them alone.
use pyramid_kernel.Prelude.{
  ℕ, zero, suc, ◌+◌, ◌≤◌, ◌<◌, ◌≡◌, refl, ap₂, ◌⊎◌, List, [], ◌∷◌, arith, length, ap,
}
use pyramid_kernel.Memory.{Memory, load32, store32, load32_ext, store32_outside}
use pyramid_kernel.OrderedArray.{OrderedArray, item_at}

-- `array[i], …, array[i+n-1]`.
abbrev pub cells : Memory → ℕ → (i n : ℕ) → List ℕ
cells m array i zero = []
cells m array i (suc n) = load32 m (item_at array i) ∷ cells m array (i + 1) n

abbrev pub contents : OrderedArray → Memory → List ℕ
contents a m = cells m a.array 0 a.size

pub length-cells : (m : Memory) (array i n : ℕ) → length (cells m array i n) ≡ n
length-cells m array i zero = refl
length-cells m array i (suc n) = ap suc (length-cells m array (i + 1) n)

-- Memories that agree on the items hold the same items.
pub cells_ext :
    (m m' : Memory) (array i n : ℕ)
    → ((b : ℕ) → item_at array i ≤ b → b < item_at array (i + n) → m b ≡ m' b)
    → cells m array i n ≡ cells m' array i n
cells_ext m m' array i zero same = refl
cells_ext m m' array i (suc n) same =
    ap₂ ◌∷◌ (load32_ext m m' (item_at array i) λ b low high. same b low (omega arith))
      (cells_ext m m' array (i + 1) n λ b low high. same b (omega arith) (omega arith))

pub cells-store32 :
    (m : Memory) (array i n a v : ℕ)
    → (a + 4 ≤ item_at array i) ⊎ (item_at array (i + n) ≤ a)
    → cells (store32 m a v) array i n ≡ cells m array i n
cells-store32 m array i n a v apart =
    cells_ext (store32 m a v) m array i n λ b low high. store32_outside m a v b (omega arith)
