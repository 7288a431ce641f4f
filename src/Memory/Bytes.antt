-- ===== src/Memory/Bytes.antt =====
-- kernel/lib/string.c: `memset` and `memmove`.
use pyramid_kernel.Prelude.{
  ℕ, zero, suc, ◌+◌, ◌≤◌, ◌<◌, ◌≡◌, refl, ◌∙◌, ◌⊎◌, arith, ◌&&◌, leb, ltb, if◌then◌else◌, u8,
}
use native.Mathlib.Decide.{dec_le}
use pyramid_kernel.Memory.{Memory, IsBytes, store8}

-- `for (i = 0; i < n; i++) mem[i] = (uint8_t)c`, with `left` rounds to go.
memset_loop : ℕ → ℕ → (left i : ℕ) → Memory → Memory
memset_loop s c zero i m = m
memset_loop s c (suc left) i m = memset_loop s c left (i + 1) (store8 m (s + i) (u8 c))

-- The result, the pointer `s`, is what was passed in.
unfoldable pub memset : Memory → ℕ → ℕ → ℕ → Memory
unfolding memset_loop
memset m s c n = memset_loop s c n 0 m

-- `for (i = 0; i < len; i++) dstmem[i] = srcmem[i]`: upwards, whatever the overlap.
memmove_loop : (dst src left i : ℕ) → Memory → Memory
memmove_loop dst src zero i m = m
memmove_loop dst src (suc left) i m =
    memmove_loop dst src left (i + 1) (store8 m (dst + i) (m (src + i)))

unfoldable pub memmove : Memory → ℕ → ℕ → ℕ → Memory
unfolding memmove_loop
memmove m dst src len = memmove_loop dst src len 0 m

memset_loop_outside :
    (s c left i b : ℕ) (m : Memory)
    → (b < s + i) ⊎ (s + i + left ≤ b)
    → memset_loop s c left i m b ≡ m b
unfolding memset_loop
memset_loop_outside s c zero i b m apart = refl
memset_loop_outside s c (suc left) i b m apart =
    memset_loop_outside s c left (i + 1) b (store8 m (s + i) (u8 c)) (omega arith) ∙ ground arith

memset_loop_inside :
    (s c left i b : ℕ) (m : Memory)
    → s + i ≤ b
    → b < s + i + left
    → memset_loop s c left i m b ≡ u8 c
unfolding memset_loop
memset_loop_inside s c zero i b m low high = absurd (omega arith)
memset_loop_inside s c (suc left) i b m low high = elim (dec_le (s + i + 1) b) [
  | yes next ↦
      memset_loop_inside s c left (i + 1) b (store8 m (s + i) (u8 c)) (omega arith) (omega arith)
  | no here ↦
      memset_loop_outside s c left (i + 1) b (store8 m (s + i) (u8 c)) (omega arith) ∙ ground arith
]

-- `memset` writes the byte `c` to the `n` bytes from `s` on, and no other byte.
pub memset_lem :
    (m : Memory) (s c n b : ℕ) → memset m s c n b ≡ (if leb s b && ltb b (s + n) then u8 c else m b)
unfolding memset
memset_lem m s c n b = elim (dec_le s b) [
  | yes low ↦ elim (dec_le (s + n) b) [
    | yes high ↦ memset_loop_outside s c n 0 b m (omega arith) ∙ ground arith
    | no high ↦ memset_loop_inside s c n 0 b m (omega arith) (omega arith) ∙ ground arith
  ]
  | no low ↦ memset_loop_outside s c n 0 b m (omega arith) ∙ ground arith
]

memmove_loop_outside :
    (dst src left i b : ℕ) (m : Memory)
    → (b < dst + i) ⊎ (dst + i + left ≤ b)
    → memmove_loop dst src left i m b ≡ m b
unfolding memmove_loop
memmove_loop_outside dst src zero i b m apart = refl
memmove_loop_outside dst src (suc left) i b m apart =
    memmove_loop_outside dst src left (i + 1) b (store8 m (dst + i) (m (src + i))) (omega arith)
    ∙ ground arith

-- Downwards (or apart), the byte read was not written before.
memmove_loop_inside :
    (dst src left i k : ℕ) (m : Memory)
    → i ≤ k
    → k < i + left
    → (dst ≤ src) ⊎ (src + i + left ≤ dst + i)
    → memmove_loop dst src left i m (dst + k) ≡ m (src + k)
unfolding memmove_loop
memmove_loop_inside dst src zero i k m low high apart = absurd (omega arith)
memmove_loop_inside dst src (suc left) i k m low high apart = elim (dec_le (i + 1) k) [
  | yes next ↦
      memmove_loop_inside dst src left (i + 1) k (store8 m (dst + i) (m (src + i))) (omega arith)
        (omega arith) (omega arith)
      ∙ ground arith
  | no here ↦
      memmove_loop_outside dst src left (i + 1) (dst + k) (store8 m (dst + i) (m (src + i)))
        (omega arith)
      ∙ ground arith
]

-- Where the target does not start inside the source (past its first byte), `memmove` copies the
-- `len` bytes, overlap included, and writes no other byte.
pub memmove_lem :
    (m : Memory) (dst src len : ℕ)
    → (dst ≤ src) ⊎ (src + len ≤ dst)
    → ((k : ℕ) → k < len → memmove m dst src len (dst + k) ≡ m (src + k))
      × ((b : ℕ) → (b < dst) ⊎ (dst + len ≤ b) → memmove m dst src len b ≡ m b)
unfolding memmove
memmove_lem m dst src len apart = (
  λ k high. memmove_loop_inside dst src len 0 k m (omega arith) (omega arith) (omega arith),
  λ b out. memmove_loop_outside dst src len 0 b m (omega arith),
)

-- `memset` keeps cells bytes.
pub memset-IsBytes : (m : Memory) (s c n : ℕ) → IsBytes m → IsBytes (memset m s c n)
memset-IsBytes m s c n bytes b = ground (arith, memset_lem m s c n b, bytes b)
