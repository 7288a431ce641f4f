-- ===== src/Paging/Frames.antt =====
-- kernel/mm/paging.c: what `set_frame`, `clear_frame` and other writes do to the marks of the frames.
use pyramid_kernel.Prelude.{
  ℕ, ◌+◌, ◌/◌, ◌%◌, ◌^◌, ◌≤◌, ◌<◌, ◌≡◌, ◌≢◌, ap, ◌∙◌, arith, ◌⊎◌, bit_and, bit_or, not32, ◌==◌,
  if◌then◌else◌, sym,
}
use native.Mathlib.Decide.{ℕ_discrete}
use pyramid_kernel.Prelude.Bits.{
  test_bit, test_bit-lt, test_bit-or, test_bit-and, test_bit-pow, test_bit-not, bit_or-lt,
  bit_and-le,
}
use native.Mathlib.Nat.{pow-le-pow_right}
use pyramid_kernel.Memory.{
  Memory, IsBytes, load32, store32, load32-lt, load32-store32_self, load32-store32_ne,
  store32-IsBytes,
}
use pyramid_kernel.Paging.{frame_size, section_size, section_at, set_frame, clear_frame}

-- 1 if the bitset at `base` has the frame as used, else 0.
abbrev pub used : (base frame : ℕ) → Memory → ℕ
used base frame m =
    test_bit (load32 m (section_at base (frame / section_size))) (frame % section_size)

module _ (base frame v : ℕ) (m : Memory) where
  -- The bits of a word that is stored in place of a section.
  pub used-store32_self :
      (other : ℕ)
      → other / section_size ≡ frame / section_size
      → v < 2 ^ 32
      → used base other (store32 m (section_at base (frame / section_size)) v)
        ≡ test_bit v (other % section_size)
  used-store32_self other e fits =
      ap
        (λ s.
          test_bit
            (load32 (store32 m (section_at base (frame / section_size)) v) (section_at base s))
            (other % section_size))
        e
      ∙ ap (λ w. test_bit w (other % section_size))
          (load32-store32_self m (section_at base (frame / section_size)) v fits)

  used-store32_ne :
      (other : ℕ)
      → other / section_size ≢ frame / section_size
      → used base other (store32 m (section_at base (frame / section_size)) v) ≡ used base other m
  used-store32_ne other ne =
      ap (λ w. test_bit w (other % section_size))
        (load32-store32_ne m (section_at base (frame / section_size)) v
          (section_at base (other / section_size)) (omega arith))

  -- The bits of the section as it is.
  used_in_section :
      (other : ℕ)
      → other / section_size ≡ frame / section_size
      → test_bit (load32 m (section_at base (frame / section_size))) (other % section_size)
        ≡ used base other m
  used_in_section other e =
      ap (λ s. test_bit (load32 m (section_at base s)) (other % section_size)) (sym e)

pub pow_fits : (i : ℕ) → i < 32 → 2 ^ i < 2 ^ 32
pow_fits i h =
    let below : 2 ^ i ≤ 2 ^ 31 = pow-le-pow_right (omega arith) {i = i} {j = 31} (omega arith) in
    omega arith

-- In a memory of bytes `set_frame` marks the frame of the address as used, and changes the mark of
-- no other frame.
pub used-set_frame :
    (base addr other : ℕ) (m : Memory)
    → IsBytes m
    → used base other (set_frame base addr m)
      ≡ (if other == addr / frame_size then 1 else used base other m)
unfolding set_frame
used-set_frame base addr other m bytes =
    let frame = addr / frame_size in
    let word = load32 m (section_at base (frame / section_size)) in
    let fits : bit_or word (2 ^ (frame % section_size)) < 2 ^ 32 =
      bit_or-lt 32 word (2 ^ (frame % section_size)) (load32-lt m _ bytes)
        (pow_fits (frame % section_size) (omega arith)) in
    elim (ℕ_discrete (other / section_size) (frame / section_size)) [
      | yes e ↦
          used-store32_self base frame (bit_or word (2 ^ (frame % section_size))) m other e fits
          ∙ test_bit-or word (2 ^ (frame % section_size)) (other % section_size)
          ∙ ground (
            arith,
            used_in_section base frame 0 m other e,
            test_bit-pow (frame % section_size) (other % section_size),
            test_bit-lt word (other % section_size),
          )
      | no ne ↦
          used-store32_ne base frame (bit_or word (2 ^ (frame % section_size))) m other ne
          ∙ ground arith
    ]

-- In a memory of bytes `clear_frame` marks the frame of the address as free, and changes the mark
-- of no other frame.
pub used-clear_frame :
    (base addr other : ℕ) (m : Memory)
    → IsBytes m
    → used base other (clear_frame base addr m)
      ≡ (if other == addr / frame_size then 0 else used base other m)
unfolding clear_frame
used-clear_frame base addr other m bytes =
    let frame = addr / frame_size in
    let word = load32 m (section_at base (frame / section_size)) in
    let mask = not32 (2 ^ (frame % section_size)) in
    let fits : bit_and word mask < 2 ^ 32 = omega (
      arith,
      bit_and-le word word mask (omega arith),
      load32-lt m (section_at base (frame / section_size)) bytes,
    ) in
    elim (ℕ_discrete (other / section_size) (frame / section_size)) [
      | yes e ↦
          used-store32_self base frame (bit_and word mask) m other e fits
          ∙ test_bit-and word mask (other % section_size)
          ∙ ground (
            arith,
            used_in_section base frame 0 m other e,
            test_bit-not 32 (2 ^ (frame % section_size)) (other % section_size)
                (pow_fits (frame % section_size) (omega arith)) (omega arith),
            test_bit-pow (frame % section_size) (other % section_size),
            test_bit-lt word (other % section_size),
          )
      | no ne ↦ used-store32_ne base frame (bit_and word mask) m other ne ∙ ground arith
    ]

-- `set_frame` and `clear_frame` write one section.
pub set_frame-IsBytes : (base addr : ℕ) (m : Memory) → IsBytes m → IsBytes (set_frame base addr m)
unfolding set_frame
set_frame-IsBytes base addr m bytes = store32-IsBytes m _ _ bytes

pub load32-set_frame :
    (base addr p : ℕ) (m : Memory)
    → (p + 4 ≤ base) ⊎ (section_at base (addr / frame_size / section_size) + 4 ≤ p)
    → load32 (set_frame base addr m) p ≡ load32 m p
unfolding set_frame
load32-set_frame base addr p m apart =
    load32-store32_ne m (section_at base (addr / frame_size / section_size)) _ p (omega arith)

pub load32-clear_frame :
    (base addr p : ℕ) (m : Memory)
    → (p + 4 ≤ base) ⊎ (section_at base (addr / frame_size / section_size) + 4 ≤ p)
    → load32 (clear_frame base addr m) p ≡ load32 m p
unfolding clear_frame
load32-clear_frame base addr p m apart =
    load32-store32_ne m (section_at base (addr / frame_size / section_size)) _ p (omega arith)

-- A write apart from the bitset leaves every mark.
pub used-store32 :
    (base f p v : ℕ) (m : Memory)
    → (p + 4 ≤ base) ⊎ (section_at base (f / section_size) + 4 ≤ p)
    → used base f (store32 m p v) ≡ used base f m
used-store32 base f p v m apart =
    ap (λ w. test_bit w (f % section_size))
      (load32-store32_ne m p v (section_at base (f / section_size)) (omega arith))
