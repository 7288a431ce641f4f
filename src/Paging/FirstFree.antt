-- ===== src/Paging/FirstFree.antt =====
-- kernel/mm/paging.c: the search of the bitset for a free frame.
use pyramid_kernel.Prelude.{
  ℕ, zero, suc, ◌+◌, ◌-◌, ◌*◌, ◌/◌, ◌%◌, ◌^◌, ◌≤◌, ◌<◌, ◌≡◌, ap, ◌∙◌, inl, inr, arith, bit_and,
  ◌==◌, Bool-cases, Option, none, some, ap₂, ==_iff,
}
use native.Mathlib.Decide.{ℕ_discrete, dec_le}
use pyramid_kernel.Prelude.Bits.{test_bit, test_bit-lt, test_bit-ones, bit_and-pow}
use native.Mathlib.Nat.{one-le-pow}
use pyramid_kernel.Memory.{Memory, load32}
use pyramid_kernel.Kernel.{Kernel}
use pyramid_kernel.Paging.{
  section_size, section_at, first_clear_bit, first_free_from, first_free_frame,
}
use pyramid_kernel.Paging.Frames.{used}

-- What the inner loop answers, from bit `idx` on: the first clear bit, or none in `left` bits.
data FirstClear (word left idx : ℕ) : Option ℕ → Type 0 where
  found :
      (j : ℕ)
      → idx ≤ j
      → j < idx + left
      → test_bit word j ≡ 0
      → ((t : ℕ) → idx ≤ t → t < j → test_bit word t ≡ 1)
      → FirstClear word left idx (some j)
  full : ((t : ℕ) → idx ≤ t → t < idx + left → test_bit word t ≡ 1) → FirstClear word left idx none

clear_test : (word idx : ℕ) → (bit_and word (2 ^ idx) == 0) ≡ (test_bit word idx == 0)
clear_test word idx =
    ground (arith, bit_and-pow idx word, test_bit-lt word idx, one-le-pow idx 2 (omega arith))

FirstClear-step :
    (word left idx : ℕ) (r : Option ℕ)
    → test_bit word idx ≡ 1
    → FirstClear word left (idx + 1) r
    → FirstClear word (suc left) idx r
FirstClear-step word left idx r set (found j low high clear below) =
    found j (omega arith) (omega arith) clear λ t from to. elim (ℕ_discrete t idx) [
      | yes e ↦ ap (test_bit word) e ∙ set
      | no ne ↦ below t (omega arith) to
    ]
FirstClear-step word left idx r set (full all) = full λ t from to. elim (ℕ_discrete t idx) [
  | yes e ↦ ap (test_bit word) e ∙ set
  | no ne ↦ all t (omega arith) (omega arith)
]

first_clear_bit-FirstClear :
    (word left idx : ℕ) → FirstClear word left idx (first_clear_bit word left idx)
unfolding first_clear_bit
first_clear_bit-FirstClear word zero idx = full λ t from to. absurd (omega arith)
first_clear_bit-FirstClear word (suc left) idx = elim (Bool-cases (test_bit word idx == 0)) [
  | inl clear ↦
      rw (clear_test word idx, clear)
        (found idx (omega arith) (omega arith) (ground arith) λ t from to. absurd (omega arith))
  | inr set ↦
      rw (clear_test word idx, set)
        (FirstClear-step word left idx (first_clear_bit word left (idx + 1))
          (ground (arith, test_bit-lt word idx)) (first_clear_bit-FirstClear word left (idx + 1)))
]

-- `r` is the first free frame from section `section` on, or the end if all are used.
pub record FirstFree (m : Memory) (base section left r : ℕ) : Type 0 where
  pub from_start : section * 32 ≤ r
  pub to_end : r ≤ (section + left) * 32
  pub used_below : (f : ℕ) → section * 32 ≤ f → f < r → used base f m ≡ 1
  pub free : r < (section + left) * 32 → used base r m ≡ 0

FirstFree-skip :
    (m : Memory) (base section left r : ℕ)
    → ((t : ℕ) → t < 32 → test_bit (load32 m (section_at base section)) t ≡ 1)
    → FirstFree m base (section + 1) left r
    → FirstFree m base section (suc left) r
FirstFree-skip m base section left r all rest = record {
  from_start = omega arith;
  to_end = omega arith;
  used_below = λ f low high. elim (dec_le ((section + 1) * 32) f) [
    | yes next ↦ rest.used_below f next high
    | no here ↦
        let e : f / section_size ≡ section = omega arith in
        ap (λ s. test_bit (load32 m (section_at base s)) (f % section_size)) e
        ∙ all (f % section_size) (omega arith)
  ];
  free = λ h. rest.free (omega arith);
}

FirstFree-found :
    (m : Memory) (base section left j : ℕ)
    → j < 32
    → test_bit (load32 m (section_at base section)) j ≡ 0
    → ((t : ℕ) → 0 ≤ t → t < j → test_bit (load32 m (section_at base section)) t ≡ 1)
    → FirstFree m base section (suc left) (section * section_size + j)
FirstFree-found m base section left j small clear below = record {
  from_start = omega arith;
  to_end = omega arith;
  used_below = λ f low high.
      let e : f / section_size ≡ section = omega arith in
      ap (λ s. test_bit (load32 m (section_at base s)) (f % section_size)) e
      ∙ below (f % section_size) (omega arith) (omega arith);
  free = λ h.
      let e : (section * section_size + j) / section_size ≡ section = omega arith in
      let r : (section * section_size + j) % section_size ≡ j = omega arith in
      ap₂ (λ s t. test_bit (load32 m (section_at base s)) t) e r ∙ clear;
}

-- What the search does with a section that is not all ones.
FirstFree-section :
    (m : Memory) (base section left rest : ℕ) (o : Option ℕ)
    → FirstClear (load32 m (section_at base section)) 32 0 o
    → FirstFree m base (section + 1) left rest
    → FirstFree m base section
        (suc left)
        (elim o [ some idx ↦ section * section_size + idx | none ↦ rest ])
FirstFree-section m base section left rest _ (found j low high clear below) ih =
    FirstFree-found m base section left j (omega arith) clear below
FirstFree-section m base section left rest _ (full all) ih =
    FirstFree-skip m base section left rest (λ t h. all t (omega arith) (omega arith)) ih

first_free_from-FirstFree :
    (m : Memory) (base left section : ℕ)
    → FirstFree m base section left (first_free_from m base left section)
unfolding first_free_from
first_free_from-FirstFree m base zero section = record {
  from_start = omega arith;
  to_end = omega arith;
  used_below = λ f low high. absurd (omega arith);
  free = λ h. absurd (omega arith);
}
first_free_from-FirstFree m base (suc left) section =
    let word = load32 m (section_at base section) in
    let ih = first_free_from-FirstFree m base left (section + 1) in
    elim (Bool-cases (word == 0xffff_ffff)) [
      | inl ones ↦
          let e : word ≡ 2 ^ 32 - 1 = (==_iff word 0xffff_ffff).0 ones in
          rw ones (
            FirstFree-skip m base section left (first_free_from m base left (section + 1))
              (λ t h. ap (λ w. test_bit w t) e ∙ test_bit-ones 32 t h) ih)
      | inr other ↦ rw other (
          FirstFree-section m base section left (first_free_from m base left (section + 1))
            (first_clear_bit word section_size 0) (first_clear_bit-FirstClear word section_size 0)
            ih)
    ]

-- `first_free_frame` returns the lowest frame whose bit is clear, of the frames in whole sections;
-- if they are all used, it returns their number.
pub first_free_frame-FirstFree :
    (k : Kernel)
    → FirstFree k.mem k.frame_allocations 0 (k.num_of_frames / section_size) (first_free_frame k)
unfolding first_free_frame
first_free_frame-FirstFree k =
    first_free_from-FirstFree k.mem k.frame_allocations (k.num_of_frames / section_size) 0
