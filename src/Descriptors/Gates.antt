-- ===== src/Descriptors/Gates.antt =====
-- kernel/drivers/descriptor_tables.c: the gates of `init_idt`.
use pyramid_kernel.Prelude.{
  ℕ, zero, suc, ◌+◌, ◌*◌, ◌/◌, ◌^◌, ◌≤◌, ◌<◌, ◌≡◌, refl, arith, ◌∙◌, ◌⊎◌, inl, inr, ap,
}
use native.Mathlib.Decide.{ℕ_discrete, dec_lt}
use pyramid_kernel.Prelude.Bits.{bit_and-low}
use pyramid_kernel.Descriptors.{
  Idt, IdtEntry, IdtFlags, zero_gate, idt_set_gate, set_gates, init_idt, gate_flags,
}

-- Where the gate leads.
abbrev pub gate_offset : IdtEntry → ℕ
gate_offset e = e.base_low + e.base_high * 2 ^ 16

set_gate_self :
    (idx base : ℕ) (flags : IdtFlags) (table : Idt)
    → idx < 256
    → base < 2 ^ 32
    → let e = idt_set_gate idx base 0x08 flags table idx in
      (gate_offset e ≡ base) × (e.segment_selector ≡ 0x08) × (e.flags ≡ flags)
unfolding idt_set_gate
set_gate_self idx base flags table small fits =
    ground (arith, bit_and-low 16 base, bit_and-low 16 (base / 2 ^ 16))

set_gate_ne :
    (idx base i : ℕ) (flags : IdtFlags) (table : Idt)
    → idx < 256
    → (i < idx) ⊎ (idx < i)
    → idt_set_gate idx base 0x08 flags table i ≡ table i
unfolding idt_set_gate
set_gate_ne idx base i flags table small apart = ground arith

set_gates_outside :
    (stub : ℕ → ℕ) (flags : IdtFlags) (left idx i : ℕ) (table : Idt)
    → idx + left ≤ 256
    → (i < idx) ⊎ (idx + left ≤ i)
    → set_gates stub flags left idx table i ≡ table i
unfolding set_gates
set_gates_outside stub flags zero idx i table room out = refl
set_gates_outside stub flags (suc left) idx i table room out =
    set_gates_outside stub flags left (idx + 1) i (idt_set_gate idx (stub idx) 0x08 flags table)
      (omega arith) (omega arith)
    ∙ set_gate_ne idx (stub idx) i flags table (omega arith) (omega arith)

-- The gate leads to the address, in the kernel's code segment, with the flags.
pub record IsGate (base : ℕ) (flags : IdtFlags) (e : IdtEntry) : Type 0 where
  pub offset : gate_offset e ≡ base
  pub selector : e.segment_selector ≡ 0x08
  pub same_flags : e.flags ≡ flags

set_gates-IsGate :
    (stub : ℕ → ℕ) (flags : IdtFlags) (left idx i : ℕ) (table : Idt)
    → idx + left ≤ 256
    → stub i < 2 ^ 32
    → idx ≤ i
    → i < idx + left
    → IsGate (stub i) flags (set_gates stub flags left idx table i)
unfolding set_gates
set_gates-IsGate stub flags zero idx i table room fits low high = absurd (omega arith)
set_gates-IsGate stub flags (suc left) idx i table room fits low high =
    let table' = idt_set_gate idx (stub idx) 0x08 flags table in
    elim (ℕ_discrete i idx) [
      | yes e ↦
          let kept : set_gates stub flags left (idx + 1) table' i ≡ table' i =
            set_gates_outside stub flags left (idx + 1) i table' (omega arith) (omega arith) in
          let there : table' i ≡ idt_set_gate i (stub i) 0x08 flags table i =
            ap (λ j. idt_set_gate j (stub j) 0x08 flags table i) (omega arith) in
          let gate = set_gate_self i (stub i) flags table (omega arith) fits in
          rw (kept, there) (record { offset = gate.0; selector = gate.1; same_flags = gate.2 })
      | no ne ↦
          set_gates-IsGate stub flags left (idx + 1) i table' (omega arith) fits (omega arith)
            (omega arith)
    ]

-- For a vector `i` below 256 with a 32-bit address of its stub: below 48 the gate leads to the
-- stub, in the kernel's code segment, with the flags of a present 32-bit interrupt gate for ring 0; from
-- 48 on the entry is zero.
pub init_idt-IsGate :
    (stub : ℕ → ℕ) (i : ℕ)
    → stub i < 2 ^ 32
    → i < 256
    → (IsGate (stub i) (record { reserved = 0xe; dpl = 0; p = 1 }) (init_idt stub i) × (i < 48))
      ⊎ ((init_idt stub i ≡ zero_gate) × (48 ≤ i))
unfolding init_idt
init_idt-IsGate stub i fits small =
    let inner = set_gates stub gate_flags 32 0 (λ _. zero_gate) in
    elim (dec_lt i 32) [
      | yes exception ↦
          let kept : set_gates stub gate_flags 16 32 inner i ≡ inner i =
            set_gates_outside stub gate_flags 16 32 i inner (omega arith) (omega arith) in
          inl (
            rw kept (
                set_gates-IsGate stub gate_flags 32 0 i (λ _. zero_gate) (omega arith) fits
                  (omega arith) (omega arith)),
            omega arith,
          )
      | no outer ↦ elim (dec_lt i 48) [
        | yes hardware ↦ inl (
          set_gates-IsGate stub gate_flags 16 32 i inner (omega arith) fits (omega arith)
              (omega arith),
          hardware,
        )
        | no above ↦ inr (
          set_gates_outside stub gate_flags 16 32 i inner (omega arith) (omega arith)
              ∙ set_gates_outside stub gate_flags 32 0 i (λ _. zero_gate) (omega arith)
                  (omega arith),
          omega arith,
        )
      ]
    ]
