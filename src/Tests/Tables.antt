-- ===== src/Tests/Tables.antt =====
-- kernel/drivers/descriptor_tables.c and kernel/drivers/isr.c at single vectors.
use pyramid_kernel.Prelude.{
  map, refl, ℕ, ◌+◌, ◌*◌, ◌≤◌, ◌<◌, ◌≡◌, arith, ◌⊎◌, if◌then◌else◌, ◌==◌, [], ◌∷◌, ◌++◌, none, some,
  leb,
}
use pyramid_kernel.Interrupts.{
  Table, call, out, register_interrupt_handler, irq_handler, pic1_command, pic2_command, pic_eoi,
}
use pyramid_kernel.Interrupts.Dispatch.{irq_handler-register}
use pyramid_kernel.Descriptors.{gdt_entries, GdtAccess, entry_word, init_idt, zero_gate}
use pyramid_kernel.Descriptors.Gates.{IsGate, init_idt-IsGate}

abbrev code_segment : GdtAccess
code_segment = record { type = 0xa; dt = 1; dpl = 3; p = 1 }

-- Stubs of 16 bytes from 1 MiB on.
abbrev stubs : ℕ → ℕ
stubs i = 0x10_0000 + 16 * i

init_idt-IsGate_example :
    (IsGate (stubs 33) (record { reserved = 0xe; dpl = 0; p = 1 }) (init_idt stubs 33) × (33 < 48))
    ⊎ ((init_idt stubs 33 ≡ zero_gate) × (48 ≤ 33))
init_idt-IsGate_example = init_idt-IsGate stubs 33 (omega arith) (omega arith)

-- Handlers by number.
abbrev no_handlers : Table ℕ
no_handlers _ = none

irq_handler-register_example :
    irq_handler 44 (register_interrupt_handler 44 7 no_handlers)
    ≡ (if leb 40 44
        then out pic2_command pic_eoi ∷ out pic1_command pic_eoi ∷ []
        else out pic1_command pic_eoi ∷ [])
      ++ (if 44 == 44
          then call 7 ∷ []
          else elim (no_handlers 44) [ some old ↦ call old ∷ [] | none ↦ [] ])
irq_handler-register_example = irq_handler-register 44 44 7 no_handlers (omega arith) (omega arith)

-- The five descriptors, as numbers.
segments :
    map entry_word gdt_entries
    ≡ 0 ∷ 0x00cf_9a00_0000_ffff ∷ 0x00cf_9200_0000_ffff ∷ 0x00cf_fa00_0000_ffff
      ∷ 0x00cf_f200_0000_ffff ∷ []
unfolding gdt_entries entry_word
segments = refl
