-- ===== src/Interrupts/Dispatch.antt =====
-- kernel/drivers/isr.c: which handler runs, and which controllers are told.
use pyramid_kernel.Prelude.{ℕ, ◌<◌, ◌≡◌, arith, [], ◌∷◌, ◌++◌, none, some, ◌==◌, if◌then◌else◌, leb}
use pyramid_kernel.Interrupts.{
  out, call, Table, register_interrupt_handler, isr_handler, irq_handler, pic1_command,
  pic2_command, pic_eoi,
}

module _ {H : Type 0} where
  -- After `register_interrupt_handler n handler` an exception `n` runs the handler alone, and any other
  -- exception does what it did before.
  pub isr_handler-register :
      (n i eip : ℕ) (handler : H) (table : Table H)
      → n < 256
      → isr_handler i eip (register_interrupt_handler n handler table)
        ≡ (if i == n then call handler ∷ [] else isr_handler i eip table)
  unfolding isr_handler register_interrupt_handler
  isr_handler-register n i eip handler table small = ground arith

  -- For vectors `n` below 256 and `i` below 48: after `register_interrupt_handler n handler` the
  -- hardware interrupt `i` is acknowledged first, to the slave too exactly if it is one of the
  -- slave's (from 40 on), and to the master always and last; then `handler` runs if `i` is `n`, and
  -- otherwise the handler that was registered before, if there is one.
  pub irq_handler-register :
      (n i : ℕ) (handler : H) (table : Table H)
      → n < 256
      → i < 48
      → irq_handler i (register_interrupt_handler n handler table)
        ≡ (if leb 40 i
            then out pic2_command pic_eoi ∷ out pic1_command pic_eoi ∷ []
            else out pic1_command pic_eoi ∷ [])
          ++ (if i == n
              then call handler ∷ []
              else elim (table i) [ some old ↦ call old ∷ [] | none ↦ [] ])
  unfolding irq_handler register_interrupt_handler
  irq_handler-register n i handler table small vector = ground arith
