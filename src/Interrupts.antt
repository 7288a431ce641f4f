-- ===== src/Interrupts.antt =====
-- kernel/drivers/isr.c: the table of interrupt handlers, their dispatch, and the acknowledgement of
-- hardware interrupts.
pub mod Dispatch
use pyramid_kernel.Prelude.{
  ℕ, ◌+◌, List, [], ◌∷◌, ◌++◌, Option, none, some, Bool, true, false, ◌==◌, ◌&&◌, if◌then◌else◌,
  leb, ltb, u8, ◌^◌,
}

abbrev pub pic1_command : ℕ
pic1_command = 0x20

abbrev pub pic2_command : ℕ
pic2_command = 0xa0

abbrev pub pic_eoi : ℕ
pic_eoi = 0x20

-- What a handler's run shows outside: bytes sent to ports, calls of a handler, and the message of
-- `isr_handler` for an interrupt that nobody handles, two lines with its number and with `eip`.
pub data Event (H : Type 0) : Type 0 where
  out : (port byte : ℕ) → Event H
  call : H → Event H
  unhandled : (int_no eip : ℕ) → Event H

-- `interrupt_handlers`; `none` is the null pointer.
abbrev pub Table : Type 0 → Type 0
Table H = ℕ → Option H

module _ {H : Type 0} where
  unfoldable pub register_interrupt_handler : (n : ℕ) → H → Table H → Table H
  register_interrupt_handler n handler table i = if i == u8 n then some handler else table i

  unfoldable pub isr_handler : (int_no eip : ℕ) → Table H → List (Event H)
  isr_handler int_no eip table = elim (table int_no) [
    | some handler ↦ call handler ∷ []
    | none ↦ unhandled int_no eip ∷ []
  ]

  -- The parameter is an `int`, so from `2 ^ 31` on it is negative.
  unfoldable pub ack_irq : (int_no : ℕ) → List (Event H)
  ack_irq int_no =
      (if leb 40 int_no && ltb int_no (2 ^ 31) then out pic2_command pic_eoi ∷ [] else [])
      ++ (out pic1_command pic_eoi ∷ [])

  unfoldable pub irq_handler : (int_no : ℕ) → Table H → List (Event H)
  unfolding ack_irq
  irq_handler int_no table =
      ack_irq int_no ++ elim (table int_no) [ some handler ↦ call handler ∷ [] | none ↦ [] ]
