-- ===== src/Descriptors.antt =====
-- kernel/drivers/descriptor_tables.c: segment descriptors, interrupt gates, and the interrupt
-- controllers' set-up.
pub mod Encoding
pub mod Gates
use pyramid_kernel.Prelude.{
  ℕ, zero, suc, ◌+◌, ◌*◌, ◌/◌, ◌%◌, ◌^◌, bit_and, List, [], ◌∷◌, ◌++◌, ◌==◌, if◌then◌else◌, u8, u16,
  u32,
}

abbrev pub gdt_base : ℕ
gdt_base = 0

abbrev pub gdt_limit : ℕ
gdt_limit = 0xffff_ffff

-- `struct gdt_access`, by its bit fields.
pub record GdtAccess : Type 0 where
  pub type : ℕ
  pub dt : ℕ
  pub dpl : ℕ
  pub p : ℕ

-- `struct gdt_granularity`
pub record GdtGranularity : Type 0 where
  pub seglen : ℕ
  pub zero_bits : ℕ
  pub d : ℕ
  pub g : ℕ

-- `struct gdt_entry_struct`
pub record GdtEntry : Type 0 where
  pub limit_low : ℕ
  pub base_low : ℕ
  pub base_middle : ℕ
  pub access : GdtAccess
  pub granularity : GdtGranularity
  pub base_high : ℕ

-- The byte that a packed structure of bit fields takes, the first field lowest.
abbrev pub access_byte : GdtAccess → ℕ
access_byte a = a.type % 16 + a.dt % 2 * 16 + a.dpl % 4 * 32 + a.p % 2 * 128

abbrev pub granularity_byte : GdtGranularity → ℕ
granularity_byte g = g.seglen % 16 + g.zero_bits % 4 * 16 + g.d % 2 * 64 + g.g % 2 * 128

-- The 8 bytes of the packed entry, as a little-endian number.
unfoldable pub entry_word : GdtEntry → ℕ
entry_word e =
    u16 e.limit_low
    + u16 e.base_low * 2 ^ 16
    + u8 e.base_middle * 2 ^ 32
    + access_byte e.access * 2 ^ 40
    + granularity_byte e.granularity * 2 ^ 48
    + u8 e.base_high * 2 ^ 56

unfoldable pub construct_entry : GdtAccess → GdtEntry
construct_entry access = record {
  base_low = bit_and gdt_base 0xffff;
  base_middle = bit_and (gdt_base / 2 ^ 16) 0xff;
  base_high = bit_and (gdt_base / 2 ^ 24) 0xff;
  limit_low = bit_and gdt_limit 0xffff;
  access = access;
  granularity = record { g = 1; d = 1; zero_bits = 0; seglen = 0xf };
}

unfoldable pub construct_null_entry : GdtEntry
construct_null_entry = record {
  base_low = 0;
  base_middle = 0;
  base_high = 0;
  limit_low = 0;
  access = record { p = 0; dpl = 0; dt = 0; type = 0 };
  granularity = record { g = 0; d = 0; zero_bits = 0; seglen = 0 };
}

abbrev pub gdt_code_type_exec_read : ℕ
gdt_code_type_exec_read = 0xa

abbrev pub gdt_data_type_read_write : ℕ
gdt_data_type_read_write = 0x2

-- The five entries that `init_gdt` stores.
unfoldable pub gdt_entries : List GdtEntry
unfolding construct_null_entry construct_entry
gdt_entries =
    construct_null_entry
    ∷ construct_entry (record { type = gdt_code_type_exec_read; dt = 1; dpl = 0; p = 1 })
    ∷ construct_entry (record { type = gdt_data_type_read_write; dt = 1; dpl = 0; p = 1 })
    ∷ construct_entry (record { type = gdt_code_type_exec_read; dt = 1; dpl = 3; p = 1 })
    ∷ construct_entry (record { type = gdt_data_type_read_write; dt = 1; dpl = 3; p = 1 })
    ∷ []

-- `struct idt_flags` and `struct idt_entry`.
pub record IdtFlags : Type 0 where
  pub reserved : ℕ
  pub dpl : ℕ
  pub p : ℕ

pub record IdtEntry : Type 0 where
  pub base_low : ℕ
  pub segment_selector : ℕ
  pub reserved : ℕ
  pub flags : IdtFlags
  pub base_high : ℕ

-- The bytes of `memset`.
abbrev pub zero_gate : IdtEntry
zero_gate = record {
  base_low = 0;
  segment_selector = 0;
  reserved = 0;
  flags = record { reserved = 0; dpl = 0; p = 0 };
  base_high = 0;
}

abbrev pub idt_flag_reserved : ℕ
idt_flag_reserved = 0x0e

-- `idt_entries`
abbrev pub Idt : Type 0
Idt = ℕ → IdtEntry

unfoldable pub idt_set_gate : (idx base selector : ℕ) → IdtFlags → Idt → Idt
idt_set_gate idx base selector flags table i =
    if i == u8 idx
    then record {
      base_low = bit_and base 0xffff;
      base_high = bit_and (base / 2 ^ 16) 0xffff;
      segment_selector = selector;
      reserved = 0;
      flags = flags;
    }
    else table i

-- The gates that `init_idt` sets from number `idx` on, `left` of them. `stub` gives the addresses of
-- `isr0`, …, `isr31`, `irq0`, …, `irq15`, in this order: the linker chooses them.
unfoldable pub set_gates : (stub : ℕ → ℕ) → IdtFlags → (left idx : ℕ) → Idt → Idt
unfolding idt_set_gate
set_gates stub flags zero idx table = table
set_gates stub flags (suc left) idx table =
    set_gates stub flags left (idx + 1) (idt_set_gate idx (stub idx) 0x08 flags table)

abbrev pub gate_flags : IdtFlags
gate_flags = record { reserved = idt_flag_reserved; dpl = 0; p = 1 }

-- The table that `init_idt` leaves: the exceptions' gates, then the hardware interrupts'.
unfoldable pub init_idt : (stub : ℕ → ℕ) → Idt
init_idt stub = set_gates stub gate_flags 16 32 (set_gates stub gate_flags 32 0 (λ _. zero_gate))

abbrev pub pic1_data : ℕ
pic1_data = 0x21

abbrev pub pic2_data : ℕ
pic2_data = 0xa1

abbrev pub icw1_init : ℕ
icw1_init = 0x10

abbrev pub icw1_icw4 : ℕ
icw1_icw4 = 0x01

abbrev pub icw4_8086 : ℕ
icw4_8086 = 0x01

-- The bytes that `PIC_remap` sends, as port and byte, in order; `a1` and `a2` are the masks that it has
-- read before.
unfoldable pub pic_remap : (offset1 offset2 a1 a2 : ℕ) → List (ℕ × ℕ)
pic_remap offset1 offset2 a1 a2 =
    (0x20, icw1_init + icw1_icw4)
    ∷ (0xa0, icw1_init + icw1_icw4)
    ∷ (pic1_data, offset1)
    ∷ (pic2_data, offset2)
    ∷ (pic1_data, 4)
    ∷ (pic2_data, 2)
    ∷ (pic1_data, icw4_8086)
    ∷ (pic2_data, icw4_8086)
    ∷ (pic1_data, a1)
    ∷ (pic2_data, a2)
    ∷ []
