-- ===== src/Descriptors/Encoding.antt =====
-- kernel/drivers/descriptor_tables.h: what the processor reads from a segment descriptor.
use pyramid_kernel.Prelude.{ℕ, ◌+◌, ◌*◌, ◌/◌, ◌%◌, ◌^◌, ◌<◌, ◌≡◌, arith}
use pyramid_kernel.Descriptors.{GdtAccess, construct_entry, entry_word}

-- The fields of an 8-byte descriptor where the processor looks for them.
abbrev pub segment_base : ℕ → ℕ
segment_base w = w / 2 ^ 16 % 2 ^ 24 + w / 2 ^ 56 % 2 ^ 8 * 2 ^ 24

abbrev pub segment_limit : ℕ → ℕ
segment_limit w = w % 2 ^ 16 + w / 2 ^ 48 % 2 ^ 4 * 2 ^ 16

-- For an access whose fields fit their bits, `construct_entry` describes the flat 32-bit segment:
-- base 0, limit `0xFFFFF` in units of 4 KiB, 32-bit operands; type, descriptor type, privilege and
-- presence are the ones given.
pub construct_entry_fields :
    (a : GdtAccess)
    → a.type < 16
    → a.dt < 2
    → a.dpl < 4
    → a.p < 2
    → let w = entry_word (construct_entry a) in
      (segment_base w ≡ 0)
      × (segment_limit w ≡ 0xfffff)
      × (w / 2 ^ 40 % 2 ^ 4 ≡ a.type)
      × (w / 2 ^ 44 % 2 ≡ a.dt)
      × (w / 2 ^ 45 % 2 ^ 2 ≡ a.dpl)
      × (w / 2 ^ 47 % 2 ≡ a.p)
      × (w / 2 ^ 54 % 2 ≡ 1)
      × (w / 2 ^ 55 % 2 ≡ 1)
unfolding construct_entry entry_word
construct_entry_fields a type dt dpl p = omega arith
