-- ===== src/Kheap/Rounding.antt =====
-- kernel/mm/kheap.c: the sizes that `expand` and `contract` round to.
use pyramid_kernel.Prelude.{
  ℕ, ◌+◌, ◌-◌, ◌*◌, ◌/◌, ◌%◌, ◌^◌, ◌<◌, ◌≡◌, arith, ◌==◌, if◌then◌else◌, ltb, max,
}
use pyramid_kernel.Prelude.Bits.{bit_and-page, bit_and-pow, test_bit}
use pyramid_kernel.Kheap.{heap_min_size}
use pyramid_kernel.Kheap.Resize.{round_up, contract_size}

-- From a page on, `expand` rounds to the page boundary after its argument, also where the argument
-- is a boundary itself; a size below a page it leaves as it is.
pub round_up_lem :
    (n : ℕ) → n < 2 ^ 32 - 4096 → round_up n ≡ (if ltb n 4096 then n else (n / 4096 + 1) * 4096)
unfolding round_up
round_up_lem n small = ground (arith, bit_and-page n (omega arith))

bit_12 : (n : ℕ) → test_bit n 12 ≡ n / 4096 % 2
bit_12 n = omega arith

-- `contract` does not round: a size with bit 12 set it replaces by the minimal size, however large
-- it is, and any other by the larger of itself and the minimal size.
pub contract_size_lem :
    (n : ℕ) → contract_size n ≡ (if n / 4096 % 2 == 1 then heap_min_size else max n heap_min_size)
unfolding contract_size
contract_size_lem n = ground (arith, bit_and-pow 12 n, bit_12 n)
