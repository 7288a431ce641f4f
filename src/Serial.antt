-- ===== src/Serial.antt =====
-- kernel/drivers/serial.c: the serial port. Each function gives the accesses it makes, in order, and
-- the number of the next read.
pub mod Transfer
use pyramid_kernel.Prelude.{
  ℕ, zero, suc, ◌+◌, ◌/◌, ◌^◌, bit_and, List, [], ◌∷◌, ◌++◌, Option, none, some, ◌==◌,
  if◌then◌else◌, u8, u16,
}
use pyramid_kernel.Memory.{Memory}
use pyramid_kernel.Text.{◌>>=◌}
use pyramid_kernel.Ports.{Access, out, inb, Devices}

abbrev pub serial_com1_base : ℕ
serial_com1_base = 0x3f8

abbrev pub serial_data_port : ℕ → ℕ
serial_data_port base = base

abbrev pub serial_line_command_port : ℕ → ℕ
serial_line_command_port base = base + 3

abbrev pub serial_line_status_port : ℕ → ℕ
serial_line_status_port base = base + 5

abbrev pub serial_line_enable_dlab : ℕ
serial_line_enable_dlab = 0x80

unfoldable pub serial_configure_baud_rate : (base divisor : ℕ) → List Access
serial_configure_baud_rate base divisor =
    out (serial_line_command_port base) serial_line_enable_dlab
    ∷ out (serial_data_port base) (bit_and (divisor / 2 ^ 8) 0x00ff)
    ∷ out (serial_data_port base) (bit_and divisor 0x00ff)
    ∷ []

unfoldable pub serial_configure_line : (base : ℕ) → List Access
serial_configure_line base = out (serial_line_command_port base) 0x03 ∷ []

-- The result for the status byte that is read.
unfoldable pub serial_is_transmit_fifo_empty : (status : ℕ) → ℕ
serial_is_transmit_fifo_empty status = bit_and status 0x20

-- `while (!serial_is_transmit_fifo_empty(SERIAL_COM1_BASE));` from the read number `n` on.
unfoldable pub wait_loop : Devices → (fuel n : ℕ) → Option (List Access × ℕ)
unfolding serial_is_transmit_fifo_empty
wait_loop devices zero n = none
wait_loop devices (suc fuel) n =
    let port = serial_line_status_port serial_com1_base in
    let status = devices n port in
    let rest = wait_loop devices fuel (n + 1) in
    if serial_is_transmit_fifo_empty status == 0
    then (do (log, n') ← rest; some (inb port status ∷ log, n'))
    else some (inb port status ∷ [], n + 1)

-- The loop over the characters, `left` of them from `buf[i]` on.
unfoldable pub write_loop :
    Devices → (fuel buf : ℕ) → Memory → (left i n : ℕ) → Option (List Access × ℕ)
unfolding wait_loop
write_loop devices fuel buf m zero i n = some ([], n)
write_loop devices fuel buf m (suc left) i n = do
  (waited, n₁) ← wait_loop devices fuel n
  (rest, n₂) ← write_loop devices fuel buf m left (i + 1) n₁
  some (waited ++ (out (serial_data_port serial_com1_base) (m (buf + i)) ∷ rest), n₂)

unfoldable pub serial_write :
    Devices → (fuel buf len : ℕ) → Memory → (n : ℕ) → Option (List Access × ℕ)
unfolding serial_configure_baud_rate serial_configure_line write_loop
serial_write devices fuel buf len m n = do
  (log, n') ← write_loop devices fuel buf m len 0 n
  some (
    serial_configure_baud_rate serial_com1_base 3
        ++ (serial_configure_line serial_com1_base ++ log),
    n',
  )
