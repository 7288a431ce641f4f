-- ===== src/Serial/Transfer.antt =====
-- kernel/drivers/serial.c: the accesses of `serial_write` to the port.
use pyramid_kernel.Prelude.{
  ℕ, zero, suc, refl, ◌+◌, ◌-◌, ◌<◌, ◌≡◌, ◌≢◌, arith, List, [], ◌∷◌, ◌++◌, some, ◌==◌, bit_and,
  Bool-cases, inl, inr, true, false,
}
use pyramid_kernel.Memory.{Memory}
use pyramid_kernel.Ports.{Access, out, inb, Devices}
use pyramid_kernel.Serial.{
  wait_loop, write_loop, serial_write, serial_is_transmit_fifo_empty, serial_configure_baud_rate,
  serial_configure_line,
}
use mathlib.Core.Path.{subst}

-- The bit 5 of the line status, which says that the transmitter is empty.
abbrev pub IsReady : ℕ → Type 0
IsReady status = bit_and status 0x20 ≢ 0

-- The accesses that send some bytes over COM1: the status is read until it says ready, and then one
-- byte is sent.
pub data Transfer : List ℕ → List Access → Type 0 where
  nothing : Transfer [] []
  waiting :
      {cs : List ℕ} {log : List Access} (status : ℕ)
      → bit_and status 0x20 ≡ 0
      → Transfer cs log
      → Transfer cs (inb 0x3fd status ∷ log)
  sending :
      {cs : List ℕ} {log : List Access} (status c : ℕ)
      → IsReady status
      → Transfer cs log
      → Transfer (c ∷ cs) (inb 0x3fd status ∷ out 0x3f8 c ∷ log)

-- The bytes from `buf[i]` on.
unfoldable pub bytes_of : Memory → (buf left i : ℕ) → List ℕ
bytes_of m buf zero i = []
bytes_of m buf (suc left) i = m (buf + i) ∷ bytes_of m buf left (i + 1)

-- The port does not stay busy: among any `fuel` reads of its status one says ready.
abbrev pub GetsReady : Devices → (fuel : ℕ) → Type 0
GetsReady devices fuel = (n : ℕ) → (t : ℕ) × (t < fuel) × IsReady (devices (n + t) 0x3fd)

module _ (devices : Devices) where
  wait_loop_ready :
      (fuel n : ℕ)
      → (bit_and (devices n 0x3fd) 0x20 == 0) ≡ false
      → wait_loop devices (suc fuel) n ≡ some (inb 0x3fd (devices n 0x3fd) ∷ [], n + 1)
  unfolding wait_loop serial_is_transmit_fifo_empty
  wait_loop_ready fuel n ready = rw ready refl

  wait_loop_busy :
      (fuel n n' : ℕ) (log : List Access)
      → (bit_and (devices n 0x3fd) 0x20 == 0) ≡ true
      → wait_loop devices fuel (n + 1) ≡ some (log, n')
      → wait_loop devices (suc fuel) n ≡ some (inb 0x3fd (devices n 0x3fd) ∷ log, n')
  unfolding wait_loop serial_is_transmit_fifo_empty
  wait_loop_busy fuel n n' log busy rest = rw (busy, rest) refl

  -- The wait ends if a status within the fuel says ready, and what follows can send a byte.
  wait_loop-Transfer :
      (fuel t n : ℕ)
      → t < fuel
      → IsReady (devices (n + t) 0x3fd)
      → (log : List Access) × (n' : ℕ) × (wait_loop devices fuel n ≡ some (log, n'))
        × ((c : ℕ) (cs : List ℕ) (rest : List Access)
            → Transfer cs rest
            → Transfer (c ∷ cs) (log ++ (out 0x3f8 c ∷ rest)))
  wait_loop-Transfer zero t n below ready = absurd (omega arith)
  wait_loop-Transfer (suc fuel) t n below ready =
      let status = devices n 0x3fd in
      elim (Bool-cases (bit_and status 0x20 == 0)) [
        | inr now ↦ (
          inb 0x3fd status ∷ [],
          n + 1,
          wait_loop_ready fuel n now,
          λ c cs rest sent. sending status c (ground arith) sent,
        )
        | inl busy ↦
            let later : t ≢ 0 = λ e.
              subst (λ p. IsReady (devices p 0x3fd)) {x = n + t} {y = n} (omega arith) ready
                (ground arith) in
            let (log, n', e, follows) = wait_loop-Transfer fuel (t - 1) (n + 1) (omega arith) (
              subst (λ p. IsReady (devices p 0x3fd)) {x = n + t} {y = n + 1 + (t - 1)} (omega arith)
                ready) in
            (
              inb 0x3fd status ∷ log,
              n',
              wait_loop_busy fuel n n' log busy e,
              λ c cs rest sent. waiting status (ground arith) (follows c cs rest sent),
            )
      ]

  write_loop-Transfer :
      (fuel : ℕ)
      → GetsReady devices fuel
      → (buf : ℕ) (m : Memory) (left i n : ℕ)
      → (log : List Access) × (n' : ℕ) × (write_loop devices fuel buf m left i n ≡ some (log, n'))
        × Transfer (bytes_of m buf left i) log
  unfolding write_loop bytes_of
  write_loop-Transfer fuel gets_ready buf m zero i n = ([], n, refl, nothing)
  write_loop-Transfer fuel gets_ready buf m (suc left) i n =
      let (t, below, ready) = gets_ready n in
      let (waited, n₁, e, follows) = wait_loop-Transfer fuel t n below ready in
      let (rest, n₂, e', sent) = write_loop-Transfer fuel gets_ready buf m left (i + 1) n₁ in
      (
        waited ++ (out 0x3f8 (m (buf + i)) ∷ rest),
        n₂,
        rw (e, e') refl,
        follows (m (buf + i)) (bytes_of m buf left (i + 1)) rest sent,
      )

  -- If among any `fuel` reads of the line status one says ready, then `serial_write` returns. It sends
  -- the divisor 3 with the latch bit on, the line's format, and then all the bytes of the buffer in their
  -- order, each right after the first status read since the last byte that says ready.
  pub serial_write-Transfer :
      (fuel buf len n : ℕ) (m : Memory)
      → GetsReady devices fuel
      → (log : List Access) × (n' : ℕ) × (serial_write devices fuel buf len m n
          ≡ some (out 0x3fb 0x80 ∷ out 0x3f8 0 ∷ out 0x3f8 3 ∷ out 0x3fb 3 ∷ log, n'))
        × Transfer (bytes_of m buf len 0) log
  unfolding serial_write serial_configure_baud_rate serial_configure_line
  serial_write-Transfer fuel buf len n m gets_ready =
      let (log, n', e, sent) = write_loop-Transfer fuel gets_ready buf m len 0 n in
      (log, n', rw e refl, sent)
