-- ===== src/Commands/Drain.antt =====
-- kernel/drivers/shellcmds.c: the accesses of `reboot` to the keyboard controller.
use pyramid_kernel.Prelude.{
  ℕ, zero, suc, refl, ◌+◌, ◌≤◌, ◌≡◌, ◌≢◌, arith, List, [], ◌∷◌, ◌++◌, some, ◌==◌, bit_and, ◌∙◌,
  if◌then◌else◌, Bool-cases, inl, inr, true, false, ap,
}
use pyramid_kernel.Ports.{Access, out, inb, Devices}
use pyramid_kernel.Commands.{poll, after_poll, drain_loop, reboot}

-- The accesses of a status byte and, if its bit 0 says that there is a key's data, of these data.
abbrev pub polled : (temp byte : ℕ) → List Access
polled temp byte = inb 0x64 temp ∷ (if bit_and temp 1 == 0 then [] else inb 0x60 byte ∷ [])

-- The accesses that empty the buffers: the status is read, with the data that it announces, until its
-- bit 1 says that the command buffer is empty.
pub data Drained : List Access → Type 0 where
  last : (temp byte : ℕ) → bit_and temp 2 ≡ 0 → Drained (polled temp byte)
  more :
      {log : List Access} (temp byte : ℕ)
      → bit_and temp 2 ≢ 0
      → Drained log
      → Drained (polled temp byte ++ log)

-- From the read number `idle` on the controller has taken its commands.
abbrev pub IsIdleFrom : Devices → (idle : ℕ) → Type 0
IsIdleFrom devices idle = (n : ℕ) → idle ≤ n → bit_and (devices n 0x64) 2 ≡ 0

module _ (devices : Devices) where
  poll-polled : (n temp : ℕ) → poll devices n temp ≡ polled temp (devices (n + 1) 0x60)
  unfolding poll
  poll-polled n temp = ground arith

  drain_loop_last :
      (fuel n : ℕ)
      → (bit_and (devices n 0x64) 2 == 0) ≡ true
      → drain_loop devices (suc fuel) n ≡ some (poll devices n (devices n 0x64))
  unfolding drain_loop
  drain_loop_last fuel n clear = rw clear refl

  drain_loop_more :
      (fuel n : ℕ) (log : List Access)
      → (bit_and (devices n 0x64) 2 == 0) ≡ false
      → drain_loop devices fuel (after_poll n (devices n 0x64)) ≡ some log
      → drain_loop devices (suc fuel) n ≡ some (poll devices n (devices n 0x64) ++ log)
  unfolding drain_loop
  drain_loop_more fuel n log full rest = rw (full, rest) refl

  -- Each round takes a read at least, so the loop ends once the reads have reached `idle`.
  drain_loop-Drained :
      (idle : ℕ)
      → IsIdleFrom devices idle
      → (fuel n : ℕ) → idle ≤ n + fuel
      → (log : List Access) × (drain_loop devices (suc fuel) n ≡ some log) × Drained log
  drain_loop-Drained idle clear zero n enough =
      let temp = devices n 0x64 in
      let empty : (bit_and temp 2 == 0) ≡ true = ground (arith, clear n) in
      (
        polled temp (devices (n + 1) 0x60),
        drain_loop_last 0 n empty ∙ ap some (poll-polled n temp),
        last temp (devices (n + 1) 0x60) (ground arith),
      )
  drain_loop-Drained idle clear (suc fuel) n enough =
      let temp = devices n 0x64 in
      elim (Bool-cases (bit_and temp 2 == 0)) [
        | inl empty ↦ (
          polled temp (devices (n + 1) 0x60),
          drain_loop_last (suc fuel) n empty ∙ ap some (poll-polled n temp),
          last temp (devices (n + 1) 0x60) (ground arith),
        )
        | inr full ↦
            let (log, e, drained) =
              drain_loop-Drained idle clear fuel (after_poll n temp) (ground arith) in
            (
              polled temp (devices (n + 1) 0x60) ++ log,
              drain_loop_more (suc fuel) n log full e
                  ∙ ap (λ l. some (l ++ log)) (poll-polled n temp),
              more temp (devices (n + 1) 0x60) (ground arith) drained,
            )
      ]

  -- If the controller has taken its commands from the read number `idle` on, then `reboot` comes to the
  -- reset, with one round more than there are reads until then: it reads the status, with the data
  -- that it announces, until the command buffer is empty, and then sends the reset command, and
  -- nothing else before.
  pub reboot-Drained :
      (idle fuel n : ℕ)
      → IsIdleFrom devices idle
      → idle ≤ n + fuel
      → (log : List Access) × (reboot devices (suc fuel) n ≡ some (log ++ (out 0x64 0xfe ∷ [])))
        × Drained log
  unfolding reboot
  reboot-Drained idle fuel n clear enough =
      let (log, e, drained) = drain_loop-Drained idle clear fuel n enough in
      (log, rw e refl, drained)
