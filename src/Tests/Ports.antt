-- ===== src/Tests/Ports.antt =====
-- kernel/drivers/serial.c and kernel/drivers/shellcmds.c over devices that are busy at first.
use pyramid_kernel.Prelude.{
  ℕ, ◌+◌, ◌%◌, ◌≡◌, arith, List, [], ◌∷◌, ◌++◌, some, ◌==◌, ltb, if◌then◌else◌, Bool-cases, inl,
  inr, false,
}
use pyramid_kernel.Memory.{Memory}
use pyramid_kernel.Ports.{Access, out, Devices}
use pyramid_kernel.Serial.{serial_write}
use pyramid_kernel.Serial.Transfer.{Transfer, bytes_of, GetsReady, serial_write-Transfer}
use pyramid_kernel.Commands.{reboot}
use pyramid_kernel.Commands.Drain.{Drained, IsIdleFrom, reboot-Drained}

-- Every second read of a port has all bits set.
abbrev blinking : Devices
blinking n port = if n % 2 == 0 then 0 else 0xff

abbrev greeting : Memory
greeting a = if a == 0x100 then b'h' else if a == 0x101 then b'i' else 0

blinking-GetsReady : GetsReady blinking 2
blinking-GetsReady n = elim (Bool-cases (n % 2 == 0)) [
  | inl even ↦
      let now : ((n + 1) % 2 == 0) ≡ false = ground arith in (1, omega arith, rw now (omega arith))
  | inr odd ↦
      let now : ((n + 0) % 2 == 0) ≡ false = ground arith in (0, omega arith, rw now (omega arith))
]

serial_write-Transfer_example :
    (log : List Access) × (n' : ℕ) × (serial_write blinking 2 0x100 2 greeting 0
      ≡ some (out 0x3fb 0x80 ∷ out 0x3f8 0 ∷ out 0x3f8 3 ∷ out 0x3fb 3 ∷ log, n'))
    × Transfer (bytes_of greeting 0x100 2 0) log
serial_write-Transfer_example =
    serial_write-Transfer blinking 2 0x100 2 0 greeting blinking-GetsReady

-- The controller has a key's data and a command until its third read.
abbrev settling : Devices
settling n port = if ltb n 3 then 3 else 0

settling-IsIdleFrom : IsIdleFrom settling 3
settling-IsIdleFrom n late = ground arith

reboot-Drained_example :
    (log : List Access) × (reboot settling 4 0 ≡ some (log ++ (out 0x64 0xfe ∷ []))) × Drained log
reboot-Drained_example = reboot-Drained settling 3 3 0 settling-IsIdleFrom (omega arith)
