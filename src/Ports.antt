-- ===== src/Ports.antt =====
-- kernel/drivers/io.h: the ports. `outb` and `inb` are assembly; a run is the list of its accesses.
use pyramid_kernel.Prelude.{ℕ}

pub data Access : Type 0 where
  out : (port byte : ℕ) → Access
  inb : (port byte : ℕ) → Access

-- What the devices answer: the byte of the `n`-th read of a run, if that is of the port.
abbrev pub Devices : Type 0
Devices = (n port : ℕ) → ℕ
