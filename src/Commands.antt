-- ===== src/Commands.antt =====
-- kernel/drivers/shellcmds.c: the commands of the shell.
pub mod Drain
use pyramid_kernel.Prelude.{
  ℕ, zero, suc, ◌+◌, ◌^◌, bit_and, List, [], ◌∷◌, ◌++◌, Option, none, some, ◌==◌, if◌then◌else◌,
  not,
}
use pyramid_kernel.Text.{◌>>=◌}
use pyramid_kernel.Ports.{Access, out, inb, Devices}
use pyramid_kernel.Shell.{Shell}
use pyramid_kernel.Printf.{Locals, printf}

abbrev pub kbrd_intrfc : ℕ
kbrd_intrfc = 0x64

abbrev pub kbrd_bit_kdata : ℕ
kbrd_bit_kdata = 0

abbrev pub kbrd_bit_udata : ℕ
kbrd_bit_udata = 1

abbrev pub kbrd_io : ℕ
kbrd_io = 0x60

abbrev pub kbrd_reset : ℕ
kbrd_reset = 0xfe

abbrev pub check_flag : (flags n : ℕ) → ℕ
check_flag flags n = bit_and flags (2 ^ n)

-- The body of the loop: the accesses for the status `temp`, read as number `n`.
unfoldable pub poll : Devices → (n temp : ℕ) → List Access
poll devices n temp =
    inb kbrd_intrfc temp
    ∷ (if not (check_flag temp kbrd_bit_kdata == 0)
        then inb kbrd_io (devices (n + 1) kbrd_io) ∷ []
        else [])

-- The number of the next read after it.
abbrev pub after_poll : (n temp : ℕ) → ℕ
after_poll n temp = if not (check_flag temp kbrd_bit_kdata == 0) then n + 2 else n + 1

-- The `do` loop, from the read number `n` on.
unfoldable pub drain_loop : Devices → (fuel n : ℕ) → Option (List Access)
unfolding poll
drain_loop devices zero n = none
drain_loop devices (suc fuel) n =
    let temp = devices n kbrd_intrfc in
    let again = drain_loop devices fuel (after_poll n temp) in
    if not (check_flag temp kbrd_bit_udata == 0)
    then (do log ← again; some (poll devices n temp ++ log))
    else some (poll devices n temp)

-- What `reboot` does before it halts for good: it does not return.
unfoldable pub reboot : Devices → (fuel n : ℕ) → Option (List Access)
unfolding drain_loop
reboot devices fuel n = do
  log ← drain_loop devices fuel n
  some (log ++ (out kbrd_intrfc kbrd_reset ∷ []))

-- `uname` and `sleep`; the argument is the address of the text.
abbrev pub uname : (fuel : ℕ) → Locals → (version : ℕ) → Shell → Option Shell
uname fuel at version s = printf fuel at version [] s

abbrev pub sleep : (fuel : ℕ) → Locals → (message seconds : ℕ) → Shell → Option Shell
sleep fuel at message seconds s = printf fuel at message [] s
