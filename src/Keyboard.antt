-- ===== src/Keyboard.antt =====
-- kernel/drivers/keyboard.c: the handler of key presses, its command buffer, and the commands of
-- kernel/drivers/shellcmds.c.
pub mod Edit
pub mod Enter
use pyramid_kernel.Prelude.{
  ℕ, zero, suc, ◌+◌, ◌-◌, ◌==◌, ◌||◌, if◌then◌else◌, bit_and, List, [], ◌∷◌, Option, none, some,
  not, get_or,
}
use pyramid_kernel.Memory.{Memory, store8}
use pyramid_kernel.Memory.Bytes.{memset, memmove}
use pyramid_kernel.Text.{◌>>=◌, strcmp}
use pyramid_kernel.Shell.{Shell, write_prompt, back_space}
use pyramid_kernel.Printf.{Locals, printf}
use pyramid_kernel.Commands.{uname}

-- `keyboard_map`, up to the last entry that is not 0.
abbrev pub keyboard_map : List ℕ
keyboard_map =
    0 ∷ 27 ∷ b'1' ∷ b'2' ∷ b'3' ∷ b'4' ∷ b'5' ∷ b'6' ∷ b'7' ∷ b'8' ∷ b'9' ∷ b'0' ∷ b'-' ∷ b'=' ∷ 8
    ∷ 9 ∷ b'q' ∷ b'w' ∷ b'e' ∷ b'r' ∷ b't' ∷ b'y' ∷ b'u' ∷ b'i' ∷ b'o' ∷ b'p' ∷ b'[' ∷ b']' ∷ 10 ∷ 0
    ∷ b'a' ∷ b's' ∷ b'd' ∷ b'f' ∷ b'g' ∷ b'h' ∷ b'j' ∷ b'k' ∷ b'l' ∷ b';' ∷ 39 ∷ b'`' ∷ 0 ∷ 92
    ∷ b'z' ∷ b'x' ∷ b'c' ∷ b'v' ∷ b'b' ∷ b'n' ∷ b'm' ∷ b',' ∷ b'.' ∷ b'/' ∷ 0 ∷ b'*' ∷ 0 ∷ b' ' ∷ 0
    ∷ 0 ∷ 0 ∷ 0 ∷ 0 ∷ 0 ∷ 0 ∷ 0 ∷ 0 ∷ 0 ∷ 0 ∷ 0 ∷ 0 ∷ 0 ∷ 0 ∷ 0 ∷ b'-' ∷ 0 ∷ 0 ∷ 0 ∷ b'+' ∷ []

-- Behind the array, where the code of a released key points, the value is not used.
abbrev pub key_code : ℕ → ℕ
key_code scan_code = get_or keyboard_map scan_code 0

-- Where the linker puts the arrays `command` and `temp` and the string literals, and where the local
-- variables of `printf` are.
pub record Layout : Type 0 where
  pub command : ℕ
  pub temp : ℕ
  pub char_format : ℕ
  pub help : ℕ
  pub reboot : ℕ
  pub uname : ℕ
  pub help_reboot : ℕ
  pub help_uname : ℕ
  pub help_sleep : ℕ
  pub version : ℕ
  pub locals : Locals

-- The console, `cmd_index` and `shiftDown`.
pub record Keyboard : Type 0 where
  pub shell : Shell
  pub cmd_index : ℕ
  pub shift_down : ℕ

-- `reboot` does not return.
pub data Outcome : Type 0 where
  done : Keyboard → Outcome
  rebooting : Keyboard → Outcome

unfoldable pub clear_command : Layout → Memory → Memory
clear_command at m = memset m at.command 0 512

unfoldable pub clear_temp : Layout → Memory → Memory
clear_temp at m = memset m at.temp 0 512

abbrev pub with_mem : (Memory → Memory) → Shell → Shell
with_mem f s = record s { mem = f s.mem }

-- What a backspace does to the two arrays; `n` characters stay. The copying loops are those of `memmove`.
unfoldable pub shorten : Layout → (n : ℕ) → Memory → Memory
unfolding clear_command clear_temp
shorten at n m =
    let kept = memmove m at.temp at.command n in
    clear_temp at (memmove (clear_command at kept) at.command at.temp n)

unfoldable pub key_backspace : Layout → Keyboard → Keyboard
unfolding shorten
key_backspace at k = if k.cmd_index == 0 then k else record k {
  cmd_index = k.cmd_index - 1;
  shell = back_space (with_mem (shorten at (k.cmd_index - 1)) k.shell);
}

unfoldable pub print_help : (fuel : ℕ) → Layout → Shell → Option Shell
print_help fuel at s = do
  s₁ ← printf fuel at.locals at.help_reboot [] s
  s₂ ← printf fuel at.locals at.help_uname [] s₁
  printf fuel at.locals at.help_sleep [] s₂

abbrev pub prompt : List ℕ
prompt =
    10 ∷ b'P' ∷ b'y' ∷ b'r' ∷ b'a' ∷ b'm' ∷ b'i' ∷ b'd' ∷ b'@' ∷ b'K' ∷ b'e' ∷ b'r' ∷ b'n' ∷ b'e'
    ∷ b'l' ∷ b'~' ∷ b'$' ∷ b' ' ∷ []

-- The end of a command: the buffer is emptied, and the next prompt is shown.
unfoldable pub next_prompt : Layout → Keyboard → Keyboard
unfolding clear_command
next_prompt at k = record k {
  cmd_index = 0;
  shell = write_prompt prompt (with_mem (clear_command at) k.shell);
}

unfoldable pub key_enter : (fuel : ℕ) → Layout → Keyboard → Option Outcome
unfolding print_help next_prompt
key_enter fuel at k = do
  is_help ← strcmp fuel at.command at.help k.shell.mem
  if is_help == 0
      then (do
        s ← print_help fuel at k.shell
        some (done (next_prompt at (record k { shell = s }))))
      else do
        is_reboot ← strcmp fuel at.command at.reboot k.shell.mem
        if is_reboot == 0 then some (rebooting k) else do
          is_uname ← strcmp fuel at.command at.uname k.shell.mem
          if is_uname == 0
              then (do
                s ← uname fuel at.locals at.version k.shell
                some (done (next_prompt at (record k { shell = s }))))
              else some (done (next_prompt at k))

-- The character is shown, and stored without a test of the index.
unfoldable pub key_char : (fuel keycode : ℕ) → Layout → Keyboard → Option Outcome
key_char fuel keycode at k = do
  s ← printf fuel at.locals at.char_format (keycode ∷ []) k.shell
  some (
      done (record k {
        shell = with_mem (λ m. store8 m (at.command + k.cmd_index) keycode) s;
        cmd_index = k.cmd_index + 1;
      }))

-- `keyboard_cb`; `scan_code` is what it reads from the port.
unfoldable pub keyboard_cb : (fuel scan_code : ℕ) → Layout → Keyboard → Option Outcome
unfolding key_backspace key_enter key_char
keyboard_cb fuel scan_code at k =
    let keycode = key_code scan_code in
    if not (bit_and scan_code 0x80 == 0)
    then (if scan_code == 0xaa || scan_code == 0xb6
        then some (done (record k { shift_down = 0 }))
        else some (done k))
    else if keycode == 8
    then some (done (key_backspace at k))
    else if keycode == 10
    then key_enter fuel at k
    else key_char fuel keycode at k
