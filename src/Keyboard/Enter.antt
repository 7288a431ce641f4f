-- ===== src/Keyboard/Enter.antt =====
-- kernel/drivers/keyboard.c: what the enter key does.
use pyramid_kernel.Prelude.{
  ℕ, ◌+◌, ◌≤◌, ◌<◌, ◌≡◌, ◌≢◌, ◌⊎◌, ◌∙◌, refl, List, [], some, length, arith,
}
use native.Mathlib.Decide.{ℕ_discrete}
use pyramid_kernel.Memory.{IsBytes}
use pyramid_kernel.Memory.Bytes.{memset, memset_lem}
use pyramid_kernel.Text.{◌>>=◌, strcmp}
use pyramid_kernel.Text.Strings.{IsString}
use pyramid_kernel.Text.Compare.{strcmp-zero_iff}
use pyramid_kernel.Shell.{Shell, fb_base_address, write, write_prompt}
use pyramid_kernel.Shell.Cursor.{IsOnScreen, write-IsOnScreen, write_prompt-IsOnScreen}
use pyramid_kernel.Shell.Frame.{write_prompt_outside}
use pyramid_kernel.Printf.{printf}
use pyramid_kernel.Printf.Plain.{IsPlain, IsPlain-write, printf-write}
use pyramid_kernel.Keyboard.{
  Layout, Keyboard, key_enter, print_help, prompt, clear_command, done, rebooting, next_prompt,
}

module _ (fuel : ℕ) (at : Layout) (k : Keyboard) (a b c : ℕ)
    (help : strcmp fuel at.command at.help k.shell.mem ≡ some a)
    (reboot : strcmp fuel at.command at.reboot k.shell.mem ≡ some b)
    (uname : strcmp fuel at.command at.uname k.shell.mem ≡ some c) where
  key_enter-help :
      a ≡ 0
      → key_enter fuel at k ≡ (
          print_help fuel at k.shell >>= λ s. some (done (next_prompt at (record k { shell = s }))))
  unfolding key_enter
  key_enter-help same = ground (arith, help)

  key_enter-reboot : a ≢ 0 → b ≡ 0 → key_enter fuel at k ≡ some (rebooting k)
  unfolding key_enter
  key_enter-reboot other same = ground (arith, help, reboot)

  key_enter-unknown : a ≢ 0 → b ≢ 0 → c ≢ 0 → key_enter fuel at k ≡ some (done (next_prompt at k))
  unfolding key_enter
  key_enter-unknown first second third = ground (arith, help, reboot, uname)

  key_enter-uname :
      a ≢ 0
      → b ≢ 0
      → c ≡ 0
      → key_enter fuel at k ≡ (
          printf fuel at.locals at.version [] k.shell >>= λ s.
          some (done (next_prompt at (record k { shell = s }))))
  unfolding key_enter
  key_enter-uname first second same = ground (arith, help, reboot, uname)

-- What was typed, the names of the commands, the three lines of the help, and the version.
pub record Words : Type 0 where
  pub typed : List ℕ
  pub help : List ℕ
  pub reboot : List ℕ
  pub uname : List ℕ
  pub help_reboot : List ℕ
  pub help_uname : List ℕ
  pub help_sleep : List ℕ
  pub version : List ℕ

-- They stand in memory; those that are shown have no conversion and lie apart from the frame buffer, and
-- so does the command's array. No text that is read takes more than `fuel` rounds.
pub record AreTexts (fuel : ℕ) (at : Layout) (k : Keyboard) (w : Words) : Type 0 where
  pub typed : IsString k.shell.mem at.command w.typed
  pub help : IsString k.shell.mem at.help w.help
  pub reboot : IsString k.shell.mem at.reboot w.reboot
  pub uname : IsString k.shell.mem at.uname w.uname
  pub help_reboot : IsPlain at.help_reboot w.help_reboot k.shell
  pub help_uname : IsPlain at.help_uname w.help_uname k.shell
  pub help_sleep : IsPlain at.help_sleep w.help_sleep k.shell
  pub version : IsPlain at.version w.version k.shell
  pub apart : (at.command + 512 ≤ fb_base_address) ⊎ (fb_base_address + 7840 ≤ at.command)
  pub bytes : IsBytes k.shell.mem
  pub typed_fits : length w.typed < fuel
  pub help_reboot_fits : length w.help_reboot < fuel
  pub help_uname_fits : length w.help_uname < fuel
  pub help_sleep_fits : length w.help_sleep < fuel
  pub version_fits : length w.version < fuel

-- The keyboard is ready for the next command, when `s` is the console after the last one: the index is
-- 0, the command's array is all zero, and the prompt is shown behind what the console showed.
pub record IsReady (at : Layout) (s : Shell) (k k' : Keyboard) : Type 0 where
  pub index : k'.cmd_index ≡ 0
  pub emptied : (j : ℕ) → j < 512 → k'.shell.mem (at.command + j) ≡ 0
  pub prompted : k'.shell ≡ write_prompt prompt (record s { mem = memset s.mem at.command 0 512 })
  pub cursor : IsOnScreen k'.shell
  pub shift : k'.shift_down ≡ k.shift_down

next_prompt-IsReady :
    (at : Layout) (s : Shell) (k : Keyboard)
    → IsOnScreen s
    → (at.command + 512 ≤ fb_base_address) ⊎ (fb_base_address + 7840 ≤ at.command)
    → IsReady at s k (next_prompt at (record k { shell = s }))
unfolding next_prompt clear_command
next_prompt-IsReady at s k on apart =
    let s' = record s { mem = memset s.mem at.command 0 512 } in
    let on' : IsOnScreen s' = record { col = on.col; row = on.row } in
    record {
      index = refl;
      emptied = λ j below.
          write_prompt_outside (at.command + j) (omega arith) prompt s' on'
          ∙ ground (arith, memset_lem s.mem at.command 0 512 (at.command + j));
      prompted = refl;
      cursor = write_prompt-IsOnScreen prompt s' on';
      shift = refl;
    }

-- The console after the lines of the help, one behind the other.
abbrev pub helped : Layout → Words → Shell → Shell
helped at w s =
    write at.help_sleep (length w.help_sleep)
      (write at.help_uname (length w.help_uname) (write at.help_reboot (length w.help_reboot) s))

module _ (fuel : ℕ) (at : Layout) (k : Keyboard) (w : Words) (texts : AreTexts fuel at k w) where
  print_help-helped : print_help fuel at k.shell ≡ some (helped at w k.shell)
  unfolding print_help
  print_help-helped =
      let s₁ = write at.help_reboot (length w.help_reboot) k.shell in
      let s₂ = write at.help_uname (length w.help_uname) s₁ in
      let second =
        IsPlain-write at.help_uname at.help_reboot (length w.help_reboot) w.help_uname k.shell
          texts.help_uname in
      let third = IsPlain-write at.help_sleep at.help_uname (length w.help_uname) w.help_sleep s₁ (
        IsPlain-write at.help_sleep at.help_reboot (length w.help_reboot) w.help_sleep k.shell
          texts.help_sleep) in
      rw
        (
          printf-write fuel at.help_reboot at.locals [] w.help_reboot k.shell texts.help_reboot_fits
              texts.help_reboot,
          printf-write fuel at.help_uname at.locals [] w.help_uname s₁ texts.help_uname_fits second,
          printf-write fuel at.help_sleep at.locals [] w.help_sleep s₂ texts.help_sleep_fits third,
        )
        refl

  helped-IsOnScreen : IsOnScreen (helped at w k.shell)
  helped-IsOnScreen = write-IsOnScreen at.help_sleep (length w.help_sleep) _ (
      write-IsOnScreen at.help_uname (length w.help_uname) _ (
        write-IsOnScreen at.help_reboot (length w.help_reboot) k.shell texts.help_reboot.on_screen))

-- What the enter key does: one case for each command, and one for every other text.
pub data Runs (fuel : ℕ) (at : Layout) (k : Keyboard) (w : Words) : Type 0 where
  runs_help :
      (k' : Keyboard)
      → w.typed ≡ w.help
      → key_enter fuel at k ≡ some (done k')
      → IsReady at (helped at w k.shell) k k'
      → Runs fuel at k w
  runs_reboot : w.typed ≡ w.reboot → key_enter fuel at k ≡ some (rebooting k) → Runs fuel at k w
  runs_uname :
      (k' : Keyboard)
      → w.typed ≡ w.uname
      → key_enter fuel at k ≡ some (done k')
      → IsReady at (write at.version (length w.version) k.shell) k k'
      → Runs fuel at k w
  runs_nothing :
      (k' : Keyboard)
      → w.typed ≢ w.help
      → w.typed ≢ w.reboot
      → w.typed ≢ w.uname
      → key_enter fuel at k ≡ some (done k')
      → IsReady at k.shell k k'
      → Runs fuel at k w

-- With the texts in memory as in `AreTexts`, and rounds enough for the longest of them, the enter key
-- returns or reboots. For "help" the console shows the three lines of the help, for "uname" the version,
-- and for a text that names no command nothing; then the command's array is all zero, the index is 0,
-- and the prompt is shown. For "reboot" the keyboard is left as it is, as the command does not return.
pub key_enter-Runs :
    (fuel : ℕ) (at : Layout) (k : Keyboard) (w : Words) → AreTexts fuel at k w → Runs fuel at k w
key_enter-Runs fuel at k w texts =
    let m = k.shell.mem in
    let on = texts.version.on_screen in
    let enough = texts.typed_fits in
    let (a, ea, ia) =
      strcmp-zero_iff fuel at.command at.help w.typed w.help m texts.bytes texts.typed texts.help
        enough in
    let (b, eb, ib) =
      strcmp-zero_iff fuel at.command at.reboot w.typed w.reboot m texts.bytes texts.typed
        texts.reboot enough in
    let (c, ec, ic) =
      strcmp-zero_iff fuel at.command at.uname w.typed w.uname m texts.bytes texts.typed texts.uname
        enough in
    elim (ℕ_discrete a 0) [
      | yes za ↦
          runs_help _ (ia.0 za)
            (key_enter-help fuel at k a b c ea eb ec za
              ∙ rw (print_help-helped fuel at k w texts) refl)
            (next_prompt-IsReady at (helped at w k.shell) k (helped-IsOnScreen fuel at k w texts)
              texts.apart)
      | no na ↦ elim (ℕ_discrete b 0) [
        | yes zb ↦ runs_reboot (ib.0 zb) (key_enter-reboot fuel at k a b c ea eb ec na zb)
        | no nb ↦ elim (ℕ_discrete c 0) [
          | yes zc ↦
              runs_uname _ (ic.0 zc)
                (key_enter-uname fuel at k a b c ea eb ec na nb zc
                  ∙ rw
                      (printf-write fuel at.version at.locals [] w.version k.shell
                        texts.version_fits texts.version)
                      refl)
                (next_prompt-IsReady at (write at.version (length w.version) k.shell) k
                  (write-IsOnScreen at.version (length w.version) k.shell on) texts.apart)
          | no nc ↦
              runs_nothing _ (λ e. na (ia.1 e)) (λ e. nb (ib.1 e)) (λ e. nc (ic.1 e))
                (key_enter-unknown fuel at k a b c ea eb ec na nb nc)
                (next_prompt-IsReady at k.shell k on texts.apart)
        ]
      ]
    ]
