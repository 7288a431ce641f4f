-- ===== src/Tests/Keys.antt =====
-- kernel/drivers/keyboard.c and `printf` over a memory with two formats and an empty command.
use pyramid_kernel.Prelude.{ℕ, ◌+◌, ◌≤◌, ◌<◌, ◌≡◌, ◌≢◌, refl, sym, arith, inl, List, [], ◌∷◌, some}
use mathlib.Core.Path.{subst}
use pyramid_kernel.Memory.{Memory, store8}
use pyramid_kernel.Shell.{Shell, write}
use pyramid_kernel.Shell.Cursor.{IsOnScreen}
use pyramid_kernel.Text.Strings.{IsString}
use pyramid_kernel.Printf.{printf}
use pyramid_kernel.Printf.Plain.{IsPlain, printf-write}
use pyramid_kernel.Printf.Char.{char_conversion}
use pyramid_kernel.Keyboard.{keyboard_cb, Layout, Keyboard, done, key_backspace}
use pyramid_kernel.Keyboard.Enter.{Words, AreTexts, Runs, key_enter-Runs}
use pyramid_kernel.Keyboard.Edit.{key_backspace_lem}

-- "ok" at 0x100, and "%c" at 0x200.
abbrev formats : Memory
formats = store8 (store8 (store8 (store8 (λ _. 0) 0x100 b'o') 0x101 b'k') 0x200 b'%') 0x201 b'c'

abbrev console : Shell
console = record { mem = formats; fb_col = 20; fb_row = 3; sent = [] }

abbrev layout : Layout
layout = record {
  command = 0x1000;
  temp = 0x2000;
  char_format = 0x200;
  help = 0x300;
  reboot = 0x310;
  uname = 0x320;
  help_reboot = 0x330;
  help_uname = 0x340;
  help_sleep = 0x350;
  version = 0x360;
  locals = record { buf = 0x3000; c = 0x3100 };
}

abbrev typed : (count : ℕ) → Keyboard
typed count = record { shell = console; cmd_index = count; shift_down = 0 }

console-IsOnScreen : IsOnScreen console
console-IsOnScreen = record { col = omega arith; row = omega arith }

abbrev ok_text : List ℕ
ok_text = b'o' ∷ b'k' ∷ []

ok_text-IsPlain : IsPlain 0x100 ok_text console
ok_text-IsPlain = record {
  text = (refl, omega arith, (refl, omega arith, refl));
  apart = inl (omega arith);
  no_conversion = λ j below. ground arith;
  on_screen = console-IsOnScreen;
}

printf-write_example : printf 3 layout.locals 0x100 [] console ≡ some (write 0x100 2 console)
printf-write_example =
    printf-write 3 0x100 layout.locals [] ok_text console (omega arith) ok_text-IsPlain

key_backspace_lem_example :
    let k' = key_backspace layout (typed 3) in
    (k'.cmd_index ≡ 2)
    × ((j : ℕ) → j < 2 → k'.shell.mem (0x1000 + j) ≡ formats (0x1000 + j))
    × ((j : ℕ) → 2 ≤ j → j < 512 → k'.shell.mem (0x1000 + j) ≡ 0)
key_backspace_lem_example =
    key_backspace_lem layout (typed 3) 2 refl (omega arith) (inl (omega arith)) (inl (omega arith))
      console-IsOnScreen

char_format_there : IsString formats 0x200 char_conversion
char_format_there = (refl, omega arith, (refl, omega arith, refl))

-- Texts of one letter, and the command "h".
abbrev words : Words
words = record {
  typed = b'h' ∷ [];
  help = b'h' ∷ [];
  reboot = b'r' ∷ [];
  uname = b'u' ∷ [];
  help_reboot = b'a' ∷ [];
  help_uname = b'b' ∷ [];
  help_sleep = b'c' ∷ [];
  version = b'v' ∷ [];
}

abbrev names : Memory
names = store8 (store8 (store8 (store8 (λ _. 0) 0x300 b'h') 0x310 b'r') 0x320 b'u') 0x1000 b'h'

abbrev letters : Memory
letters = store8 (store8 (store8 (store8 names 0x330 b'a') 0x340 b'b') 0x350 b'c') 0x360 b'v'

abbrev one_letter : Keyboard
one_letter = record {
  shell = record { mem = letters; fb_col = 20; fb_row = 3; sent = [] };
  cmd_index = 1;
  shift_down = 0;
}

one_letter-IsPlain :
    (p c : ℕ)
    → p < 0x1000
    → c ≢ 0
    → c ≢ b'%'
    → letters p ≡ c
    → letters (p + 1) ≡ 0
    → IsPlain p (c ∷ []) one_letter.shell
one_letter-IsPlain p c low there ordinary here end = record {
  text = (here, there, end);
  apart = inl (omega arith);
  no_conversion = λ j below.
      subst (λ q. letters q ≢ b'%') {x = p} {y = p + j} (omega arith)
        (subst (λ v. v ≢ b'%') (sym here) ordinary);
  on_screen = record { col = omega arith; row = omega arith };
}

letters-AreTexts : AreTexts 2 layout one_letter words
letters-AreTexts = record {
  typed = (refl, omega arith, refl);
  help = (refl, omega arith, refl);
  reboot = (refl, omega arith, refl);
  uname = (refl, omega arith, refl);
  help_reboot = one_letter-IsPlain 0x330 b'a' (omega arith) (omega arith) (omega arith) refl refl;
  help_uname = one_letter-IsPlain 0x340 b'b' (omega arith) (omega arith) (omega arith) refl refl;
  help_sleep = one_letter-IsPlain 0x350 b'c' (omega arith) (omega arith) (omega arith) refl refl;
  version = one_letter-IsPlain 0x360 b'v' (omega arith) (omega arith) (omega arith) refl refl;
  apart = inl (omega arith);
  bytes = λ b. ground arith;
  typed_fits = omega arith;
  help_reboot_fits = omega arith;
  help_uname_fits = omega arith;
  help_sleep_fits = omega arith;
  version_fits = omega arith;
}

key_enter-Runs_example : Runs 2 layout one_letter words
key_enter-Runs_example = key_enter-Runs 2 layout one_letter words letters-AreTexts

-- The left shift key, released.
shift_released : keyboard_cb 1 0xaa layout (typed 3) ≡ some (done (typed 3))
unfolding keyboard_cb
shift_released = refl

-- A backspace at the prompt.
backspace_at_prompt : keyboard_cb 1 14 layout (typed 0) ≡ some (done (typed 0))
unfolding keyboard_cb key_backspace
backspace_at_prompt = refl
