-- ===== src/Boot.antt =====
-- kernel/kernel_main.c: the start of the kernel, with the set-up functions of the other parts:
-- `init_paging`, `enable_paging` and `page_fault` of kernel/mm/paging.c, `panic` of
-- kernel/lib/panic.c, `init_keyboard` of kernel/drivers/keyboard.c, `welcome_text` of
-- kernel/lib/shell.c and `init_descriptor_tables` of kernel/drivers/descriptor_tables.c.
pub mod Start
use pyramid_kernel.Prelude.{
  ℕ, bit_and, bit_or, List, [], ◌∷◌, Option, none, some, ◌==◌, if◌then◌else◌, not, add32,
}
use pyramid_kernel.Text.{◌>>=◌}
use pyramid_kernel.Shell.{Shell, clear_screen, write_prompt}
use pyramid_kernel.Printf.{Locals, printf}
use pyramid_kernel.Keyboard.{prompt}
use pyramid_kernel.Interrupts.{Table, register_interrupt_handler}
use pyramid_kernel.Descriptors.{GdtEntry, Idt, gdt_entries, init_idt, pic_remap}
use pyramid_kernel.Kernel.{Kernel, ok, Cmd}
use pyramid_kernel.Paging.{table_physical}
use pyramid_kernel.Kheap.{kheap_start, kheap_initial_size}
use pyramid_kernel.Kheap.Kmalloc.{kmalloc}
use pyramid_kernel.Kheap.Setup.{
  set_up_frame_allocations, set_up_page_directory, map_heap_pages, identity_map,
  allocate_heap_pages, create_heap,
}

-- The functions that the kernel registers.
pub data Handler : Type 0 where
  page_fault_handler keyboard_handler : Handler

-- Where the string literals of these functions are.
pub record Texts : Type 0 where
  pub locals : Locals
  pub panic_first : ℕ
  pub panic_second : ℕ
  pub fault_begin : ℕ
  pub fault_present : ℕ
  pub fault_read_only : ℕ
  pub fault_user : ℕ
  pub fault_reserved : ℕ
  pub fault_end : ℕ
  pub fault_message : ℕ
  pub paging_file : ℕ
  pub welcome : List ℕ
  pub show_a : ℕ
  pub show_b : ℕ
  pub show_c : ℕ

-- What the console shows when `panic` starts its endless loop.
unfoldable pub panic : (fuel : ℕ) → Texts → (message file line : ℕ) → Shell → Option Shell
panic fuel at message file line s = do
  s₁ ← printf fuel at.locals at.panic_first (message ∷ file ∷ line ∷ []) s
  printf fuel at.locals at.panic_second [] s₁

-- `if (c) { printf(text); }`
unfoldable pub print_if : (c fuel : ℕ) → Texts → (text : ℕ) → Shell → Option Shell
print_if c fuel at text s = if not (c == 0) then printf fuel at.locals text [] s else some s

-- What the console shows when `page_fault`, which does not return either, has called `panic`;
-- `cr2` has the address.
unfoldable pub page_fault : (fuel : ℕ) → Texts → (err_code cr2 : ℕ) → Shell → Option Shell
unfolding print_if panic
page_fault fuel at err_code cr2 s = do
  s₁ ← printf fuel at.locals at.fault_begin [] s
  s₂ ← print_if (if bit_and err_code 0x1 == 0 then 1 else 0) fuel at at.fault_present s₁
  s₃ ← print_if (bit_and err_code 0x2) fuel at at.fault_read_only s₂
  s₄ ← print_if (bit_and err_code 0x4) fuel at at.fault_user s₃
  s₅ ← print_if (bit_and err_code 0x8) fuel at at.fault_reserved s₄
  s₆ ← printf fuel at.locals at.fault_end (cr2 ∷ []) s₅
  panic fuel at at.fault_message at.paging_file 194 s₆

-- One call of `printf` for each line.
unfoldable pub print_lines : (fuel : ℕ) → Locals → List ℕ → Shell → Option Shell
print_lines fuel at [] s = some s
print_lines fuel at (line ∷ lines) s = do
  s' ← printf fuel at line [] s
  print_lines fuel at lines s'

unfoldable pub welcome_text : (fuel : ℕ) → Texts → Shell → Option Shell
unfolding print_lines
welcome_text fuel at s = print_lines fuel at.locals at.welcome s

-- The whole machine. The console's memory is the kernel's: it is passed on at each call.
pub record Machine : Type 0 where
  pub kernel : Kernel
  pub console : Shell
  pub gdt : List GdtEntry
  pub idt : Idt
  pub handlers : Table Handler
  pub cr0 : ℕ
  pub cr3 : ℕ

-- `stopped` is every end of a part that does not return.
pub data Boot : Type 0 where
  running : Machine → Boot
  stopped : Boot

abbrev pub on_kernel : {A : Type 0} → Cmd A → Machine → (A → Machine → Boot) → Boot
on_kernel c m f = elim (c m.kernel) [ ok a k ↦ f a (record m { kernel = k }) | _ ↦ stopped ]

abbrev on_console : (Shell → Option Shell) → Machine → (Machine → Boot) → Boot
on_console c m f = elim (c (record m.console { mem = m.kernel.mem })) [
  | some s ↦ f (record m { console = s; kernel = record m.kernel { mem = s.mem } })
  | none ↦ stopped
]

-- The bytes in the order of `sent`, the latest first.
unfoldable pub reverse_onto : List (ℕ × ℕ) → List (ℕ × ℕ) → List (ℕ × ℕ)
reverse_onto [] sent = sent
reverse_onto (b ∷ bs) sent = reverse_onto bs (b ∷ sent)

-- `stub` and the masks `a1` and `a2` are as in `init_idt` and `pic_remap`; 0x20 and 0x28 are the
-- controllers' first vectors.
unfoldable pub init_descriptor_tables : (stub : ℕ → ℕ) (a1 a2 : ℕ) → Machine → Machine
init_descriptor_tables stub a1 a2 m = record m {
  gdt = gdt_entries;
  idt = init_idt stub;
  console = record m.console { sent = reverse_onto (pic_remap 0x20 0x28 a1 a2) m.console.sent };
}

-- The address in `cr3` is that of the physical tables.
unfoldable pub enable_paging : (dir : ℕ) → Machine → Machine
enable_paging dir m = record m {
  kernel = record m.kernel { current_directory = dir };
  cr3 = table_physical dir 0;
  cr0 = bit_or m.cr0 0x8000_0000;
}

unfoldable pub init_paging : (fuel rounds : ℕ) → Machine → Boot
unfolding enable_paging
init_paging fuel rounds m = on_kernel (set_up_frame_allocations fuel) m λ _ m₁.
    on_kernel (set_up_page_directory fuel) m₁ λ _ m₂. on_kernel (map_heap_pages fuel) m₂ λ _ m₃.
      on_kernel (identity_map fuel rounds) m₃ λ _ m₄.
        on_kernel (allocate_heap_pages fuel) m₄ λ _ m₅.
          let m₆ = record m₅ {
            handlers = register_interrupt_handler 14 page_fault_handler m₅.handlers;
          } in
          let m₇ = enable_paging m₆.kernel.kernel_directory m₆ in
          on_kernel
            (create_heap fuel kheap_start (add32 kheap_start kheap_initial_size) 0xcfff_f000 0 0) m₇
            λ heap m₈. running (record m₈ { kernel = record m₈.kernel { kheap = heap } })

-- `IRQ1` is 33.
unfoldable pub init_keyboard : Machine → Machine
init_keyboard m = record m { handlers = register_interrupt_handler 33 keyboard_handler m.handlers }

abbrev boot_then : Boot → (Machine → Boot) → Boot
boot_then (running m) f = f m
boot_then stopped f = stopped

unfoldable pub main : (fuel rounds : ℕ) → Texts → (stub : ℕ → ℕ) → (a1 a2 : ℕ) → Machine → Boot
unfolding init_descriptor_tables init_paging init_keyboard welcome_text
main fuel rounds at stub a1 a2 m =
    on_console (λ s. some (clear_screen s)) m
      λ m₁. on_console (welcome_text fuel at) m₁ λ m₂.
        boot_then (init_paging fuel rounds (init_descriptor_tables stub a1 a2 m₂)) λ m₃.
          on_kernel (kmalloc fuel 8) (init_keyboard m₃) λ a m₄.
            on_kernel (kmalloc fuel 8) m₄ λ b m₅. on_kernel (kmalloc fuel 8) m₅ λ c m₆.
              on_console (printf fuel at.locals at.show_a (a ∷ [])) m₆ λ m₇.
                on_console (printf fuel at.locals at.show_b (b ∷ [])) m₇ λ m₈.
                  on_console (printf fuel at.locals at.show_c (c ∷ [])) m₈
                    λ m₉. on_console (λ s. some (write_prompt prompt s)) m₉ running
