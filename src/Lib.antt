-- ===== src/Lib.antt =====
-- A model of PyramidKernel, a small 32-bit x86 kernel in C, and what holds of it.
--
-- The parts, and how they meet:
--   Memory          the address space: a map from addresses to bytes, with the little-endian
--                   accesses; Memory/Bytes is memset and memmove of kernel/lib/string.c
--   OrderedArray    kernel/mm/ordered_array.c, a sorted array in memory; the heap's index
--   Kernel          the globals of kernel/mm/paging.c and kernel/mm/kheap.c over one memory, and
--                   the commands on this state
--   Paging          kernel/mm/paging.c: the bitset of physical frames, page-table entries, get_page
--   Kheap           kernel/mm/kheap.c: headers, footers and the search for a hole; below it
--                   Resize (expand, contract), Alloc (alloc), Release (free), Kmalloc (kmalloc and
--                   the functions over it, kfree), Setup (create_heap, and the steps of
--                   init_paging, which need kmalloc) and Arrays (the functions of ordered_array.c
--                   over kmalloc)
--   Text            kernel/lib/string.c: strlen, strcmp, itoa, uitoa, strupper, strlower
--   Printf          kernel/lib/string.c: printf, with write_str of kernel/lib/shell.c
--   Keyboard        kernel/drivers/keyboard.c: the key handler, with the commands that it runs
--   Shell           kernel/lib/shell.c: the console on the VGA frame buffer
--   Interrupts      kernel/drivers/isr.c: the table of handlers, dispatch, acknowledgement
--   Descriptors     kernel/drivers/descriptor_tables.c: segments, gates, the interrupt controllers
--   Ports           kernel/drivers/io.h: accesses to ports, and what the devices answer
--   Serial          kernel/drivers/serial.c: the serial port
--   Commands        kernel/drivers/shellcmds.c: the commands of the shell
--   Boot            kernel/kernel_main.c, with init_paging, enable_paging and page_fault of paging.c,
--                   kernel/lib/panic.c, init_keyboard, welcome_text and init_descriptor_tables
-- The heap calls the page functions to map and unmap pages at its end, these call kmalloc for page
-- tables, and kmalloc calls the heap once it is set up. The specification of the heap is a chain of
-- blocks and holes that tiles it (Kheap/Chain), of which the index has just the holes
-- (Kheap/Allocation): Refines, Deallocation, Rejoin and RejoinLeft are about it. A file below a
-- part proves what its name says; Prelude has the shared helpers, and Tests the concrete runs.
--
-- How the code is read:
--   Numbers are natural numbers; a 32-, 16- or 8-bit wrap is written out (Prelude/Words).
--   A function keeps its name and the order of its arguments. A loop is a function of its own, named
--   in the comment above it, and takes the number of rounds left; where the code does not say how
--   many rounds there are, it takes fuel.
--   A pointer is an address, 0 the null pointer. Every access succeeds, also at 0: the page tables are
--   not applied to the accesses of the kernel itself, which runs on mapped memory. The commands of
--   paging.c and kheap.c end in a value, in `panicked` (the endless loop of PANIC), in `fault` (kfree
--   of a pointer before there is a heap) or in `out_of_fuel`.
--   The fields of the one heap_t stand in the state's record, not in the memory; `heap` is always
--   `*kheap`, as at each call in the code. The arrays that it points to are in the memory.
--   page_t is its 32-bit entry, by arithmetic on the bit fields.
--   `kmalloc_ap` is a parameter of what calls it from below (get_page, expand, alloc, free); Kmalloc
--   ties the knot.
--   The addresses of the keyboard's arrays, of string literals and of local variables whose address is
--   taken are arguments (Layout, Locals).
--   The console's state has the memory, the cursor, and the bytes that outb has sent. In Serial and
--   Commands a run is the list of its accesses to ports, and what inb reads is an argument.
--
-- Fuel: kmalloc_int's is the depth of the nesting of kmalloc, get_page and alloc; a call without a
-- heap needs 1. The loops of expand and contract get one round a page and two more. strlen and
-- strcmp need one round more than the text is long. uitoa and itoa get 33 rounds, since a number of
-- 32 bits has at most 32 digits in a radix from 2 on (in radix 1 the loop of the code does not
-- end). identity_map needs 1024 rounds while the kernel and its tables lie in the first 4 MiB.
-- serial_write needs as many rounds for a byte as the port may stay busy, and reboot one round more than
-- there are reads until the controller has taken its commands.
--
-- Not modelled: assembly (kernel/asm), with the instructions that load the descriptor tables; the boot
-- header (kernel/lib/multiboot.h), which no function uses; the type of the pointers to the tables.
-- What runs for ever is an end of the model: the halt of reboot, the loop of panic.
pub mod Prelude
pub mod Memory
pub mod OrderedArray
pub mod Kernel
pub mod Paging
pub mod Kheap
pub mod Shell
pub mod Text
pub mod Printf
pub mod Keyboard
pub mod Ports
pub mod Commands
pub mod Serial
pub mod Boot
pub mod Interrupts
pub mod Descriptors
pub mod Tests
