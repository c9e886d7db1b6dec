-- ===== src/Lib.antt =====
-- A model of the mirus kernel, with what makes its parts correct.
--
-- The kernel is started by a boot loader that gives it a memory map and a framebuffer. It builds
-- the tables of the processor (segments and interrupts), hands the first usable region of memory
-- to a buddy allocator, draws text on a terminal, and answers system calls. The files, with the
-- paths of the source from the root of the repository:
--
-- - Buddy.antt: src/kernel/memory/buddy.c and src/kernel/include/kernel/buddy.h. `Heap` is the
--   allocator and the memory behind its pointers, which gives the `BuddyBlock` at each address;
--   `find_order`, `split_block`, `find_buddy`, `allocate`, `free` and `init` stand for the
--   functions of these names (`buddy_allocator_` left off the last three). Its children
--   describe the free lists by lists of addresses and the pool by how often each address is covered.
-- - Buddy/Debug.antt: `buddy_allocator_debug_state` of the same file, as the numbers it reports.
-- - Pmm.antt: src/kernel/memory/pmm.c, which reads the memory map and starts the allocator;
--   Pmm/MemoryMap.antt is its `log_memory_map_debug`.
-- - Terminal.antt: src/kernel/drivers/terminal.c. `Terminal` is the static variable of that name,
--   `Screen` is `ssfn_dst`; `write_cells` is what `terminal_write_char` does to the terminal. The
--   text buffer is in Terminal/Cells.antt, and Terminal/Demo.antt is `test_terminal`.
-- - Libk.antt: src/libs/libk/src/string.c, over a memory of bytes; Terminal uses its `strlen`.
--   Libk/Itoa.antt is `itoa` of the same file, and Libk/Pow2.antt is
--   src/libs/libk/include/libk/math.h.
-- - Serial.antt: src/hal/arch-x86_64/io/serial.c, on a device that answers each read of a port.
-- - Logger.antt: src/libs/logger/src/logger.c. DebugLogger.antt: src/kernel/debug/debug_logger.c and
--   src/hal/hal_logger.c, whose loggers write to the serial port. SerialLog.antt: the calls of
--   `log_message` on these loggers, as the other parts make them.
-- - Syscalls.antt: src/kernel/core/syscalls.c, the table, the argument check and the dispatcher;
--   Syscalls/Format.antt is `format_syscall_args` of this file, and Syscalls/Logged.antt the
--   dispatcher with its log lines.
-- - Gdt.antt: src/hal/arch-x86_64/cpu/gdt.c. Idt.antt: src/hal/arch-x86_64/cpu/idt.c, and
--   `isr_initialize` of src/kernel/core/interrupts.c.
-- - Interrupts.antt: `isr_handler` of src/kernel/core/interrupts.c, up to the panic screen, and
--   Panic.antt: src/kernel/debug/panic.c, the panic screen on the terminal and the halt.
-- - Syscalls/Msr.antt: `syscalls_initialize` of src/kernel/core/syscalls.c.
-- - Syscalls/Entry.antt: the assembly of `syscall_entry` in the same file and of `jump_to_usermode`
--   in src/kernel/core/process.c, on a machine of registers and memory.
-- - Boot.antt: `_start` of src/kernel/core/kernel.c, which tests the answers of the boot loader and
--   starts all of these, and `limine_get_file` of src/kernel/include/kernel/bootloader.h.
--   Boot/Logged.antt is `_start` with its log lines on the serial port, up to the line that the
--   initialization is complete, and Boot/Log.antt the lines of the starts that it calls.
-- - DebugTests.antt: src/kernel/debug/debug_tests.c, the runs of the allocator, of the system calls
--   and of an exception, on the models of those parts.
-- - Base.antt: the shared names, tests on numbers, lists by native length, integers, and laws of
--   the exclusive or and the or of bits. Base/Format.antt: C texts and arguments of printf.
--
-- Numbers are natural numbers; the width of a machine word is written out where the code can
-- exceed it (`word`, `% 2 ^ w`); only the `int` that counts the free blocks of one order in the report
-- of the allocator has no width, as it would take 2^31 free blocks of one list to leave it. Pointers
-- into a pool that does not reach the end of the address space do not wrap, which the theorems on
-- it assume.
--
-- What a block of the allocator holds belongs to the client, but for the header at its start, which
-- `free` reads: the theorems on runs of the allocator take it that clients spare the headers. Local
-- buffers of the logger have their end in the model: a text that does not fit has no result, and
-- theorems on what is sent have the fit as a hypothesis.
--
-- Loops. `find_order` has twelve rounds, since its order goes from 0 to 11. A search of a free list
-- in `free` has fuel: one more than the pool has pages is enough, as the lists of a sound allocator
-- hold each page at most once. `init` has one round for each page of the pool and one to end, since
-- each round takes a page or more. `strlen`, `reverse`, `checkStringEndsWith` and
-- `terminal_write_string` have fuel beyond the length of the string, `itoa` beyond the magnitude of
-- the number plus one, and `debug_state` one step per page of the pool and one more for each list,
-- and what logs to the serial port beyond the lengths of its texts. A wait for the serial port ends
-- if the device is ready within the fuel, which is a hypothesis on the device. All other loops
-- recur on the number of rounds that the code counts.
--
-- Code outside of the repository is an argument: `ssfn_putc` of the font library, the number of the
-- boot protocol for usable memory, the answers of the boot loader, and the addresses that the
-- linker gives (handlers in assembly, the task state), the device at the serial port, the JSON
-- emitter and the printf library behind the logger and the panic screen, and the compiled handler
-- that `syscall_entry` calls, with the calling convention as a hypothesis.
--
-- Not modelled: the calls of the logger in the handler of other interrupts, in `debug_state` and in
-- `jump_to_usermode`, which change no state of the kernel; the text on the screen and the report of
-- the allocator at the end of `_start`; assembly that loads tables, and the stubs of the interrupts;
-- the JSON emitter, a copy of another project; the host tool ktracer.
pub mod Base
pub mod Boot
pub mod Buddy
pub mod DebugLogger
pub mod DebugTests
pub mod Gdt
pub mod Idt
pub mod Interrupts
pub mod Libk
pub mod Logger
pub mod Panic
pub mod Pmm
pub mod Serial
pub mod SerialLog
pub mod Syscalls
pub mod Terminal
