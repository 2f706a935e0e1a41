-- ===== src/Lib.antt =====
-- GECK simulates an operating system with four modules that talk over sockets: consoles send
-- programs, the kernel schedules their processes, the CPU executes them, and the memory module
-- keeps their pages. This library models the five C files that carry that logic and proves what
-- makes them work together.
--
-- Parts, files and correspondence
--
-- shared/src/shared.c, shared/include/shared.h: Shared (the PCB, the operation codes, the table of
--   instructions), Shared/Strings (C strings, `strcmp`, `atoi`), Shared/Wire (packages: the
--   `add_*`, `read_*`, `send_*` and `receive_*` functions under their names; a socket is the list
--   of its bytes). Proofs: Shared/Wire/Bytes, PcbRoundTrip, Channel.
-- memoria/src/memoria.c: Memory (the globals as one record), Memory/Bitmap, Store (the swap file
--   and the principal memory), Tables (page tables), Clock (CLOCK and CLOCK-M), Access (MOV_IN and
--   MOV_OUT), Handlers (`attend_cpu`, `attend_kernel`), View (what the processes see of their
--   pages: bytes, whether in a frame or in the swap file, and the invariant of the module between
--   two requests). A `Page_table_row*` is an address in a heap of rows, since page tables and
--   clocks share the rows.
-- cpu/src/cpu.c: Cpu (the globals), Cpu/RegisterFile, Tlb, Mmu, Cycle, Messages (what is sent to
--   the kernel), Sockets (the threads that read). A request to the memory module is a call of
--   `attend_cpu` on its state.
-- kernel/src/kernel.c: Kernel (lists, semaphores, flags), Kernel/Ready (from the console to
--   RUNNING), Dispatch (messages of the CPU and the memory), Devices, Quantum, and System, where a
--   step of any thread is an event and the reachable states are those of any order of events;
--   Reception (what the thread of a console reads, `receive_console`), Messages (what
--   `manage_dispatch` reads) and ReadyLog (the ready queues in the log).
-- consola/src/consola.c: Console (the loop of `main`, a round for each request), Console/Answers,
--   Session.
-- Prelude: numbers, lists and faults. Tests: every theorem at a small state.
--
-- Conventions
--
-- `none` and `fault` stand for undefined behaviour: a null pointer, an access out of range, a
-- division by zero. A C `int` is an integer with the predicate IsInt where its range matters; a
-- `uint32_t` is a natural number with its wrap-around written out. The searches of the clocks take
-- fuel: the number of entries plus one for CLOCK and for the pairs of passes of CLOCK-M, and one
-- more than the frames for each pass; Memory/Clock/Halting and Passes show that a search with that
-- fuel ends. The CPU's cycle takes the list of its rounds. Functions of the commons library are
-- parameters where their code decides something (Commons in Cpu, `same` for
-- `string_equals_ignore_case` in Kernel), and list operations elsewhere. Each handler of the memory
-- module is one step, since a mutex makes it one; in the kernel a thread's step goes from one wait
-- to the next, but for `manage_dispatch`, whose wait for `m_out_of_Running` is taken before its posts.
-- The kernel's list insertions lock a copy of their mutex, so that nothing keeps two of them apart:
-- what overlapping steps leave is a parameter (Overlap in Kernel/System), and the theorems on all
-- reachable states name the hypothesis that they leave what they leave in some order (IsAtomic).
--
-- Not modelled
--
-- Logging but for the ready queues, delays, sockets and their failures, configuration files, and
-- the start of each module.
pub mod Prelude
pub mod Shared
pub mod Memory
pub mod Cpu
pub mod Kernel
pub mod Console
pub mod Tests
