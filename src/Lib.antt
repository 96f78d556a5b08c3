-- ===== src/Lib.antt =====
-- A small RISC-V kernel for the QEMU virt machine: its data structures, memory management, tasks
-- and scheduler, traps and system calls, and the drivers below them, modelled from the C++ sources.
--
-- The program. `boot/entry.S` clears the bss and calls `kmain` (kernel/kernel.cpp), which starts
-- the UART, the physical page allocator (kernel/mm/pmm.cpp), an Sv39 address space
-- (kernel/mm/kernel_address_space.cpp over kernel/arch/riscv/mm/page_table.cpp) and the timer,
-- creates two tasks (kernel/core/task) and starts the scheduler (kernel/core/sched), which keeps
-- the runnable tasks in a queue of kernel/lib/ds.
--
-- The parts modelled, and where:
--   kernel/lib/ds/bitmap.cpp               Ds.Bitmap     a bitmap over an array of words
--   kernel/lib/ds/list.h, ListNode         Ds.Heap       the nodes with their two links
--   kernel/lib/ds/list.cpp                 Ds.List       the intrusive list
--   kernel/lib/ds/queue.cpp                Ds.Queue      the queue, by the list
--   kernel/mm/page.h                       Mm.Page       pages and frame numbers
--   kernel/mm/pmm.cpp, kernel/mm/pmm.h     Mm.Pmm        the page allocator
--   kernel/arch/riscv/mm/sv39.h            Arch.Sv39     page table entries
--   kernel/arch/riscv/mm/page_table.cpp    Arch.PageTable  page tables over the allocator
--   kernel/arch/riscv/mm/mmu.cpp           Arch.Mmu      the value of satp, and the switch to it
--   kernel/mm/pmm_platform.cpp             Mm.Platform   the allocator over the memory of the board
--   kernel/mm/kernel_address_space.cpp     Mm.AddressSpace  the first page tables of the kernel
--   platform/riscv.h                       Platform.Riscv   control and status registers, causes
--   platform/linker_symbols.h              Platform.Linker  the addresses of the linked image
--   platform/qemu/memmap.h                 Platform.Memmap  the addresses of the board
--   platform/qemu/devices/timer/clint_timer.h  Platform.Clint  the timer device
--   drivers/uart/uart.cpp, uart.h          Drivers.Uart  the driver of the serial port
--   kernel/lib/ds/intrusive.h, kernel/core/task  Core.Tasks  the table of tasks
--   kernel/core/sched/run_queue.cpp        Core.RunQueue  the tasks that are ready
--   kernel/core/sched/scheduler.cpp        Core.Sched    the scheduler, and the context switch of
--                                                        kernel/arch/riscv/task/switch.S
--   kernel/time/timer.cpp                  Time.Timer    the timer interrupt
--   kernel/arch/riscv/syscall              Arch.Syscall  the system calls and their dispatch
--   kernel/arch/riscv/trap                 Arch.TrapFrame, Arch.Trap  the handler of traps
--   kernel/arch/riscv/trap/trap_entry.S    Arch.TrapEntry  the frame on the stack, and the way back
--   kernel/core/init/bootstrap.cpp, kernel/kernel.cpp  Boot  the start, and the two tasks
--   task_entry_trampoline of switch.S      Boot          the first address of a new task
--   boot/entry.S                           Boot.Entry    the clearing of the bss before `kmain`
-- Each file holds the definitions of its source file, its children hold the theorems. The names
-- are those of the source, in snake case: `kMaxManagedPages` is `max_managed_pages`,
-- `Bitmap::set` is `set_bit`. Prelude has the words of 64 bits, Booleans, lists with a bounded
-- access, and the arithmetic of bit operations.
--
-- Where a header promises operations to other parts, a child Interface of the module has a record of
-- these operations, a record of the laws that its users rely on, and the operations of the source
-- as an instance of both: list.h, queue.h, run_queue.h, scheduler.h, task_manager.h, pmm.h,
-- page_table.h, mmu.h and syscall.h.
--
-- How the code is read. A word or an address is a natural number, and an operation that can
-- leave 64 bits is reduced modulo 2 ^ 64 where it is written (`u64`, `sub64`). A global variable
-- or the object of a method is a record that is passed on. An access beyond an array, or of a
-- list link through a pointer that is no node, is undefined in the source, and `none` here: a
-- function that returns `some` makes no such access. A null pointer is 0. The memory of page tables
-- is a function from the address of an 8-byte word to the word, and a page table at the address `t`
-- has its entries at `t + 8 * i`. So is the memory of boot/entry.S and of the trap entry; an access
-- of 8 bytes at an address reads or writes the word of that address alone, which is right for words that
-- do not overlap. The linker script does not align the end of the bss.
--
-- Loops. A loop with a counter is recursion on the rounds left. The loop of `reserve_range` runs
-- on 32769 rounds, one more than the most pages there are. The loop of `map_range` runs on
-- 2 ^ 52 + 1 rounds, one more than the pages of the address space. The digits of `put_dec` are
-- filled on the rounds that its buffer of 20 has, and one more for the test that ends the loop. The
-- loop of boot/entry.S runs on 2 ^ 61 + 1 rounds, one more than the words of the address space.
--
-- The list is a ring through a sentinel. The theorems on it are about the predicate `Ring` of
-- Ds.List.Linked: the nodes are in the heap, are distinct, and follow each other in the order of a
-- given list, in both directions. The queue is a list on it.
--
-- The bitmap of the allocator is seen through `used p i`, the bit of page `i` (Mm.Pmm.State); a
-- state is valid if the bitmap has its 512 words of 64 bits, the count of free pages is the
-- number of clear bits, and the managed range is aligned and within the address space. The code
-- frees a page with the mask of the index of its word, and the model has this.
--
-- An address space is a tree of tables (Arch.PageTable.Tree): a plan names the level and the part
-- of the address space of each table, the tables are used pages of the allocator, and the
-- entries above the last level point to the tables of the parts. What `virt_to_phys` answers is
-- the abstract view: `map_page` and `unmap_page` change it at one page. Frame is
-- about a write to one entry, Grow about a new table, and Walk follows `map_page` down.
-- Range follows the loop of `map_range`.
--
-- The serial port is a device that is read and written at addresses: `inputs` are the bytes that the
-- next reads of each address will give, and `writes` the writes so far. The driver polls the line
-- status before each byte; `ready` counts the readings left that say that the transmitter is
-- empty, and polling past the readings given is `none`. The theorems on printing ask for as
-- many ready readings as the routine may send bytes. The clock of the timer is a function
-- from the number of a reading to its value.
--
-- The kernel proper is one record (Core.Tasks.Kernel): the table of 32 tasks at an address, the
-- links of the run queue in a heap, the current and the idle task, and the callee-saved registers
-- of the processor. A context switch saves and loads these; after it the model is at the point
-- where the other task goes on. `IsValid` of Core.RunQueue.Valid says of it that the queue is a
-- ring of tasks of the table that are ready, without the current and the idle task. System has the
-- devices, the registers and the kernel together; a call that may not return has an `Outcome`: it
-- returned, the processor switched to another task, or it waits for interrupts for ever.
--
-- Boot composes the parts as `kmain` does, the memory's part (Boot.Memory) and then the tasks' part
-- (Boot.Schedule). `Placed` says where the image has its objects, and `Booted` what the kernel is
-- when `kmain` comes to the first task.
--
-- Not modelled: the address translation of the hardware, what `mret` does to mstatus, and the code of the C++ compiler between
-- the calls. The code that a task runs is a parameter of `task_bootstrap_entry`; the two tasks of
-- kernel/kernel.cpp are lists of actions. The addresses of functions, stacks and linker symbols are
-- parameters. The tests and the headers under tools/riscv64-pk are no part of the kernel.
pub mod Prelude
pub mod Ds
pub mod Mm
pub mod Arch
pub mod Drivers
pub mod Platform
pub mod Core
pub mod System
pub mod Time
pub mod Boot
