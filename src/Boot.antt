-- ===== src/Boot.antt =====
-- kernel/core/init/bootstrap.cpp and kernel/kernel.cpp: the start of the kernel and its two tasks, and
-- the trampoline of kernel/arch/riscv/task/switch.S.
pub mod Start
pub mod Schedule
pub mod Memory
pub mod Main
pub mod Entry
pub mod Trampoline
mod Tests
use qemu_risc_core.Prelude.{
  ℕ, zero, suc, Bool, true, false, Option, some, List, [], ◌∷◌, ◌++◌, codes, ◌>>=◌,
}
use qemu_risc_core.Platform.Linker.{Symbols}
use qemu_risc_core.Drivers.Uart.{puts, putc, put_dec}
use qemu_risc_core.Drivers.Uart
use qemu_risc_core.Mm.Platform.{pmm_init_platform}
use qemu_risc_core.Mm.AddressSpace.{AddressSpace, kernel_address_space_init, kernel_page_table}
use qemu_risc_core.Core.Tasks.{Kernel, create_kernel_task}
use qemu_risc_core.Core.Tasks
use qemu_risc_core.Core.RunQueue
use qemu_risc_core.Core.Sched
use qemu_risc_core.System.{
  System, Outcome, returned, switched, halted, with_uart, with_kernel, print,
}
use qemu_risc_core.Time.Timer
use qemu_risc_core.Arch.Mmu.{enable_sv39}
use qemu_risc_core.Arch.Syscall.{sys_exit}

-- `print` of a literal.
abbrev pub say : List ℕ → System → Option System
say text s = print (puts (some text)) s

pub bootstrap_scheduler : System → Option System
bootstrap_scheduler s = do
  s1 ← say (codes "Hello from bootstrap_scheduler\n") s
  k ← Tasks.init s1.kernel
  k' ← Sched.init k
  some (with_kernel k' s1)

-- What a function that was called does next: it returns, or the processor has left it.
abbrev pub exit_after : Outcome ℕ → Option (Outcome ℕ)
exit_after (returned value s) = sys_exit 255 s
exit_after (switched s) = some (switched s)
exit_after (halted s) = some (halted s)

-- `call p s` is the call of the code at the address `p`.
pub task_bootstrap_entry : (ℕ → System → Option (Outcome ℕ)) → System → Option (Outcome ℕ)
task_bootstrap_entry call s = do
  outcome ← call (s.kernel.task (RunQueue.current s.kernel)).entry s
  exit_after outcome

-- `task_entry_trampoline` of kernel/arch/riscv/task/switch.S, the address that a new task starts at: a
-- jump to itself follows the call, so that a return would be the end.
abbrev pub loop_after : Outcome ℕ → Outcome ℕ
loop_after (returned value s) = halted s
loop_after (switched s) = switched s
loop_after (halted s) = halted s

pub task_entry_trampoline : (ℕ → System → Option (Outcome ℕ)) → System → Option (Outcome ℕ)
task_entry_trampoline call s = do outcome ← task_bootstrap_entry call s; some (loop_after outcome)

-- The steps of a task, each up to the next call of the kernel.
pub data Action : Type 0 where
  say_text : List ℕ → Action
  yield : Action
  exit : ℕ → Action

-- The rounds of the inner loop that are left.
pub greet : ℕ → List ℕ → List Action
greet zero text = []
greet (suc rounds) text = say_text text ∷ yield ∷ greet rounds text

-- The call of `sys_exit` does not return, so that the outer loop has one round.
pub task_a : List Action
task_a = say_text (codes "task A init.\n") ∷ greet 5 (codes "Hello from task_A\n") ++ exit 233 ∷ []

pub task_b : List Action
task_b = say_text (codes "task B init.\n") ∷ greet 5 (codes "Hello from task_B\n") ++ exit 137 ∷ []

-- A yield goes on in another task, or returns at once.
abbrev pub left_or_returned : System → Kernel × Bool → Outcome ℕ
left_or_returned s (k, true) = switched (with_kernel k s)
left_or_returned s (k, false) = returned 0 (with_kernel k s)

-- One step of the current task.
pub perform : Action → System → Option (Outcome ℕ)
perform (say_text text) s = do s1 ← say text s; some (returned 0 s1)
perform yield s = do result ← Sched.yield s.kernel; some (left_or_returned s result)
perform (exit code) s = sys_exit code s

-- The loop of the idle task, for the times that an interrupt wakes it up.
pub idle_from : ℕ → System → Option System
idle_from zero s = some s
idle_from (suc wakes) s = do s1 ← say (codes "idle task\n") s; idle_from wakes s1

-- The idle task of kernel/core/task/task_manager.cpp, after so many rounds of its loop.
pub idle_task_entry : ℕ → System → Option System
idle_task_entry rounds s = do s1 ← say (codes "enter idle task\n") s; idle_from rounds s1

-- The addresses that the linked image gives: the symbols, the two functions and their stacks.
pub record Image : Type 0 where
  pub symbols : Symbols
  pub task_a_entry : ℕ
  pub task_b_entry : ℕ
  pub task_a_stack : ℕ
  pub task_b_stack : ℕ

pub record Board : Type 0 where
  pub system : System
  pub space : AddressSpace

abbrev pub stack_size : ℕ
stack_size = 1024

-- The part of `kmain` before the scheduler: the memory, the page tables and the timer.
pub boot_memory : Image → Board → Option Board
boot_memory im b = do
  s1 ← say (codes "uart ok\n") (with_uart (Uart.init b.system.uart) b.system)
  pmm ← pmm_init_platform im.symbols
  s2 ← say (codes "pmm ok\n") s1
  space ←
      kernel_address_space_init (record b.space { machine = record b.space.machine { pmm = pmm } })
  s3 ← say (codes "kernel page table ok\n") s2
  s4 ←
      say (codes "paging enabled\n")
        (record s3 { csrs = enable_sv39 (kernel_page_table space) s3.csrs })
  s5 ← say (codes "trap installed\n") s4
  let s6 = Timer.init 10000000 s5
  s7 ← say (codes "current ticks count: ") s6
  s8 ← print (put_dec (Timer.ticks s7)) s7
  s9 ← print (putc b'\n') s8
  some (record { system = s9; space = space })

-- The part of `kmain` from the scheduler on, which ends in the first task.
pub boot_tasks : Image → System → Option System
boot_tasks im s = do
  s1 ← say (codes "start tasks scheduler\n") s
  s2 ← bootstrap_scheduler s1
  s3 ← say (codes "Task manager and scheduler inited\n") s2
  (k1, a) ← create_kernel_task im.task_a_entry im.task_a_stack stack_size s3.kernel
  (k2, b) ← create_kernel_task im.task_b_entry im.task_b_stack stack_size k1
  s4 ← say (codes "Creating task A&B\n") (with_kernel k2 s3)
  (k3, pushed_a) ← RunQueue.push a s4.kernel
  (k4, pushed_b) ← RunQueue.push b k3
  s5 ← say (codes "Start scheduler\n") (with_kernel k4 s4)
  k5 ← Sched.start s5.kernel
  some (with_kernel k5 s5)

pub kmain : Image → Board → Option Board
kmain im b = do c ← boot_memory im b; s ← boot_tasks im c.system; some (record c { system = s })
