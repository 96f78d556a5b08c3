-- ===== src/Arch/Syscall/Interface.antt =====
-- kernel/arch/riscv/syscall/syscall.h: the system calls, and what they promise.
use qemu_risc_core.Prelude.{ℕ, ◌≤◌, ◌<◌, ◌^◌, ◌≡◌, ◌≢◌, ◌⊎◌, refl, Option, some, List, length}
use qemu_risc_core.Drivers.Uart.{Uart}
use qemu_risc_core.Drivers.Uart.Wait.{ready, Sends}
use qemu_risc_core.Drivers.Uart.Send.{wire}
use qemu_risc_core.Core.Tasks.{Kernel}
use qemu_risc_core.Core.RunQueue.Valid.{IsValid}
use qemu_risc_core.Core.Sched.Reschedule.{Switched}
use qemu_risc_core.System.{System, Outcome, returned, switched, with_uart, with_kernel}
use qemu_risc_core.Arch.TrapFrame.{TrapFrame}
use qemu_risc_core.Arch.Syscall.{fd_stdout, fd_stderr, dispatch, sys_write, sys_exit, sys_yield}
use qemu_risc_core.Arch.Syscall.Write.{buffer, sys_write-buffer}
use qemu_risc_core.Arch.Syscall.Dispatch.{Answers, dispatch-Answers}
use qemu_risc_core.Arch.Syscall.Exit.{killed, sys_exit-switched}

pub record SyscallOps : Type 0 where
  pub dispatch : TrapFrame → System → Option (Outcome ℕ)
  pub sys_write : ℕ → ℕ → ℕ → System → Option (System × ℕ)
  pub sys_exit : ℕ → System → Option (Outcome ℕ)
  pub sys_yield : ℕ

pub record IsSyscalls (ops : SyscallOps) : Type 0 where
  pub answers :
      (tf : TrapFrame) (s : System) (answer : ℕ)
      → Answers tf answer
      → ops.dispatch tf s ≡ some (returned answer s)
  pub writes :
      (fd buf len : ℕ) (s : System)
      → (fd ≡ fd_stdout) ⊎ (fd ≡ fd_stderr)
      → buf ≢ 0
      → length (wire (buffer s.bytes buf 0 len)) ≤ ready s.uart
      → (u : Uart) × (ops.sys_write fd buf len s ≡ some (with_uart u s, len))
        × Sends s.uart (wire (buffer s.bytes buf 0 len)) u
  pub exits :
      (code : ℕ) (s : System) (queued : List ℕ)
      → code < 2 ^ 64
      → IsValid s.kernel queued
      → s.kernel.current ≢ s.kernel.idle
      → 76 ≤ ready s.uart
      → (u : Uart) × (g : Kernel) × (ops.sys_exit code s
          ≡ some (switched (with_kernel g (with_uart u s))))
        × Switched (killed s.kernel) queued g
  pub yields_nothing : ops.sys_yield ≡ 0

exits-Switched :
    (code : ℕ) (s : System) (queued : List ℕ)
    → code < 2 ^ 64
    → IsValid s.kernel queued
    → s.kernel.current ≢ s.kernel.idle
    → 76 ≤ ready s.uart
    → (u : Uart) × (g : Kernel) × (sys_exit code s
        ≡ some (switched (with_kernel g (with_uart u s))))
      × Switched (killed s.kernel) queued g
exits-Switched code s queued fits v ne enough =
    let (u, g, runs, switch, never) = sys_exit-switched code s queued fits v ne enough in
    (u, g, runs, switch)

abbrev pub syscall_ops : SyscallOps
syscall_ops = record {
  dispatch = dispatch;
  sys_write = sys_write;
  sys_exit = sys_exit;
  sys_yield = sys_yield;
}

-- The system calls keep their promises: the refused calls answer their errors; `sys_write` prints a
-- buffer; `sys_exit` goes on in another task; and `sys_yield` answers 0.
pub syscall_ops-IsSyscalls : IsSyscalls syscall_ops
syscall_ops-IsSyscalls = record {
  answers = dispatch-Answers;
  writes = sys_write-buffer;
  exits = exits-Switched;
  yields_nothing = refl;
}
