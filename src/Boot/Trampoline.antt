-- ===== src/Boot/Trampoline.antt =====
-- A task whose entry returns.
use qemu_risc_core.Prelude.{ℕ, ◌≤◌, ◌≡◌, ◌≢◌, refl, Option, some, List, arith, bind-some}
use qemu_risc_core.Drivers.Uart.{Uart}
use qemu_risc_core.Drivers.Uart.Wait.{ready}
use qemu_risc_core.Core.Tasks.{dead, Kernel}
use qemu_risc_core.Core.RunQueue
use qemu_risc_core.Core.RunQueue.Valid.{IsValid}
use qemu_risc_core.Core.Sched.Reschedule.{Switched}
use qemu_risc_core.Core.Sched.Rounds.{yields}
use qemu_risc_core.System.{System, Outcome, returned, switched, with_uart, with_kernel}
use qemu_risc_core.Arch.Syscall.Exit.{killed, sys_exit-switched}
use qemu_risc_core.Boot.{exit_after, loop_after, task_bootstrap_entry, task_entry_trampoline}

-- If the entry of the current task returns, to a kernel with a valid run queue and a current task
-- that is not the idle task, and the serial port is then seen ready 76 times, the trampoline
-- does not come to its loop: the current task is dead, the processor goes on in the task that
-- `reschedule` chooses, and after any number of yields from there the dead task is not the current
-- task, and is dead.
pub task_entry_trampoline-killed :
    (call : ℕ → System → Option (Outcome ℕ)) (s t : System) (value : ℕ) (queued : List ℕ)
    → call (s.kernel.task s.kernel.current).entry s ≡ some (returned value t)
    → IsValid t.kernel queued
    → t.kernel.current ≢ t.kernel.idle
    → 76 ≤ ready t.uart
    → (u : Uart) × (g : Kernel) × (task_entry_trampoline call s
        ≡ some (switched (with_kernel g (with_uart u t))))
      × Switched (killed t.kernel) queued g
      × ((n : ℕ)
          → (o : Kernel) × (yields n g ≡ some o)
            × (o.current ≢ t.kernel.current)
            × ((o.task t.kernel.current).state ≡ dead))
unfolding task_entry_trampoline task_bootstrap_entry RunQueue.current
task_entry_trampoline-killed call s t value queued returns v ne enough =
    let (u, g, exits, switch, never) = sys_exit-switched 255 t queued (omega arith) v ne enough in
    (
      u,
      g,
      bind-some (λ o. some (loop_after o)) (bind-some exit_after returns exits) refl,
      switch,
      never,
    )
