-- ===== src/Arch/Trap/Call.antt =====
-- A system call, from the trap to the frame that the task goes on with.
use qemu_risc_core.Prelude.{ℕ, ◌+◌, ◌^◌, ◌≤◌, ◌<◌, ◌≡◌, ◌≢◌, ◌∙◌, false, some, List, arith, u64}
use qemu_risc_core.Platform.Riscv.{mcause_is_interrupt, mcause_code}
use qemu_risc_core.Drivers.Uart.{Uart}
use qemu_risc_core.Drivers.Uart.Wait.{ready}
use qemu_risc_core.Core.Tasks.{dead, Kernel}
use qemu_risc_core.Core.RunQueue.Valid.{IsValid}
use qemu_risc_core.Core.Sched.Reschedule.{Switched}
use qemu_risc_core.Core.Sched.Rounds.{yields}
use qemu_risc_core.System.{System, returned, switched, with_uart, with_kernel}
use qemu_risc_core.Arch.TrapFrame.{TrapFrame}
use qemu_risc_core.Arch.Syscall.Dispatch.{Answers, dispatch-Answers, dispatch-exit}
use qemu_risc_core.Arch.Syscall.Exit.{killed, sys_exit-switched}
use qemu_risc_core.Arch.Trap.{trap_handle}
use qemu_risc_core.Arch.Trap.Handle.{trap_handle-call}

-- A system call from machine mode that does nothing, that is a yield or a call refused for its
-- number, its descriptor or its null buffer, returns to the frame with the answer in `a0` and `mepc`
-- moved four bytes on, all other registers kept, and changes only the serial port, if that is seen
-- ready 82 times.
pub trap_handle-answer :
    (tf : TrapFrame) (s : System) (answer : ℕ)
    → 82 ≤ ready s.uart
    → mcause_is_interrupt tf.mcause ≡ false
    → mcause_code tf.mcause ≡ 11
    → Answers tf answer
    → (u : Uart) × (trap_handle tf s
        ≡ some (returned (record tf { a0 = answer; mepc = u64 (tf.mepc + 4) }) (with_uart u s)))
trap_handle-answer tf s answer enough is at answers =
    let (u, left, handles) = trap_handle-call tf s enough is at in
    (
      u,
      handles (returned answer (with_uart u s))
          (dispatch-Answers tf (with_uart u s) answer answers),
    )

-- With a valid run queue, a current task that is not the idle task, and a serial port that is seen
-- ready 158 times, the system call `exit` from machine mode does not return to its frame: the
-- current task is dead, the processor goes on in the task that `reschedule` chooses, and after any
-- number of yields from there the dead task is not the current task, and is dead.
pub trap_handle-exit :
    (tf : TrapFrame) (s : System) (queued : List ℕ)
    → 158 ≤ ready s.uart
    → mcause_is_interrupt tf.mcause ≡ false
    → mcause_code tf.mcause ≡ 11
    → tf.a7 ≡ 2
    → tf.a0 < 2 ^ 64
    → IsValid s.kernel queued
    → s.kernel.current ≢ s.kernel.idle
    → (u : Uart) × (g : Kernel) × (trap_handle tf s
        ≡ some (switched (with_kernel g (with_uart u s))))
      × Switched (killed s.kernel) queued g
      × ((n : ℕ)
          → (o : Kernel) × (yields n g ≡ some o)
            × (o.current ≢ s.kernel.current)
            × ((o.task s.kernel.current).state ≡ dead))
trap_handle-exit tf s queued enough is at exits fits v ne =
    let (u, left, handles) = trap_handle-call tf s (omega (arith, enough)) is at in
    let (w, g, runs, switch, never) =
      sys_exit-switched tf.a0 (with_uart u s) queued fits v ne (omega (arith, enough, left)) in
    (
      w,
      g,
      handles (switched (with_kernel g (with_uart w s)))
          (dispatch-exit tf (with_uart u s) exits ∙ runs),
      switch,
      never,
    )
