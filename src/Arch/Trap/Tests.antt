-- ===== src/Arch/Trap/Tests.antt =====
-- Instances for the handler of traps: a breakpoint, an unknown system call, and an exit.
use qemu_risc_core.Prelude.{ℕ, ◌+◌, ◌-◌, ◌^◌, ◌≡◌, ◌≢◌, refl, false, some, [], ◌∷◌, arith, inr, u64}
use qemu_risc_core.Platform.Riscv.{mcause_is_interrupt, mcause_code}
use qemu_risc_core.Platform.Riscv.Cause.{mcause_decode}
use qemu_risc_core.Drivers.Uart.{Uart}
use qemu_risc_core.Core.Tasks.{running, dead, Kernel}
use qemu_risc_core.Core.Samples.{first, second, third, sample_with, sample-IsValid}
use qemu_risc_core.Core.Sched.Reschedule.{Switched}
use qemu_risc_core.Core.Sched.Rounds.{yields}
use qemu_risc_core.System.{Outcome, returned, switched, with_uart, with_kernel}
use qemu_risc_core.System.Samples.{sample_system}
use qemu_risc_core.Arch.TrapFrame.{TrapFrame}
use qemu_risc_core.Arch.Syscall.Dispatch.{unknown}
use qemu_risc_core.Arch.Syscall.Exit.{killed}
use qemu_risc_core.Arch.Trap.{trap_handle}
use qemu_risc_core.Arch.Trap.Handle.{Handled, trap_handle-Handled}
use qemu_risc_core.Arch.Trap.Call.{trap_handle-answer, trap_handle-exit}

-- A trap with the cause `cause`; the number `n` and the first argument 1 for a system call.
abbrev frame : ℕ → ℕ → TrapFrame
frame cause n = record {
  ra = 0;
  gp = 0;
  tp = 0;
  t0 = 0;
  t1 = 0;
  t2 = 0;
  s0 = 0;
  s1 = 0;
  a0 = 1;
  a1 = 0;
  a2 = 0;
  a3 = 0;
  a4 = 0;
  a5 = 0;
  a6 = 0;
  a7 = n;
  s2 = 0;
  s3 = 0;
  s4 = 0;
  s5 = 0;
  s6 = 0;
  s7 = 0;
  s8 = 0;
  s9 = 0;
  s10 = 0;
  s11 = 0;
  t3 = 0;
  t4 = 0;
  t5 = 0;
  t6 = 0;
  sp = 0x8002_0400;
  mepc = 0x8000_1000;
  mcause = cause;
  mtval = 0;
  mstatus = 0;
  mhartid = 0;
}

call_is_exception : mcause_is_interrupt 11 ≡ false
call_is_exception = (mcause_decode 0 11 (omega arith) (omega arith)).0

call_code : mcause_code 11 ≡ 11
call_code = (mcause_decode 0 11 (omega arith) (omega arith)).1

trap_handle-Handled_example :
    (o : Outcome TrapFrame) × (trap_handle (frame 3 0) sample_system ≡ some o)
    × Handled (frame 3 0) sample_system o
trap_handle-Handled_example =
    trap_handle-Handled (frame 3 0) sample_system
      (record {
        mcause = omega arith;
        mepc = omega arith;
        mtval = omega arith;
        mstatus = omega arith;
        mhartid = omega arith;
      })
      (λ n. ground arith) (omega arith)
      (inr (omega (arith, (mcause_decode 0 3 (omega arith) (omega arith)).1)))

trap_handle-answer_example :
    (u : Uart) × (trap_handle (frame 11 99) sample_system
      ≡ some (
          returned
            (record (frame 11 99) { a0 = 2 ^ 64 - 38; mepc = u64 (0x8000_1000 + 4) })
            (with_uart u sample_system)))
trap_handle-answer_example =
    trap_handle-answer (frame 11 99) sample_system (2 ^ 64 - 38) (omega arith) call_is_exception
      call_code (unknown (omega arith) (omega arith) (omega arith) refl)

trap_handle-exit_example :
    (u : Uart) × (g : Kernel) × (trap_handle (frame 11 2) sample_system
      ≡ some (switched (with_kernel g (with_uart u sample_system))))
    × Switched (killed (sample_with running)) (first ∷ second ∷ []) g
    × ((n : ℕ)
        → (o : Kernel) × (yields n g ≡ some o)
          × (o.current ≢ third)
          × ((o.task third).state ≡ dead))
trap_handle-exit_example =
    trap_handle-exit (frame 11 2) sample_system (first ∷ second ∷ []) (omega arith)
      call_is_exception call_code refl (omega arith) (sample-IsValid running) (omega arith)
