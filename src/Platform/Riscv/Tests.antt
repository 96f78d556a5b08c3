-- ===== src/Platform/Riscv/Tests.antt =====
-- A timer interrupt, and a page fault.
use qemu_risc_core.Prelude.{◌+◌, ◌*◌, ◌^◌, ◌≡◌, refl, true, arith}
use qemu_risc_core.Platform.Riscv.{mcause_is_interrupt, mcause_code, interrupt_code, machine_timer}
use qemu_risc_core.Platform.Riscv.Cause.{mcause_decode}

timer_cause :
    (mcause_is_interrupt 0x8000_0000_0000_0007 ≡ true)
    × (mcause_code 0x8000_0000_0000_0007 ≡ interrupt_code machine_timer)
unfolding mcause_is_interrupt mcause_code
timer_cause = (refl, refl)

mcause_decode_run :
    (mcause_is_interrupt (1 * 2 ^ 63 + 7) ≡ true) × (mcause_code (1 * 2 ^ 63 + 7) ≡ 7)
mcause_decode_run = mcause_decode 1 7 (omega arith) (omega arith)
