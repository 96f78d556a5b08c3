-- ===== src/Time/Timer/Tests.antt =====
-- An instance for the timer interrupt.
use qemu_risc_core.Prelude.{◌≡◌, some, arith}
use qemu_risc_core.System.{System}
use qemu_risc_core.System.Samples.{sample_system}
use qemu_risc_core.Time.Timer.{on_interrupt}
use qemu_risc_core.Time.Timer.Interrupt.{Ticked, on_interrupt-Ticked}

on_interrupt-Ticked_example :
    (n : System) × (on_interrupt sample_system ≡ some n) × Ticked sample_system n
on_interrupt-Ticked_example = on_interrupt-Ticked sample_system (λ n. ground arith) (omega arith)
