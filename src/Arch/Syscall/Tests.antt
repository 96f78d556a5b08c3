-- ===== src/Arch/Syscall/Tests.antt =====
-- An instance for `sys_write`.
use qemu_risc_core.Prelude.{◌≡◌, refl, some, [], ◌∷◌, arith, inl}
use qemu_risc_core.Drivers.Uart.{Uart}
use qemu_risc_core.Drivers.Uart.Wait.{Sends}
use qemu_risc_core.Drivers.Uart.Send.{wire}
use qemu_risc_core.System.{with_uart}
use qemu_risc_core.System.Samples.{sample_system}
use qemu_risc_core.Arch.Syscall.{sys_write}
use qemu_risc_core.Arch.Syscall.Write.{buffer, sys_write-buffer}

sys_write-buffer_example :
    (u : Uart) × (sys_write 1 0x8002_0000 3 sample_system ≡ some (with_uart u sample_system, 3))
    × Sends sample_system.uart (b'h' ∷ b'i' ∷ b'\r' ∷ b'\n' ∷ []) u
unfolding buffer wire
sys_write-buffer_example =
    sys_write-buffer 1 0x8002_0000 3 sample_system (inl refl) (omega arith) (omega arith)
