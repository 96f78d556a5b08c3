-- ===== src/System.antt =====
-- The state that the drivers and the kernel share, and how a call ends.
pub mod Print
pub mod Samples
use qemu_risc_core.Prelude.{ℕ, Option, some, ◌>>=◌}
use qemu_risc_core.Platform.Riscv.{Csrs}
use qemu_risc_core.Platform.Clint.{Clint}
use qemu_risc_core.Drivers.Uart.{Uart}
use qemu_risc_core.Core.Tasks.{Kernel}

-- The two variables of `KernelTimer`.
pub record Timer : Type 0 where
  pub interval : ℕ
  pub ticks : ℕ

-- `bytes` is the memory that a system call reads text from.
pub record System : Type 0 where
  pub uart : Uart
  pub csrs : Csrs
  pub clint : Clint
  pub timer : Timer
  pub kernel : Kernel
  pub bytes : ℕ → ℕ

-- A call returns, or the processor goes on in another task, or it waits for interrupts for ever.
pub data Outcome (A : Type 0) : Type 0 where
  returned : A → System → Outcome A
  switched : System → Outcome A
  halted : System → Outcome A

abbrev pub with_uart : Uart → System → System
with_uart u s = record s { uart = u }

abbrev pub with_kernel : Kernel → System → System
with_kernel k s = record s { kernel = k }

-- A routine of the driver of the serial port.
pub print : (Uart → Option Uart) → System → Option System
print f s = do u ← f s.uart; some (with_uart u s)
