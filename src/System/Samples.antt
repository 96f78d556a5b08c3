-- ===== src/System/Samples.antt =====
-- A machine for the tests: the serial port is ready at every reading of the line status that is
-- left, the clock counts its readings, and the memory holds three bytes of text at 0x80020000.
use qemu_risc_core.Prelude.{◌==◌, if◌then◌else◌, replicate}
use qemu_risc_core.Platform.Riscv.{Csrs}
use qemu_risc_core.Platform.Clint.{Clint}
use qemu_risc_core.Drivers.Uart.{Uart, g_uart0}
use qemu_risc_core.Core.Tasks.{running}
use qemu_risc_core.Core.Samples.{sample_with}
use qemu_risc_core.System.{System, Timer}

abbrev uart : Uart
uart = g_uart0 (λ a. replicate 1600 0x60)

abbrev csrs : Csrs
csrs = record {
  satp = 0;
  mcause = 0;
  mepc = 0;
  mtval = 0;
  mstatus = 0;
  mhartid = 0;
  mtvec = 0;
  mie = 0;
  fences = 0;
}

abbrev clint : Clint
clint = record { clock = λ n. if n == 0 then 100 else 150; reads = 0; mtimecmp = 0 }

abbrev timer : Timer
timer = record { interval = 1000; ticks = 7 }

abbrev pub sample_system : System
sample_system = record {
  uart = uart;
  csrs = csrs;
  clint = clint;
  timer = timer;
  kernel = sample_with running;
  bytes = λ p. if p == 0x8002_0000 then b'h' else if p == 0x8002_0001 then b'i' else b'\n';
}
