-- ===== src/Time/Timer.antt =====
-- kernel/time/timer.cpp: the timer interrupts.
pub mod Interrupt
mod Tests
use qemu_risc_core.Prelude.{ℕ, ◌+◌, Option, some, u64, codes, ◌<<<◌, ◌>>=◌}
use qemu_risc_core.Platform.Riscv.{set_mie_bits, set_mstatus_bits}
use qemu_risc_core.Platform.Clint.{read_mtime, interrupt_after}
use qemu_risc_core.Drivers.Uart.{puts, put_dec, putc}
use qemu_risc_core.System.{Timer, System, print}

abbrev pub ticks : System → ℕ
ticks s = s.timer.ticks

unfoldable pub init : ℕ → System → System
init interval s = record s {
  timer = record s.timer { interval = interval };
  clint = interrupt_after interval s.clint;
  csrs = set_mstatus_bits (1 <<< 3) (set_mie_bits (1 <<< 7) s.csrs);
}

pub on_interrupt : System → Option System
on_interrupt s = do
  let s1 = record s { timer = record s.timer { ticks = u64 (s.timer.ticks + 1) } }
  s2 ← print (puts (some (codes "current timer count: "))) s1
  let (clint, now) = read_mtime s2.clint
  s3 ← print (put_dec now) (record s2 { clint = clint })
  s4 ← print (putc b'\n') s3
  s5 ← print (puts (some (codes "current ticks count: "))) s4
  s6 ← print (put_dec (ticks s5)) s5
  s7 ← print (putc b'\n') s6
  some (record s7 { clint = interrupt_after s7.timer.interval s7.clint })
