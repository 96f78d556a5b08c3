-- ===== src/Time/Timer/Interrupt.antt =====
-- `on_interrupt`: the tick, the report and the next interrupt.
use qemu_risc_core.Prelude.{
  ℕ, ◌+◌, ◌^◌, ◌≤◌, ◌<◌, ◌≡◌, refl, some, List, arith, u64, codes, bind-some,
}
use qemu_risc_core.Platform.Clint.{read_mtime, interrupt_after}
use qemu_risc_core.Drivers.Uart.{puts, putc, put_dec}
use qemu_risc_core.Drivers.Uart.Wait.{ready}
use qemu_risc_core.Drivers.Uart.Talk.{puts-Talks, putc-Talks, put_dec-Talks}
use qemu_risc_core.System.{System, with_uart}
use qemu_risc_core.System.Print.{print-Talks}
use qemu_risc_core.Time.Timer.{on_interrupt}

-- What the timer interrupt leaves; the serial port is all that is open.
pub record Ticked (s n : System) : Type 0 where
  pub ticks : n.timer.ticks ≡ u64 (s.timer.ticks + 1)
  pub interval : n.timer.interval ≡ s.timer.interval
  pub next : n.clint.mtimecmp ≡ u64 (s.clint.clock (s.clint.reads + 1) + s.timer.interval)
  pub clock : n.clint.clock ≡ s.clint.clock
  pub reads : n.clint.reads ≡ s.clint.reads + 2
  pub kernel : n.kernel ≡ s.kernel
  pub csrs : n.csrs ≡ s.csrs
  pub bytes : n.bytes ≡ s.bytes
  pub left : ready s.uart ≤ ready n.uart + 168

abbrev ticked : System → System
ticked s = record s { timer = record s.timer { ticks = u64 (s.timer.ticks + 1) } }

abbrev read : System → System
read s = record s { clint = record s.clint { reads = s.clint.reads + 1 } }

-- For a clock of 64 bits and a serial port that is seen ready 168 times, `on_interrupt` returns: the
-- ticks are one more, in 64 bits, and the next interrupt is set to the interval after the second of
-- the two readings of the clock that it makes; the interval, the clock itself, the tasks, the registers
-- and the memory are as before.
pub on_interrupt-Ticked :
    (s : System)
    → ((n : ℕ) → s.clint.clock n < 2 ^ 64)
    → 168 ≤ ready s.uart
    → (n : System) × (on_interrupt s ≡ some n) × Ticked s n
unfolding on_interrupt read_mtime interrupt_after
on_interrupt-Ticked s clock_fits enough =
    let first : List ℕ = codes "current timer count: " in
    let second : List ℕ = codes "current ticks count: " in
    let now : ℕ = s.clint.clock s.clint.reads in
    let count : ℕ = u64 (s.timer.ticks + 1) in
    let s1 = ticked s in
    let (u2, r2, l2) =
      print-Talks (puts (some first)) 42 s1 (puts-Talks first 42 (omega arith))
        (omega (arith, enough)) in
    let s2 : System = read (with_uart u2 s1) in
    let (u3, r3, l3) =
      print-Talks (put_dec now) 40 s2 (put_dec-Talks now (clock_fits s.clint.reads))
        (omega (arith, enough, l2)) in
    let s3 : System = with_uart u3 s2 in
    let (u4, r4, l4) =
      print-Talks (putc b'\n') 2 s3 (putc-Talks b'\n') (omega (arith, enough, l2, l3)) in
    let s4 : System = with_uart u4 s3 in
    let (u5, r5, l5) =
      print-Talks (puts (some second)) 42 s4 (puts-Talks second 42 (omega arith))
        (omega (arith, enough, l2, l3, l4)) in
    let s5 : System = with_uart u5 s4 in
    let (u6, r6, l6) =
      print-Talks (put_dec count) 40 s5 (put_dec-Talks count (omega arith))
        (omega (arith, enough, l2, l3, l4, l5)) in
    let s6 : System = with_uart u6 s5 in
    let (u7, r7, l7) =
      print-Talks (putc b'\n') 2 s6 (putc-Talks b'\n')
        (omega (arith, enough, l2, l3, l4, l5, l6)) in
    let s7 : System = with_uart u7 s6 in
    (
      record s7 { clint = interrupt_after s7.timer.interval s7.clint },
      bind-some _ r2
          (bind-some _ r3 (bind-some _ r4 (bind-some _ r5 (bind-some _ r6 (bind-some _ r7 refl))))),
      record {
        ticks = refl;
        interval = refl;
        next = refl;
        clock = refl;
        reads = omega arith;
        kernel = refl;
        csrs = refl;
        bytes = refl;
        left = omega (arith, l2, l3, l4, l5, l6, l7);
      },
    )
