-- ===== src/Arch/Trap/Handle.antt =====
-- `trap_handle`: what the handler does for each cause.
use qemu_risc_core.Prelude.{
  ℕ, ◌+◌, ◌^◌, ◌≤◌, ◌<◌, ◌≡◌, ◌≢◌, refl, true, false, Option, some, List, arith, ◌==◌, Bool-cases,
  inl, inr, ◌⊎◌, codes, u64, bind-some,
}
use qemu_risc_core.Platform.Riscv.{mcause_is_interrupt, mcause_code}
use qemu_risc_core.Drivers.Uart.{Uart, puts}
use qemu_risc_core.Drivers.Uart.Wait.{ready}
use qemu_risc_core.Drivers.Uart.Talk.{Talks, puts-Talks}
use qemu_risc_core.System.{System, Outcome, returned, halted, with_uart}
use qemu_risc_core.System.Print.{print-Talks}
use qemu_risc_core.Time.Timer.Interrupt.{Ticked, on_interrupt-Ticked}
use qemu_risc_core.Arch.TrapFrame.{TrapFrame}
use qemu_risc_core.Arch.Syscall.{dispatch}
use qemu_risc_core.Arch.Trap.{
  exception_name, interrupt_name, print_line, report, when, frame_of, after_call, handle_breakpoint,
  handle_ecall_mmode, handle_interrupt, handle_exception, trap_handle,
}
use qemu_risc_core.Arch.Trap.Reports.{
  Fits, length-exception_name, length-interrupt_name, print_line-Talks, when-Talks, report-Talks,
}

-- What the handler does, when the trap is no system call: a timer interrupt returns to the same
-- frame after the tick; a breakpoint returns behind the instruction; everything else halts.
pub data Handled (tf : TrapFrame) (s : System) : Outcome TrapFrame → Type 0 where
  timer :
      (u : Uart) (n : System)
      → mcause_is_interrupt tf.mcause ≡ true
      → mcause_code tf.mcause ≡ 7
      → Ticked (with_uart u s) n
      → Handled tf s (returned tf n)
  interrupt :
      (u : Uart)
      → mcause_is_interrupt tf.mcause ≡ true
      → mcause_code tf.mcause ≢ 7
      → Handled tf s (halted (with_uart u s))
  breakpoint :
      (u : Uart)
      → mcause_is_interrupt tf.mcause ≡ false
      → mcause_code tf.mcause ≡ 3
      → Handled tf s (returned (record tf { mepc = u64 (tf.mepc + 4) }) (with_uart u s))
  fault :
      (u : Uart)
      → mcause_is_interrupt tf.mcause ≡ false
      → mcause_code tf.mcause ≢ 3
      → Handled tf s (halted (with_uart u s))

abbrev Handles : TrapFrame → System → Option (Outcome TrapFrame) → Type 0
Handles tf s result = (o : Outcome TrapFrame) × (result ≡ some o) × Handled tf s o

interrupt-Handled :
    (tf : TrapFrame) (s : System)
    → ((n : ℕ) → s.clint.clock n < 2 ^ 64)
    → 308 ≤ ready s.uart
    → mcause_is_interrupt tf.mcause ≡ true
    → Handles tf s (handle_interrupt (mcause_code tf.mcause) tf s)
unfolding handle_interrupt
interrupt-Handled tf s clock_fits enough is =
    let code : ℕ = mcause_code tf.mcause in
    let head : List ℕ = codes "type = interrupt: " in
    let note : List ℕ = codes "catch a timer interrupt\n" in
    let (u1, r1, l1) =
      print-Talks (print_line head (interrupt_name code)) 90 s
        (print_line-Talks head (interrupt_name code) 36 52 (omega arith)
          (omega (arith, length-interrupt_name code)))
        (omega (arith, enough)) in
    let s1 : System = with_uart u1 s in
    elim (Bool-cases (code == 7)) [
      | inl at ↦
          let (u2, r2, l2) =
            print-Talks (puts (some note)) 50 s1 (puts-Talks note 50 (omega arith))
              (omega (arith, enough, l1)) in
          let (n, r3, t) =
            on_interrupt-Ticked (with_uart u2 s1) clock_fits (omega (arith, enough, l1, l2)) in
          (
            returned tf n,
            bind-some _ r1 (rw at (bind-some _ r2 (bind-some _ r3 refl))),
            timer u2 n is (ground arith) t,
          )
      | inr away ↦ (halted s1, bind-some _ r1 (rw away refl), interrupt u1 is (ground arith))
    ]

abbrev exception_line : TrapFrame → Uart → Option Uart
exception_line tf = print_line (codes "type = exception: ") (exception_name (mcause_code tf.mcause))

exception_line-Talks : (tf : TrapFrame) → Talks (exception_line tf) 82
exception_line-Talks tf =
    print_line-Talks (codes "type = exception: ") (exception_name (mcause_code tf.mcause)) 36 44
      (omega arith)
      (let fits = length-exception_name (mcause_code tf.mcause) in omega (arith, fits))

breakpoint-Handled :
    (tf : TrapFrame) (s : System)
    → 132 ≤ ready s.uart
    → mcause_is_interrupt tf.mcause ≡ false
    → mcause_code tf.mcause ≡ 3
    → Handles tf s (handle_exception (mcause_code tf.mcause) tf s)
unfolding handle_exception handle_breakpoint
breakpoint-Handled tf s enough is at =
    let note : List ℕ = codes "resume after breakpoint\n" in
    let (u1, r1, l1) =
      print-Talks (exception_line tf) 82 s (exception_line-Talks tf) (omega (arith, enough)) in
    let s1 : System = with_uart u1 s in
    let (u2, r2, l2) =
      print-Talks (puts (some note)) 50 s1 (puts-Talks note 50 (omega arith))
        (omega (arith, enough, l1)) in
    let test : (mcause_code tf.mcause == 3) ≡ true = ground arith in
    (
      returned (record tf { mepc = u64 (tf.mepc + 4) }) (with_uart u2 s1),
      bind-some _ r1 (rw test (bind-some _ r2 refl)),
      breakpoint u2 is at,
    )

fault-Handled :
    (tf : TrapFrame) (s : System)
    → Fits tf
    → 1164 ≤ ready s.uart
    → mcause_is_interrupt tf.mcause ≡ false
    → mcause_code tf.mcause ≢ 3
    → mcause_code tf.mcause ≢ 11
    → Handles tf s (handle_exception (mcause_code tf.mcause) tf s)
unfolding handle_exception
fault-Handled tf s fits enough is ne3 ne11 =
    let code : ℕ = mcause_code tf.mcause in
    let illegal : List ℕ = codes "Excpetion: Illegal instruction\n" in
    let fetch : List ℕ = codes "\n=== Instruction Page Fault ===\n" in
    let load : List ℕ = codes "\n=== Load Page Fault ===\n" in
    let store : List ℕ = codes "\n=== Store/Amo Page Fault ===\n" in
    let (u1, r1, l1) =
      print-Talks (exception_line tf) 82 s (exception_line-Talks tf) (omega (arith, enough)) in
    let s1 : System = with_uart u1 s in
    let (u2, r2, l2) =
      print-Talks (when (code == 2) (puts (some illegal))) 62 s1
        (when-Talks (code == 2) (puts (some illegal)) 62 (puts-Talks illegal 62 (omega arith)))
        (omega (arith, enough, l1)) in
    let s2 : System = with_uart u2 s1 in
    let (u3, r3, l3) =
      print-Talks (when (code == 12) (report fetch tf)) 340 s2
        (when-Talks (code == 12) (report fetch tf) 340
          (report-Talks fetch tf 64 fits (omega arith)))
        (omega (arith, enough, l1, l2)) in
    let s3 : System = with_uart u3 s2 in
    let (u4, r4, l4) =
      print-Talks (when (code == 13) (report load tf)) 340 s3
        (when-Talks (code == 13) (report load tf) 340 (report-Talks load tf 64 fits (omega arith)))
        (omega (arith, enough, l1, l2, l3)) in
    let s4 : System = with_uart u4 s3 in
    let (u5, r5, l5) =
      print-Talks (when (code == 15) (report store tf)) 340 s4
        (when-Talks (code == 15) (report store tf) 340
          (report-Talks store tf 64 fits (omega arith)))
        (omega (arith, enough, l1, l2, l3, l4)) in
    let not3 : (code == 3) ≡ false = ground arith in
    let not11 : (code == 11) ≡ false = ground arith in
    (
      halted (with_uart u5 s4),
      bind-some _ r1 (
          rw (not3, not11)
            (bind-some _ r2 (bind-some _ r3 (bind-some _ r4 (bind-some _ r5 refl))))),
      fault u5 is ne3,
    )

-- For a trap that is no system call from machine mode, with a frame and a clock of 64 bits, and
-- with a serial port that is seen ready 1164 times, `trap_handle` ends: a timer interrupt returns to
-- the same frame after one tick; any other interrupt halts; a breakpoint returns to the frame with
-- `mepc` moved four bytes on; any other exception halts. The tick changes the count of ticks, the time
-- of the next interrupt and the number of readings of the clock; except for these, nothing but the
-- serial port changes.
pub trap_handle-Handled :
    (tf : TrapFrame) (s : System)
    → Fits tf
    → ((n : ℕ) → s.clint.clock n < 2 ^ 64)
    → 1164 ≤ ready s.uart
    → (mcause_is_interrupt tf.mcause ≡ true) ⊎ (mcause_code tf.mcause ≢ 11)
    → (o : Outcome TrapFrame) × (trap_handle tf s ≡ some o) × Handled tf s o
unfolding trap_handle
trap_handle-Handled tf s fits clock_fits enough no_call =
    elim (Bool-cases (mcause_is_interrupt tf.mcause)) [
      | inl is ↦ rw is (interrupt-Handled tf s clock_fits (omega (arith, enough)) is)
      | inr is ↦ elim (Bool-cases (mcause_code tf.mcause == 3)) [
        | inl at ↦ rw is (breakpoint-Handled tf s (omega (arith, enough)) is (ground arith))
        | inr away ↦ rw is (fault-Handled tf s fits enough is (ground arith) (ground arith))
      ]
    ]

-- A system call from machine mode: the line of the report, the call, and the frame after it.
pub trap_handle-call :
    (tf : TrapFrame) (s : System)
    → 82 ≤ ready s.uart
    → mcause_is_interrupt tf.mcause ≡ false
    → mcause_code tf.mcause ≡ 11
    → (u : Uart) × (ready s.uart ≤ ready u + 82)
      × ((o : Outcome ℕ)
          → dispatch tf (with_uart u s) ≡ some o
          → trap_handle tf s ≡ some (frame_of (after_call tf o)))
unfolding trap_handle handle_exception handle_ecall_mmode
trap_handle-call tf s enough is at =
    let (u, r, l) = print-Talks (exception_line tf) 82 s (exception_line-Talks tf) enough in
    let not3 : (mcause_code tf.mcause == 3) ≡ false = ground arith in
    let is11 : (mcause_code tf.mcause == 11) ≡ true = ground arith in
    (u, l, λ o runs. rw is (bind-some _ r (rw (not3, is11, runs) refl)))
