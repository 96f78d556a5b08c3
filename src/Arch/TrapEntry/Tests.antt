-- ===== src/Arch/TrapEntry/Tests.antt =====
-- An instance for a timer interrupt of code with a stack at 0x80020000.
use qemu_risc_core.Prelude.{ℕ, ◌+◌, ◌≡◌, refl, some, arith, u64, sub64}
use qemu_risc_core.Platform.Riscv.Cause.{mcause_decode}
use qemu_risc_core.System.{System, returned}
use qemu_risc_core.System.Samples.{sample_system}
use qemu_risc_core.Arch.TrapEntry.{Regs, Cpu, tf_size, trap_entry}
use qemu_risc_core.Arch.TrapEntry.Frame.{Outside}
use qemu_risc_core.Arch.TrapEntry.Restore.{ticks, trap_entry-transparent}

abbrev regs : Regs
regs = record {
  ra = 1;
  gp = 2;
  tp = 3;
  t0 = 4;
  t1 = 5;
  t2 = 6;
  s0 = 7;
  s1 = 8;
  a0 = 9;
  a1 = 10;
  a2 = 11;
  a3 = 12;
  a4 = 13;
  a5 = 14;
  a6 = 15;
  a7 = 16;
  s2 = 17;
  s3 = 18;
  s4 = 19;
  s5 = 20;
  s6 = 21;
  s7 = 22;
  s8 = 23;
  s9 = 24;
  s10 = 25;
  s11 = 26;
  t3 = 27;
  t4 = 28;
  t5 = 29;
  t6 = 30;
  sp = 0x8002_0000;
}

abbrev cpu : Cpu
cpu = record { regs = regs; mem = λ a. a }

abbrev system : System
system = record sample_system {
  csrs = record sample_system.csrs { mcause = 0x8000_0000_0000_0007; mepc = 0x8000_1000 };
}

trap_entry-transparent_example :
    (mem : ℕ → ℕ) × (n : System) × (trap_entry cpu system
      ≡ some (returned (record { regs = regs; mem = mem }) n))
    × (n.csrs ≡ record system.csrs { mepc = u64 (0x8000_1000 + 0) })
    × (n.kernel ≡ system.kernel)
    × ((a : ℕ) → Outside (sub64 0x8002_0000 tf_size) a → mem a ≡ a)
trap_entry-transparent_example =
    trap_entry-transparent cpu system 0 (omega arith)
      (record {
        mcause = omega arith;
        mepc = omega arith;
        mtval = omega arith;
        mstatus = omega arith;
        mhartid = omega arith;
      })
      (λ n. ground arith) (omega arith)
      (ticks (mcause_decode 1 7 (omega arith) (omega arith)).0
        (mcause_decode 1 7 (omega arith) (omega arith)).1 refl)
