-- ===== src/Arch/TrapFrame.antt =====
-- kernel/arch/riscv/trap/trap.h: the registers that a trap saves.
use qemu_risc_core.Prelude.{ℕ}

pub record TrapFrame : Type 0 where
  pub ra : ℕ
  pub gp : ℕ
  pub tp : ℕ
  pub t0 : ℕ
  pub t1 : ℕ
  pub t2 : ℕ
  pub s0 : ℕ
  pub s1 : ℕ
  pub a0 : ℕ
  pub a1 : ℕ
  pub a2 : ℕ
  pub a3 : ℕ
  pub a4 : ℕ
  pub a5 : ℕ
  pub a6 : ℕ
  pub a7 : ℕ
  pub s2 : ℕ
  pub s3 : ℕ
  pub s4 : ℕ
  pub s5 : ℕ
  pub s6 : ℕ
  pub s7 : ℕ
  pub s8 : ℕ
  pub s9 : ℕ
  pub s10 : ℕ
  pub s11 : ℕ
  pub t3 : ℕ
  pub t4 : ℕ
  pub t5 : ℕ
  pub t6 : ℕ
  pub sp : ℕ
  pub mepc : ℕ
  pub mcause : ℕ
  pub mtval : ℕ
  pub mstatus : ℕ
  pub mhartid : ℕ
