-- ===== src/Boot/Entry.antt =====
-- boot/entry.S: the registers at the start, and the loop that clears the bss. The memory is its
-- 8-byte words by their addresses, which is right for a bss whose start is aligned to 8 bytes.
pub mod Bss
use qemu_risc_core.Prelude.{
  ℕ, zero, suc, ◌+◌, ◌^◌, Option, none, some, leb, ◌==◌, if◌then◌else◌, u64, ◌>>=◌,
}
use qemu_risc_core.Platform.Linker.{
  Symbols, global_pointer_addr, stack_top_addr, bss_start_addr, bss_end_addr,
}
use qemu_risc_core.Platform.Riscv.{Csrs, write_satp}
use qemu_risc_core.Arch.TrapEntry.{Cpu}

-- The loop on fuel: the memory and `t5` when it ends.
pub clear_bss : ℕ → ℕ → ℕ → (ℕ → ℕ) → Option ((ℕ → ℕ) × ℕ)
clear_bss zero t5 t6 mem = none
clear_bss (suc fuel) t5 t6 mem =
    let rest = clear_bss fuel (u64 (t5 + 8)) t6 (λ a. if a == t5 then 0 else mem a) in
    if leb t6 t5 then some (mem, t5) else rest

-- The words of the address space, and one more test.
abbrev pub bss_fuel : ℕ
bss_fuel = 2 ^ 61 + 1

-- Up to the jump to `kmain`.
pub start : Symbols → Cpu → Csrs → Option (Cpu × Csrs)
start s c csrs = do
  let t6 = bss_end_addr s
  (mem, t5) ← clear_bss bss_fuel (bss_start_addr s) t6 c.mem
  some (
    record {
      regs = record c.regs { gp = global_pointer_addr s; sp = stack_top_addr s; t5 = t5; t6 = t6 };
      mem = mem;
    },
    write_satp 0 csrs,
  )
