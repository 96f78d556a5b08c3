-- ===== src/Arch/Mmu.antt =====
-- kernel/arch/riscv/mm/mmu.cpp: the value of satp for a root table, and the switch to it.
pub mod Satp
pub mod Interface
mod Tests
use qemu_risc_core.Prelude.{ℕ, bit_or, ◌>>>◌}
use qemu_risc_core.Platform.Riscv
use qemu_risc_core.Arch.Sv39.{satp_mode_sv39}

pub make_satp : ℕ → ℕ
make_satp root = bit_or satp_mode_sv39 (root >>> 12)

pub sfence_vma : Riscv.Csrs → Riscv.Csrs
sfence_vma c = Riscv.sfence_vma c

unfoldable pub enable_sv39 : ℕ → Riscv.Csrs → Riscv.Csrs
enable_sv39 root c = Riscv.sfence_vma (Riscv.write_satp (make_satp root) c)
