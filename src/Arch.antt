-- ===== src/Arch.antt =====
-- kernel/arch/riscv: page tables and the register that names the root, traps and system calls.
pub mod Sv39
pub mod PageTable
pub mod Mmu
pub mod TrapFrame
pub mod Syscall
pub mod Trap
pub mod TrapEntry
