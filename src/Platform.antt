-- ===== src/Platform.antt =====
-- platform: the machine that the kernel runs on.
pub mod Riscv
pub mod Memmap
pub mod Linker
pub mod Clint
