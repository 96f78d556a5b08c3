-- ===== src/Platform/Memmap.antt =====
-- platform/qemu/memmap.h: the regions of the address space of the QEMU virt machine.
use qemu_risc_core.Prelude.{ℕ, ◌+◌, ◌*◌}

pub record MemoryRegion : Type 0 where
  pub base : ℕ
  pub size : ℕ

abbrev pub dram : MemoryRegion
dram = record { base = 0x8000_0000; size = 128 * 1024 * 1024 }

abbrev pub uart0 : MemoryRegion
uart0 = record { base = 0x1000_0000; size = 0x100 }

abbrev pub clint : MemoryRegion
clint = record { base = 0x0200_0000; size = 0x1_0000 }

abbrev pub clint_mtimecmp : MemoryRegion
clint_mtimecmp = record { base = clint.base + 0x4000; size = 1 }

abbrev pub clint_mtime : MemoryRegion
clint_mtime = record { base = clint.base + 0xbff8; size = 1 }

abbrev pub plic : MemoryRegion
plic = record { base = 0x0c00_0000; size = 0x400_0000 }
