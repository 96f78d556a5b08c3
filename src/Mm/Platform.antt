-- ===== src/Mm/Platform.antt =====
-- kernel/mm/pmm_platform.cpp: the allocator over the memory of the board, with the image of the
-- kernel reserved. `pmm_init_platform` is the `pmm_init` without parameters.
pub mod Image
mod Tests
use qemu_risc_core.Prelude.{ℕ, Option, List, [], ◌∷◌, sub64}
use qemu_risc_core.Platform.Linker.{Symbols, kernel_start_addr, kernel_end_addr}
use qemu_risc_core.Platform.Memmap.{dram}
use qemu_risc_core.Mm.Pmm.{PhysicalRange, Pmm, pmm_init}

pub reserved : Symbols → List PhysicalRange
reserved s =
    record { base = kernel_start_addr s; size = sub64 (kernel_end_addr s) (kernel_start_addr s) }
    ∷ []

pub pmm_init_platform : Symbols → Option Pmm
pmm_init_platform s = pmm_init (record { base = dram.base; size = dram.size }) (reserved s)
