-- ===== src/Mm/Platform/Tests.antt =====
-- An instance: an image of 64 KiB and one byte at the start of the memory.
use qemu_risc_core.Prelude.{ℕ, ◌+◌, ◌≤◌, ◌≡◌, some, arith, ◌⊎◌}
use qemu_risc_core.Platform.Linker.{Symbols}
use qemu_risc_core.Mm.Pmm.{Pmm, alloc_page}
use qemu_risc_core.Mm.Platform.{pmm_init_platform}
use qemu_risc_core.Mm.Platform.Image.{alloc_page-outside_image}

abbrev symbols : Symbols
symbols = record {
  kernel_start = 0x8000_0000;
  kernel_end = 0x8001_0001;
  text_start = 0x8000_0000;
  text_end = 0x8000_4000;
  rodata_start = 0x8000_4000;
  rodata_end = 0x8000_5000;
  data_start = 0x8000_5000;
  data_end = 0x8000_6000;
  bss_start = 0x8000_6000;
  bss_end = 0x8000_f000;
  boot_stack_bottom = 0x8000_f000;
  boot_stack_top = 0x8001_0000;
  stack_bottom = 0x8000_f000;
  stack_top = 0x8001_0000;
  heap_start = 0x8001_0001;
  global_pointer = 0x8000_5800;
}

alloc_page-outside_image_example :
    (p q : Pmm) × (r : ℕ) × (pmm_init_platform symbols ≡ some p)
    × (alloc_page p ≡ some (q, r))
    × ((r ≡ 0)
        ⊎ ((2147483648 ≤ r)
            × (r + 4096 ≤ 2147483648 + 134217728)
            × ((r + 4096 ≤ 0x8000_0000) ⊎ (0x8001_0001 ≤ r))))
alloc_page-outside_image_example = alloc_page-outside_image symbols (omega arith) (omega arith)
