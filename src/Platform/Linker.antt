-- ===== src/Platform/Linker.antt =====
-- platform/linker_symbols.h: the symbols that the linker script defines. Their values are those of
-- the linked image, a parameter of what uses them; the address of a symbol is its value.
use qemu_risc_core.Prelude.{ℕ}

pub record Symbols : Type 0 where
  pub kernel_start : ℕ
  pub kernel_end : ℕ
  pub text_start : ℕ
  pub text_end : ℕ
  pub rodata_start : ℕ
  pub rodata_end : ℕ
  pub data_start : ℕ
  pub data_end : ℕ
  pub bss_start : ℕ
  pub bss_end : ℕ
  pub boot_stack_bottom : ℕ
  pub boot_stack_top : ℕ
  pub stack_bottom : ℕ
  pub stack_top : ℕ
  pub heap_start : ℕ
  pub global_pointer : ℕ

abbrev pub addr : ℕ → ℕ
addr symbol = symbol

abbrev pub kernel_start_addr : Symbols → ℕ
kernel_start_addr s = addr s.kernel_start

abbrev pub kernel_end_addr : Symbols → ℕ
kernel_end_addr s = addr s.kernel_end

abbrev pub text_start_addr : Symbols → ℕ
text_start_addr s = addr s.text_start

abbrev pub text_end_addr : Symbols → ℕ
text_end_addr s = addr s.text_end

abbrev pub rodata_start_addr : Symbols → ℕ
rodata_start_addr s = addr s.rodata_start

abbrev pub rodata_end_addr : Symbols → ℕ
rodata_end_addr s = addr s.rodata_end

abbrev pub data_start_addr : Symbols → ℕ
data_start_addr s = addr s.data_start

abbrev pub data_end_addr : Symbols → ℕ
data_end_addr s = addr s.data_end

abbrev pub bss_start_addr : Symbols → ℕ
bss_start_addr s = addr s.bss_start

abbrev pub bss_end_addr : Symbols → ℕ
bss_end_addr s = addr s.bss_end

abbrev pub boot_stack_bottom_addr : Symbols → ℕ
boot_stack_bottom_addr s = addr s.boot_stack_bottom

abbrev pub boot_stack_top_addr : Symbols → ℕ
boot_stack_top_addr s = addr s.boot_stack_top

abbrev pub stack_bottom_addr : Symbols → ℕ
stack_bottom_addr s = addr s.stack_bottom

abbrev pub stack_top_addr : Symbols → ℕ
stack_top_addr s = addr s.stack_top

abbrev pub heap_start_addr : Symbols → ℕ
heap_start_addr s = addr s.heap_start

abbrev pub global_pointer_addr : Symbols → ℕ
global_pointer_addr s = addr s.global_pointer
