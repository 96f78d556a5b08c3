-- ===== src/Mm/Page.antt =====
-- kernel/mm/page.h: pages of 4096 bytes.
pub mod Align
mod Tests
use qemu_risc_core.Prelude.{ℕ, ◌+◌, ◌-◌, Bool, bit_and, ◌==◌, u64, bit_not, ◌<<<◌, ◌>>>◌}

abbrev pub page_shift : ℕ
page_shift = 12

abbrev pub page_size : ℕ
page_size = 1 <<< page_shift

abbrev pub page_mask : ℕ
page_mask = page_size - 1

pub is_page_aligned : ℕ → Bool
is_page_aligned addr = bit_and addr page_mask == 0

pub align_down : ℕ → ℕ
align_down addr = bit_and addr (bit_not page_mask)

pub align_up : ℕ → ℕ
align_up addr = bit_and (u64 (addr + page_mask)) (bit_not page_mask)

pub pa_to_pfn : ℕ → ℕ
pa_to_pfn pa = pa >>> page_shift

pub pfn_to_pa : ℕ → ℕ
pfn_to_pa pfn = pfn <<< page_shift

pub bytes_to_pages : ℕ → ℕ
bytes_to_pages bytes = u64 (bytes + page_mask) >>> page_shift

pub page_offset : ℕ → ℕ
page_offset addr = bit_and addr page_mask
