-- ===== src/Mm/AddressSpace.antt =====
-- kernel/mm/kernel_address_space.cpp: the first page tables of the kernel.
pub mod Identity
mod Tests
use qemu_risc_core.Prelude.{ℕ, bit_or, Bool, Option, some, ◌==◌, if◌then◌else◌, ◌>>=◌}
use qemu_risc_core.Platform.Memmap.{dram, uart0, clint}
use qemu_risc_core.Mm.Page.{align_down, align_up}
use qemu_risc_core.Arch.Sv39.{pte_r, pte_w, pte_x, pte_a, pte_d}
use qemu_risc_core.Arch.PageTable.{Machine, alloc_page_table, map_range}

-- The allocator and the memory, and `g_kernel_page_table`.
pub record AddressSpace : Type 0 where
  pub machine : Machine
  pub root : ℕ

pub map_device_region : ℕ → ℕ → ℕ → Machine → Option (Machine × Bool)
map_device_region root base size m =
    map_range root (align_down base) (align_down base) (align_up size)
      (bit_or (bit_or (bit_or pte_r pte_w) pte_a) pte_d) m

-- The answers of the three mappings are not looked at.
pub kernel_address_space_init : AddressSpace → Option AddressSpace
kernel_address_space_init a = do
  (m, root) ← alloc_page_table a.machine
  if root == 0 then some (record { machine = m; root = root }) else do
    (m1, mapped_dram) ←
        map_range root dram.base dram.base dram.size
          (bit_or (bit_or (bit_or (bit_or pte_r pte_w) pte_x) pte_a) pte_d) m
    (m2, mapped_uart) ← map_device_region root uart0.base uart0.size m1
    (m3, mapped_clint) ← map_device_region root clint.base clint.size m2
    some (record { machine = m3; root = root })

abbrev pub kernel_page_table : AddressSpace → ℕ
kernel_page_table a = a.root
