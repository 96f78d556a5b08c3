-- ===== src/Arch/Sv39.antt =====
-- kernel/arch/riscv/mm/sv39.h: page table entries and table indices.
pub mod Encoding
mod Tests
use qemu_risc_core.Prelude.{ℕ, ◌+◌, ◌*◌, Bool, not, bit_and, bit_or, ◌==◌, ◌<<<◌, ◌>>>◌}

abbrev pub satp_mode_sv39 : ℕ
satp_mode_sv39 = 8 <<< 60

abbrev pub page_shift : ℕ
page_shift = 12

abbrev pub vpn_bits : ℕ
vpn_bits = 9

abbrev pub vpn_mask : ℕ
vpn_mask = 0x1ff

abbrev pub pte_ppn_shift : ℕ
pte_ppn_shift = 10

abbrev pub pte_v : ℕ
pte_v = 1 <<< 0

abbrev pub pte_r : ℕ
pte_r = 1 <<< 1

abbrev pub pte_w : ℕ
pte_w = 1 <<< 2

abbrev pub pte_x : ℕ
pte_x = 1 <<< 3

abbrev pub pte_u : ℕ
pte_u = 1 <<< 4

abbrev pub pte_g : ℕ
pte_g = 1 <<< 5

abbrev pub pte_a : ℕ
pte_a = 1 <<< 6

abbrev pub pte_d : ℕ
pte_d = 1 <<< 7

unfoldable pub vpn_index : ℕ → ℕ → ℕ
vpn_index va level = bit_and (va >>> (page_shift + vpn_bits * level)) vpn_mask

unfoldable pub make_pte : ℕ → ℕ → ℕ
make_pte pa flags = bit_or ((pa >>> page_shift) <<< pte_ppn_shift) flags

unfoldable pub pte_to_pa : ℕ → ℕ
pte_to_pa pte = (pte >>> pte_ppn_shift) <<< page_shift

unfoldable pub pte_valid : ℕ → Bool
pte_valid pte = not (bit_and pte pte_v == 0)

unfoldable pub pte_leaf : ℕ → Bool
pte_leaf pte = not (bit_and pte (bit_or (bit_or pte_r pte_w) pte_x) == 0)
