-- ===== src/Arch/Mmu/Satp.antt =====
-- The fields of satp.
use qemu_risc_core.Prelude.{ℕ, ◌*◌, ◌/◌, ◌%◌, ◌^◌, ◌<◌, ◌≡◌, true, arith}
use qemu_risc_core.Prelude.Bits.{bit_or-fields}
use qemu_risc_core.Mm.Page.{is_page_aligned}
use qemu_risc_core.Mm.Page.Align.{is_page_aligned_lem}
use qemu_risc_core.Arch.Mmu.{make_satp}

-- For the address of a root table, aligned and of 56 bits, `make_satp` fits 64 bits, has the mode
-- 8 of Sv39 in its bits 60 to 63, the address space 0 in bits 44 to 59, and the number of the
-- root's page in the bits below.
pub make_satp_decode :
    (root : ℕ)
    → is_page_aligned root ≡ true
    → root < 2 ^ 56
    → (make_satp root < 2 ^ 64)
      × (make_satp root / 2 ^ 60 ≡ 8)
      × (make_satp root / 2 ^ 44 % 2 ^ 16 ≡ 0)
      × (make_satp root % 2 ^ 44 * 4096 ≡ root)
unfolding make_satp
make_satp_decode root aligned fits =
    let off : root % 4096 ≡ 0 = ground (arith, is_page_aligned_lem root) in
    let small : root / 4096 < 2 ^ 60 = omega arith in
    rw (bit_or-fields 8 60 (root / 4096) small) (omega arith)
