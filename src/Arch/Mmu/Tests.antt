-- ===== src/Arch/Mmu/Tests.antt =====
-- An instance for satp.
use qemu_risc_core.Prelude.{◌*◌, ◌/◌, ◌%◌, ◌^◌, ◌<◌, ◌≡◌, arith}
use qemu_risc_core.Mm.Page.Align.{is_page_aligned_lem}
use qemu_risc_core.Arch.Mmu.{make_satp}
use qemu_risc_core.Arch.Mmu.Satp.{make_satp_decode}

make_satp_decode_run :
    (make_satp 0x8010_0000 < 2 ^ 64)
    × (make_satp 0x8010_0000 / 2 ^ 60 ≡ 8)
    × (make_satp 0x8010_0000 / 2 ^ 44 % 2 ^ 16 ≡ 0)
    × (make_satp 0x8010_0000 % 2 ^ 44 * 4096 ≡ 0x8010_0000)
make_satp_decode_run = make_satp_decode 0x8010_0000 (is_page_aligned_lem 0x8010_0000) (omega arith)
