-- ===== src/Arch/Sv39/Tests.antt =====
-- Runs and instances of the Sv39 encoding.
use qemu_risc_core.Prelude.{◌+◌, ◌*◌, ◌^◌, ◌<◌, ◌≡◌, refl, true, arith}
use qemu_risc_core.Mm.Page.{is_page_aligned, page_offset}
use qemu_risc_core.Mm.Page.Align.{is_page_aligned_lem}
use qemu_risc_core.Arch.Sv39.{vpn_index, make_pte, pte_to_pa, pte_valid, pte_leaf}
use qemu_risc_core.Arch.Sv39.Encoding.{make_pte_decode, vpn_index_split}

make_pte_run : make_pte 0x8020_1000 0xcf ≡ 0x2008_04cf
unfolding make_pte
make_pte_run = refl

aligned : is_page_aligned 0x8020_1000 ≡ true
aligned = is_page_aligned_lem 0x8020_1000

make_pte_decode_example :
    (pte_to_pa (make_pte 0x8020_1000 0xcf) ≡ 0x8020_1000)
    × (make_pte 0x8020_1000 0xcf < 2 ^ 64)
    × (pte_valid (make_pte 0x8020_1000 0xcf) ≡ pte_valid 0xcf)
    × (pte_leaf (make_pte 0x8020_1000 0xcf) ≡ pte_leaf 0xcf)
make_pte_decode_example = make_pte_decode 0x8020_1000 0xcf aligned (omega arith) (omega arith)

vpn_index_split_run :
    (vpn_index 0x8020_1abc 2 * 2 ^ 30
        + vpn_index 0x8020_1abc 1 * 2 ^ 21
        + vpn_index 0x8020_1abc 0 * 2 ^ 12
        + page_offset 0x8020_1abc
      ≡ 0x8020_1abc)
    × (vpn_index 0x8020_1abc 2 < 512)
    × (vpn_index 0x8020_1abc 1 < 512)
    × (vpn_index 0x8020_1abc 0 < 512)
vpn_index_split_run = vpn_index_split 0x8020_1abc (omega arith)
