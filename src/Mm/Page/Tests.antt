-- ===== src/Mm/Page/Tests.antt =====
-- Runs and instances of the page helpers.
use qemu_risc_core.Prelude.{◌+◌, ◌-◌, ◌*◌, ◌^◌, ◌≤◌, ◌<◌, ◌≡◌, refl, true, arith}
use qemu_risc_core.Mm.Page.{
  page_size, is_page_aligned, align_down, align_up, pa_to_pfn, pfn_to_pa, bytes_to_pages,
  page_offset,
}
use qemu_risc_core.Mm.Page.Align.{
  align_down-add-page_offset, align_up-least, pfn_to_pa-pa_to_pfn, bytes_to_pages-least,
}

align_up_runs : (align_up 0x1001 ≡ 0x2000) × (align_up (2 ^ 64 - 1) ≡ 0)
unfolding align_up
align_up_runs = (refl, refl)

align_down-add-page_offset_run :
    (align_down 0x1234 + page_offset 0x1234 ≡ 0x1234)
    × (page_offset 0x1234 < page_size)
    × (is_page_aligned (align_down 0x1234) ≡ true)
align_down-add-page_offset_run = align_down-add-page_offset 0x1234 (omega arith)

align_up-least_example :
    (is_page_aligned (align_up 0x1234) ≡ true)
    × (0x1234 + 4095 < 2 ^ 64
        → (0x1234 ≤ align_up 0x1234)
          × (is_page_aligned 0x3000 ≡ true → 0x1234 ≤ 0x3000 → align_up 0x1234 ≤ 0x3000))
    × (2 ^ 64 ≤ 0x1234 + 4095 → align_up 0x1234 ≡ 0)
align_up-least_example = align_up-least 0x1234 0x3000 (omega arith)

aligned : is_page_aligned 0x3000 ≡ true
unfolding is_page_aligned
aligned = refl

pfn_to_pa-pa_to_pfn_run :
    (pfn_to_pa (pa_to_pfn 0x3000) ≡ 0x3000)
    × (pa_to_pfn (pfn_to_pa 7) ≡ 7)
    × (is_page_aligned (pfn_to_pa 7) ≡ true)
pfn_to_pa-pa_to_pfn_run = pfn_to_pa-pa_to_pfn 0x3000 7 aligned (omega arith) (omega arith)

bytes_to_pages-least_run :
    (5000 ≤ bytes_to_pages 5000 * page_size) × (5000 ≤ 3 * page_size → bytes_to_pages 5000 ≤ 3)
bytes_to_pages-least_run = bytes_to_pages-least 5000 3 (omega arith)
