-- ===== src/Mm/Page/Align.antt =====
-- The alignment helpers of kernel/mm/page.h as arithmetic.
use qemu_risc_core.Prelude.{
  ℕ, ◌+◌, ◌-◌, ◌*◌, ◌/◌, ◌%◌, ◌^◌, ◌≤◌, ◌<◌, ◌≡◌, ◌∙◌, true, arith, ◌==◌, u64,
}
use qemu_risc_core.Prelude.Bits.{bit_and-low_mask, bit_and-high_mask}
use qemu_risc_core.Mm.Page.{
  is_page_aligned, align_down, align_up, pa_to_pfn, pfn_to_pa, bytes_to_pages, page_offset,
  page_size,
}

pub is_page_aligned_lem : (addr : ℕ) → is_page_aligned addr ≡ (addr % 4096 == 0)
unfolding is_page_aligned
is_page_aligned_lem addr = rw (bit_and-low_mask 12 addr)

pub page_offset_lem : (addr : ℕ) → page_offset addr ≡ addr % 4096
unfolding page_offset
page_offset_lem addr = bit_and-low_mask 12 addr

pub align_down_lem : (addr : ℕ) → addr < 2 ^ 64 → align_down addr ≡ addr / 4096 * 4096
unfolding align_down
align_down_lem addr fits =
    bit_and-high_mask 12 addr (2 ^ 52 - 1) ∙ rw (bit_and-low_mask 52 (addr / 4096)) (omega arith)

-- The sum wraps: above 2 ^ 64 - 4096 an address is rounded up to 0.
pub align_up_lem : (addr : ℕ) → align_up addr ≡ u64 (addr + 4095) / 4096 * 4096
unfolding align_up
align_up_lem addr =
    let m : ℕ = u64 (addr + 4095) in
    bit_and-high_mask 12 m (2 ^ 52 - 1) ∙ rw (bit_and-low_mask 52 (m / 4096)) (omega arith)

-- An address is the start of its page and its offset in the page.
pub align_down-add-page_offset :
    (addr : ℕ)
    → addr < 2 ^ 64
    → (align_down addr + page_offset addr ≡ addr)
      × (page_offset addr < page_size)
      × (is_page_aligned (align_down addr) ≡ true)
align_down-add-page_offset addr fits =
    rw (align_down_lem addr fits, page_offset_lem addr, is_page_aligned_lem)
      (omega arith, omega arith, ground arith)

-- `align_up` is the least aligned address from `addr` on, unless the sum overflows; then it is 0.
pub align_up-least :
    (addr bound : ℕ)
    → addr < 2 ^ 64
    → (is_page_aligned (align_up addr) ≡ true)
      × (addr + 4095 < 2 ^ 64
          → (addr ≤ align_up addr)
            × (is_page_aligned bound ≡ true → addr ≤ bound → align_up addr ≤ bound))
      × (2 ^ 64 ≤ addr + 4095 → align_up addr ≡ 0)
align_up-least addr bound fits =
    rw (align_up_lem addr, is_page_aligned_lem)
      (
        ground arith,
        λ small. (omega arith, λ is le. ground (arith, is_page_aligned_lem bound)),
        λ big. omega arith,
      )

-- Page frame numbers and page addresses correspond.
pub pfn_to_pa-pa_to_pfn :
    (pa pfn : ℕ)
    → is_page_aligned pa ≡ true
    → pa < 2 ^ 64
    → pfn < 2 ^ 52
    → (pfn_to_pa (pa_to_pfn pa) ≡ pa)
      × (pa_to_pfn (pfn_to_pa pfn) ≡ pfn)
      × (is_page_aligned (pfn_to_pa pfn) ≡ true)
unfolding pa_to_pfn pfn_to_pa
pfn_to_pa-pa_to_pfn pa pfn aligned fits pfn_fits =
    let zero_offset : pa % 4096 ≡ 0 = ground (arith, is_page_aligned_lem pa) in
    (omega arith, omega arith, rw is_page_aligned_lem (ground arith))

-- `bytes_to_pages` is the least number of pages that hold the bytes, unless the sum overflows.
pub bytes_to_pages-least :
    (bytes pages : ℕ)
    → bytes + 4095 < 2 ^ 64
    → (bytes ≤ bytes_to_pages bytes * page_size)
      × (bytes ≤ pages * page_size → bytes_to_pages bytes ≤ pages)
unfolding bytes_to_pages
bytes_to_pages-least bytes pages fits = omega arith
