-- ===== src/Mm/Pmm/Tests.antt =====
-- Runs and instances of the allocator, at four pages from 0x80000000.
use qemu_risc_core.Prelude.{
  ℕ, ◌+◌, ◌*◌, ◌≤◌, ◌/◌, ◌%◌, ◌<◌, ◌≡◌, refl, ◌≢◌, ◌↔◌, ◌⊎◌, true, false, some, [], ◌∷◌, arith,
  ◌==◌,
}
use qemu_risc_core.Mm.Pmm.{
  Pmm, PhysicalRange, max_managed_pages, alloc_page, free_page, is_page_free, is_managed_page,
  pmm_init, reserve_range, mark_free_index,
}
use qemu_risc_core.Mm.Pmm.State.{used, IsValid, Writes}
use qemu_risc_core.Mm.Pmm.Mark.{freed_index, mark_free_index-Writes}
use qemu_risc_core.Mm.Pmm.Alloc.{page_addr, Allocates, alloc_page-Allocates}
use qemu_risc_core.Mm.Pmm.Pages.{is_page_free-used}
use qemu_risc_core.Mm.Pmm.Release.{free_page_refuses, free_page-frees_iff, free_page-frees_other}
use qemu_risc_core.Mm.Pmm.Reserve.{Marks, touches, reserve_range-Marks}
use qemu_risc_core.Mm.Pmm.FreeLoop.{all_used, ones, all_used-Freed}
use qemu_risc_core.Mm.Pmm.Init.{Initialised, pmm_init-Initialised}
use qemu_risc_core.Mm.Pmm.Safety.{Given, alloc_page_twice, alloc_page-Given}

-- Every page is used.
abbrev full : Pmm
full = all_used 0x8000_0000 4

full-IsValid : IsValid full
full-IsValid = (all_used-Freed 0x8000_0000 4 refl (omega arith) (omega arith)).valid

-- The first page alone is free.
abbrev first_free : (q : Pmm) × (mark_free_index full 0 ≡ some q) × Writes full 0 0 q
first_free = mark_free_index-Writes full full-IsValid 0 (omega arith)

alloc_page-Allocates_example :
    (q : Pmm) × (r : ℕ) × (alloc_page first_free.0 ≡ some (q, r)) × Allocates first_free.0 q r
alloc_page-Allocates_example = alloc_page-Allocates first_free.0 first_free.2.valid

alloc_page_twice_example :
    (q s : Pmm) × (r t : ℕ) × (alloc_page first_free.0 ≡ some (q, r))
    × (alloc_page q ≡ some (s, t))
    × (r ≢ 0 → t ≢ 0 → r ≢ t)
alloc_page_twice_example = alloc_page_twice first_free.0 first_free.2.valid

is_page_free-used_run :
    ((i : ℕ) → i < 4 → is_page_free full (page_addr full i) ≡ some (used full i == 0))
    × ((pa : ℕ) → is_managed_page full pa ≡ false → is_page_free full pa ≡ some false)
is_page_free-used_run = is_page_free-used full full-IsValid

free_page_refuses_example :
    ((pa : ℕ)
      → ((pa % 4096 ≢ 0) ⊎ (pa < 0x8000_0000)) ⊎ (0x8000_0000 + 4 * 4096 ≤ pa)
      → free_page full pa ≡ some (full, false))
    × ((i : ℕ) → i < 4 → used full i ≡ 0 → free_page full (page_addr full i) ≡ some (full, false))
free_page_refuses_example = free_page_refuses full full-IsValid

full_bits : (i : ℕ) → i < max_managed_pages → used full i ≡ 1
full_bits i lt = ones 0x8000_0000 4 i lt

free_page-frees_iff_example :
    (q : Pmm) × (free_page full (page_addr full 3) ≡ some (q, true))
    × ((used q 3 ≡ 0) ↔ (3 % 64 ≡ 3 / 64 % 64))
free_page-frees_iff_example =
    free_page-frees_iff full full-IsValid 3 (omega arith) (full_bits 3 (omega arith))

free_page-frees_other_example :
    (q : Pmm) × (free_page full (page_addr full 3) ≡ some (q, true))
    × (used q 3 ≡ 1)
    × (freed_index 3 ≢ 3)
    × (used q (freed_index 3) ≡ 0)
free_page-frees_other_example =
    free_page-frees_other full full-IsValid 3 (omega arith) (full_bits 3 (omega arith))
      (omega arith)

-- The machine's memory, with the first 4 MiB taken by the kernel.
abbrev dram : PhysicalRange
dram = record { base = 0x8000_0000; size = 128 * 1024 * 1024 }

abbrev kernel : PhysicalRange
kernel = record { base = 0x8000_0000; size = 0x40_0000 }

reserve_range-Marks_example :
    (q : Pmm) × (reserve_range full kernel ≡ some q) × Marks full (touches 0x8000_0000 4 kernel) q
reserve_range-Marks_example = reserve_range-Marks full kernel full-IsValid (omega arith)

pmm_init-Initialised_example :
    (q : Pmm) × (pmm_init dram (kernel ∷ []) ≡ some q) × Initialised dram (kernel ∷ []) q
pmm_init-Initialised_example =
    pmm_init-Initialised dram (kernel ∷ []) (omega arith) (omega arith, tt)

alloc_page-Given_example :
    (p q : Pmm) × (r : ℕ) × (pmm_init dram (kernel ∷ []) ≡ some p)
    × (alloc_page p ≡ some (q, r))
    × Given dram (kernel ∷ []) r
alloc_page-Given_example = alloc_page-Given dram (kernel ∷ []) (omega arith) (omega arith, tt)
