-- ===== src/Mm/Interface.antt =====
-- kernel/mm/pmm.h: the functions of the page allocator, and what its users may rely on.
use qemu_risc_core.Prelude.{
  ℕ, ◌+◌, ◌^◌, ◌≤◌, ◌<◌, ◌≡◌, refl, Bool, true, false, Option, some, List, arith, ◌==◌,
}
use qemu_risc_core.Platform.Linker.{Symbols}
use qemu_risc_core.Mm.Pmm.{
  PhysicalRange, PmmStats, Pmm, pmm_init, alloc_page, free_page, get_stats, is_managed_page,
  is_page_free,
}
use qemu_risc_core.Mm.Pmm.State.{used, IsValid}
use qemu_risc_core.Mm.Pmm.Alloc.{page_addr, Allocates, alloc_page-Allocates}
use qemu_risc_core.Mm.Pmm.Pages.{is_page_free-used}
use qemu_risc_core.Mm.Pmm.Release.{free_page-unmanaged, free_page_refuses, free_page-Writes}
use qemu_risc_core.Mm.Pmm.Reserve.{AllBelowTop}
use qemu_risc_core.Mm.Pmm.Init.{Initialised, pmm_init-Initialised}
use qemu_risc_core.Mm.Platform.{pmm_init_platform}

-- The two functions of pmm.cpp that return a variable.
abbrev pub total_pages : Pmm → ℕ
total_pages p = p.total_pages

abbrev pub free_pages : Pmm → ℕ
free_pages p = p.free_pages

pub record PmmOps : Type 0 where
  pub pmm_init : PhysicalRange → List PhysicalRange → Option Pmm
  pub pmm_init_platform : Symbols → Option Pmm
  pub alloc_page : Pmm → Option (Pmm × ℕ)
  pub free_page : Pmm → ℕ → Option (Pmm × Bool)
  pub total_pages : Pmm → ℕ
  pub free_pages : Pmm → ℕ
  pub get_stats : Pmm → PmmStats
  pub is_managed_page : Pmm → ℕ → Bool
  pub is_page_free : Pmm → ℕ → Option Bool

pub record IsAllocator (ops : PmmOps) : Type 0 where
  pub inits :
      (managed : PhysicalRange) (reserved : List PhysicalRange)
      → managed.base + managed.size + 4095 < 2 ^ 64
      → AllBelowTop reserved
      → (p : Pmm) × (ops.pmm_init managed reserved ≡ some p) × Initialised managed reserved p
  pub allocates :
      (p : Pmm)
      → IsValid p
      → (q : Pmm) × (r : ℕ) × (ops.alloc_page p ≡ some (q, r)) × Allocates p q r
  pub refuses :
      (p : Pmm)
      → IsValid p
      → ((pa : ℕ) → ops.is_managed_page p pa ≡ false → ops.free_page p pa ≡ some (p, false))
        × ((i : ℕ)
            → i < ops.total_pages p
            → used p i ≡ 0
            → ops.free_page p (page_addr p i) ≡ some (p, false))
  pub frees :
      (p : Pmm)
      → IsValid p
      → (i : ℕ) → i < ops.total_pages p
      → used p i ≡ 1
      → (q : Pmm) × (ops.free_page p (page_addr p i) ≡ some (q, true))
        × IsValid q
        × (ops.total_pages q ≡ ops.total_pages p)
  pub asks :
      (p : Pmm)
      → IsValid p
      → ((i : ℕ)
          → i < ops.total_pages p
          → ops.is_page_free p (page_addr p i) ≡ some (used p i == 0))
        × ((pa : ℕ) → ops.is_managed_page p pa ≡ false → ops.is_page_free p pa ≡ some false)
  pub counts :
      (p : Pmm)
      → ((ops.get_stats p).total_pages ≡ ops.total_pages p)
        × ((ops.get_stats p).free_pages ≡ ops.free_pages p)
        × (ops.free_pages p ≤ ops.total_pages p
            → ops.total_pages p < 2 ^ 64
            → (ops.get_stats p).used_pages + ops.free_pages p ≡ ops.total_pages p)

frees-IsValid :
    (p : Pmm)
    → IsValid p
    → (i : ℕ) → i < p.total_pages
    → used p i ≡ 1
    → (q : Pmm) × (free_page p (page_addr p i) ≡ some (q, true))
      × IsValid q
      × (q.total_pages ≡ p.total_pages)
frees-IsValid p v i lt marked =
    let (q, runs, w) = free_page-Writes p v i lt marked in (q, runs, w.valid, w.same_total)

get_stats-counts :
    (p : Pmm)
    → ((get_stats p).total_pages ≡ p.total_pages)
      × ((get_stats p).free_pages ≡ p.free_pages)
      × (p.free_pages ≤ p.total_pages
          → p.total_pages < 2 ^ 64
          → (get_stats p).used_pages + p.free_pages ≡ p.total_pages)
unfolding get_stats
get_stats-counts p = (refl, refl, λ le fits. omega (arith, le, fits))

abbrev pub pmm_ops : PmmOps
pmm_ops = record {
  pmm_init = pmm_init;
  pmm_init_platform = pmm_init_platform;
  alloc_page = alloc_page;
  free_page = free_page;
  total_pages = total_pages;
  free_pages = free_pages;
  get_stats = get_stats;
  is_managed_page = is_managed_page;
  is_page_free = is_page_free;
}

-- The allocator keeps its promises: `pmm_init` makes a valid state of the managed range; in a valid
-- state `alloc_page` hands out the first page that is not used, or a null pointer; `free_page` refuses
-- what is no managed page or not used, and otherwise accepts and leaves a valid state;
-- `is_page_free` reads the bit of a managed page; and the statistics are the two counts with
-- their difference.
pub pmm_ops-IsAllocator : IsAllocator pmm_ops
pmm_ops-IsAllocator = record {
  inits = pmm_init-Initialised;
  allocates = alloc_page-Allocates;
  refuses = λ p v. (free_page-unmanaged p, (free_page_refuses p v).1);
  frees = frees-IsValid;
  asks = is_page_free-used;
  counts = get_stats-counts;
}
