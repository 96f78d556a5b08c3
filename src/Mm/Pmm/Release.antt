-- ===== src/Mm/Pmm/Release.antt =====
-- What `free_page` does.
use qemu_risc_core.Prelude.{
  ℕ, ◌+◌, ◌*◌, ◌/◌, ◌%◌, ◌≤◌, ◌<◌, ◌≡◌, ◌≢◌, ◌↔◌, ◌⊎◌, true, false, some, arith,
}
use qemu_risc_core.Mm.Pmm.{Pmm, max_managed_pages, is_managed_page, free_page}
use qemu_risc_core.Mm.Pmm.State.{used, used_index-used, IsValid, Writes}
use qemu_risc_core.Mm.Pmm.Mark.{freed_index, mark_free_index-Writes}
use qemu_risc_core.Mm.Pmm.Alloc.{page_addr}
use qemu_risc_core.Mm.Pmm.Pages.{managed_end_lem, is_managed_page-page_addr}
use qemu_risc_core.Mm.Page.Align.{is_page_aligned_lem}

pub free_page-unmanaged :
    (p : Pmm) (pa : ℕ) → is_managed_page p pa ≡ false → free_page p pa ≡ some (p, false)
unfolding free_page
free_page-unmanaged p pa out = rw out

module _ (p : Pmm) (v : IsValid p) where
  -- What `is_managed_page` refuses.
  is_managed_page-out :
      (pa : ℕ)
      → ((pa % 4096 ≢ 0) ⊎ (pa < p.managed_base)) ⊎ (p.managed_base + p.total_pages * 4096 ≤ pa)
      → is_managed_page p pa ≡ false
  unfolding is_managed_page
  is_managed_page-out pa out = rw (is_page_aligned_lem, managed_end_lem p v) (ground (arith, out))

  -- `free_page` refuses an address that is not aligned to 4096, below the first managed page or behind
  -- the last, and a managed page that is not used, and then changes nothing.
  pub free_page_refuses :
      ((pa : ℕ)
        → ((pa % 4096 ≢ 0) ⊎ (pa < p.managed_base)) ⊎ (p.managed_base + p.total_pages * 4096 ≤ pa)
        → free_page p pa ≡ some (p, false))
      × ((i : ℕ) → i < p.total_pages → used p i ≡ 0 → free_page p (page_addr p i) ≡ some (p, false))
  unfolding free_page
  free_page_refuses = (
    λ pa out. free_page-unmanaged p pa (is_managed_page-out pa out),
    λ i lt clear.
        let (managed, aligned, index) = is_managed_page-page_addr p v i lt in
        rw (managed, aligned, index, used_index-used p v i (omega (arith, v.total)), clear),
  )

  -- It accepts a managed page that is used, and clears the bit `freed_index i`.
  pub free_page-Writes :
      (i : ℕ)
      → i < p.total_pages
      → used p i ≡ 1
      → (q : Pmm) × (free_page p (page_addr p i) ≡ some (q, true)) × Writes p (freed_index i) 0 q
  unfolding free_page
  free_page-Writes i lt marked =
      let bound : i < max_managed_pages = omega (arith, v.total) in
      let (q, runs, w) = mark_free_index-Writes p v i bound in
      let (managed, aligned, index) = is_managed_page-page_addr p v i lt in
      (q, rw (managed, aligned, index, used_index-used p v i bound, marked, runs), w)

  -- The page that is given back is free afterwards exactly if its place in its group of 64 is the
  -- group's number modulo 64.
  pub free_page-frees_iff :
      (i : ℕ)
      → i < p.total_pages
      → used p i ≡ 1
      → (q : Pmm) × (free_page p (page_addr p i) ≡ some (q, true))
        × ((used q i ≡ 0) ↔ (i % 64 ≡ i / 64 % 64))
  free_page-frees_iff i lt marked =
      let (q, runs, w) = free_page-Writes i lt marked in
      (q, runs, (λ clear. ground (arith, w.changes i), λ e. ground (arith, w.changes i)))

  -- Any other page stays used, and another page becomes free in its place, whoever holds it.
  pub free_page-frees_other :
      (i : ℕ)
      → i < p.total_pages
      → used p i ≡ 1
      → i % 64 ≢ i / 64 % 64
      → (q : Pmm) × (free_page p (page_addr p i) ≡ some (q, true))
        × (used q i ≡ 1)
        × (freed_index i ≢ i)
        × (used q (freed_index i) ≡ 0)
  free_page-frees_other i lt marked ne =
      let (q, runs, w) = free_page-Writes i lt marked in
      (q, runs, ground (arith, w.changes i), omega arith, ground (arith, w.changes (freed_index i)))
