-- ===== src/Mm/Pmm/Pages.antt =====
-- Pages by address: which addresses are managed, and `is_page_free`.
use qemu_risc_core.Prelude.{ℕ, ◌+◌, ◌-◌, ◌*◌, ◌/◌, ◌<◌, ◌≡◌, true, false, some, arith, ◌==◌}
use qemu_risc_core.Mm.Page.{is_page_aligned}
use qemu_risc_core.Mm.Page.Align.{is_page_aligned_lem}
use qemu_risc_core.Mm.Pmm.{Pmm, managed_end, pa_to_index, is_managed_page, is_page_free}
use qemu_risc_core.Mm.Pmm.State.{used, used-lt-two, used_index-used, IsValid}
use qemu_risc_core.Mm.Pmm.Alloc.{page_addr}

module _ (p : Pmm) (v : IsValid p) where
  pub managed_end_lem : managed_end p ≡ p.managed_base + p.total_pages * 4096
  managed_end_lem = omega (arith, v.range, v.total)

  -- The pages of the range are managed.
  pub is_managed_page-page_addr :
      (i : ℕ)
      → i < p.total_pages
      → (is_managed_page p (page_addr p i) ≡ true)
        × (is_page_aligned (page_addr p i) ≡ true)
        × (pa_to_index p (page_addr p i) ≡ i)
  unfolding is_managed_page
  is_managed_page-page_addr i lt =
      rw (is_page_aligned_lem, managed_end_lem)
        (ground (arith, v.aligned), ground (arith, v.aligned), omega (arith, v.range, v.total))

  -- Nothing else is.
  pub is_managed_page-index :
      (pa : ℕ) → is_managed_page p pa ≡ true → (i : ℕ) × (i < p.total_pages) × (pa ≡ page_addr p i)
  unfolding is_managed_page
  is_managed_page-index pa managed =
      let low = is_page_aligned_lem pa in
      let top = managed_end_lem in
      ((pa - p.managed_base) / 4096, ground (arith, v.aligned), ground (arith, v.aligned))

  -- `is_page_free` says of a managed page whether its bit is clear, and false of any other address.
  pub is_page_free-used :
      ((i : ℕ) → i < p.total_pages → is_page_free p (page_addr p i) ≡ some (used p i == 0))
      × ((pa : ℕ) → is_managed_page p pa ≡ false → is_page_free p pa ≡ some false)
  unfolding is_page_free
  is_page_free-used = (
    λ i lt.
        let (managed, aligned, index) = is_managed_page-page_addr i lt in
        rw (managed, index, used_index-used p v i (omega (arith, v.total)))
          (ground (arith, used-lt-two p i)),
    λ pa out. rw out,
  )
