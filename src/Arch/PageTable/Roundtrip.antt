-- ===== src/Arch/PageTable/Roundtrip.antt =====
-- `map_page` and then `unmap_page` for the same page.
use qemu_risc_core.Prelude.{
  ℕ, ◌/◌, ◌^◌, ◌<◌, ◌≡◌, refl, ◌∙◌, ◌≢◌, Bool, true, arith, ◌==◌, if◌then◌else◌, Bool-cases, inl,
  inr, some,
}
use qemu_risc_core.Mm.Page.{is_page_aligned}
use qemu_risc_core.Arch.Sv39.{pte_leaf}
use qemu_risc_core.Arch.PageTable.{Machine, map_page, unmap_page, virt_to_phys}
use qemu_risc_core.Arch.PageTable.Tree.{Plan, Tree}
use qemu_risc_core.Arch.PageTable.Unmap.{unmap_page-Unmapped}
use qemu_risc_core.Arch.PageTable.Map.{map_page-Maps}

-- `unmap_page` after a `map_page` that answers true also answers true, for a tree of page tables,
-- an aligned address of 39 bits, an aligned physical address of 56 bits that is not 0 and flags of
-- ten bits with one of R, W and X; afterwards the page is not translated, and every other page is
-- translated as it was before the two calls. The `map_page` returns.
pub unmap_page-map_page :
    {m : Machine} {root : ℕ} {plan : Plan} (tree : Tree m root plan) (va pa flags : ℕ)
    → is_page_aligned va ≡ true
    → va < 2 ^ 39
    → is_page_aligned pa ≡ true
    → pa < 2 ^ 56
    → pa ≢ 0
    → flags < 1024
    → pte_leaf flags ≡ true
    → (n : Machine) × (done : Bool) × (map_page root va pa flags m ≡ some (n, done))
      × (done ≡ true
          → ((unmap_page root va n).1 ≡ true)
            × ((va' : ℕ)
                → va' < 2 ^ 39
                → virt_to_phys root va' (unmap_page root va n).0
                  ≡ (if va' / 4096 == va / 4096 then 0 else virt_to_phys root va' m)))
unmap_page-map_page {m} {root} tree va pa flags aligned fits pa_aligned pa_fits pa_ne small leaf =
    let (n, done, plan', runs, mapped) = map_page-Maps pa flags pa_fits small leaf tree va fits in
    let unmapped = unmap_page-Unmapped mapped.tree va fits in
    (
      n,
      done,
      runs,
      λ is_done.
          let at = mapped.mapped va is_done refl in
          let accepted = unmapped.accepted aligned (λ null. pa_ne (omega (arith, at, null))) in
          (
            accepted,
            λ va' fits'. elim (Bool-cases (va' / 4096 == va / 4096)) [
              | inl same ↦ rw same (unmapped.cleared va' accepted (ground arith))
              | inr away ↦
                  let ne : va' / 4096 ≢ va / 4096 = ground arith in
                  rw away (unmapped.other va' fits' ne ∙ mapped.other va' fits' ne)
            ],
          ),
    )
