-- ===== src/Arch/PageTable/Tests.antt =====
-- Instances for page tables: an allocator of 200 pages, of which four are free.
use qemu_risc_core.Prelude.{
  ℕ, ◌^◌, ◌<◌, ◌≡◌, refl, ◌⊎◌, true, false, some, arith, ◌==◌, Bool, if◌then◌else◌, ◌/◌, List, [],
  ◌∷◌,
}
use qemu_risc_core.Mm.Pmm.{Pmm, alloc_page, free_from}
use qemu_risc_core.Mm.Pmm.Alloc.{Allocates, alloc_page-Allocates}
use qemu_risc_core.Mm.Pmm.FreeLoop.{Freed, all_used, all_used-Freed, free_from-Freed}
use qemu_risc_core.Arch.Sv39.{pte_leaf}
use qemu_risc_core.Arch.Sv39.Encoding.{pte_leaf_lem}
use qemu_risc_core.Arch.PageTable.{
  Machine, alloc_page_table, map_page, map_range, unmap_page, virt_to_phys,
}
use qemu_risc_core.Arch.PageTable.Tree.{Plan, Tree}
use qemu_risc_core.Arch.PageTable.Ensure.{Full}
use qemu_risc_core.Arch.PageTable.Empty.{
  root_plan, Rootable, rooted, rooted-Tree, clear_not_null, alloc_page_table-Tree,
}
use qemu_risc_core.Arch.PageTable.Map.{Maps, map_page-Maps}
use qemu_risc_core.Arch.PageTable.Interface.{
  page_table_ops, map, unmap, requests, after_requests, requests-space,
}
use qemu_risc_core.Arch.PageTable.Range.{Ranged, map_range-Ranged}
use qemu_risc_core.Arch.PageTable.Roundtrip.{unmap_page-map_page}
use qemu_risc_core.Mm.Page.Align.{is_page_aligned_lem}
use qemu_risc_core.Arch.PageTable.Unmap.{Unmapped, unmap_page-Unmapped}

abbrev full : Pmm
full = all_used 0x8000_0000 200

-- Pages 0, 65, 130 and 195 are free.
abbrev freed : (q : Pmm) × (free_from 200 0 full ≡ some q) × Freed 0x8000_0000 200 200 q
freed =
    free_from-Freed 0x8000_0000 200 200 0 full refl
      (all_used-Freed 0x8000_0000 200 refl (omega arith) (omega arith))

abbrev start : Machine
start = record { pmm = freed.0; mem = λ a. 0 }

start-Rootable : Rootable start
start-Rootable =
    let (q, runs, f) = freed in
    (f.valid, omega (arith, f.base_is), omega (arith, f.base_is, f.total_is))

alloc_page_table-Tree_example :
    (n : Machine) × (root : ℕ) × (alloc_page_table start ≡ some (n, root))
    × (((root ≡ 0) × Full n)
        ⊎ (Tree n root (root_plan root) × ((va : ℕ) → virt_to_phys root va n ≡ 0)))
alloc_page_table-Tree_example = alloc_page_table-Tree start start-Rootable

-- The root is the first free page.
abbrev allocated :
    (q : Pmm) × (a : ℕ) × (alloc_page start.pmm ≡ some (q, a)) × Allocates start.pmm q a
allocated = alloc_page-Allocates start.pmm freed.2.valid

root_not_null : (allocated.1 == 0) ≡ false
root_not_null =
    clear_not_null start start-Rootable allocated.0 allocated.1 allocated.3 0
      (omega (arith, freed.2.total_is)) (freed.2.bits 0 (omega arith))

abbrev space : Machine
space = rooted start start-Rootable allocated.0 allocated.1 allocated.3 root_not_null

abbrev space_root : ℕ
space_root = allocated.1

space-Tree : Tree space space_root (root_plan space_root)
space-Tree = rooted-Tree start start-Rootable allocated.0 allocated.1 allocated.3 root_not_null

flags_leaf : pte_leaf 0xce ≡ true
flags_leaf = pte_leaf_lem 0xce

map_page-Maps_example :
    Maps 0x8020_0000 0xce
      (omega arith)
      (omega arith)
      flags_leaf
      space-Tree
      0x4000_1000
      (omega arith)
      (map_page space_root 0x4000_1000 0x8020_0000 0xce space)
map_page-Maps_example =
    map_page-Maps 0x8020_0000 0xce (omega arith) (omega arith) flags_leaf space-Tree 0x4000_1000
      (omega arith)

unmap_page-Unmapped_example :
    Unmapped space space_root
      (root_plan space_root)
      0x4000_1000
      (unmap_page space_root 0x4000_1000 space).0
      (unmap_page space_root 0x4000_1000 space).1
unmap_page-Unmapped_example = unmap_page-Unmapped space-Tree 0x4000_1000 (omega arith)

unmap_page-map_page_example :
    (n : Machine) × (done : Bool) × (map_page space_root 0x4000_1000 0x8020_0000 0xce space
      ≡ some (n, done))
    × (done ≡ true
        → ((unmap_page space_root 0x4000_1000 n).1 ≡ true)
          × ((va' : ℕ)
              → va' < 2 ^ 39
              → virt_to_phys space_root va' (unmap_page space_root 0x4000_1000 n).0 ≡ (
                  if va' / 4096 == 0x4000_1000 / 4096
                  then 0
                  else virt_to_phys space_root va' space)))
unmap_page-map_page_example =
    unmap_page-map_page space-Tree 0x4000_1000 0x8020_0000 0xce (is_page_aligned_lem 0x4000_1000)
      (omega arith) (is_page_aligned_lem 0x8020_0000) (omega arith) (omega arith) (omega arith)
      flags_leaf

map_range-Ranged_example :
    (n : Machine) × (done : Bool) × (plan : Plan) × (map_range space_root 0x4000_0000 0x8000_0000
        0x5001 0xce space
      ≡ some (n, done))
    × Tree n space_root plan
    × Ranged space space_root 0x4000_0000 0x8000_0000 6 n done
map_range-Ranged_example =
    map_range-Ranged space_root 0xce (omega arith) flags_leaf 0x4000_0000 0x8000_0000 0x5001 space
      (root_plan space_root) space-Tree refl refl (omega arith) (omega arith)

-- A page is mapped, mapped again, and taken out.
requests-space_example :
    (n : Machine) × (answers : List Bool) × (plan : Plan) × (requests page_table_ops space_root
        (map 0x4000_1000 0x8020_0000 0xce
          ∷ map 0x4000_1000 0x8021_0000 0xce
          ∷ unmap 0x4000_1000
          ∷ [])
        space
      ≡ some (n, answers))
    × Tree n space_root plan
    × ((at : ℕ)
        → at < 2 ^ 39
        → virt_to_phys space_root at n
          ≡ after_requests
              (map 0x4000_1000 0x8020_0000 0xce
                ∷ map 0x4000_1000 0x8021_0000 0xce
                ∷ unmap 0x4000_1000
                ∷ [])
              answers
              (λ va. virt_to_phys space_root va space)
              at)
requests-space_example =
    requests-space
      (map 0x4000_1000 0x8020_0000 0xce ∷ map 0x4000_1000 0x8021_0000 0xce ∷ unmap 0x4000_1000 ∷ [])
      space space_root (root_plan space_root) space-Tree
      (
        (omega arith, omega arith, omega arith, flags_leaf),
        ((omega arith, omega arith, omega arith, flags_leaf), (omega arith, tt)),
      )
