-- ===== src/Mm/AddressSpace/Tests.antt =====
-- An instance for the address space, over an allocator of 200 pages of which four are free.
use qemu_risc_core.Prelude.{◌≡◌, refl, some, arith, ◌⊎◌}
use qemu_risc_core.Mm.Pmm.{Pmm, free_from}
use qemu_risc_core.Mm.Pmm.FreeLoop.{Freed, all_used, all_used-Freed, free_from-Freed}
use qemu_risc_core.Arch.PageTable.Tree.{Plan, Tree}
use qemu_risc_core.Arch.PageTable.Ensure.{Full}
use qemu_risc_core.Mm.AddressSpace.{AddressSpace, kernel_address_space_init}
use qemu_risc_core.Mm.AddressSpace.Identity.{
  Identity, in_memory_map, kernel_address_space_init-Identity,
}

abbrev full : Pmm
full = all_used 0x8000_0000 200

abbrev freed : (q : Pmm) × (free_from 200 0 full ≡ some q) × Freed 0x8000_0000 200 200 q
freed =
    free_from-Freed 0x8000_0000 200 200 0 full refl
      (all_used-Freed 0x8000_0000 200 refl (omega arith) (omega arith))

abbrev space : AddressSpace
space = record { machine = record { pmm = freed.0; mem = λ a. 0 }; root = 0 }

kernel_address_space_init-Identity_example :
    (b : AddressSpace) × (kernel_address_space_init space ≡ some b)
    × (((b.root ≡ 0) × Full b.machine)
        ⊎ ((plan : Plan) × Tree b.machine b.root plan × Identity b.root in_memory_map b.machine))
kernel_address_space_init-Identity_example = kernel_address_space_init-Identity space (
  freed.2.valid,
  omega (arith, freed.2.base_is),
  omega (arith, freed.2.base_is, freed.2.total_is),
)
