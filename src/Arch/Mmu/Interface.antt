-- ===== src/Arch/Mmu/Interface.antt =====
-- kernel/arch/riscv/mm/mmu.h: the functions that switch the address translation, and what they promise.
use qemu_risc_core.Prelude.{ℕ, ◌+◌, ◌*◌, ◌/◌, ◌%◌, ◌^◌, ◌<◌, ◌≡◌, refl, true}
use qemu_risc_core.Platform.Riscv.{Csrs}
use qemu_risc_core.Mm.Page.{is_page_aligned}
use qemu_risc_core.Arch.Mmu.{enable_sv39, sfence_vma, make_satp}
use qemu_risc_core.Arch.Mmu.Satp.{make_satp_decode}

pub record MmuOps : Type 0 where
  pub enable_sv39 : ℕ → Csrs → Csrs
  pub sfence_vma : Csrs → Csrs
  pub make_satp : ℕ → ℕ

pub record IsMmu (ops : MmuOps) : Type 0 where
  pub decodes :
      (root : ℕ)
      → is_page_aligned root ≡ true
      → root < 2 ^ 56
      → (ops.make_satp root < 2 ^ 64)
        × (ops.make_satp root / 2 ^ 60 ≡ 8)
        × (ops.make_satp root / 2 ^ 44 % 2 ^ 16 ≡ 0)
        × (ops.make_satp root % 2 ^ 44 * 4096 ≡ root)
  pub enables :
      (root : ℕ) (c : Csrs)
      → ops.enable_sv39 root c ≡ record c { satp = ops.make_satp root; fences = c.fences + 1 }
  pub fences : (c : Csrs) → ops.sfence_vma c ≡ record c { fences = c.fences + 1 }

abbrev pub mmu_ops : MmuOps
mmu_ops = record { enable_sv39 = enable_sv39; sfence_vma = sfence_vma; make_satp = make_satp }

-- The register satp names the root table, and every switch is followed by a fence.
pub mmu_ops-IsMmu : IsMmu mmu_ops
unfolding enable_sv39 sfence_vma
mmu_ops-IsMmu = record { decodes = make_satp_decode; enables = λ root c. refl; fences = λ c. refl }
