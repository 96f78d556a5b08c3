-- ===== src/Mm/Platform/Image.antt =====
-- The pages of the board and the image of the kernel.
use qemu_risc_core.Prelude.{
  ℕ, ◌+◌, ◌-◌, ◌*◌, ◌^◌, ◌≤◌, ◌<◌, ◌≡◌, refl, ◌∙◌, false, some, [], ◌∷◌, arith, ◌⊎◌, inl, inr,
  sub64,
}
use qemu_risc_core.Platform.Linker.{Symbols}
use qemu_risc_core.Platform.Memmap.{dram}
use qemu_risc_core.Mm.Pmm.{PhysicalRange, Pmm, alloc_page}
use qemu_risc_core.Mm.Pmm.Reserve.{touched}
use qemu_risc_core.Mm.Pmm.Init.{pmm_init-Initialised}
use qemu_risc_core.Mm.Pmm.Safety.{alloc_page-Given}
use qemu_risc_core.Mm.Pmm.State.{used}
use qemu_risc_core.Arch.PageTable.Empty.{Rootable}
use qemu_risc_core.Mm.Platform.{reserved, pmm_init_platform}

-- A page of the board that a range does not touch.
untouched :
    (base size i : ℕ)
    → 0 < size
    → i < 32768
    → touched 2147483648 32768 (record { base = base; size = size } ∷ []) i ≡ false
    → (2147483648 + i * 4096 + 4096 ≤ base) ⊎ (base + size ≤ 2147483648 + i * 4096)
untouched base size i nonempty lt out = ground arith

-- The image has a byte, and leaves the last page of the memory free.
abbrev pub Fits : Symbols → Type 0
Fits s = (s.kernel_start < s.kernel_end) × (s.kernel_end ≤ 0x87ff_f000)

-- The allocator of the board has its last page free.
pub pmm_init_platform-free :
    (s : Symbols) (mem : ℕ → ℕ)
    → Fits s
    → (p : Pmm) × (pmm_init_platform s ≡ some p)
      × Rootable (record { pmm = p; mem = mem })
      × (32767 < p.total_pages)
      × (used p 32767 ≡ 0)
unfolding pmm_init_platform reserved
pmm_init_platform-free s mem (nonempty, below) =
    let managed : PhysicalRange = record { base = dram.base; size = dram.size } in
    let size : sub64 s.kernel_end s.kernel_start ≡ s.kernel_end - s.kernel_start = omega arith in
    let (p, runs, init) =
      pmm_init-Initialised managed (reserved s) (omega arith) (omega (arith, size), tt) in
    let out : touched 2147483648 32768 (reserved s) 32767 ≡ false = ground (arith, size) in
    let bit = init.bits 32767 (omega arith) in
    (
      p,
      runs,
      (init.valid, omega (arith, init.base_is), omega (arith, init.base_is, init.total_is)),
      omega (arith, init.total_is),
      bit ∙ rw out refl,
    )

-- For an image that has a byte and ends 4095 bytes below the top of the address space, the
-- `pmm_init` of the board returns, and `alloc_page` after it gives a null pointer, or a page of the
-- 128 MiB of memory that begin at 0x80000000 which has no byte of the image of the kernel.
pub alloc_page-outside_image :
    (s : Symbols)
    → s.kernel_start < s.kernel_end
    → s.kernel_end + 4095 < 2 ^ 64
    → (p q : Pmm) × (r : ℕ) × (pmm_init_platform s ≡ some p)
      × (alloc_page p ≡ some (q, r))
      × ((r ≡ 0)
          ⊎ ((2147483648 ≤ r)
              × (r + 4096 ≤ 2147483648 + 134217728)
              × ((r + 4096 ≤ s.kernel_start) ⊎ (s.kernel_end ≤ r))))
unfolding pmm_init_platform reserved
alloc_page-outside_image s nonempty fits =
    let managed : PhysicalRange = record { base = dram.base; size = dram.size } in
    let size : sub64 s.kernel_end s.kernel_start ≡ s.kernel_end - s.kernel_start = omega arith in
    let (p, q, r, runs, takes, place) =
      alloc_page-Given managed (reserved s) (omega arith) (omega (arith, size), tt) in
    (
      p,
      q,
      r,
      runs,
      takes,
      elim place [
        | inl null ↦ inl null.0
        | inr (i, lt, at, out, group) ↦
            let away =
              untouched s.kernel_start (sub64 s.kernel_end s.kernel_start) i
                (omega (arith, size, nonempty)) lt out in
            inr (omega (arith, at), omega (arith, at, lt), ground (arith, at, size, away))
      ],
    )
