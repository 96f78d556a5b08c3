-- ===== src/Mm/Pmm/Safety.antt =====
-- What the allocator promises its callers: no page handed out twice, none that is reserved.
use qemu_risc_core.Prelude.{
  ℕ, ◌+◌, ◌*◌, ◌/◌, ◌%◌, ◌^◌, ◌<◌, ◌≡◌, ◌≢◌, true, false, some, List, arith, ◌⊎◌, inl, inr,
}
use qemu_risc_core.Mm.Pmm.{Pmm, PhysicalRange, pmm_init, alloc_page}
use qemu_risc_core.Mm.Pmm.State.{IsValid}
use qemu_risc_core.Mm.Pmm.Alloc.{Allocates, exhausted, page, alloc_page-Allocates}
use qemu_risc_core.Mm.Pmm.Reserve.{touched, AllBelowTop}
use qemu_risc_core.Mm.Pmm.Init.{Initialised, first_page, page_total, pmm_init-Initialised}

pub Allocates-IsValid : {p q : Pmm} {r : ℕ} → IsValid p → Allocates p q r → IsValid q
Allocates-IsValid v (exhausted all same null) = rw same v
Allocates-IsValid v (page i lt clear all w count at) = w.valid

apart : {p q s : Pmm} {r t : ℕ} → Allocates p q r → Allocates q s t → r ≢ 0 → t ≢ 0 → r ≢ t
apart (exhausted all same null) next ne ne' = absurd (ne null)
apart (page i lt clear all w count at) (exhausted all' same' null') ne ne' = absurd (ne' null')
apart (page i lt clear all w count at) (page j lt' clear' all' w' count' at') ne ne' =
    ground (arith, w.changes j, w.same_base)

-- A page that `alloc_page` hands out is not handed out by the call after it.
pub alloc_page_twice :
    (p : Pmm)
    → IsValid p
    → (q s : Pmm) × (r t : ℕ) × (alloc_page p ≡ some (q, r))
      × (alloc_page q ≡ some (s, t))
      × (r ≢ 0 → t ≢ 0 → r ≢ t)
alloc_page_twice p v =
    let (q, r, runs, a) = alloc_page-Allocates p v in
    let (s, t, runs', b) = alloc_page-Allocates q (Allocates-IsValid v a) in
    (q, s, r, t, runs, runs', apart a b)

-- Where `alloc_page` may take a page after `pmm_init`.
abbrev pub Unreserved : PhysicalRange → List PhysicalRange → ℕ → Type 0
Unreserved managed reserved r =
    (i : ℕ) × (i < page_total managed)
    × (r ≡ first_page managed + i * 4096)
    × (touched (first_page managed) (page_total managed) reserved i ≡ false)
    × (i % 64 ≡ i / 64 % 64)

-- What `alloc_page` gives after `pmm_init`: such a page, or a null pointer if every page that
-- `pmm_init` frees has a byte of a reserved range.
abbrev pub Given : PhysicalRange → List PhysicalRange → ℕ → Type 0
Given managed reserved r =
    ((r ≡ 0)
      × ((i : ℕ)
          → i < page_total managed
          → i % 64 ≡ i / 64 % 64
          → touched (first_page managed) (page_total managed) reserved i ≡ true))
    ⊎ Unreserved managed reserved r

Allocates-Given :
    (managed : PhysicalRange) (reserved : List PhysicalRange) {p q : Pmm} {r : ℕ}
    → Initialised managed reserved p
    → Allocates p q r
    → Given managed reserved r
Allocates-Given managed reserved init (exhausted all same null) =
    let total = init.valid.total in
    let size = init.total_is in
    inl (
      null,
      λ i lt group.
          let bit = init.bits i (omega arith) in
          let marked = all i (omega arith) in ground (arith, bit, marked, group),
    )
Allocates-Given managed reserved init (page i lt clear all w count at) =
    let total = init.valid.total in
    let size = init.total_is in
    let bit = init.bits i (omega arith) in
    inr (i, omega arith, omega (arith, init.base_is), ground (arith, bit), ground (arith, bit))

-- For ranges that end at least 4096 bytes below the top of the address space, `pmm_init` returns, and then
-- `alloc_page`: it gives a managed page that has no byte of a reserved range, and whose place in its
-- group of 64 is the group's number modulo 64, or a null pointer if there is no such page.
pub alloc_page-Given :
    (managed : PhysicalRange) (reserved : List PhysicalRange)
    → managed.base + managed.size + 4095 < 2 ^ 64
    → AllBelowTop reserved
    → (p q : Pmm) × (r : ℕ) × (pmm_init managed reserved ≡ some p)
      × (alloc_page p ≡ some (q, r))
      × Given managed reserved r
alloc_page-Given managed reserved fits below =
    let (p, runs, init) = pmm_init-Initialised managed reserved fits below in
    let (q, r, takes, a) = alloc_page-Allocates p init.valid in
    (p, q, r, runs, takes, Allocates-Given managed reserved init a)
