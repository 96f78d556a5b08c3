-- ===== src/Mm/Pmm/Init.antt =====
-- `pmm_init`: which pages are free after it.
use qemu_risc_core.Prelude.{
  ℕ, ◌+◌, ◌-◌, ◌*◌, ◌/◌, ◌^◌, ◌≤◌, ◌<◌, ◌≡◌, refl, sym, ◌∙◌, false, some, List, [], ◌∷◌, arith, ltb,
  leb, if◌then◌else◌, Bool-cases, inl, inr, min, u64, sub64,
}
use qemu_risc_core.Mm.Pmm.{Pmm, PhysicalRange, max_managed_pages, pmm_init}
use qemu_risc_core.Mm.Page.Align.{align_up_lem, align_down_lem}
use qemu_risc_core.Mm.Pmm.Count.{clear_count_mono}
use qemu_risc_core.Mm.Pmm.State.{used, used-lt-two, IsValid}
use qemu_risc_core.Mm.Pmm.Reserve.{Marks, touched, AllBelowTop, reserve_all-Marks}
use qemu_risc_core.Mm.Pmm.FreeLoop.{is_freed, all_used, Freed, free_from-Freed, all_used-Freed}

-- The pages between the bounds of a range, rounded inwards.
abbrev pub first_page : PhysicalRange → ℕ
first_page r = (r.base + 4095) / 4096 * 4096

abbrev pub page_total : PhysicalRange → ℕ
page_total r = min (((r.base + r.size) / 4096 * 4096 - first_page r) / 4096) max_managed_pages

-- The state after `pmm_init`.
pub record Initialised (managed : PhysicalRange) (reserved : List PhysicalRange) (p : Pmm)
    : Type 0 where
  pub valid : IsValid p
  pub base_is : p.managed_base ≡ first_page managed
  pub total_is : p.total_pages ≡ page_total managed
  pub bits :
      (j : ℕ)
      → j < max_managed_pages
      → used p j ≡ (
          if touched (first_page managed) (page_total managed) reserved j
          then 1
          else if is_freed (page_total managed) j
          then 0
          else 1)
  pub few : p.free_pages ≤ (page_total managed + 63) / 64

Marks-Initialised :
    (managed : PhysicalRange) (reserved : List PhysicalRange) (p q : Pmm)
    → Freed (first_page managed) (page_total managed) (page_total managed) p
    → Marks p (touched (first_page managed) (page_total managed) reserved) q
    → Initialised managed reserved q
Marks-Initialised managed reserved p q f m = record {
  valid = m.valid;
  base_is = m.same_base ∙ f.base_is;
  total_is = m.same_total ∙ f.total_is;
  bits = λ j lt. m.changes j ∙ rw (f.bits j lt);
  few = omega (
    arith,
    f.count,
    f.valid.counted,
    m.valid.counted,
    clear_count_mono (used p) (used q) max_managed_pages
        (λ i lt. ground (arith, m.changes i, used-lt-two p i)),
  );
}

touched-zero : (base : ℕ) (rs : List PhysicalRange) (j : ℕ) → touched base 0 rs j ≡ false
touched-zero base [] j = refl
touched-zero base (r ∷ rs) j = ground (arith, touched-zero base rs j)

-- A range without a whole page leaves nothing to manage.
empty-Initialised :
    (managed : PhysicalRange) (reserved : List PhysicalRange)
    → page_total managed ≡ 0
    → managed.base + managed.size + 4095 < 2 ^ 64
    → Initialised managed reserved (all_used (first_page managed) 0)
empty-Initialised managed reserved none fits =
    let first : ℕ = first_page managed in
    let f = all_used-Freed first 0 (omega arith) (omega arith) (omega arith) in
    record {
      valid = f.valid;
      base_is = refl;
      total_is = sym none;
      bits = λ j lt. rw (none, touched-zero first reserved j) (f.bits j lt ∙ ground arith);
      few = omega arith;
    }

-- `pmm_init` stays within its bitmap and its fuel for ranges that do not reach the top of the
-- address space. Of each group of 64 pages it frees one, and of these it reserves what is asked.
pub pmm_init-Initialised :
    (managed : PhysicalRange) (reserved : List PhysicalRange)
    → managed.base + managed.size + 4095 < 2 ^ 64
    → AllBelowTop reserved
    → (q : Pmm) × (pmm_init managed reserved ≡ some q) × Initialised managed reserved q
unfolding pmm_init
pmm_init-Initialised managed reserved fits below =
    rw
      (
        align_up_lem managed.base,
        align_down_lem (u64 (managed.base + managed.size)) (omega arith),
        up,
        down,
      )
      (elim (Bool-cases (leb last first)) [
        | inl empty ↦
            (all_used first 0, rw empty, empty-Initialised managed reserved (ground arith) fits)
        | inr pages ↦
            rw (pages, same_total pages)
              (let (p, frees, f) =
                  free_from-Freed first total total 0 (all_used first total) (omega arith) start in
                let (q, reserves, m) =
                  reserve_all-Marks reserved p first total f.base_is f.total_is f.valid below in
                (q, rw (frees, reserves), Marks-Initialised managed reserved p q f m))
      ])
  where
    first : ℕ
    first = first_page managed

    last : ℕ
    last = (managed.base + managed.size) / 4096 * 4096

    total : ℕ
    total = page_total managed

    up : u64 (managed.base + 4095) / 4096 * 4096 ≡ first
    up = omega arith

    down : u64 (managed.base + managed.size) / 4096 * 4096 ≡ last
    down = omega arith

    start : Freed first total 0 (all_used first total)
    start = all_used-Freed first total (omega arith) (omega arith) (omega arith)

    same_total :
        leb last first ≡ false
        → (if ltb (sub64 last first / 4096) max_managed_pages
            then sub64 last first / 4096
            else max_managed_pages)
          ≡ total
    same_total pages = ground arith
