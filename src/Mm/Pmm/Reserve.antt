-- ===== src/Mm/Pmm/Reserve.antt =====
-- `reserve_range` marks the managed pages that a range touches, and no other.
use qemu_risc_core.Prelude.{
  ℕ, zero, suc, ◌+◌, ◌-◌, ◌*◌, ◌/◌, ◌^◌, ◌≤◌, ◌<◌, ◌≡◌, refl, ap, ◌∙◌, Bool, true, false, ◌&&◌,
  ◌||◌, some, List, [], ◌∷◌, arith, ltb, leb, ◌==◌, if◌then◌else◌, Bool-cases, inl, inr, u64, min,
  max,
}
use qemu_risc_core.Mm.Page.{page_size}
use qemu_risc_core.Mm.Page.Align.{align_down_lem, align_up_lem}
use qemu_risc_core.Mm.Pmm.{
  Pmm, PhysicalRange, max_managed_pages, pa_to_index, mark_used_index, reserve_from, reserve_range,
  reserve_all,
}
use qemu_risc_core.Mm.Pmm.State.{used, IsValid}
use qemu_risc_core.Mm.Pmm.Mark.{mark_used_index-Writes}
use qemu_risc_core.Mm.Pmm.Alloc.{page_addr}
use qemu_risc_core.Mm.Pmm.Pages.{managed_end_lem}

-- `q` is `p` with the pages that `chosen` names marked as used.
pub record Marks (p : Pmm) (chosen : ℕ → Bool) (q : Pmm) : Type 0 where
  pub valid : IsValid q
  pub same_base : q.managed_base ≡ p.managed_base
  pub same_total : q.total_pages ≡ p.total_pages
  pub changes : (j : ℕ) → used q j ≡ (if chosen j then 1 else used p j)

abbrev between : ℕ → ℕ → ℕ → Bool
between i n j = leb i j && ltb j n

reserve_from_step :
    (fuel end pa i : ℕ) (p q r : Pmm)
    → ltb pa end ≡ true
    → pa_to_index p pa ≡ i
    → mark_used_index p i ≡ some q
    → reserve_from fuel end (u64 (pa + page_size)) q ≡ some r
    → reserve_from (suc fuel) end pa p ≡ some r
unfolding reserve_from
reserve_from_step fuel end pa i p q r more index marks rest = rw (more, index, marks, rest)

reserve_from-Marks :
    (fuel i n : ℕ) (p : Pmm) (pa end : ℕ)
    → IsValid p
    → n < fuel + i
    → i ≤ n
    → n ≤ p.total_pages
    → pa ≡ page_addr p i
    → end ≡ page_addr p n
    → (q : Pmm) × (reserve_from fuel end pa p ≡ some q) × Marks p (between i n) q
unfolding reserve_from
reserve_from-Marks zero i n p pa end v enough le top at last = absurd (omega arith)
reserve_from-Marks (suc fuel) i n p pa end v enough le top at last = elim (Bool-cases (ltb i n)) [
  | inl more ↦
      let bound : i < max_managed_pages = ground (arith, v.total) in
      let index : pa_to_index p pa ≡ i = omega (arith, v.range, v.total, bound) in
      let test : ltb pa end ≡ true = ground arith in
      let (q, runs, w) = mark_used_index-Writes p v i bound in
      let (r, rest, m) =
        reserve_from-Marks fuel (i + 1) n q (u64 (pa + page_size)) end w.valid (omega arith)
          (ground arith) (omega (arith, w.same_total)) (ground (arith, v.range, w.same_base))
          (omega (arith, w.same_base)) in
      (
        r,
        reserve_from_step fuel end pa i p q r test index runs rest,
        record {
          valid = m.valid;
          same_base = omega (arith, m.same_base, w.same_base);
          same_total = omega (arith, m.same_total, w.same_total);
          changes = λ j. ground (arith, m.changes j, w.changes j);
        },
      )
  | inr done ↦
      let test : ltb pa end ≡ false = ground arith in
      (
        p,
        rw test,
        record { valid = v; same_base = refl; same_total = refl; changes = λ j. ground arith },
      )
]

-- Page `j` is managed and has a byte of the range.
abbrev pub touches : ℕ → ℕ → PhysicalRange → ℕ → Bool
touches base total r j =
    ltb j total
    && (ltb 0 r.size
        && (ltb r.base (base + j * 4096 + 4096) && ltb (base + j * 4096) (r.base + r.size)))

module _ (p : Pmm) (r : PhysicalRange) (v : IsValid p) (start end : ℕ)
    (start_is : start ≡ max (r.base / 4096 * 4096) p.managed_base)
    (end_is : end
      ≡ min ((r.base + r.size + 4095) / 4096 * 4096) (p.managed_base + p.total_pages * 4096))
    (nonempty : 0 < r.size) where
  -- The pages of the clipped range are those that the range touches.
  choice :
      start < end
      → (j : ℕ)
      → between ((start - p.managed_base) / 4096) ((end - p.managed_base) / 4096) j
        ≡ touches p.managed_base p.total_pages r j
  choice lt j = ground (arith, v.aligned)

  clipped-Marks :
      (q : Pmm) × ((if leb end start
          then some p
          else reserve_from (max_managed_pages + 1) end start p)
        ≡ some q)
      × Marks p (touches p.managed_base p.total_pages r) q
  clipped-Marks = elim (Bool-cases (leb end start)) [
    | inl empty ↦ (
      p,
      rw empty,
      record {
        valid = v;
        same_base = refl;
        same_total = refl;
        changes = λ j. ground (arith, v.aligned);
      },
    )
    | inr some_pages ↦
        let lt : start < end = ground arith in
        let i : ℕ = (start - p.managed_base) / 4096 in
        let n : ℕ = (end - p.managed_base) / 4096 in
        let (q, runs, m) =
          reserve_from-Marks (max_managed_pages + 1) i n p start end v (omega (arith, v.total))
            (omega arith) (omega arith) (omega (arith, v.aligned)) (omega (arith, v.aligned)) in
        (
          q,
          rw some_pages runs,
          record {
            valid = m.valid;
            same_base = m.same_base;
            same_total = m.same_total;
            changes = λ j. m.changes j ∙ ap (λ (b : Bool). if b then 1 else used p j) (choice lt j);
          },
        )
  ]

-- For a range below the top of the address space, `reserve_range` stays within the bitmap and
-- its fuel, and marks exactly the managed pages that have a byte of the range.
pub reserve_range-Marks :
    (p : Pmm) (r : PhysicalRange)
    → IsValid p
    → r.base + r.size + 4095 < 2 ^ 64
    → (q : Pmm) × (reserve_range p r ≡ some q) × Marks p (touches p.managed_base p.total_pages r) q
unfolding reserve_range
reserve_range-Marks p r v fits = elim (Bool-cases ((r.size == 0) || (p.total_pages == 0))) [
  | inl nothing ↦ (
    p,
    rw nothing,
    record { valid = v; same_base = refl; same_total = refl; changes = λ j. ground arith },
  )
  | inr pages ↦
      rw
        (
          pages,
          align_down_lem r.base (omega arith),
          align_up_lem (u64 (r.base + r.size)),
          managed_end_lem p v,
        )
        (clipped-Marks p r v _ _ (ground arith) (ground arith) (ground arith))
]

-- Some range of the list has a byte of page `j`.
abbrev pub touched : ℕ → ℕ → List PhysicalRange → ℕ → Bool
touched base total [] j = false
touched base total (r ∷ rs) j = touches base total r j || touched base total rs j

-- No range comes near the top of the address space.
abbrev pub AllBelowTop : List PhysicalRange → Type 0
AllBelowTop [] = Unit {0}
AllBelowTop (r ∷ rs) = (r.base + r.size + 4095 < 2 ^ 64) × AllBelowTop rs

pub reserve_all-Marks :
    (rs : List PhysicalRange) (p : Pmm) (base total : ℕ)
    → p.managed_base ≡ base
    → p.total_pages ≡ total
    → IsValid p
    → AllBelowTop rs
    → (q : Pmm) × (reserve_all rs p ≡ some q) × Marks p (touched base total rs) q
unfolding reserve_all
reserve_all-Marks [] p base total at size v fit =
    (p, refl, record { valid = v; same_base = refl; same_total = refl; changes = λ j. refl })
reserve_all-Marks (r ∷ rs) p base total at size v fit =
    let (q, runs, m) = reserve_range-Marks p r v fit.0 in
    let (s, rest, n) =
      reserve_all-Marks rs q base total (m.same_base ∙ at) (m.same_total ∙ size) m.valid fit.1 in
    (
      s,
      rw (runs, rest),
      record {
        valid = n.valid;
        same_base = n.same_base ∙ m.same_base;
        same_total = n.same_total ∙ m.same_total;
        changes = λ j. ground (arith, n.changes j, rw (at, size) at (m.changes j));
      },
    )
