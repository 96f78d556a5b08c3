-- ===== src/Arch/PageTable/Range.antt =====
-- `map_range`: a range of pages is mapped page by page.
use qemu_risc_core.Prelude.{
  ℕ, zero, suc, ◌+◌, ◌-◌, ◌*◌, ◌/◌, ◌%◌, ◌^◌, ◌≤◌, ◌<◌, ◌≡◌, refl, ap, ◌∙◌, Bool, true, false, not,
  ◌||◌, arith, Bool-cases, inl, inr, ◌⊎◌, some, Option, ltb, u64, ◌==◌,
}
use qemu_risc_core.Mm.Page.{page_size, is_page_aligned, align_up}
use qemu_risc_core.Mm.Page.Align.{page_offset_lem, align_up_lem, is_page_aligned_lem}
use qemu_risc_core.Arch.Sv39.{pte_leaf}
use qemu_risc_core.Arch.PageTable.{Machine, map_page, map_from, map_range, map_fuel, virt_to_phys}
use qemu_risc_core.Arch.PageTable.Tree.{Plan, Tree}
use qemu_risc_core.Arch.PageTable.Map.{Mapped, map_page-Maps}

-- The `count` pages from `va` on are the pages from `pa` on, if the mapping succeeds, and each of
-- them is that or as before if it fails; the other pages are translated as before.
pub record Ranged (m : Machine) (root va pa count : ℕ) (n : Machine) (done : Bool) : Type 0 where
  pub inside :
      (va' : ℕ)
      → done ≡ true
      → va ≤ va'
      → va' < va + count * 4096
      → virt_to_phys root va' n ≡ pa + (va' - va)
  pub either :
      (va' : ℕ)
      → va' < 2 ^ 39
      → (virt_to_phys root va' n ≡ virt_to_phys root va' m)
        ⊎ ((va ≤ va') × (virt_to_phys root va' n ≡ pa + (va' - va)))
  pub outside :
      (va' : ℕ)
      → va' < 2 ^ 39
      → (va' < va) ⊎ (va + count * 4096 ≤ va')
      → virt_to_phys root va' n ≡ virt_to_phys root va' m

module _ (root flags : ℕ) (flags_fit : flags < 1024) (leaf : pte_leaf flags ≡ true) where
  abbrev Ranges : Machine → ℕ → ℕ → ℕ → Option (Machine × Bool) → Type 0
  Ranges m va pa count result =
      (n : Machine) × (done : Bool) × (plan : Plan) × (result ≡ some (n, done))
      × Tree n root plan
      × Ranged m root va pa count n done

  map_from-stop :
      (fuel end va pa : ℕ) (m : Machine)
      → ltb va end ≡ false
      → map_from (suc fuel) root end va pa flags m ≡ some (m, true)
  unfolding map_from
  map_from-stop fuel end va pa m stop = rw stop refl

  map_from-fails :
      (fuel end va pa : ℕ) (m n : Machine)
      → ltb va end ≡ true
      → map_page root va pa flags m ≡ some (n, false)
      → map_from (suc fuel) root end va pa flags m ≡ some (n, false)
  unfolding map_from
  map_from-fails fuel end va pa m n go maps = rw (go, maps) refl

  map_from-goes :
      (fuel end va pa : ℕ) (m n : Machine)
      → ltb va end ≡ true
      → map_page root va pa flags m ≡ some (n, true)
      → map_from (suc fuel) root end va pa flags m
        ≡ map_from fuel root end (u64 (va + page_size)) (u64 (pa + page_size)) flags n
  unfolding map_from
  map_from-goes fuel end va pa m n go maps = rw (go, maps) refl

  -- The first page, and the pages behind it.
  Ranged-cons :
      (m n o : Machine) (va pa count : ℕ) (done : Bool) (plan : Plan)
      → va % 4096 ≡ 0
      → va + suc count * 4096 ≤ 2 ^ 39
      → Mapped m root va pa flags n true plan
      → Ranged n root (va + 4096) (pa + 4096) count o done
      → Ranged m root va pa (suc count) o done
  Ranged-cons m n o va pa count done plan aligned fits first rest = record {
    inside = λ va' ok low high. elim (Bool-cases (ltb va' (va + 4096))) [
      | inl here ↦
          let at = rest.outside va' (omega (arith, high, fits)) (inl (ground arith)) in
          let page = first.mapped va' refl (ground (arith, aligned)) in
          at ∙ page ∙ rw (page_offset_lem va') (ground (arith, aligned))
      | inr behind ↦ rest.inside va' ok (ground arith) (omega (arith, high)) ∙ ground arith
    ];
    either = λ va' small. elim (rest.either va' small) [
      | inl same ↦ elim (Bool-cases (va' / 4096 == va / 4096)) [
        | inl here ↦
            let page = first.mapped va' refl (ground arith) in
            inr (
              ground (arith, aligned),
              same ∙ page ∙ rw (page_offset_lem va') (ground (arith, aligned)),
            )
        | inr away ↦ inl (same ∙ first.other va' small (ground arith))
      ]
      | inr mapped ↦
          let (behind, e) = mapped in inr (omega (arith, behind), e ∙ omega (arith, behind))
    ];
    outside = λ va' small away.
        rest.outside va' small (ground arith)
        ∙ first.other va' small (λ e. ground (arith, e, aligned));
  }

  map_from-Ranges :
      (count fuel va pa : ℕ) (m : Machine) (plan : Plan)
      → Tree m root plan
      → count < fuel
      → va % 4096 ≡ 0
      → pa % 4096 ≡ 0
      → va + count * 4096 ≤ 2 ^ 39
      → pa + count * 4096 ≤ 2 ^ 56
      → Ranges m va pa count (map_from fuel root (va + count * 4096) va pa flags m)
  map_from-Ranges count zero va pa m plan tree enough va_al pa_al va_fits pa_fits =
      absurd (omega (arith, enough))
  map_from-Ranges zero (suc fuel) va pa m plan tree enough va_al pa_al va_fits pa_fits =
      let stop : ltb va (va + zero * 4096) ≡ false = ground arith in
      (
        m,
        true,
        plan,
        map_from-stop fuel (va + zero * 4096) va pa m stop,
        tree,
        record {
          inside = λ va' ok low high. absurd (omega (arith, low, high));
          either = λ va' small. inl refl;
          outside = λ va' small away. refl;
        },
      )
  map_from-Ranges (suc count) (suc fuel) va pa m plan tree enough va_al pa_al va_fits pa_fits =
      let end : ℕ = va + suc count * 4096 in
      let go : ltb va end ≡ true = ground arith in
      let (n, done, plan', maps, first) =
        map_page-Maps pa flags (omega (arith, pa_fits)) flags_fit leaf tree va
          (omega (arith, va_fits)) in
      elim (Bool-cases done) [
        | inl ok ↦
            let (o, all, plan'', runs, tree', rest) =
              map_from-Ranges count fuel (va + 4096) (pa + 4096) n plan' first.tree
                (omega (arith, enough)) (omega (arith, va_al)) (omega (arith, pa_al))
                (omega (arith, va_fits)) (omega (arith, pa_fits)) in
            let maps' : map_page root va pa flags m ≡ some (n, true) =
              maps ∙ ap (λ (b : Bool). some (n, b)) ok in
            let first' : Mapped m root va pa flags n true plan' = rw ok at first in
            let next_va : u64 (va + page_size) ≡ va + 4096 = omega (arith, va_fits) in
            let next_pa : u64 (pa + page_size) ≡ pa + 4096 = omega (arith, pa_fits) in
            let same_end : va + suc count * 4096 ≡ va + 4096 + count * 4096 = omega arith in
            (
              o,
              all,
              plan'',
              map_from-goes fuel end va pa m n go maps' ∙ rw (next_va, next_pa, same_end) runs,
              tree',
              Ranged-cons m n o va pa count all plan' va_al va_fits first' rest,
            )
        | inr fails ↦
            let maps' : map_page root va pa flags m ≡ some (n, false) =
              maps ∙ ap (λ (b : Bool). some (n, b)) fails in
            let first' : Mapped m root va pa flags n false plan' = rw fails at first in
            (
              n,
              false,
              plan',
              map_from-fails fuel end va pa m n go maps',
              first'.tree,
              record {
                inside = λ va' ok low high. absurd (ground arith);
                either = λ va' small. inl (first'.unchanged va' small refl);
                outside = λ va' small away. first'.unchanged va' small refl;
              },
            )
      ]

  -- For a tree of page tables, a range of addresses of 39 bits, physical addresses of 56 bits and
  -- flags of ten bits with one of R, W and X, the first addresses aligned: `map_range` returns within
  -- its fuel, and leaves a tree of tables. If it answers true, every address of the pages of the
  -- range is translated to the physical address at the same distance from the first; the
  -- translations outside these pages are as before, whatever it answers.
  pub map_range-Ranged :
      (va pa size : ℕ) (m : Machine) (plan : Plan)
      → Tree m root plan
      → va % 4096 ≡ 0
      → pa % 4096 ≡ 0
      → va + size ≤ 2 ^ 39
      → pa + size + 4095 ≤ 2 ^ 56
      → (n : Machine) × (done : Bool) × (plan' : Plan) × (map_range root va pa size flags m
          ≡ some (n, done))
        × Tree n root plan'
        × Ranged m root va pa ((size + 4095) / 4096) n done
  unfolding map_range
  map_range-Ranged va pa size m plan tree va_al pa_al va_fits pa_fits =
      elim (Bool-cases (size == 0)) [
        | inl empty ↦
            let e : size ≡ 0 = ground arith in
            (
              m,
              true,
              plan,
              rw empty refl,
              tree,
              record {
                inside = λ va' ok low high. absurd (omega (arith, low, high, e));
                either = λ va' small. inl refl;
                outside = λ va' small away. refl;
              },
            )
        | inr some_bytes ↦
            let aligned : (not (is_page_aligned va) || not (is_page_aligned pa)) ≡ false =
              rw (is_page_aligned_lem va, is_page_aligned_lem pa) (ground (arith, va_al, pa_al)) in
            let end : align_up (u64 (va + size)) ≡ va + (size + 4095) / 4096 * 4096 =
              align_up_lem (u64 (va + size)) ∙ omega (arith, va_al, va_fits) in
            let run =
              map_from-Ranges ((size + 4095) / 4096) map_fuel va pa m plan tree
                (omega (arith, va_fits)) va_al pa_al (omega (arith, va_al, va_fits))
                (omega (arith, pa_fits)) in
            rw (some_bytes, aligned, end) run
      ]
