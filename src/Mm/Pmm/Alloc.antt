-- ===== src/Mm/Pmm/Alloc.antt =====
-- `alloc_page` takes the first page that is not used.
use qemu_risc_core.Prelude.{
  ℕ, zero, suc, ◌+◌, ◌*◌, ◌<◌, ◌≡◌, refl, some, arith, ◌==◌, Bool-cases, inl, inr, u64,
}
use qemu_risc_core.Mm.Page.{page_size}
use qemu_risc_core.Mm.Pmm.{Pmm, alloc_from, alloc_page}
use qemu_risc_core.Mm.Pmm.State.{used, used-lt-two, used_index-used, IsValid, Writes}
use qemu_risc_core.Mm.Pmm.Mark.{mark_used_index-Writes, Writes-free_pages}

-- The address of page `i`.
abbrev pub page_addr : Pmm → ℕ → ℕ
page_addr p i = p.managed_base + i * 4096

-- The first `n` pages are used.
abbrev pub AllUsed : Pmm → ℕ → Type 0
AllUsed p n = (j : ℕ) → j < n → used p j ≡ 1

-- Every page is used, and a null pointer comes back; or the first page not used comes back, and is
-- used from then on, with one free page less.
pub data Allocates (p q : Pmm) (r : ℕ) : Type 0 where
  exhausted : AllUsed p p.total_pages → q ≡ p → r ≡ 0 → Allocates p q r
  page :
      (i : ℕ)
      → i < p.total_pages
      → used p i ≡ 0
      → AllUsed p i
      → Writes p i 1 q
      → p.free_pages ≡ q.free_pages + 1
      → r ≡ page_addr p i
      → Allocates p q r

module _ (p : Pmm) (v : IsValid p) where
  alloc_from-Allocates :
      (rounds i : ℕ)
      → i + rounds ≡ p.total_pages
      → AllUsed p i
      → (q : Pmm) × (r : ℕ) × (alloc_from rounds i p ≡ some (q, r)) × Allocates p q r
  unfolding alloc_from
  alloc_from-Allocates zero i e all =
      (p, 0, refl, exhausted (λ j lt. all j (omega arith)) refl refl)
  alloc_from-Allocates (suc rounds) i e all =
      let total = v.total in
      rw (used_index-used p v i (omega arith)) (elim (Bool-cases (used p i == 1)) [
        | inl taken ↦ rw taken (
            alloc_from-Allocates rounds (i + 1) (omega arith) (λ j lt. elim (Bool-cases (j == i)) [
              | inl at ↦ let e' : j ≡ i = ground arith in rw e' (ground arith)
              | inr below ↦ all j (ground arith)
            ]))
        | inr clear ↦
            let (q, runs, w) = mark_used_index-Writes p v i (omega arith) in
            let was : used p i ≡ 0 = ground (arith, used-lt-two p i) in
            let addr : u64 (p.managed_base + u64 (i * page_size)) ≡ page_addr p i =
              omega (arith, v.range) in
            (
              q,
              page_addr p i,
              rw (clear, runs, w.same_base, addr),
              page i (omega arith) was all w ((Writes-free_pages p q i v (omega arith)).0 w was)
                  refl,
            )
      ])

  pub alloc_page-Allocates : (q : Pmm) × (r : ℕ) × (alloc_page p ≡ some (q, r)) × Allocates p q r
  unfolding alloc_page
  alloc_page-Allocates =
      alloc_from-Allocates p.total_pages 0 (omega arith) (λ j lt. absurd (omega arith))
