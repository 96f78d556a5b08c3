-- ===== src/Arch/PageTable/Fresh.antt =====
-- A new page table: a page that was in no table, with every entry 0.
use qemu_risc_core.Prelude.{
  ℕ, zero, suc, ◌+◌, ◌≤◌, ◌<◌, ◌≡◌, refl, ap, ◌∙◌, ◌≢◌, false, arith, ◌==◌, Bool-cases, inl, inr,
  ◌⊎◌,
}
use qemu_risc_core.Mm.Pmm.{Pmm}
use qemu_risc_core.Mm.Pmm.State
use qemu_risc_core.Mm.Pmm.State.{used}
use qemu_risc_core.Mm.Pmm.Alloc.{Allocates, exhausted, page}
use qemu_risc_core.Arch.PageTable.{entry_addr, store, zero_from, zero_page}
use qemu_risc_core.Arch.PageTable.Tree.{Owned}

zero_from_outside :
    (rounds i t : ℕ) (mem : ℕ → ℕ) (a : ℕ)
    → ((k : ℕ) → k < i + rounds → a ≢ entry_addr t k)
    → zero_from rounds i t mem a ≡ mem a
unfolding zero_from
zero_from_outside zero i t mem a out = refl
zero_from_outside (suc rounds) i t mem a out =
    zero_from_outside rounds (i + 1) t (store mem (entry_addr t i) 0) a
      (λ k lt. out k (omega arith))
    ∙ ground (arith, out i)

zero_from_inside :
    (rounds i t : ℕ) (mem : ℕ → ℕ) (k : ℕ)
    → k < i + rounds
    → (i ≤ k) ⊎ (mem (entry_addr t k) ≡ 0)
    → zero_from rounds i t mem (entry_addr t k) ≡ 0
unfolding zero_from
zero_from_inside zero i t mem k lt known = ground arith
zero_from_inside (suc rounds) i t mem k lt known =
    zero_from_inside rounds (i + 1) t (store mem (entry_addr t i) 0) k (omega arith)
      (elim (Bool-cases (k == i)) [
        | inl at ↦ inr (ground arith)
        | inr away ↦ elim known [ inl le ↦ inl (ground arith) | inr zeroed ↦ inr (ground arith) ]
      ])

-- What `zero_page` leaves in the entries of its page, and elsewhere.
pub zero_page_inside :
    (t : ℕ) (mem : ℕ → ℕ) (k : ℕ) → k < 512 → zero_page t mem (entry_addr t k) ≡ 0
unfolding zero_page
zero_page_inside t mem k lt = zero_from_inside 512 0 t mem k (omega arith) (inl (omega arith))

pub zero_page_outside :
    (t : ℕ) (mem : ℕ → ℕ) (a : ℕ)
    → ((k : ℕ) → k < 512 → a ≢ entry_addr t k)
    → zero_page t mem a ≡ mem a
unfolding zero_page
zero_page_outside t mem a out = zero_from_outside 512 0 t mem a (λ k lt. out k (omega arith))

-- What a call of `alloc_page` does to the pages that are owned, and where its page comes from.
pub Allocates-Owned :
    {p q : Pmm} {a t : ℕ} → State.IsValid p → Allocates p q a → Owned p t → Owned q t
Allocates-Owned v (exhausted all same null) (i, lt, at, marked) = rw same (i, lt, at, marked)
Allocates-Owned v (page j j_lt clear all w count addr) (i, lt, at, marked) =
    (i, omega (arith, w.same_total), omega (arith, at, w.same_base), ground (arith, w.changes i))

pub Allocates-same :
    {p q : Pmm} {a : ℕ}
    → Allocates p q a
    → (q.managed_base ≡ p.managed_base) × (q.total_pages ≡ p.total_pages)
Allocates-same (exhausted all same null) =
    (ap (λ (r : Pmm). r.managed_base) same, ap (λ (r : Pmm). r.total_pages) same)
Allocates-same (page j j_lt clear all w count addr) = (w.same_base, w.same_total)

pub Allocates-new :
    {p q : Pmm} {a : ℕ} → Allocates p q a → (a == 0) ≡ false → (Owned p a → ⊥) × Owned q a
Allocates-new (exhausted all same null) ne = absurd (ground arith)
Allocates-new (page j j_lt clear all w count addr) ne = (
  λ (i, lt, at, marked).
      let same : i ≡ j = omega (arith, at, addr) in
      let used_j = rw same at marked in absurd (omega (arith, clear, used_j)),
  (j, omega (arith, w.same_total), omega (arith, addr, w.same_base), ground (arith, w.changes j)),
)
