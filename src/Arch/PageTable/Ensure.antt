-- ===== src/Arch/PageTable/Ensure.antt =====
-- `ensure_entry`: the entry is made valid, or no page is free.
use qemu_risc_core.Prelude.{
  ℕ, suc, ◌<◌, ◌≡◌, refl, Bool, true, false, arith, ◌==◌, Bool-cases, inl, inr, some, Option,
}
use qemu_risc_core.Mm.Pmm.{Pmm, alloc_page}
use qemu_risc_core.Mm.Pmm.Alloc.{AllUsed, Allocates, exhausted, page, alloc_page-Allocates}
use qemu_risc_core.Arch.Sv39.{make_pte, pte_valid, pte_v}
use qemu_risc_core.Arch.PageTable.{
  Machine, entry_addr, store, zero_page, alloc_page_table, ensure_entry,
}
use qemu_risc_core.Arch.PageTable.Tree.{Plan, Tree}
use qemu_risc_core.Arch.PageTable.Grow.{machine_with-Grows, plan_with, machine_with, written_valid}
use qemu_risc_core.Arch.PageTable.Growth.{Grows, Grows-refl}

-- No page is free.
abbrev pub Full : Machine → Type 0
Full m = AllUsed m.pmm m.pmm.total_pages

-- What `ensure_entry` comes to: the entry is valid, or no page is free.
abbrev pub Ensures : Machine → ℕ → Plan → ℕ → Option (Machine × Bool) → Type 0
Ensures m root plan entry result =
    (n : Machine) × (ok : Bool) × (plan' : Plan) × (result ≡ some (n, ok))
    × Grows m root plan n plan'
    × (ok ≡ true → pte_valid (n.mem entry) ≡ true)
    × (ok ≡ false → Full n)

ensure_valid :
    {m : Machine} {root : ℕ} {plan : Plan}
    → Tree m root plan
    → (entry : ℕ) → pte_valid (m.mem entry) ≡ true
    → Ensures m root plan entry (ensure_entry entry m)
unfolding ensure_entry
ensure_valid {m} {root} {plan} tree entry valid =
    (m, true, plan, rw valid refl, Grows-refl tree, λ e. valid, λ e. absurd (ground arith))

ensure_new :
    {m : Machine} {root : ℕ} {plan : Plan} (tree : Tree m root plan) (t r i : ℕ)
    → plan.rank t ≡ suc (suc r)
    → i < 512
    → pte_valid (m.mem (entry_addr t i)) ≡ false
    → (q : Pmm) (a : ℕ) → Allocates m.pmm q a
    → (a == 0) ≡ false
    → ensure_entry (entry_addr t i) m
      ≡ some (
        record { pmm = q; mem = store (zero_page a m.mem) (entry_addr t i) (make_pte a pte_v) },
        true,
      )
    → Ensures m root plan (entry_addr t i) (ensure_entry (entry_addr t i) m)
ensure_new tree t r i rank lt invalid q a alloc not_null run = (
  machine_with tree t r i rank lt invalid q a alloc not_null,
  true,
  plan_with tree t r i rank lt invalid q a alloc not_null,
  run,
  machine_with-Grows tree t r i rank lt invalid q a alloc not_null,
  λ e. written_valid tree t r i rank lt invalid q a alloc not_null,
  λ e. absurd (ground arith),
)

ensure_run :
    (m : Machine) (entry : ℕ) (q : Pmm) (a : ℕ)
    → pte_valid (m.mem entry) ≡ false
    → alloc_page m.pmm ≡ some (q, a)
    → (a == 0) ≡ false
    → ensure_entry entry m
      ≡ some (record { pmm = q; mem = store (zero_page a m.mem) entry (make_pte a pte_v) }, true)
unfolding ensure_entry alloc_page_table
ensure_run m entry q a invalid got not_null = rw (invalid, got, not_null, not_null) refl

ensure_invalid :
    {m : Machine} {root : ℕ} {plan : Plan} (tree : Tree m root plan) (t r i : ℕ)
    → plan.rank t ≡ suc (suc r)
    → i < 512
    → pte_valid (m.mem (entry_addr t i)) ≡ false
    → (q : Pmm) (a : ℕ) → alloc_page m.pmm ≡ some (q, a)
    → Allocates m.pmm q a
    → Ensures m root plan (entry_addr t i) (ensure_entry (entry_addr t i) m)
unfolding ensure_entry alloc_page_table
ensure_invalid {m} {root} {plan} tree t r i rank lt invalid q a got (exhausted all same null) =
    let a_null : (a == 0) ≡ true = ground arith in
    let grows : Grows m root plan (record m { pmm = q }) plan = rw same (Grows-refl tree) in
    let full : Full (record m { pmm = q }) = rw same all in
    (
      record m { pmm = q },
      false,
      plan,
      rw (invalid, got, a_null) refl,
      grows,
      λ e. absurd (ground arith),
      λ e. full,
    )
ensure_invalid {m} {root} {plan} tree t r i rank lt invalid q a got
      (page j j_lt clear all w count at) =
    let alloc : Allocates m.pmm q a = page j j_lt clear all w count at in
    let not_null : (a == 0) ≡ false = ground (arith, tree.base) in
    ensure_new tree t r i rank lt invalid q a alloc not_null
      (ensure_run m (entry_addr t i) q a invalid got not_null)

pub ensure_entry-Ensures :
    {m : Machine} {root : ℕ} {plan : Plan} (tree : Tree m root plan) (t r i : ℕ)
    → plan.rank t ≡ suc (suc r)
    → i < 512
    → Ensures m root plan (entry_addr t i) (ensure_entry (entry_addr t i) m)
ensure_entry-Ensures {m} tree t r i rank lt =
    let (q, a, got, alloc) = alloc_page-Allocates m.pmm tree.valid in
    elim (Bool-cases (pte_valid (m.mem (entry_addr t i)))) [
      | inl valid ↦ ensure_valid tree (entry_addr t i) valid
      | inr invalid ↦ ensure_invalid tree t r i rank lt invalid q a got alloc
    ]
