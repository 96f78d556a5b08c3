-- ===== src/Arch/PageTable/Tree.antt =====
-- The trees of page tables: which pages are tables, and which part of the address space each one
-- is responsible for.
use mathlib.Core.Path.{◌∙◌}
use native.Mathlib.Nat.{div-div-eq-div-mul, pow-suc}
use qemu_risc_core.Prelude.{
  ℕ, suc, ◌+◌, ◌*◌, ◌/◌, ◌%◌, ◌^◌, ◌<◌, ◌≡◌, refl, sym, ap, true, false, arith,
}
use qemu_risc_core.Mm.Pmm.{Pmm}
use qemu_risc_core.Mm.Pmm.State
use qemu_risc_core.Mm.Pmm.State.{used}
use qemu_risc_core.Mm.Pmm.Alloc.{page_addr}
use qemu_risc_core.Arch.Sv39.{vpn_index, pte_to_pa, pte_valid, pte_leaf}
use qemu_risc_core.Arch.Sv39.Encoding.{vpn_index_lem}
use qemu_risc_core.Arch.PageTable.{Machine, entry_addr}

-- The number of the part of size 2 ^ (12 + 9 * level) in which `va` lies.
pub region : ℕ → ℕ → ℕ
region va level = va / 2 ^ (12 + 9 * level)

pub region_zero : (va : ℕ) → region va 0 ≡ va / 4096
unfolding region
region_zero va = refl

pub region_root : (va : ℕ) → va < 2 ^ 39 → region va 3 ≡ 0
unfolding region
region_root va fits = omega (arith, fits)

two-pow-nine : (k : ℕ) → 2 ^ suc (suc (suc (suc (suc (suc (suc (suc (suc k)))))))) ≡ 2 ^ k * 512
two-pow-nine k = omega (
  arith,
  pow-suc 2 k,
  pow-suc 2 (suc k),
  pow-suc 2 (suc (suc k)),
  pow-suc 2 (suc (suc (suc k))),
  pow-suc 2 (suc (suc (suc (suc k)))),
  pow-suc 2 (suc (suc (suc (suc (suc k))))),
  pow-suc 2 (suc (suc (suc (suc (suc (suc k)))))),
  pow-suc 2 (suc (suc (suc (suc (suc (suc (suc k))))))),
  pow-suc 2 (suc (suc (suc (suc (suc (suc (suc (suc k)))))))),
)

-- A part is cut into 512 parts of the level below, by the index of that level.
pub region-split :
    (va level : ℕ) → region va level ≡ region va (suc level) * 512 + vpn_index va level
unfolding region
region-split va level =
    let k : ℕ = 12 + 9 * level in
    let nine : 12 + 9 * suc level ≡ suc (suc (suc (suc (suc (suc (suc (suc (suc k)))))))) =
      omega arith in
    let wider : 2 ^ (12 + 9 * suc level) ≡ 2 ^ k * 512 =
      ap (λ (e : ℕ). 2 ^ e) nine ∙ two-pow-nine k in
    let quot : va / 2 ^ (12 + 9 * suc level) ≡ va / 2 ^ k / 512 =
      ap (λ (d : ℕ). va / d) wider ∙ sym (div-div-eq-div-mul va (2 ^ k) 512) in
    omega (arith, quot, vpn_index_lem va level)

pub vpn_index-lt : (va level : ℕ) → vpn_index va level < 512
vpn_index-lt va level = omega (arith, vpn_index_lem va level)

-- `rank t` is 0 if `t` is no table, and otherwise one more than its level; `part t` is the number
-- of the part of the address space that the table `t` translates.
pub record Plan : Type 0 where
  pub rank : ℕ → ℕ
  pub part : ℕ → ℕ

-- The page at `t` is managed and used.
abbrev pub Owned : Pmm → ℕ → Type 0
Owned p t = (i : ℕ) × (i < p.total_pages) × (t ≡ page_addr p i) × (used p i ≡ 1)

-- The plan is that of the tables below `root`: the tables are used pages of the allocator, the
-- entries above the last level are pointers to tables of the level below, and each table
-- translates its part of the part of the table above.
pub record Tree (m : Machine) (root : ℕ) (plan : Plan) : Type 0 where
  pub valid : State.IsValid m.pmm
  pub root_rank : plan.rank root ≡ 3
  pub root_part : plan.part root ≡ 0
  pub owned : (t : ℕ) → 0 < plan.rank t → Owned m.pmm t
  pub ne_null : plan.rank 0 ≡ 0
  pub base : 0 < m.pmm.managed_base
  pub top : m.pmm.managed_base + m.pmm.total_pages * 4096 < 2 ^ 56
  pub small :
      (t r i : ℕ)
      → plan.rank t ≡ suc (suc r)
      → i < 512
      → pte_valid (m.mem (entry_addr t i)) ≡ true
      → pte_leaf (m.mem (entry_addr t i)) ≡ false
  pub children :
      (t r i : ℕ)
      → plan.rank t ≡ suc (suc r)
      → i < 512
      → pte_valid (m.mem (entry_addr t i)) ≡ true
      → pte_leaf (m.mem (entry_addr t i)) ≡ false
      → (plan.rank (pte_to_pa (m.mem (entry_addr t i))) ≡ suc r)
        × (plan.part (pte_to_pa (m.mem (entry_addr t i))) ≡ plan.part t * 512 + i)

pub table_aligned :
    {m : Machine} {root : ℕ} {plan : Plan}
    → Tree m root plan
    → (t : ℕ) → 0 < plan.rank t
    → (t % 4096 ≡ 0) × (t < 2 ^ 56)
table_aligned tree t is =
    let (i, lt, at, marked) = tree.owned t is in omega (arith, tree.valid.aligned, tree.top)

-- Entries of tables lie at one address only if they are the same entry.
pub entry_addr_injective :
    (t u i j : ℕ)
    → t % 4096 ≡ 0
    → u % 4096 ≡ 0
    → i < 512
    → j < 512
    → entry_addr t i ≡ entry_addr u j
    → (t ≡ u) × (i ≡ j)
entry_addr_injective t u i j a b lt lt' e = omega arith
