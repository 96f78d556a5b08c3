-- ===== src/Arch/PageTable/Empty.antt =====
-- `alloc_page_table` for a root: the address space in which nothing is translated.
use qemu_risc_core.Prelude.{
  ℕ, suc, ◌+◌, ◌*◌, ◌^◌, ◌<◌, ◌≡◌, refl, ap, ◌∙◌, true, false, arith, ◌==◌, if◌then◌else◌,
  Bool-cases, inl, inr, ◌⊎◌, some,
}
use qemu_risc_core.Mm.Pmm.{Pmm}
use qemu_risc_core.Mm.Pmm.State
use qemu_risc_core.Mm.Pmm.State.{used}
use qemu_risc_core.Mm.Pmm.Alloc.{Allocates, exhausted, page, alloc_page-Allocates}
use qemu_risc_core.Mm.Pmm.Safety.{Allocates-IsValid}
use qemu_risc_core.Arch.Sv39.{vpn_index, pte_valid}
use qemu_risc_core.Arch.Sv39.Encoding.{pte_valid_lem}
use qemu_risc_core.Arch.PageTable.{Machine, entry_addr, zero_page, alloc_page_table, virt_to_phys}
use qemu_risc_core.Arch.PageTable.Tree.{Plan, Tree, vpn_index-lt}
use qemu_risc_core.Arch.PageTable.Fresh.{zero_page_inside, Allocates-same, Allocates-new}
use qemu_risc_core.Arch.PageTable.Leaf.{translate_from_invalid}
use qemu_risc_core.Arch.PageTable.Write.{virt_to_phys_root}
use qemu_risc_core.Arch.PageTable.Ensure.{Full}

-- The root is the one table.
abbrev pub root_plan : ℕ → Plan
root_plan root = record { rank = λ (x : ℕ). if x == root then 3 else 0; part = λ (x : ℕ). 0 }

abbrev pub Rootable : Machine → Type 0
Rootable m =
    State.IsValid m.pmm
    × (0 < m.pmm.managed_base)
    × (m.pmm.managed_base + m.pmm.total_pages * 4096 < 2 ^ 56)

module _ (m : Machine) (ok : Rootable m) (q : Pmm) (a : ℕ) (alloc : Allocates m.pmm q a)
    (ne : (a == 0) ≡ false) where
  abbrev pub rooted : Machine
  rooted = record { pmm = q; mem = zero_page a m.mem }

  root_invalid : (i : ℕ) → i < 512 → pte_valid (zero_page a m.mem (entry_addr a i)) ≡ false
  root_invalid i lt = rw (zero_page_inside a m.mem i lt) (pte_valid_lem 0)

  is_root : (t r : ℕ) → (root_plan a).rank t ≡ suc r → t ≡ a
  is_root t r rank = ground arith

  root_entry :
      (t r i : ℕ)
      → (root_plan a).rank t ≡ suc r
      → i < 512
      → pte_valid (rooted.mem (entry_addr t i)) ≡ false
  root_entry t r i rank lt =
      ap (λ (x : ℕ). pte_valid (rooted.mem (entry_addr x i))) (is_root t r rank) ∙ root_invalid i lt

  pub rooted-Tree : Tree rooted a (root_plan a)
  rooted-Tree =
      let (valid, base, top) = ok in
      let (same_base, same_total) = Allocates-same alloc in
      let here : (a == a) ≡ true = ground arith in
      record {
        valid = Allocates-IsValid valid alloc;
        root_rank = rw here refl;
        root_part = refl;
        owned = λ t is. elim (Bool-cases (t == a)) [
          | inl at ↦ let e : t ≡ a = ground arith in rw e (Allocates-new alloc ne).1
          | inr away ↦ absurd (ground arith)
        ];
        ne_null = ground arith;
        base = omega (arith, same_base, base);
        top = omega (arith, same_base, same_total, top);
        small = λ t r i rank lt valid.
            let none = root_entry t (suc r) i rank lt in absurd (ground arith);
        children = λ t r i rank lt valid table.
            let none = root_entry t (suc r) i rank lt in absurd (ground arith);
      }

  rooted_nowhere : (va : ℕ) → virt_to_phys a va rooted ≡ 0
  rooted_nowhere va =
      virt_to_phys_root rooted-Tree va rooted
      ∙ translate_from_invalid 2 a va rooted.mem (root_invalid (vpn_index va 2) (vpn_index-lt va 2))

null_Full :
    (m : Machine)
    → Rootable m
    → (q : Pmm) (a : ℕ) → Allocates m.pmm q a
    → (a == 0) ≡ true
    → Full (record m { pmm = q })
null_Full m ok q a (exhausted all same null) e = rw same all
null_Full m ok q a (page j lt clear all w count at) e = let base = ok.1 in absurd (ground arith)

-- With a free page the address is not null.
pub clear_not_null :
    (m : Machine)
    → Rootable m
    → (q : Pmm) (a : ℕ) → Allocates m.pmm q a
    → (i : ℕ) → i < m.pmm.total_pages
    → used m.pmm i ≡ 0
    → (a == 0) ≡ false
clear_not_null m ok q a (exhausted all same null) i lt clear =
    absurd (omega (arith, all i lt, clear))
clear_not_null m ok q a (page j lt' clear' all w count at) i lt clear =
    let base = ok.1 in ground arith

-- For a valid allocator over a range that is not at address 0 and ends below 2 ^ 56,
-- `alloc_page_table` returns: a null pointer, and then no page is free, or the root of a tree of
-- tables in which no address is translated.
pub alloc_page_table-Tree :
    (m : Machine)
    → Rootable m
    → (n : Machine) × (root : ℕ) × (alloc_page_table m ≡ some (n, root))
      × (((root ≡ 0) × Full n)
          ⊎ (Tree n root (root_plan root) × ((va : ℕ) → virt_to_phys root va n ≡ 0)))
unfolding alloc_page_table
alloc_page_table-Tree m ok =
    let (q, a, got, alloc) = alloc_page-Allocates m.pmm ok.0 in
    elim (Bool-cases (a == 0)) [
      | inr ne ↦ (
        rooted m ok q a alloc ne,
        a,
        rw (got, ne) refl,
        inr (rooted-Tree m ok q a alloc ne, rooted_nowhere m ok q a alloc ne),
      )
      | inl null ↦
          (record m { pmm = q }, 0, rw (got, null) refl, inl (refl, null_Full m ok q a alloc null))
    ]

-- With a free page there is a root, and no address is translated from it.
pub alloc_page_table-rooted :
    (m : Machine) (i : ℕ)
    → Rootable m
    → i < m.pmm.total_pages
    → used m.pmm i ≡ 0
    → (n : Machine) × (root : ℕ) × (alloc_page_table m ≡ some (n, root))
      × ((root == 0) ≡ false)
      × Tree n root (root_plan root)
      × ((va : ℕ) → virt_to_phys root va n ≡ 0)
unfolding alloc_page_table
alloc_page_table-rooted m i ok lt clear =
    let (q, a, got, alloc) = alloc_page-Allocates m.pmm ok.0 in
    let ne = clear_not_null m ok q a alloc i lt clear in
    (
      rooted m ok q a alloc ne,
      a,
      rw (got, ne) refl,
      ne,
      rooted-Tree m ok q a alloc ne,
      rooted_nowhere m ok q a alloc ne,
    )
