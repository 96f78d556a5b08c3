-- ===== src/Arch/PageTable/Leaf.antt =====
-- The walk to the table of level 0 that holds the entry of an address, and what a write to that
-- entry does to the translations.
use qemu_risc_core.Prelude.{
  ℕ, zero, suc, ◌/◌, ◌<◌, ◌≡◌, refl, sym, ap, ◌∙◌, ◌≢◌, true, false, arith, Bool-cases, inl, inr,
  some,
}
use qemu_risc_core.Arch.Sv39.{vpn_index, pte_to_pa, pte_valid, pte_leaf}
use qemu_risc_core.Arch.PageTable.{Machine, entry_addr, store, translate_from, find_leaf_table}
use qemu_risc_core.Arch.PageTable.Tree.{region, region_zero, region-split, vpn_index-lt, Plan, Tree}
use qemu_risc_core.Arch.PageTable.Frame.{store_other}

-- Addresses of one page have the same indices.
pub region_page : (va va' level : ℕ) → va' / 4096 ≡ va / 4096 → region va' level ≡ region va level
region_page va va' zero same = omega (arith, region_zero va, region_zero va', same)
region_page va va' (suc level) same = omega (
  arith,
  region_page va va' level same,
  region-split va level,
  region-split va' level,
  vpn_index-lt va level,
  vpn_index-lt va' level,
)

pub vpn_index_page :
    (va va' level : ℕ) → va' / 4096 ≡ va / 4096 → vpn_index va' level ≡ vpn_index va level
vpn_index_page va va' level same = omega (
  arith,
  region_page va va' level same,
  region_page va va' (suc level) same,
  region-split va level,
  region-split va' level,
)

pub find_leaf_table_page :
    (level u va va' : ℕ) (mem : ℕ → ℕ)
    → va' / 4096 ≡ va / 4096
    → find_leaf_table level u va' mem ≡ find_leaf_table level u va mem
unfolding find_leaf_table
find_leaf_table_page zero u va va' mem same = refl
find_leaf_table_page (suc level) u va va' mem same = rw (
  vpn_index_page va va' (suc level) same,
  find_leaf_table_page level (pte_to_pa (mem (entry_addr u (vpn_index va (suc level))))) va va' mem
      same,
)

-- The entry that the walk passes is a pointer, if the walk goes on.
pub found_step :
    (level u va t : ℕ) (mem : ℕ → ℕ)
    → find_leaf_table (suc level) u va mem ≡ some t
    → (pte_valid (mem (entry_addr u (vpn_index va (suc level)))) ≡ true)
      × (pte_leaf (mem (entry_addr u (vpn_index va (suc level)))) ≡ false)
      × (find_leaf_table level (pte_to_pa (mem (entry_addr u (vpn_index va (suc level))))) va mem
          ≡ some t)
unfolding find_leaf_table
found_step level u va t mem found = ground arith

-- The translation goes by the table that the walk finds.
pub translate_from_found :
    (level u va t : ℕ) (mem : ℕ → ℕ)
    → find_leaf_table level u va mem ≡ some t
    → translate_from (suc level) u va mem ≡ translate_from 1 t va mem
unfolding translate_from find_leaf_table
translate_from_found zero u va t mem found = let e : u ≡ t = ground arith in rw e
translate_from_found (suc level) u va t mem found =
    let (valid, table, on) = found_step level u va t mem found in
    rw (
      valid,
      table,
      translate_from_found level (pte_to_pa (mem (entry_addr u (vpn_index va (suc level))))) va t
          mem on,
    )

-- The table that the walk finds is one of the tree, and responsible for the address.
pub found-Tree :
    {m : Machine} {root : ℕ} {plan : Plan} (tree : Tree m root plan) (level u va t : ℕ)
    → find_leaf_table level u va m.mem ≡ some t
    → plan.rank u ≡ suc level
    → plan.part u ≡ region va (suc level)
    → (plan.rank t ≡ 1) × (plan.part t ≡ region va 1)
unfolding find_leaf_table
found-Tree {plan} tree zero u va t found rank part =
    let e : u ≡ t = ground arith in (sym (ap plan.rank e) ∙ rank, sym (ap plan.part e) ∙ part)
found-Tree {m} tree (suc level) u va t found rank part =
    let (valid, table, on) = found_step level u va t m.mem found in
    let (child_rank, child_part) =
      tree.children u level (vpn_index va (suc level)) rank (vpn_index-lt va (suc level)) valid
        table in
    found-Tree tree level (pte_to_pa (m.mem (entry_addr u (vpn_index va (suc level))))) va t on
      child_rank (omega (arith, child_part, part, region-split va (suc level)))

module _ {m : Machine} {root : ℕ} {plan : Plan} (tree : Tree m root plan) (t i v : ℕ)
    (rank_t : plan.rank t ≡ 1) (i_lt : i < 512) where
  -- A write to a table of level 0 does not change the walk.
  pub find_leaf_table-store :
      (level u va w : ℕ)
      → find_leaf_table level u va m.mem ≡ some w
      → plan.rank u ≡ suc level
      → plan.part u ≡ region va (suc level)
      → find_leaf_table level u va (store m.mem (entry_addr t i) v) ≡ some w
  unfolding find_leaf_table
  find_leaf_table-store zero u va w found rank part = found
  find_leaf_table-store (suc level) u va w found rank part =
      let (valid, table, on) = found_step level u va w m.mem found in
      let (child_rank, child_part) =
        tree.children u level (vpn_index va (suc level)) rank (vpn_index-lt va (suc level)) valid
          table in
      let same =
        store_other tree t i v (omega (arith, rank_t)) i_lt u (vpn_index va (suc level))
          (omega (arith, rank)) (vpn_index-lt va (suc level))
          (λ tu. absurd (omega (arith, rank_t, rank, ap plan.rank tu))) in
      let rest =
        find_leaf_table-store level (pte_to_pa (m.mem (entry_addr u (vpn_index va (suc level))))) va
          w on child_rank (omega (arith, child_part, part, region-split va (suc level))) in
      rw (same, valid, table, rest)

  -- The tree is as before.
  pub store-Tree : Tree (record m { mem = store m.mem (entry_addr t i) v }) root plan
  store-Tree = record {
    valid = tree.valid;
    root_rank = tree.root_rank;
    root_part = tree.root_part;
    owned = tree.owned;
    ne_null = tree.ne_null;
    base = tree.base;
    top = tree.top;
    small = λ u r j rank j_lt.
        let same =
          store_other tree t i v (omega (arith, rank_t)) i_lt u j (omega (arith, rank)) j_lt
            (λ tu. absurd (omega (arith, rank_t, rank, ap plan.rank tu))) in
        rw same (tree.small u r j rank j_lt);
    children = λ u r j rank j_lt.
        let same =
          store_other tree t i v (omega (arith, rank_t)) i_lt u j (omega (arith, rank)) j_lt
            (λ tu. absurd (omega (arith, rank_t, rank, ap plan.rank tu))) in
        rw same (tree.children u r j rank j_lt);
  }

-- One step of a walk.
pub translate_from_invalid :
    (level u va : ℕ) (mem : ℕ → ℕ)
    → pte_valid (mem (entry_addr u (vpn_index va level))) ≡ false
    → translate_from (suc level) u va mem ≡ 0
unfolding translate_from
translate_from_invalid level u va mem invalid = rw invalid refl

pub translate_from_pointer :
    (level u va : ℕ) (mem : ℕ → ℕ)
    → pte_valid (mem (entry_addr u (vpn_index va level))) ≡ true
    → pte_leaf (mem (entry_addr u (vpn_index va level))) ≡ false
    → translate_from (suc level) u va mem
      ≡ translate_from level (pte_to_pa (mem (entry_addr u (vpn_index va level)))) va mem
unfolding translate_from
translate_from_pointer level u va mem valid table = rw (valid, table) refl

pub find_leaf_table_zero : (u va : ℕ) (mem : ℕ → ℕ) → find_leaf_table 0 u va mem ≡ some u
unfolding find_leaf_table
find_leaf_table_zero u va mem = refl

pub find_leaf_table_pointer :
    (level u va : ℕ) (mem : ℕ → ℕ)
    → pte_valid (mem (entry_addr u (vpn_index va (suc level)))) ≡ true
    → pte_leaf (mem (entry_addr u (vpn_index va (suc level)))) ≡ false
    → find_leaf_table (suc level) u va mem
      ≡ find_leaf_table level (pte_to_pa (mem (entry_addr u (vpn_index va (suc level))))) va mem
unfolding find_leaf_table
find_leaf_table_pointer level u va mem valid table = rw (valid, table) refl

-- An address that is translated has a leaf in a table of level 0.
pub translated_found :
    {m : Machine} {root : ℕ} {plan : Plan} (tree : Tree m root plan) (level u va : ℕ)
    → plan.rank u ≡ suc level
    → plan.part u ≡ region va (suc level)
    → translate_from (suc level) u va m.mem ≢ 0
    → (t : ℕ) × (find_leaf_table level u va m.mem ≡ some t) × (translate_from 1 t va m.mem ≢ 0)
translated_found {m} tree zero u va rank part mapped = (u, find_leaf_table_zero u va m.mem, mapped)
translated_found {m} tree (suc level) u va rank part mapped =
    let index : ℕ = vpn_index va (suc level) in
    let pte : ℕ = m.mem (entry_addr u index) in
    elim (Bool-cases (pte_valid pte)) [
      | inr invalid ↦ absurd (mapped (translate_from_invalid (suc level) u va m.mem invalid))
      | inl valid ↦
          let table = tree.small u level index rank (vpn_index-lt va (suc level)) valid in
          let (child_rank, child_part) =
            tree.children u level index rank (vpn_index-lt va (suc level)) valid table in
          let (t, found, leaf) =
            translated_found tree level (pte_to_pa pte) va child_rank
              (omega (arith, child_part, part, region-split va (suc level)))
              (λ null. mapped (translate_from_pointer (suc level) u va m.mem valid table ∙ null)) in
          (t, find_leaf_table_pointer level u va m.mem valid table ∙ found, leaf)
    ]

pub translated_leaf :
    (t va : ℕ) (mem : ℕ → ℕ)
    → translate_from 1 t va mem ≢ 0
    → (pte_valid (mem (entry_addr t (vpn_index va 0))) ≡ true)
      × (pte_leaf (mem (entry_addr t (vpn_index va 0))) ≡ true)
unfolding translate_from
translated_leaf t va mem mapped = ground arith
