-- ===== src/Arch/PageTable/Write.antt =====
-- A write to the entry that the walk for an address comes to: the page of the address is
-- translated by the new value, and every other page as before.
use qemu_risc_core.Prelude.{
  ℕ, ◌/◌, ◌^◌, ◌<◌, ◌≡◌, refl, sym, ap, ◌∙◌, ◌≢◌, false, arith, ◌==◌, Bool-cases, inl, inr, some,
}
use qemu_risc_core.Arch.Sv39.{vpn_index}
use qemu_risc_core.Arch.PageTable.{
  Machine, entry_addr, store, translate_from, virt_to_phys, find_leaf_table,
}
use qemu_risc_core.Arch.PageTable.Tree.{
  region, region_zero, region_root, region-split, vpn_index-lt, Plan, Tree,
}
use qemu_risc_core.Arch.PageTable.Frame.{translate_from_frame}
use qemu_risc_core.Arch.PageTable.Leaf.{
  find_leaf_table_page, translate_from_found, found-Tree, find_leaf_table-store, store-Tree,
}

pub store_at : (mem : ℕ → ℕ) (a v : ℕ) → store mem a v a ≡ v
store_at mem a v = ground arith

module _ {m : Machine} {root : ℕ} {plan : Plan} (tree : Tree m root plan) where
  pub root_ne_null : (root == 0) ≡ false
  root_ne_null = elim (Bool-cases (root == 0)) [
    | inl null ↦
        let e : root ≡ 0 = ground arith in
        absurd (omega (arith, tree.root_rank, tree.ne_null, ap plan.rank e))
    | inr ne ↦ ne
  ]

  pub virt_to_phys_root :
      (va : ℕ) (n : Machine) → virt_to_phys root va n ≡ translate_from 3 root va n.mem
  unfolding virt_to_phys
  virt_to_phys_root va n = rw root_ne_null refl

  module _ (va t v : ℕ) (fits : va < 2 ^ 39)
      (found : find_leaf_table 2 root va m.mem ≡ some t) where
    rank_t : plan.rank t ≡ 1
    rank_t =
        (found-Tree tree 2 root va t found tree.root_rank
          (omega (arith, tree.root_part, region_root va fits))).0

    part_t : plan.part t ≡ region va 1
    part_t =
        (found-Tree tree 2 root va t found tree.root_rank
          (omega (arith, tree.root_part, region_root va fits))).1

    abbrev written : Machine
    written = record m { mem = store m.mem (entry_addr t (vpn_index va 0)) v }

    pub written-Tree : Tree written root plan
    written-Tree = store-Tree tree t (vpn_index va 0) v rank_t (vpn_index-lt va 0)

    -- The page of the entry is translated by the new entry.
    pub written_page :
        (va' : ℕ)
        → va' / 4096 ≡ va / 4096
        → virt_to_phys root va' written ≡ translate_from 1 t va' written.mem
    written_page va' same =
        let still =
          find_leaf_table-store tree t (vpn_index va 0) v rank_t (vpn_index-lt va 0) 2 root va t
            found tree.root_rank (omega (arith, tree.root_part, region_root va fits)) in
        virt_to_phys_root va' written
        ∙ translate_from_found 2 root va' t written.mem
            (find_leaf_table_page 2 root va va' written.mem same ∙ still)

    -- The other pages are translated as before.
    pub written_other :
        (va' : ℕ)
        → va' < 2 ^ 39
        → va' / 4096 ≢ va / 4096
        → virt_to_phys root va' written ≡ virt_to_phys root va' m
    written_other va' fits' ne =
        virt_to_phys_root va' written
        ∙ translate_from_frame tree t (vpn_index va 0) v (omega (arith, rank_t)) (vpn_index-lt va 0)
            3 root va' tree.root_rank (omega (arith, tree.root_part, region_root va' fits'))
            (λ s rank at.
              let zero_s : s ≡ 0 = omega (arith, rank, rank_t) in
              ne (
                omega (
                  arith,
                  at,
                  ap (region va') zero_s,
                  region_zero va',
                  region_zero va,
                  region-split va 0,
                  part_t,
                )))
        ∙ sym (virt_to_phys_root va' m)
