-- ===== src/Arch/PageTable/Unmap.antt =====
-- `unmap_page`: what it takes out of the address space.
use qemu_risc_core.Prelude.{
  ℕ, ◌/◌, ◌^◌, ◌<◌, ◌≡◌, refl, ◌∙◌, ◌≢◌, Bool, true, false, not, ◌||◌, arith, ◌==◌, Bool-cases, inl,
  inr, Option, none, some,
}
use qemu_risc_core.Mm.Page.{is_page_aligned}
use qemu_risc_core.Arch.Sv39.{vpn_index, pte_valid, pte_leaf}
use qemu_risc_core.Arch.Sv39.Encoding.{pte_valid_lem}
use qemu_risc_core.Arch.PageTable.{
  Machine, entry_addr, store, translate_from, virt_to_phys, find_leaf_table, unmap_page,
}
use qemu_risc_core.Arch.PageTable.Tree.{region_root, Plan, Tree}
use qemu_risc_core.Arch.PageTable.Leaf.{translated_found, translated_leaf, vpn_index_page}
use qemu_risc_core.Arch.PageTable.Write.{
  store_at, root_ne_null, virt_to_phys_root, written_page, written_other, written-Tree,
}

translate_cleared :
    (t va va' : ℕ) (mem : ℕ → ℕ)
    → va' / 4096 ≡ va / 4096
    → translate_from 1 t va' (store mem (entry_addr t (vpn_index va 0)) 0) ≡ 0
unfolding translate_from
translate_cleared t va va' mem same =
    rw
      (
        vpn_index_page va va' 0 same,
        store_at mem (entry_addr t (vpn_index va 0)) 0,
        pte_valid_lem 0,
      )
      refl

-- The machine after `unmap_page` with its answer: nothing is changed if it refuses; it accepts an
-- aligned address that is translated; the page is not translated if it accepts, and the other
-- pages are as before.
pub record Unmapped (m : Machine) (root : ℕ) (plan : Plan) (va : ℕ) (n : Machine) (done : Bool)
    : Type 0 where
  pub tree : Tree n root plan
  pub refused : done ≡ false → n ≡ m
  pub accepted : is_page_aligned va ≡ true → virt_to_phys root va m ≢ 0 → done ≡ true
  pub cleared : (va' : ℕ) → done ≡ true → va' / 4096 ≡ va / 4096 → virt_to_phys root va' n ≡ 0
  pub other :
      (va' : ℕ)
      → va' < 2 ^ 39
      → va' / 4096 ≢ va / 4096
      → virt_to_phys root va' n ≡ virt_to_phys root va' m

module _ {m : Machine} {root : ℕ} {plan : Plan} (tree : Tree m root plan) (va : ℕ)
    (fits : va < 2 ^ 39) where
  unmap_refused :
      (is_page_aligned va ≡ true → virt_to_phys root va m ≢ 0 → ⊥) → Unmapped m root plan va m false
  unmap_refused never = record {
    tree = tree;
    refused = λ e. refl;
    accepted = λ aligned mapped. absurd (never aligned mapped);
    cleared = λ va' e. absurd (ground arith);
    other = λ va' fits' ne. refl;
  }

  unmap_written :
      (t : ℕ)
      → find_leaf_table 2 root va m.mem ≡ some t
      → Unmapped m root plan va
          (record m { mem = store m.mem (entry_addr t (vpn_index va 0)) 0 })
          true
  unmap_written t found = record {
    tree = written-Tree tree va t 0 fits found;
    refused = λ e. absurd (ground arith);
    accepted = λ aligned mapped. refl;
    cleared = λ va' e same.
        written_page tree va t 0 fits found va' same ∙ translate_cleared t va va' m.mem same;
    other = λ va' fits' ne. written_other tree va t 0 fits found va' fits' ne;
  }

  -- A translated address has a leaf where `unmap_page` looks for it.
  pub mapped_leaf :
      virt_to_phys root va m ≢ 0
      → (t : ℕ) × (find_leaf_table 2 root va m.mem ≡ some t)
        × (pte_valid (m.mem (entry_addr t (vpn_index va 0))) ≡ true)
        × (pte_leaf (m.mem (entry_addr t (vpn_index va 0))) ≡ true)
  mapped_leaf mapped =
      let (t, found, leaf) =
        translated_found tree 2 root va tree.root_rank
          (omega (arith, tree.root_part, region_root va fits))
          (λ null. mapped (virt_to_phys_root tree va m ∙ null)) in
      let (valid, ends) = translated_leaf t va m.mem leaf in (t, found, valid, ends)

  unmap_found :
      (f : Option ℕ)
      → find_leaf_table 2 root va m.mem ≡ f
      → ((root == 0) || not (is_page_aligned va)) ≡ false
      → Unmapped m root plan va (unmap_page root va m).0 (unmap_page root va m).1
  unfolding unmap_page
  unmap_found none none_found go =
      rw (go, none_found)
        (unmap_refused (λ aligned mapped.
          let (t, found, valid, leaf) = mapped_leaf mapped in absurd (ground arith)))
  unmap_found (some t) found go =
      let pte : ℕ = m.mem (entry_addr t (vpn_index va 0)) in
      elim (Bool-cases (not (pte_valid pte) || not (pte_leaf pte))) [
        | inl refuse ↦
            rw (go, found, refuse)
              (unmap_refused (λ aligned mapped.
                let (u, found', valid, leaf) = mapped_leaf mapped in
                let e : u ≡ t = ground arith in absurd (ground arith)))
        | inr accept ↦ rw (go, found, accept) (unmap_written t found)
      ]

  -- For a tree of page tables and an address of 39 bits: if `unmap_page` refuses, nothing is
  -- changed; it accepts an aligned address that is translated; if it accepts, no address of the
  -- page is translated afterwards; the other pages are translated as before; and the tables are
  -- a tree as before.
  pub unmap_page-Unmapped :
      Unmapped m root plan va (unmap_page root va m).0 (unmap_page root va m).1
  unfolding unmap_page
  unmap_page-Unmapped = elim (Bool-cases ((root == 0) || not (is_page_aligned va))) [
    | inr go ↦ unmap_found (find_leaf_table 2 root va m.mem) refl go
    | inl refuse ↦
        rw refuse
          (unmap_refused (λ aligned mapped. let ne = root_ne_null tree in absurd (ground arith)))
  ]
