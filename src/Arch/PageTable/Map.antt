-- ===== src/Arch/PageTable/Map.antt =====
-- `map_page`: what it adds to the address space.
use qemu_risc_core.Prelude.{
  ℕ, ◌+◌, ◌/◌, ◌^◌, ◌<◌, ◌≡◌, refl, sym, ◌∙◌, ◌≢◌, Bool, true, false, not, ◌||◌, arith, Bool-cases,
  inl, inr, ◌⊎◌, some, none, Option, bit_or, u64,
}
use qemu_risc_core.Mm.Page.{is_page_aligned, page_offset}
use qemu_risc_core.Mm.Page.Align.{page_offset_lem}
use qemu_risc_core.Arch.Sv39.{vpn_index, make_pte, pte_to_pa, pte_valid, pte_leaf, pte_v}
use qemu_risc_core.Arch.Sv39.Encoding.{make_pte_decode, flags_with_valid}
use qemu_risc_core.Arch.PageTable.{
  Machine, entry_addr, store, translate_from, find_leaf_table, install, map_page, virt_to_phys,
}
use qemu_risc_core.Arch.PageTable.Tree.{region_root, Plan, Tree}
use qemu_risc_core.Arch.PageTable.Leaf.{vpn_index_page}
use qemu_risc_core.Arch.PageTable.Write.{
  store_at, root_ne_null, virt_to_phys_root, written_page, written_other, written-Tree,
}
use qemu_risc_core.Arch.PageTable.Unmap.{mapped_leaf}
use qemu_risc_core.Arch.PageTable.Growth.{Grows, Grows-refl}
use qemu_risc_core.Arch.PageTable.Walk.{walk_down-Walks}
use qemu_risc_core.Arch.PageTable.Ensure.{Full}

-- The entry of `va` in the tables of `m` is valid.
abbrev pub Taken : Machine → ℕ → ℕ → Type 0
Taken m root va =
    (t : ℕ) × (find_leaf_table 2 root va m.mem ≡ some t)
    × (pte_valid (m.mem (entry_addr t (vpn_index va 0))) ≡ true)

-- The machine after `map_page` with its answer, as `map_page-Maps` puts it.
pub record Mapped (m : Machine) (root va pa flags : ℕ) (n : Machine) (done : Bool) (plan' : Plan)
    : Type 0 where
  pub tree : Tree n root plan'
  pub refused :
      is_page_aligned va ≡ true
      → is_page_aligned pa ≡ true
      → done ≡ false
      → Full n ⊎ Taken n root va
  pub kept : virt_to_phys root va m ≢ 0 → done ≡ false
  pub unchanged :
      (va' : ℕ) → va' < 2 ^ 39 → done ≡ false → virt_to_phys root va' n ≡ virt_to_phys root va' m
  pub mapped :
      (va' : ℕ)
      → done ≡ true
      → va' / 4096 ≡ va / 4096
      → virt_to_phys root va' n ≡ pa + page_offset va'
  pub other :
      (va' : ℕ)
      → va' < 2 ^ 39
      → va' / 4096 ≢ va / 4096
      → virt_to_phys root va' n ≡ virt_to_phys root va' m

module _ (pa flags : ℕ) (pa_fits : pa < 2 ^ 56) (flags_fit : flags < 1024)
    (leaf : pte_leaf flags ≡ true) where
  abbrev leaf_entry : ℕ
  leaf_entry = make_pte pa (bit_or flags pte_v)

  leaf_decoded :
      is_page_aligned pa ≡ true
      → (pte_to_pa leaf_entry ≡ pa) × (pte_valid leaf_entry ≡ true) × (pte_leaf leaf_entry ≡ true)
  leaf_decoded aligned =
      let (fit, valid, kind) = flags_with_valid flags flags_fit in
      let (to_pa, word, valid', kind') =
        make_pte_decode pa (bit_or flags pte_v) aligned pa_fits fit in
      (to_pa, valid' ∙ valid, kind' ∙ kind ∙ leaf)

  translate_leaf :
      (t va va' : ℕ) (mem : ℕ → ℕ)
      → is_page_aligned pa ≡ true
      → va' / 4096 ≡ va / 4096
      → translate_from 1 t va' (store mem (entry_addr t (vpn_index va 0)) leaf_entry)
        ≡ pa + page_offset va'
  unfolding translate_from
  translate_leaf t va va' mem aligned same =
      let (to_pa, valid, is_leaf) = leaf_decoded aligned in
      let fits : u64 (pa + page_offset va') ≡ pa + page_offset va' =
        omega (arith, page_offset_lem va') in
      rw
        (
          vpn_index_page va va' 0 same,
          store_at mem (entry_addr t (vpn_index va 0)) leaf_entry,
          valid,
          is_leaf,
          to_pa,
        )
        fits

  module _ {m : Machine} {root : ℕ} {plan : Plan} (tree : Tree m root plan) (va : ℕ)
      (fits : va < 2 ^ 39) where
    same_virt :
        (n : Machine) (plan' : Plan)
        → Grows m root plan n plan'
        → (va' : ℕ) → va' < 2 ^ 39
        → virt_to_phys root va' n ≡ virt_to_phys root va' m
    same_virt n plan' g va' fits' =
        virt_to_phys_root tree va' n ∙ g.same va' fits' ∙ sym (virt_to_phys_root tree va' m)

    -- Nothing is written at the end.
    map_refused :
        (n : Machine) (plan' : Plan)
        → Grows m root plan n plan'
        → (is_page_aligned va ≡ true → is_page_aligned pa ≡ true → Full n ⊎ Taken n root va)
        → Mapped m root va pa flags n false plan'
    map_refused n plan' g why = record {
      tree = g.tree;
      refused = λ aligned aligned' e. why aligned aligned';
      kept = λ was. refl;
      unchanged = λ va' fits' e. same_virt n plan' g va' fits';
      mapped = λ va' e. absurd (ground arith);
      other = λ va' fits' ne. same_virt n plan' g va' fits';
    }

    not_mapped :
        (n : Machine) (plan' : Plan)
        → Grows m root plan n plan'
        → (t : ℕ) → find_leaf_table 2 root va n.mem ≡ some t
        → pte_valid (n.mem (entry_addr t (vpn_index va 0))) ≡ false
        → virt_to_phys root va m ≢ 0
        → ⊥
    not_mapped n plan' g t found free was =
        let same = same_virt n plan' g va fits in
        let (t', found', valid, ends) =
          mapped_leaf g.tree va fits (λ null. was (sym same ∙ null)) in
        let e : t' ≡ t = ground arith in absurd (ground arith)

    map_written :
        (n : Machine) (plan' : Plan)
        → Grows m root plan n plan'
        → is_page_aligned pa ≡ true
        → (t : ℕ) → find_leaf_table 2 root va n.mem ≡ some t
        → pte_valid (n.mem (entry_addr t (vpn_index va 0))) ≡ false
        → Mapped m root va pa flags
            (record n { mem = store n.mem (entry_addr t (vpn_index va 0)) leaf_entry })
            true
            plan'
    map_written n plan' g aligned t found free = record {
      tree = written-Tree g.tree va t leaf_entry fits found;
      refused = λ a b e. absurd (ground arith);
      kept = λ was. absurd (not_mapped n plan' g t found free was);
      unchanged = λ va' fits' e. absurd (ground arith);
      mapped = λ va' e same.
          written_page g.tree va t leaf_entry fits found va' same
          ∙ translate_leaf t va va' n.mem aligned same;
      other = λ va' fits' ne.
          written_other g.tree va t leaf_entry fits found va' fits' ne
          ∙ same_virt n plan' g va' fits';
    }

    abbrev pub Maps : Option (Machine × Bool) → Type 0
    Maps result =
        (n : Machine) × (done : Bool) × (plan' : Plan) × (result ≡ some (n, done))
        × Mapped m root va pa flags n done plan'

    install-Maps :
        is_page_aligned pa ≡ true
        → (n : Machine) (found : Option ℕ) (plan' : Plan) → Grows m root plan n plan'
        → ((t : ℕ) → found ≡ some t → find_leaf_table 2 root va n.mem ≡ some t)
        → (found ≡ none → Full n)
        → Maps (install va pa flags n found)
    unfolding install
    install-Maps aligned n none plan' g finds full =
        (n, false, plan', refl, map_refused n plan' g (λ a b. inl (full refl)))
    install-Maps aligned n (some t) plan' g finds full =
        elim (Bool-cases (pte_valid (n.mem (entry_addr t (vpn_index va 0))))) [
          | inl valid ↦ (
            n,
            false,
            plan',
            rw valid refl,
            map_refused n plan' g (λ a b. inr (t, finds t refl, valid)),
          )
          | inr free ↦ (
            record n { mem = store n.mem (entry_addr t (vpn_index va 0)) leaf_entry },
            true,
            plan',
            rw free refl,
            map_written n plan' g aligned t (finds t refl) free,
          )
        ]

    -- For a tree of page tables, an address of 39 bits, a physical address of 56 bits and flags of
    -- ten bits with one of R, W and X: `map_page` returns, and leaves a tree of tables. If it
    -- answers true, every address of the page is translated to its offset in the physical page,
    -- and the other pages are translated as before. It answers false for an address that is
    -- translated already. If it answers false, no translation is changed; for aligned addresses it does so only if no page is free or the entry of the
    -- address is valid.
    pub map_page-Maps : Maps (map_page root va pa flags m)
    unfolding map_page
    map_page-Maps = elim (Bool-cases (not (is_page_aligned va) || not (is_page_aligned pa))) [
      | inl refuse ↦
          let root_ne = root_ne_null tree in
          (
            m,
            false,
            plan,
            rw (root_ne, refuse) refl,
            map_refused m plan (Grows-refl tree) (λ a b. absurd (ground arith)),
          )
      | inr go ↦
          let root_ne = root_ne_null tree in
          let aligned : is_page_aligned pa ≡ true = ground arith in
          let (n, found, plan', walked, g, finds, full) =
            walk_down-Walks tree 2 root va tree.root_rank
              (omega (arith, tree.root_part, region_root va fits)) in
          let (o, done, plan'', ended, result) = install-Maps aligned n found plan' g finds full in
          (o, done, plan'', rw (root_ne, go, walked, ended) refl, result)
    ]
