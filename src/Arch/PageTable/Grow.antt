-- ===== src/Arch/PageTable/Grow.antt =====
-- The tree of tables after a new table is put into an entry that was not valid.
use qemu_risc_core.Prelude.{
  ℕ, suc, ◌+◌, ◌*◌, ◌%◌, ◌^◌, ◌<◌, ◌≡◌, refl, sym, ap, ◌∙◌, ◌≢◌, true, false, arith, ◌==◌,
  if◌then◌else◌, Bool-cases, inl, inr,
}
use qemu_risc_core.Mm.Page.Align.{is_page_aligned_lem}
use qemu_risc_core.Mm.Pmm.{Pmm}
use qemu_risc_core.Mm.Pmm.Alloc.{Allocates}
use qemu_risc_core.Mm.Pmm.Safety.{Allocates-IsValid}
use qemu_risc_core.Arch.Sv39.{vpn_index, make_pte, pte_to_pa, pte_valid, pte_leaf, pte_v}
use qemu_risc_core.Arch.Sv39.Encoding.{make_pte_decode, pte_valid_lem, pte_leaf_lem}
use qemu_risc_core.Arch.PageTable.{Machine, entry_addr, store, zero_page, translate_from}
use qemu_risc_core.Arch.PageTable.Tree.{
  vpn_index-lt, region_root, Plan, Tree, table_aligned, entry_addr_injective,
}
use qemu_risc_core.Arch.PageTable.Growth.{Grows}
use qemu_risc_core.Arch.PageTable.Frame.{translate_from_cong}
use qemu_risc_core.Arch.PageTable.Fresh.{
  zero_page_inside, zero_page_outside, Allocates-Owned, Allocates-same, Allocates-new,
}
use qemu_risc_core.Arch.PageTable.Leaf.{translate_from_invalid, translate_from_pointer}
use qemu_risc_core.Arch.PageTable.Write.{store_at}

module _ {m : Machine} {root : ℕ} {plan : Plan} (tree : Tree m root plan) (t r i : ℕ)
    (rank_t : plan.rank t ≡ suc (suc r)) (i_lt : i < 512)
    (invalid : pte_valid (m.mem (entry_addr t i)) ≡ false) (q : Pmm) (a : ℕ)
    (alloc : Allocates m.pmm q a) (ne : (a == 0) ≡ false) where
  abbrev pub plan_with : Plan
  plan_with = record {
    rank = λ (x : ℕ). if x == a then suc r else plan.rank x;
    part = λ (x : ℕ). if x == a then plan.part t * 512 + i else plan.part x;
  }

  abbrev pub mem_with : ℕ → ℕ
  mem_with = store (zero_page a m.mem) (entry_addr t i) (make_pte a pte_v)

  new_rank : plan.rank a ≡ 0
  new_rank = elim (Bool-cases (plan.rank a == 0)) [
    | inl e ↦ ground arith
    | inr some_rank ↦ absurd ((Allocates-new alloc ne).0 (tree.owned a (ground arith)))
  ]

  new_aligned : (a % 4096 ≡ 0) × (a < 2 ^ 56)
  new_aligned =
      let (j, lt, at, marked) = (Allocates-new alloc ne).1 in
      let (base, total) = Allocates-same alloc in
      omega (arith, at, lt, base, total, tree.valid.aligned, tree.top)

  old_ne : (u : ℕ) → 0 < plan.rank u → (u == a) ≡ false
  old_ne u is = elim (Bool-cases (u == a)) [
    | inr away ↦ away
    | inl at ↦ let e : u ≡ a = ground arith in absurd (omega (arith, is, new_rank, ap plan.rank e))
  ]

  old_ranks :
      (u : ℕ)
      → 0 < plan.rank u
      → (plan_with.rank u ≡ plan.rank u) × (plan_with.part u ≡ plan.part u)
  old_ranks u is = rw (old_ne u is) (refl, refl)

  decoded :
      (pte_to_pa (make_pte a pte_v) ≡ a)
      × (make_pte a pte_v < 2 ^ 64)
      × (pte_valid (make_pte a pte_v) ≡ pte_valid pte_v)
      × (pte_leaf (make_pte a pte_v) ≡ pte_leaf pte_v)
  decoded =
      let (zeros, fits) = new_aligned in
      make_pte_decode a pte_v (rw (is_page_aligned_lem a, zeros) refl) fits (omega arith)

  outside : (u j k : ℕ) → 0 < plan.rank u → j < 512 → k < 512 → entry_addr u j ≢ entry_addr a k
  outside u j k is lt lt' e =
      let (same, index) =
        entry_addr_injective u a j k (table_aligned tree u is).0 new_aligned.0 lt lt' e in
      let ne_ua = old_ne u is in absurd (ground arith)

  -- The entries of the old tables are as before, but for the one written.
  old_entry :
      (u j : ℕ)
      → 0 < plan.rank u
      → j < 512
      → (entry_addr u j == entry_addr t i) ≡ false
      → mem_with (entry_addr u j) ≡ m.mem (entry_addr u j)
  old_entry u j is lt away =
      rw away (zero_page_outside a m.mem (entry_addr u j) (λ k k_lt. outside u j k is lt k_lt))

  new_entry : (k : ℕ) → k < 512 → mem_with (entry_addr a k) ≡ 0
  new_entry k lt =
      let ne_ta = outside t i k (omega (arith, rank_t)) i_lt lt in
      let away : (entry_addr a k == entry_addr t i) ≡ false = ground arith in
      rw away (zero_page_inside a m.mem k lt)

  written_entry : mem_with (entry_addr t i) ≡ make_pte a pte_v
  written_entry = store_at (zero_page a m.mem) (entry_addr t i) (make_pte a pte_v)

  pub written_valid : pte_valid (mem_with (entry_addr t i)) ≡ true
  written_valid = rw written_entry (decoded.2 ∙ pte_valid_lem pte_v)

  pub written_pointer : pte_leaf (mem_with (entry_addr t i)) ≡ false
  written_pointer = rw written_entry (decoded.3 ∙ pte_leaf_lem pte_v)

  written_child : pte_to_pa (mem_with (entry_addr t i)) ≡ a
  written_child = rw written_entry decoded.0

  -- The tables with the new one.
  abbrev pub machine_with : Machine
  machine_with = record { pmm = q; mem = mem_with }

  new_invalid : (k : ℕ) → k < 512 → pte_valid (mem_with (entry_addr a k)) ≡ false
  new_invalid k lt = rw (new_entry k lt) (pte_valid_lem 0)

  old_table : (u s : ℕ) → (u == a) ≡ false → plan_with.rank u ≡ suc s → plan.rank u ≡ suc s
  old_table u s away rank = ground arith

  same_entry :
      (u j : ℕ)
      → 0 < plan.rank u
      → j < 512
      → (entry_addr u j == entry_addr t i) ≡ true
      → (u ≡ t) × (j ≡ i)
  same_entry u j is lt at =
      entry_addr_injective u t j i (table_aligned tree u is).0
        (table_aligned tree t (omega (arith, rank_t))).0 lt i_lt (ground arith)

  new_small :
      (u s j : ℕ)
      → plan_with.rank u ≡ suc (suc s)
      → j < 512
      → pte_valid (mem_with (entry_addr u j)) ≡ true
      → pte_leaf (mem_with (entry_addr u j)) ≡ false
  new_small u s j rank lt valid = elim (Bool-cases (u == a)) [
    | inl at ↦
        let e : u ≡ a = ground arith in
        let none = ap (λ (x : ℕ). pte_valid (mem_with (entry_addr x j))) e ∙ new_invalid j lt in
        absurd (ground arith)
    | inr away ↦
        let old = old_table u (suc s) away rank in
        let is : 0 < plan.rank u = omega (arith, old) in
        elim (Bool-cases (entry_addr u j == entry_addr t i)) [
          | inl at ↦
              let e : entry_addr u j ≡ entry_addr t i = ground arith in
              ap (λ (x : ℕ). pte_leaf (mem_with x)) e ∙ written_pointer
          | inr other ↦
              let e = old_entry u j is lt other in
              ap pte_leaf e ∙ tree.small u s j old lt (sym (ap pte_valid e) ∙ valid)
        ]
  ]

  new_children :
      (u s j : ℕ)
      → plan_with.rank u ≡ suc (suc s)
      → j < 512
      → pte_valid (mem_with (entry_addr u j)) ≡ true
      → pte_leaf (mem_with (entry_addr u j)) ≡ false
      → (plan_with.rank (pte_to_pa (mem_with (entry_addr u j))) ≡ suc s)
        × (plan_with.part (pte_to_pa (mem_with (entry_addr u j))) ≡ plan_with.part u * 512 + j)
  new_children u s j rank lt valid table = elim (Bool-cases (u == a)) [
    | inl at ↦
        let e : u ≡ a = ground arith in
        let none = ap (λ (x : ℕ). pte_valid (mem_with (entry_addr x j))) e ∙ new_invalid j lt in
        absurd (ground arith)
    | inr away ↦
        let old = old_table u (suc s) away rank in
        let is : 0 < plan.rank u = omega (arith, old) in
        elim (Bool-cases (entry_addr u j == entry_addr t i)) [
          | inl at ↦
              let (ut, ji) = same_entry u j is lt at in
              let e : entry_addr u j ≡ entry_addr t i = ground arith in
              let child = ap (λ (x : ℕ). pte_to_pa (mem_with x)) e ∙ written_child in
              let here : (a == a) ≡ true = ground arith in
              rw (child, here, away)
                (omega (arith, old, rank_t, ap plan.rank ut), omega (arith, ap plan.part ut, ji))
          | inr other ↦
              let e = old_entry u j is lt other in
              let (child_rank, child_part) =
                tree.children u s j old lt (sym (ap pte_valid e) ∙ valid)
                  (sym (ap pte_leaf e) ∙ table) in
              let is_child : 0 < plan.rank (pte_to_pa (m.mem (entry_addr u j))) =
                omega (arith, child_rank) in
              rw (e, old_ne (pte_to_pa (m.mem (entry_addr u j))) is_child, away)
                (child_rank, child_part)
        ]
  ]

  new_tree : Tree machine_with root plan_with
  new_tree =
      let is_root : 0 < plan.rank root = omega (arith, tree.root_rank) in
      let (base, total) = Allocates-same alloc in
      record {
        valid = Allocates-IsValid tree.valid alloc;
        root_rank = (old_ranks root is_root).0 ∙ tree.root_rank;
        root_part = (old_ranks root is_root).1 ∙ tree.root_part;
        owned = λ u is. elim (Bool-cases (u == a)) [
          | inl at ↦ let e : u ≡ a = ground arith in rw e (Allocates-new alloc ne).1
          | inr away ↦ Allocates-Owned tree.valid alloc (tree.owned u (ground arith))
        ];
        ne_null = ground (arith, tree.ne_null);
        base = omega (arith, base, tree.base);
        top = omega (arith, base, total, tree.top);
        small = new_small;
        children = new_children;
      }

  -- The walk ends at the new table.
  new_nowhere :
      (s u va : ℕ)
      → plan.rank u ≡ suc s
      → (entry_addr u (vpn_index va s) == entry_addr t i) ≡ true
      → (pte_valid (m.mem (entry_addr u (vpn_index va s))) ≡ false)
        × (translate_from (suc s) u va mem_with ≡ 0)
  new_nowhere s u va rank at =
      let j : ℕ = vpn_index va s in
      let e : entry_addr u j ≡ entry_addr t i = ground arith in
      let (ut, ji) = same_entry u j (omega (arith, rank)) (vpn_index-lt va s) at in
      let level : s ≡ suc r = omega (arith, rank, rank_t, ap plan.rank ut) in
      let valid = ap (λ (x : ℕ). pte_valid (mem_with x)) e ∙ written_valid in
      let table = ap (λ (x : ℕ). pte_leaf (mem_with x)) e ∙ written_pointer in
      let child = ap (λ (x : ℕ). pte_to_pa (mem_with x)) e ∙ written_child in
      (
        ap (λ (x : ℕ). pte_valid (m.mem x)) e ∙ invalid,
        translate_from_pointer s u va mem_with valid table
            ∙ ap (λ (x : ℕ). translate_from s x va mem_with) child
            ∙ ap (λ (x : ℕ). translate_from x a va mem_with) level
            ∙ translate_from_invalid r a va mem_with
                (new_invalid (vpn_index va r) (vpn_index-lt va r)),
      )

  new_same :
      (va : ℕ) → va < 2 ^ 39 → translate_from 3 root va mem_with ≡ translate_from 3 root va m.mem
  new_same va fits =
      translate_from_cong tree mem_with va
        (λ s u rank part. elim (Bool-cases (entry_addr u (vpn_index va s) == entry_addr t i)) [
          | inr other ↦
              inl (old_entry u (vpn_index va s) (omega (arith, rank)) (vpn_index-lt va s) other)
          | inl at ↦ inr (new_nowhere s u va rank at)
        ])
        3 root tree.root_rank (omega (arith, tree.root_part, region_root va fits))

  pub machine_with-Grows : Grows m root plan machine_with plan_with
  machine_with-Grows = record {
    tree = new_tree;
    ranks = old_ranks;
    entries = λ u j is lt valid. elim (Bool-cases (entry_addr u j == entry_addr t i)) [
      | inr other ↦ old_entry u j is lt other
      | inl at ↦
          let e : entry_addr u j ≡ entry_addr t i = ground arith in
          let bad = ap (λ (x : ℕ). pte_valid (m.mem x)) e ∙ invalid in absurd (ground arith)
    ];
    same = new_same;
  }
