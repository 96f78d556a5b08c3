-- ===== src/Arch/PageTable/Walk.antt =====
-- The walk of `map_page` to the table of level 0, with the tables that it makes.
use qemu_risc_core.Prelude.{
  ℕ, zero, suc, ◌≡◌, refl, sym, ap, ◌∙◌, true, false, arith, Bool-cases, inl, inr, some, none,
  Option,
}
use qemu_risc_core.Arch.Sv39.{vpn_index, pte_to_pa, pte_valid, pte_leaf}
use qemu_risc_core.Arch.PageTable.{Machine, entry_addr, step_down, walk_down, find_leaf_table}
use qemu_risc_core.Arch.PageTable.Tree.{region, region-split, vpn_index-lt, Plan, Tree}
use qemu_risc_core.Arch.PageTable.Leaf.{find_leaf_table_zero, find_leaf_table_pointer}
use qemu_risc_core.Arch.PageTable.Growth.{Grows, Grows-refl, Grows-trans}
use qemu_risc_core.Arch.PageTable.Ensure.{Full, ensure_entry-Ensures}

-- What `step_down` comes to: the table that the entry points to, or no page is free.
abbrev Steps : Machine → ℕ → Plan → ℕ → Option (Machine × Option ℕ) → Type 0
Steps m root plan entry result =
    (n : Machine) × (next : Option ℕ) × (plan' : Plan) × (result ≡ some (n, next))
    × Grows m root plan n plan'
    × ((t : ℕ)
        → next ≡ some t
        → (pte_valid (n.mem entry) ≡ true)
          × (pte_leaf (n.mem entry) ≡ false)
          × (pte_to_pa (n.mem entry) ≡ t))
    × (next ≡ none → Full n)

step_down-Steps :
    {m : Machine} {root : ℕ} {plan : Plan} (tree : Tree m root plan) (level u va : ℕ)
    → plan.rank u ≡ suc (suc level)
    → Steps m root plan (entry_addr u (vpn_index va (suc level))) (step_down (suc level) u va m)
unfolding step_down
step_down-Steps {m} {root} {plan} tree level u va rank =
    let i : ℕ = vpn_index va (suc level) in
    let lt = vpn_index-lt va (suc level) in
    let (n, ok, plan', e, g, good, bad) = ensure_entry-Ensures tree u level i rank lt in
    elim (Bool-cases ok) [
      | inr failed ↦ (
        n,
        none,
        plan',
        rw (e, failed) refl,
        g,
        λ t some_t. absurd (ground arith),
        λ none_eq. bad failed,
      )
      | inl done ↦
          let valid = good done in
          let rank' = (g.ranks u (omega (arith, rank))).0 ∙ rank in
          let table = g.tree.small u level i rank' lt valid in
          (
            n,
            some (pte_to_pa (n.mem (entry_addr u i))),
            plan',
            rw (e, done, table) refl,
            g,
            λ t found. (valid, table, ground arith),
            λ none_eq. absurd (ground arith),
          )
    ]

-- What the walk comes to: tables may be made, no translation changes, and the walk finds the table
-- that `find_leaf_table` finds afterwards, or no page is free.
abbrev pub Walks : Machine → ℕ → Plan → ℕ → ℕ → ℕ → Option (Machine × Option ℕ) → Type 0
Walks m root plan level u va result =
    (n : Machine) × (found : Option ℕ) × (plan' : Plan) × (result ≡ some (n, found))
    × Grows m root plan n plan'
    × ((t : ℕ) → found ≡ some t → find_leaf_table level u va n.mem ≡ some t)
    × (found ≡ none → Full n)

walk_on :
    {m : Machine} {root : ℕ} {plan : Plan} (tree : Tree m root plan) (level u va : ℕ)
    → plan.rank u ≡ suc (suc level)
    → plan.part u ≡ region va (suc (suc level))
    → ((n : Machine) (plan' : Plan)
        → Tree n root plan'
        → (t : ℕ) → plan'.rank t ≡ suc level
        → plan'.part t ≡ region va (suc level)
        → Walks n root plan' level t va (walk_down level t va n))
    → Steps m root plan (entry_addr u (vpn_index va (suc level))) (step_down (suc level) u va m)
    → Walks m root plan (suc level) u va (walk_down (suc level) u va m)
unfolding walk_down
walk_on tree level u va rank part below (n, none, plan', e, g, good, bad) =
    (n, none, plan', rw e refl, g, λ t found. absurd (ground arith), λ none_eq. bad refl)
walk_on {m} {root} {plan} tree level u va rank part below (n, some t, plan', e, g, good, bad) =
    let i : ℕ = vpn_index va (suc level) in
    let lt = vpn_index-lt va (suc level) in
    let (valid, table, child) = good t refl in
    let (rank', part') = g.ranks u (omega (arith, rank)) in
    let (child_rank, child_part) = g.tree.children u level i (rank' ∙ rank) lt valid table in
    let t_rank : plan'.rank t ≡ suc level = sym (ap plan'.rank child) ∙ child_rank in
    let t_part : plan'.part t ≡ region va (suc level) =
      omega (arith, ap plan'.part child, child_part, part', part, region-split va (suc level)) in
    let (o, found, plan'', e', h, finds, full) = below n plan' g.tree t t_rank t_part in
    let entry = h.entries u i (omega (arith, rank, rank')) lt valid in
    (
      o,
      found,
      plan'',
      rw (e, e') refl,
      Grows-trans g h,
      λ w found_w.
          find_leaf_table_pointer level u va o.mem (ap pte_valid entry ∙ valid)
            (ap pte_leaf entry ∙ table)
          ∙ ap (λ (x : ℕ). find_leaf_table level x va o.mem) (ap pte_to_pa entry ∙ child)
          ∙ finds w found_w,
      full,
    )

pub walk_down-Walks :
    {m : Machine} {root : ℕ} {plan : Plan} (tree : Tree m root plan) (level u va : ℕ)
    → plan.rank u ≡ suc level
    → plan.part u ≡ region va (suc level)
    → Walks m root plan level u va (walk_down level u va m)
unfolding walk_down
walk_down-Walks {m} {root} {plan} tree zero u va rank part = (
  m,
  some u,
  plan,
  refl,
  Grows-refl tree,
  λ t found. find_leaf_table_zero u va m.mem ∙ found,
  λ none_eq. absurd (ground arith),
)
walk_down-Walks tree (suc level) u va rank part =
    walk_on tree level u va rank part
      (λ n plan' tree' t rank' part'. walk_down-Walks tree' level t va rank' part')
      (step_down-Steps tree level u va rank)
