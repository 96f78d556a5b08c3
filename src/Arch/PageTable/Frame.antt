-- ===== src/Arch/PageTable/Frame.antt =====
-- What a write to one entry leaves alone: the translation of addresses whose walk does not read it.
use qemu_risc_core.Prelude.{
  ℕ, zero, suc, ◌+◌, ◌*◌, ◌<◌, ◌≡◌, refl, ap, ◌∙◌, ◌≢◌, true, false, arith, ◌==◌, Bool-cases, ◌⊎◌,
  inl, inr,
}
use qemu_risc_core.Arch.Sv39.{vpn_index, pte_to_pa, pte_valid, pte_leaf}
use qemu_risc_core.Arch.PageTable.{Machine, entry_addr, store, translate_from}
use qemu_risc_core.Arch.PageTable.Tree.{
  region, region-split, vpn_index-lt, Plan, Tree, table_aligned, entry_addr_injective,
}

-- Two memories translate alike from a table if its entry is the same and they do so below it.
pub translate_from_step :
    (r u va : ℕ) (f g : ℕ → ℕ)
    → f (entry_addr u (vpn_index va r)) ≡ g (entry_addr u (vpn_index va r))
    → (pte_valid (g (entry_addr u (vpn_index va r))) ≡ true
        → pte_leaf (g (entry_addr u (vpn_index va r))) ≡ false
        → translate_from r (pte_to_pa (g (entry_addr u (vpn_index va r)))) va f
          ≡ translate_from r (pte_to_pa (g (entry_addr u (vpn_index va r)))) va g)
    → translate_from (suc r) u va f ≡ translate_from (suc r) u va g
unfolding translate_from
translate_from_step r u va f g same below =
    let pte : ℕ = g (entry_addr u (vpn_index va r)) in
    rw same (elim (Bool-cases (pte_valid pte)) [
      | inr invalid ↦ rw invalid
      | inl valid ↦ rw valid (elim (Bool-cases (pte_leaf pte)) [
        | inl leaf ↦ rw leaf
        | inr table ↦ rw (table, below valid table)
      ])
    ])

module _ {m : Machine} {root : ℕ} {plan : Plan} (tree : Tree m root plan) (t i v : ℕ)
    (is_table : 0 < plan.rank t) (i_lt : i < 512) where
  abbrev after : ℕ → ℕ
  after = store m.mem (entry_addr t i) v

  -- Another entry is as before.
  pub store_other :
      (u j : ℕ)
      → 0 < plan.rank u
      → j < 512
      → (t ≡ u → i ≢ j)
      → after (entry_addr u j) ≡ m.mem (entry_addr u j)
  store_other u j u_table j_lt ne = elim (Bool-cases (entry_addr u j == entry_addr t i)) [
    | inl same ↦
        let (tu, ij) =
          entry_addr_injective t u i j (table_aligned tree t is_table).0
            (table_aligned tree u u_table).0 i_lt j_lt (ground arith) in
        absurd (ne tu ij)
    | inr other ↦ rw other
  ]

  entry :
      (r u va : ℕ)
      → plan.rank u ≡ suc r
      → plan.part u ≡ region va (suc r)
      → ((s : ℕ) → plan.rank t ≡ suc s → region va s ≢ plan.part t * 512 + i)
      → after (entry_addr u (vpn_index va r)) ≡ m.mem (entry_addr u (vpn_index va r))
  entry r u va rank part away =
      store_other u (vpn_index va r) (omega (arith, rank)) (vpn_index-lt va r) (λ tu ij.
        away r (ap plan.rank tu ∙ rank)
          (omega (arith, region-split va r, part, ap plan.part tu, ij)))

  -- A walk from a table `u` for `va` translates as before, if it does not come to the entry.
  pub translate_from_frame :
      (r u va : ℕ)
      → plan.rank u ≡ r
      → plan.part u ≡ region va r
      → ((s : ℕ) → plan.rank t ≡ suc s → region va s ≢ plan.part t * 512 + i)
      → translate_from r u va after ≡ translate_from r u va m.mem
  unfolding translate_from
  translate_from_frame zero u va rank part away = refl
  translate_from_frame (suc zero) u va rank part away =
      translate_from_step 0 u va after m.mem (entry 0 u va rank part away) (λ valid table. refl)
  translate_from_frame (suc (suc r)) u va rank part away =
      translate_from_step (suc r) u va after m.mem (entry (suc r) u va rank part away)
        (λ valid table.
          let (child_rank, child_part) =
            tree.children u r (vpn_index va (suc r)) rank (vpn_index-lt va (suc r)) valid table in
          translate_from_frame (suc r) (pte_to_pa (m.mem (entry_addr u (vpn_index va (suc r))))) va
            child_rank (omega (arith, child_part, part, region-split va (suc r))) away)

-- Two memories translate alike where the entries of the walk are the same, up to one that is not
-- valid in the first and leads nowhere in the second.
pub translate_from_cong :
    {m : Machine} {root : ℕ} {plan : Plan} (tree : Tree m root plan) (f : ℕ → ℕ) (va : ℕ)
    → ((r u : ℕ)
        → plan.rank u ≡ suc r
        → plan.part u ≡ region va (suc r)
        → (f (entry_addr u (vpn_index va r)) ≡ m.mem (entry_addr u (vpn_index va r)))
          ⊎ ((pte_valid (m.mem (entry_addr u (vpn_index va r))) ≡ false)
              × (translate_from (suc r) u va f ≡ 0)))
    → (r u : ℕ) → plan.rank u ≡ r
    → plan.part u ≡ region va r
    → translate_from r u va f ≡ translate_from r u va m.mem
unfolding translate_from
translate_from_cong tree f va same zero u rank part = refl
translate_from_cong {m} tree f va same (suc zero) u rank part = elim (same 0 u rank part) [
  | inl e ↦ translate_from_step 0 u va f m.mem e (λ valid table. refl)
  | inr (invalid, nowhere) ↦ nowhere ∙ rw invalid
]
translate_from_cong {m} tree f va same (suc (suc r)) u rank part = elim (same (suc r) u rank part) [
  | inl e ↦ translate_from_step (suc r) u va f m.mem e (λ valid table.
      let (child_rank, child_part) =
        tree.children u r (vpn_index va (suc r)) rank (vpn_index-lt va (suc r)) valid table in
      translate_from_cong tree f va same (suc r)
        (pte_to_pa (m.mem (entry_addr u (vpn_index va (suc r))))) child_rank
        (omega (arith, child_part, part, region-split va (suc r))))
  | inr (invalid, nowhere) ↦ nowhere ∙ rw invalid
]
