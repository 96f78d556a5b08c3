-- ===== src/Arch/PageTable/Growth.antt =====
-- The growth of a tree of tables: more tables, and the same translations.
use qemu_risc_core.Prelude.{ℕ, ◌^◌, ◌<◌, ◌≡◌, refl, ap, ◌∙◌, true, arith}
use qemu_risc_core.Arch.Sv39.{pte_valid}
use qemu_risc_core.Arch.PageTable.{Machine, entry_addr, translate_from}
use qemu_risc_core.Arch.PageTable.Tree.{Plan, Tree}

-- The machine `n` has the tables of `m`, with the same valid entries, and may have more; every
-- address is translated as in `m`.
pub record Grows (m : Machine) (root : ℕ) (plan : Plan) (n : Machine) (plan' : Plan) : Type 0 where
  pub tree : Tree n root plan'
  pub ranks :
      (u : ℕ) → 0 < plan.rank u → (plan'.rank u ≡ plan.rank u) × (plan'.part u ≡ plan.part u)
  pub entries :
      (u i : ℕ)
      → 0 < plan.rank u
      → i < 512
      → pte_valid (m.mem (entry_addr u i)) ≡ true
      → n.mem (entry_addr u i) ≡ m.mem (entry_addr u i)
  pub same :
      (va : ℕ) → va < 2 ^ 39 → translate_from 3 root va n.mem ≡ translate_from 3 root va m.mem

pub Grows-refl :
    {m : Machine} {root : ℕ} {plan : Plan} → Tree m root plan → Grows m root plan m plan
Grows-refl tree = record {
  tree = tree;
  ranks = λ u is. (refl, refl);
  entries = λ u i is lt valid. refl;
  same = λ va fits. refl;
}

pub Grows-trans :
    {m n o : Machine} {root : ℕ} {p q r : Plan}
    → Grows m root p n q
    → Grows n root q o r
    → Grows m root p o r
Grows-trans {m} {n} {o} {root} {p} {q} {r} g h = record {
  tree = h.tree;
  ranks = λ u is.
      let (rank, part) = g.ranks u is in
      let (rank', part') = h.ranks u (omega (arith, is, rank)) in (rank' ∙ rank, part' ∙ part);
  entries = λ u i is lt valid.
      let (rank, part) = g.ranks u is in
      let e = g.entries u i is lt valid in
      h.entries u i (omega (arith, is, rank)) lt (ap pte_valid e ∙ valid) ∙ e;
  same = λ va fits. h.same va fits ∙ g.same va fits;
}
