-- ===== src/Core/RunQueue/Create.antt =====
-- A new task leaves the run queue as it was.
use qemu_risc_core.Prelude.{
  ℕ, ◌+◌, ◌^◌, ◌<◌, ◌≡◌, refl, ap, true, false, List, ◌∷◌, map, arith, ◌==◌, Bool-cases, inl, inr,
}
use qemu_risc_core.Ds.List.Linked.{has, Linked-frame}
use qemu_risc_core.Ds.List.Ring.{Ring}
use qemu_risc_core.Core.Tasks.{Kernel, run_node}
use qemu_risc_core.Core.Tasks.Create.{created, Table}
use qemu_risc_core.Core.RunQueue.Valid.{Slot, Queued, has-map-run_node}

module _ (k : Kernel) (queued : List ℕ) (v : Queued k queued) (t : ℕ) (slot : Slot k t)
    (out : has t queued ≡ false) where
  node-apart : (p : ℕ) → has p (k.queue ∷ map run_node queued) ≡ true → (p == run_node t) ≡ false
  node-apart p listed = elim (Bool-cases (p == run_node t)) [
    | inr away ↦ away
    | inl at ↦
        let e : p ≡ run_node t = ground arith in
        let apart = v.apart t slot in
        let absent = has-map-run_node t queued in
        absurd (let bad = ap (λ (x : ℕ). has x (k.queue ∷ map run_node queued)) e in ground arith)
  ]

  pub Queued-created :
      (entry base size : ℕ) (fits : base + size < 2 ^ 64)
      → Queued (created k t entry base size fits) queued
  Queued-created entry base size fits =
      let ring : Ring k.heap k.queue (map run_node queued) = v.ring in
      record {
        table_pos = v.table_pos;
        table_fits = v.table_fits;
        nodes = v.nodes;
        apart = v.apart;
        ring = record {
          links =
              Linked-frame k.heap (created k t entry base size fits).heap k.queue
                (map run_node queued) k.queue ring.links (λ p listed. rw (node-apart p listed) refl)
                (λ p listed. rw (node-apart p listed) refl);
          distinct = ring.distinct;
          nodes = ring.nodes;
          not_null = ring.not_null;
        };
        slots = v.slots;
        all_ready = λ u in_queue. elim (Bool-cases (u == t)) [
          | inl at ↦ rw at refl
          | inr away ↦ rw away (v.all_ready u in_queue)
        ];
        idle_slot = v.idle_slot;
        idle_out = v.idle_out;
      }

pub Table-Queued : {k : Kernel} {queued : List ℕ} → Queued k queued → Table k
Table-Queued v = (v.table_pos, v.table_fits, λ i lt. v.nodes _ (i, lt, refl))
