-- ===== src/Core/RunQueue/Push.antt =====
-- `push` puts a task behind the others.
use mathlib.Core.List.{map-append}
use qemu_risc_core.Prelude.{
  ℕ, ◌≡◌, refl, true, false, some, List, [], ◌∷◌, ◌++◌, map, arith, ◌==◌, Bool-cases, inl, inr,
}
use qemu_risc_core.Ds.Heap.{Heap}
use qemu_risc_core.Ds.List.Linked.{has, has-append}
use qemu_risc_core.Ds.List.Ring.{Ring}
use qemu_risc_core.Ds.List.Ring.Push.{Fresh}
use qemu_risc_core.Ds.Queue.Fifo.{push-snoc}
use qemu_risc_core.Core.Tasks.{ready, Kernel, run_node, set_state}
use qemu_risc_core.Core.RunQueue.{push}
use qemu_risc_core.Core.RunQueue.Valid.{Slot, Queued, Slot-pos, has-map-run_node}
use qemu_risc_core.Core.RunQueue.Next.{with_heap}

abbrev pub pushed : ℕ → Heap → Kernel → Kernel
pushed t h k = with_heap h (set_state t ready k)

module _ (k : Kernel) (queued : List ℕ) (v : Queued k queued) (t : ℕ) (slot : Slot k t)
    (out : has t queued ≡ false) (not_idle : (k.idle == t) ≡ false) where
  node-Fresh : Fresh k.heap k.queue (map run_node queued) (run_node t)
  node-Fresh =
      let listed = has-map-run_node t queued in
      let apart = v.apart t slot in
      record { out = ground arith; is_node = v.nodes t slot; ne_null = ground arith }

  Queued-snoc :
      (h : Heap)
      → h.allocated ≡ k.heap.allocated
      → Ring h k.queue (map run_node (queued ++ t ∷ []))
      → Queued (pushed t h k) (queued ++ t ∷ [])
  Queued-snoc h same ring = record {
    table_pos = v.table_pos;
    table_fits = v.table_fits;
    nodes = λ u u_slot. rw same (v.nodes u u_slot);
    apart = v.apart;
    ring = ring;
    slots = λ u in_queue. elim (Bool-cases (u == t)) [
      | inl at ↦ let e : t ≡ u = ground arith in rw e at slot
      | inr other ↦ v.slots u (ground (arith, has-append u queued (t ∷ [])))
    ];
    all_ready = λ u in_queue. elim (Bool-cases (u == t)) [
      | inl at ↦ rw at refl
      | inr other ↦ rw other (v.all_ready u (ground (arith, has-append u queued (t ∷ []))))
    ];
    idle_slot = v.idle_slot;
    idle_out = ground (arith, has-append k.idle queued (t ∷ []), v.idle_out);
  }

  -- `push` of a task that is neither queued nor the idle task answers true, makes it ready and
  -- puts it last.
  pub push-snoc-Queued :
      (h : Heap) × (push t k ≡ some (pushed t h k, true)) × Queued (pushed t h k) (queued ++ t ∷ [])
  unfolding push
  push-snoc-Queued =
      let pos = Slot-pos v t slot in
      let (h, runs, ring, same) =
        push-snoc k.heap k.queue (map run_node queued) (run_node t) v.ring node-Fresh in
      let split = map-append run_node queued (t ∷ []) in
      (h, rw (pos, runs) refl, Queued-snoc h same.allocated (rw split ring))

pub push-null : (k : Kernel) → push 0 k ≡ some (k, false)
unfolding push
push-null k = refl
