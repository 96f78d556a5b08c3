-- ===== src/Core/RunQueue/Next.antt =====
-- `next` takes the first task of the queue.
use qemu_risc_core.Prelude.{ℕ, ◌≡◌, refl, false, some, List, [], ◌∷◌, map, arith, ◌==◌}
use qemu_risc_core.Ds.Heap.{Heap}
use qemu_risc_core.Ds.List.Ring.{Ring}
use qemu_risc_core.Ds.Queue.Fifo.{pop-cons, pop-nil}
use qemu_risc_core.Core.Tasks.{Kernel, run_node}
use qemu_risc_core.Core.RunQueue.{next}
use qemu_risc_core.Core.RunQueue.Valid.{Queued, container_of-run_node}

abbrev pub with_heap : Heap → Kernel → Kernel
with_heap h k = record k { heap = h }

-- The first of the queue, or a null pointer, and the others.
abbrev pub head_or_null : List ℕ → ℕ
head_or_null [] = 0
head_or_null (t ∷ ts) = t

abbrev pub tail : List ℕ → List ℕ
tail [] = []
tail (t ∷ ts) = ts

-- A queue that lost its first task, over a heap with the same nodes.
Queued-tail :
    {k : Kernel} (t : ℕ) (ts : List ℕ) (h : Heap)
    → Queued k (t ∷ ts)
    → h.allocated ≡ k.heap.allocated
    → Ring h k.queue (map run_node ts)
    → Queued (with_heap h k) ts
Queued-tail t ts h v same ring = record {
  table_pos = v.table_pos;
  table_fits = v.table_fits;
  nodes = λ u slot. rw same (v.nodes u slot);
  apart = v.apart;
  ring = ring;
  slots = λ u in_ts. v.slots u (ground arith);
  all_ready = λ u in_ts. v.all_ready u (ground arith);
  idle_slot = v.idle_slot;
  idle_out = let out = v.idle_out in ground arith;
}

-- `next` returns the first task of the queue, or a null pointer if there is none, and leaves the
-- others; it writes links only.
pub next-head :
    (k : Kernel) (queued : List ℕ)
    → Queued k queued
    → (h : Heap) × (next k ≡ some (with_heap h k, head_or_null queued))
      × Queued (with_heap h k) (tail queued)
unfolding next
next-head k [] v = (k.heap, rw (pop-nil k.heap k.queue v.ring) refl, v)
next-head k (t ∷ ts) v =
    let slot = v.slots t (ground arith) in
    let (h, runs, (ring, same)) = pop-cons k.heap k.queue (run_node t) (map run_node ts) v.ring in
    let node_pos : (run_node t == 0) ≡ false = ground arith in
    let back = container_of-run_node v t slot in
    (h, rw (runs, node_pos, back) refl, Queued-tail t ts h v same.allocated ring)
