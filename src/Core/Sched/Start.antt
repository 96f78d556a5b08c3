-- ===== src/Core/Sched/Start.antt =====
-- `start`: the first task that runs.
use qemu_risc_core.Prelude.{
  ℕ, ◌≡◌, refl, ap, true, false, some, List, [], ◌∷◌, arith, ◌==◌, Bool-cases, inl, inr,
}
use qemu_risc_core.Ds.Heap.{Heap}
use qemu_risc_core.Ds.List.Linked.{has}
use qemu_risc_core.Core.Tasks.{running, Kernel, set_state}
use qemu_risc_core.Core.RunQueue
use qemu_risc_core.Core.RunQueue.Valid.{Slot, Queued, IsValid, Slot-pos, has-map-run_node}
use qemu_risc_core.Core.RunQueue.Next.{with_heap, head_or_null, tail, next-head}
use qemu_risc_core.Core.Sched.{next_or_idle, start, load_context}
use qemu_risc_core.Core.Sched.Requeue.{Queued-task}
use qemu_risc_core.Core.Sched.Reschedule.{chosen, next_or_idle-chosen, chosen-Slot}

first-out :
    (k : Kernel) (queued : List ℕ) → Queued k queued → has (chosen k queued) (tail queued) ≡ false
first-out k [] q = refl
first-out k (t ∷ ts) q =
    let listed = has-map-run_node t ts in let distinct = q.ring.distinct in ground arith

abbrev pub started : Kernel → Heap → ℕ → Kernel
started k h next = record (set_state next running (with_heap h k)) {
  current = next;
  cpu = (k.task next).context;
}

started-IsValid :
    (k : Kernel) (queued : List ℕ) (h : Heap) (next : ℕ)
    → Queued (with_heap h k) queued
    → Slot k next
    → has next queued ≡ false
    → IsValid (started k h next) queued
started-IsValid k queued h next q slot out = record {
  queue = Queued-task q (started k h next).task next (k.task next).context (λ t in_queue.
      elim (Bool-cases (t == next)) [
        | inl at ↦
            let e : t ≡ next = ground arith in
            absurd (let bad = ap (λ (x : ℕ). has x queued) e in ground arith)
        | inr away ↦ rw away (q.all_ready t in_queue)
      ]);
  current_slot = slot;
  current_out = out;
}

start-runs :
    (k : Kernel) (h : Heap) (popped next : ℕ)
    → RunQueue.next k ≡ some (with_heap h k, popped)
    → next_or_idle popped (with_heap h k) ≡ next
    → (next == 0) ≡ false
    → start k ≡ some (started k h next)
unfolding start load_context RunQueue.set_current
start-runs k h popped next pops picks pos =
    let here : (next == next) ≡ true = ground arith in rw (pops, picks, pos) (rw here refl)

-- The heap is the one that `next` leaves.
pub start-started :
    (k : Kernel) (queued : List ℕ)
    → Queued k queued
    → (h : Heap) × (start k ≡ some (started k h (chosen k queued)))
      × IsValid (started k h (chosen k queued)) (tail queued)
start-started k queued q =
    let next : ℕ = chosen k queued in
    let (h, pops, queue) = next-head k queued q in
    let slot = chosen-Slot k queued q in
    let pos = Slot-pos q next slot in
    (
      h,
      start-runs k h (head_or_null queued) next pops (next_or_idle-chosen k queued q h) pos,
      started-IsValid k (tail queued) h next queue slot (first-out k queued q),
    )

-- With a valid queue `start` goes on in the first task of the queue, or in the idle task if the queue
-- is empty: that task is the current one, it is running, with the registers of its context, and the
-- run queue is valid, over the rest of the queue.
pub start-IsValid :
    (k : Kernel) (queued : List ℕ)
    → Queued k queued
    → (g : Kernel) × (start k ≡ some g)
      × IsValid g (tail queued)
      × (g.current ≡ chosen k queued)
      × ((g.task (chosen k queued)).state ≡ running)
      × (g.cpu ≡ (k.task (chosen k queued)).context)
start-IsValid k queued q =
    let (h, runs, valid) = start-started k queued q in
    let here : (chosen k queued == chosen k queued) ≡ true = ground arith in
    (started k h (chosen k queued), runs, valid, refl, rw here refl, refl)
