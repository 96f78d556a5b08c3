-- ===== src/Core/RunQueue/Interface.antt =====
-- kernel/core/sched/run_queue.h: the operations of the class `RunQueue`, and what the scheduler may
-- rely on.
use qemu_risc_core.Prelude.{
  ℕ, ◌≡◌, ◌≢◌, refl, Bool, true, false, Option, some, List, [], ◌∷◌, ◌++◌, ◌==◌,
}
use qemu_risc_core.Ds.Heap.{Heap}
use qemu_risc_core.Ds.List.Linked.{has}
use qemu_risc_core.Ds.List.Ring.{Ring}
use qemu_risc_core.Ds.Queue.Interface.{queue_ops-IsFifo}
use qemu_risc_core.Core.Tasks.{Kernel}
use qemu_risc_core.Core.RunQueue.{init, push, current, set_current, next}
use qemu_risc_core.Core.RunQueue.Valid.{Slot, Queued}
use qemu_risc_core.Core.RunQueue.Next.{with_heap, head_or_null, tail, next-head}
use qemu_risc_core.Core.RunQueue.Push.{pushed, push-snoc-Queued, push-null}

pub record RunQueueOps : Type 0 where
  pub init : Kernel → Option Kernel
  pub push : ℕ → Kernel → Option (Kernel × Bool)
  pub current : Kernel → ℕ
  pub set_current : ℕ → Kernel → Kernel × Bool
  pub next : Kernel → Option (Kernel × ℕ)

pub record IsRunQueue (ops : RunQueueOps) : Type 0 where
  pub inits :
      (k : Kernel)
      → k.heap.allocated k.queue ≡ true
      → k.queue ≢ 0
      → (h : Heap) × (ops.init k ≡ some (record k { heap = h; current = 0 }))
        × Ring h k.queue []
        × (h.allocated ≡ k.heap.allocated)
  pub adds :
      (k : Kernel) (queued : List ℕ) (t : ℕ)
      → Queued k queued
      → Slot k t
      → has t queued ≡ false
      → (k.idle == t) ≡ false
      → (h : Heap) × (ops.push t k ≡ some (pushed t h k, true))
        × Queued (pushed t h k) (queued ++ t ∷ [])
  pub refuses_null :
      (k : Kernel) → (ops.push 0 k ≡ some (k, false)) × (ops.set_current 0 k ≡ (k, false))
  pub sets :
      (k : Kernel) (t : ℕ)
      → (t == 0) ≡ false
      → (ops.set_current t k ≡ (record k { current = t }, true))
        × (ops.current (ops.set_current t k).0 ≡ t)
  pub takes :
      (k : Kernel) (queued : List ℕ)
      → Queued k queued
      → (h : Heap) × (ops.next k ≡ some (with_heap h k, head_or_null queued))
        × Queued (with_heap h k) (tail queued)

init-Ring_queue :
    (k : Kernel)
    → k.heap.allocated k.queue ≡ true
    → k.queue ≢ 0
    → (h : Heap) × (init k ≡ some (record k { heap = h; current = 0 }))
      × Ring h k.queue []
      × (h.allocated ≡ k.heap.allocated)
unfolding init
init-Ring_queue k here ne =
    let (h, runs, ring, same) = queue_ops-IsFifo.inits k.heap k.queue here ne in
    (h, rw runs refl, ring, same)

set_current-current :
    (k : Kernel) (t : ℕ)
    → (t == 0) ≡ false
    → (set_current t k ≡ (record k { current = t }, true)) × (current (set_current t k).0 ≡ t)
unfolding set_current current
set_current-current k t pos = rw pos (refl, refl)

set_current-null : (k : Kernel) → set_current 0 k ≡ (k, false)
unfolding set_current
set_current-null k = refl

abbrev pub run_queue_ops : RunQueueOps
run_queue_ops = record {
  init = init;
  push = push;
  current = current;
  set_current = set_current;
  next = next;
}

-- The run queue keeps the tasks in order: `init` empties it and clears the current task; `push` of a
-- task of the table, not queued and not the idle task, makes it ready and puts it last; `next`
-- takes the first task, or answers a null pointer if there is none; `set_current` stores a task
-- that `current` returns; null pointers are refused and change nothing.
pub run_queue_ops-IsRunQueue : IsRunQueue run_queue_ops
run_queue_ops-IsRunQueue = record {
  inits = init-Ring_queue;
  adds = λ k queued t v slot out not_idle. push-snoc-Queued k queued v t slot out not_idle;
  refuses_null = λ k. (push-null k, set_current-null k);
  sets = set_current-current;
  takes = next-head;
}
