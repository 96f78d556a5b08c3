-- ===== src/Core/RunQueue/Valid.antt =====
-- What holds of the run queue between two calls.
use qemu_risc_core.Prelude.{
  ℕ, ◌+◌, ◌^◌, ◌<◌, ◌≡◌, refl, true, false, List, [], ◌∷◌, map, arith, ◌==◌, Bool-cases, inl, inr,
}
use qemu_risc_core.Ds.List.Linked.{has}
use qemu_risc_core.Ds.List.Ring.{Ring}
use qemu_risc_core.Core.Tasks.{
  ready, Kernel, run_node, run_node_offset, container_of, task_addr, max_tasks,
}

-- The address of an entry of the task table.
abbrev pub Slot : Kernel → ℕ → Type 0
Slot k t = (i : ℕ) × (i < max_tasks) × (t ≡ task_addr k i)

-- The queue links the nodes of the tasks `queued`, which are ready; the idle task is not among them.
pub record Queued (k : Kernel) (queued : List ℕ) : Type 0 where
  pub table_pos : 0 < k.table
  pub table_fits : k.table + 5120 < 2 ^ 64
  pub nodes : (t : ℕ) → Slot k t → k.heap.allocated (run_node t) ≡ true
  pub apart : (t : ℕ) → Slot k t → (run_node t == k.queue) ≡ false
  pub ring : Ring k.heap k.queue (map run_node queued)
  pub slots : (t : ℕ) → has t queued ≡ true → Slot k t
  pub all_ready : (t : ℕ) → has t queued ≡ true → (k.task t).state ≡ ready
  pub idle_slot : Slot k k.idle
  pub idle_out : has k.idle queued ≡ false

-- The current task is not in the queue.
pub record IsValid (k : Kernel) (queued : List ℕ) : Type 0 where
  pub queue : Queued k queued
  pub current_slot : Slot k k.current
  pub current_out : has k.current queued ≡ false

pub Slot-pos :
    {k : Kernel} {queued : List ℕ} (v : Queued k queued) (t : ℕ) → Slot k t → (t == 0) ≡ false
Slot-pos v t (i, lt, at) = let pos = v.table_pos in ground arith

-- A task is found from its node.
pub container_of-run_node :
    {k : Kernel} {queued : List ℕ} (v : Queued k queued) (t : ℕ)
    → Slot k t
    → container_of (run_node t) run_node_offset ≡ t
container_of-run_node v t (i, lt, at) = omega (arith, v.table_fits)

pub has-map-run_node : (t : ℕ) (ts : List ℕ) → has (run_node t) (map run_node ts) ≡ has t ts
has-map-run_node t [] = refl
has-map-run_node t (u ∷ ts) =
    let ih = has-map-run_node t ts in
    elim (Bool-cases (t == u)) [ inl same ↦ ground arith | inr other ↦ ground arith ]
