-- ===== src/Core/RunQueue.antt =====
-- kernel/core/sched/run_queue.cpp: the queue of the tasks that are ready, and the current task.
pub mod Valid
pub mod Next
pub mod Push
pub mod Interface
pub mod Create
use qemu_risc_core.Prelude.{ℕ, Bool, true, false, Option, some, ◌==◌, if◌then◌else◌, ◌>>=◌}
use qemu_risc_core.Ds.Queue
use qemu_risc_core.Core.Tasks.{ready, Kernel, set_state, run_node_offset, container_of, run_node}

pub init : Kernel → Option Kernel
init k = do (a, h) ← Queue.init k.queue k.heap; some (record k { heap = h; current = 0 })

pub push : ℕ → Kernel → Option (Kernel × Bool)
push t k = if t == 0 then some (k, false) else do
  let n = set_state t ready k
  (a, h) ← Queue.push n.queue (run_node t) n.heap
  some (record n { heap = h }, true)

unfoldable pub current : Kernel → ℕ
current k = k.current

unfoldable pub set_current : ℕ → Kernel → Kernel × Bool
set_current t k = if t == 0 then (k, false) else (record k { current = t }, true)

pub next : Kernel → Option (Kernel × ℕ)
next k = do
  (node, h) ← Queue.pop k.queue k.heap
  let n = record k { heap = h }
  if node == 0 then some (n, 0) else some (n, container_of node run_node_offset)
