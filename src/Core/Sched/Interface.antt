-- ===== src/Core/Sched/Interface.antt =====
-- kernel/core/sched/scheduler.h: the operations of the class `Scheduler`, and what they promise.
use qemu_risc_core.Prelude.{ℕ, ◌≡◌, ◌≢◌, refl, Bool, true, Option, some, List, []}
use qemu_risc_core.Ds.Heap.{Heap}
use qemu_risc_core.Ds.List.Ring.{Ring}
use qemu_risc_core.Core.Tasks.{running, Kernel}
use qemu_risc_core.Core.RunQueue.Valid.{Queued, IsValid}
use qemu_risc_core.Core.RunQueue.Next.{tail}
use qemu_risc_core.Core.RunQueue.Interface.{run_queue_ops-IsRunQueue}
use qemu_risc_core.Core.Sched.{init, start, yield, on_tick, reschedule}
use qemu_risc_core.Core.Sched.Reschedule.{Switched, chosen, reschedule-Switched}
use qemu_risc_core.Core.Sched.Start.{start-IsValid}

pub record SchedulerOps : Type 0 where
  pub init : Kernel → Option Kernel
  pub start : Kernel → Option Kernel
  pub yield : Kernel → Option (Kernel × Bool)
  pub on_tick : Kernel → Kernel
  pub reschedule : Kernel → Option (Kernel × Bool)

pub record IsScheduler (ops : SchedulerOps) : Type 0 where
  pub inits :
      (k : Kernel)
      → k.heap.allocated k.queue ≡ true
      → k.queue ≢ 0
      → (h : Heap) × (ops.init k ≡ some (record k { heap = h; current = 0 }))
        × Ring h k.queue []
        × (h.allocated ≡ k.heap.allocated)
  pub starts :
      (k : Kernel) (queued : List ℕ)
      → Queued k queued
      → (g : Kernel) × (ops.start k ≡ some g)
        × IsValid g (tail queued)
        × (g.current ≡ chosen k queued)
        × ((g.task (chosen k queued)).state ≡ running)
        × (g.cpu ≡ (k.task (chosen k queued)).context)
  pub yields :
      (k : Kernel) (queued : List ℕ)
      → IsValid k queued
      → (g : Kernel) × (ops.yield k ≡ some (g, true)) × Switched k queued g
  pub ticks : (k : Kernel) → ops.on_tick k ≡ k
  pub reschedules :
      (k : Kernel) (queued : List ℕ)
      → IsValid k queued
      → (g : Kernel) × (ops.reschedule k ≡ some (g, true)) × Switched k queued g

abbrev pub scheduler_ops : SchedulerOps
scheduler_ops = record {
  init = init;
  start = start;
  yield = yield;
  on_tick = on_tick;
  reschedule = reschedule;
}

-- The scheduler keeps its promises: `init` empties the run queue; `start` goes on in the first queued
-- task, or the idle task, which is the current one, running, and has its registers, over a
-- valid run queue; `yield` and `reschedule` switch to the first queued task, or the idle task, with
-- the registers saved and loaded, and put a running task behind the others; a tick does nothing.
pub scheduler_ops-IsScheduler : IsScheduler scheduler_ops
unfolding init yield on_tick
scheduler_ops-IsScheduler = record {
  inits = run_queue_ops-IsRunQueue.inits;
  starts = start-IsValid;
  yields = reschedule-Switched;
  ticks = λ k. refl;
  reschedules = reschedule-Switched;
}
