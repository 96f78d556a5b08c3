-- ===== src/Core/Sched/Requeue.antt =====
-- The first half of `reschedule`: the task that is switched out, back into the queue if it runs.
use mathlib.Core.List.{append-nil}
use qemu_risc_core.Prelude.{
  ℕ, ◌≡◌, ◌≢◌, refl, true, false, some, List, [], ◌∷◌, ◌++◌, arith, ◌==◌, if◌then◌else◌, Bool-cases,
  inl, inr,
}
use qemu_risc_core.Ds.Heap.{Heap}
use qemu_risc_core.Ds.List.Linked.{has}
use qemu_risc_core.Core.Tasks.{ready, Kernel, Task, Context, set_state, idle_task}
use qemu_risc_core.Core.RunQueue.Valid.{Slot, Queued, Slot-pos}
use qemu_risc_core.Core.RunQueue.Push.{pushed, push-snoc-Queued}
use qemu_risc_core.Core.Sched.{requeues, requeue}

-- A queue does not depend on what is not queued.
pub Queued-task :
    {k : Kernel} {queued : List ℕ} (v : Queued k queued) (f : ℕ → Task) (current : ℕ)
    (cpu : Context)
    → ((t : ℕ) → has t queued ≡ true → (f t).state ≡ ready)
    → Queued (record k { task = f; current = current; cpu = cpu }) queued
Queued-task v f current cpu states = record {
  table_pos = v.table_pos;
  table_fits = v.table_fits;
  nodes = v.nodes;
  apart = v.apart;
  ring = v.ring;
  slots = v.slots;
  all_ready = states;
  idle_slot = v.idle_slot;
  idle_out = v.idle_out;
}

pub idle_task_lem : {k : Kernel} {queued : List ℕ} (v : Queued k queued) → idle_task k ≡ k.idle
unfolding idle_task
idle_task_lem {k} v = let pos = Slot-pos v k.idle v.idle_slot in rw pos refl

abbrev pub back : ℕ → Kernel → List ℕ
back c k = if requeues c k then c ∷ [] else []

abbrev pub with_tasks : Heap → (ℕ → Task) → Kernel → Kernel
with_tasks h f k = record k { heap = h; task = f }

-- The heap and the tasks after `requeue c`.
pub record Requeues (k : Kernel) (queued : List ℕ) (c : ℕ) (h : Heap) (f : ℕ → Task) : Type 0 where
  pub runs : requeue c k ≡ some (with_tasks h f k)
  pub queue : Queued (with_tasks h f k) (queued ++ back c k)
  pub others : (t : ℕ) → t ≢ c → f t ≡ k.task t
  pub context : (f c).context ≡ (k.task c).context
  pub stays : requeues c k ≡ false → f c ≡ k.task c

module _ (k : Kernel) (queued : List ℕ) (v : Queued k queued) (c : ℕ) (slot : Slot k c)
    (out : has c queued ≡ false) where
  set_ready-Queued : Queued (set_state c ready k) queued
  set_ready-Queued = Queued-task v (set_state c ready k).task k.current k.cpu (λ t in_queue.
      elim (Bool-cases (t == c)) [
        | inl at ↦ rw at refl
        | inr other ↦ rw other (v.all_ready t in_queue)
      ])

  pub requeue-Requeues : (h : Heap) × (f : ℕ → Task) × Requeues k queued c h f
  unfolding requeue
  requeue-Requeues = elim (Bool-cases (requeues c k)) [
    | inr stays ↦ (
      k.heap,
      k.task,
      record {
        runs = rw stays refl;
        queue = rw (stays, append-nil) v;
        others = λ t ne. refl;
        context = refl;
        stays = λ e. refl;
      },
    )
    | inl goes ↦
        let not_idle : (k.idle == c) ≡ false = let e = idle_task_lem v in ground arith in
        let (h, runs, queue) =
          push-snoc-Queued (set_state c ready k) queued set_ready-Queued c slot out not_idle in
        (
          h,
          (pushed c h (set_state c ready k)).task,
          record {
            runs = rw (goes, runs) refl;
            queue = rw goes queue;
            others = λ t ne. let away : (t == c) ≡ false = ground arith in rw away refl;
            context = let here : (c == c) ≡ true = ground arith in rw here refl;
            stays = λ e. absurd (ground arith);
          },
        )
  ]
