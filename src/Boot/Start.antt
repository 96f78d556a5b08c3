-- ===== src/Boot/Start.antt =====
-- The tasks at the start of the kernel: the table, the run queue, and the first task that runs.
use qemu_risc_core.Prelude.{
  ℕ, ◌+◌, ◌^◌, ◌<◌, ◌≡◌, ◌≢◌, refl, ap, ◌∙◌, true, false, some, [], ◌∷◌, arith, ◌==◌, Bool-cases,
  inl, inr,
}
use qemu_risc_core.Ds.Heap.{Heap}
use qemu_risc_core.Ds.List.Linked.{has}
use qemu_risc_core.Ds.List.Ring.{Ring}
use qemu_risc_core.Core.Tasks.{
  State, empty, ready, running, Task, Kernel, is_empty, max_tasks, task_addr, run_node,
  create_kernel_task, first_context, stack_top,
}
use qemu_risc_core.Core.Tasks
use qemu_risc_core.Core.Tasks.Create.{Taken, Table, created}
use qemu_risc_core.Core.Tasks.First.{create_kernel_task-created}
use qemu_risc_core.Core.Tasks.Init.{initial, init-initial}
use qemu_risc_core.Core.RunQueue
use qemu_risc_core.Core.RunQueue.Valid.{Slot, Queued, IsValid}
use qemu_risc_core.Core.RunQueue.Push.{pushed, push-snoc-Queued}
use qemu_risc_core.Core.RunQueue.Create.{Queued-created, Table-Queued}
use qemu_risc_core.Core.Sched
use qemu_risc_core.Core.Sched.Start.{started}
use qemu_risc_core.Core.Sched.Interface.{scheduler_ops-IsScheduler}
use qemu_risc_core.Boot.{Image, stack_size}

-- Where the image lies: the table of tasks with its nodes, the run queue beside it, and the stacks.
pub record Placed (im : Image) (k : Kernel) : Type 0 where
  pub table : Table k
  pub queue_node : k.heap.allocated k.queue ≡ true
  pub queue_ne : k.queue ≢ 0
  pub apart : (t : ℕ) → Slot k t → (run_node t == k.queue) ≡ false
  pub idle_ne : k.idle_stack ≢ 0
  pub idle_fits : k.idle_stack + 256 < 2 ^ 64
  pub a_ne : im.task_a_stack ≢ 0
  pub a_fits : im.task_a_stack + stack_size < 2 ^ 64
  pub b_ne : im.task_b_stack ≢ 0
  pub b_fits : im.task_b_stack + stack_size < 2 ^ 64

-- Task A runs from the trampoline on its own stack, task B waits behind it for the same, and the
-- idle task is neither of them.
pub record Booted (im : Image) (k g : Kernel) : Type 0 where
  pub valid : IsValid g (task_addr k 2 ∷ [])
  pub current : g.current ≡ task_addr k 1
  pub runs : (g.task (task_addr k 1)).state ≡ running
  pub idle : g.idle ≡ task_addr k 0
  pub entry_a : (g.task (task_addr k 1)).entry ≡ im.task_a_entry
  pub entry_b : (g.task (task_addr k 2)).entry ≡ im.task_b_entry
  pub cpu : g.cpu ≡ first_context k (stack_top im.task_a_stack stack_size)
  pub context_b :
      (g.task (task_addr k 2)).context ≡ first_context k (stack_top im.task_b_stack stack_size)

module _ (im : Image) (k : Kernel) (p : Placed im k) where
  abbrev a : ℕ
  a = task_addr k 1

  abbrev b : ℕ
  b = task_addr k 2

  apart_01 : (task_addr k 0 == task_addr k 1) ≡ false
  apart_01 = ground arith

  apart_02 : (task_addr k 0 == task_addr k 2) ≡ false
  apart_02 = ground arith

  apart_12 : (task_addr k 1 == task_addr k 2) ≡ false
  apart_12 = ground arith

  -- The kernel after the two calls of `init`.
  abbrev pub empty_queue : (ℕ → Task) → Heap → Kernel
  empty_queue f h = record (initial k f p.idle_fits) { heap = h; current = 0 }

  empty_queue-Queued :
      (f : ℕ → Task) (h : Heap)
      → Ring h k.queue []
      → h.allocated ≡ k.heap.allocated
      → Queued (empty_queue f h) []
  empty_queue-Queued f h ring same = record {
    table_pos = p.table.0;
    table_fits = p.table.1;
    nodes = λ t slot. let (i, lt, at) = slot in rw (same, at) (p.table.2 i lt);
    apart = p.apart;
    ring = ring;
    slots = λ t absent. absurd (ground arith);
    all_ready = λ t absent. absurd (ground arith);
    idle_slot = (0, omega arith, refl);
    idle_out = refl;
  }

  pub inits :
      (f : ℕ → Task) × (h : Heap) × (Tasks.init k ≡ some (initial k f p.idle_fits))
      × (Sched.init (initial k f p.idle_fits) ≡ some (empty_queue f h))
      × Queued (empty_queue f h) []
      × ((j : ℕ) → j < max_tasks → (f (task_addr k j)).state ≡ empty)
  inits =
      let (f, runs, empties) = init-initial k p.idle_fits p.table p.idle_ne in
      let (h, runs', ring, same) =
        scheduler_ops-IsScheduler.inits (initial k f p.idle_fits) p.queue_node p.queue_ne in
      (f, h, runs, runs', empty_queue-Queued f h ring same, empties)

  module _ (f : ℕ → Task) (h : Heap)
      (empties : (j : ℕ) → j < max_tasks → (f (task_addr k j)).state ≡ empty)
      (v : Queued (empty_queue f h) []) where
    abbrev pub with_a : Kernel
    with_a =
        created (empty_queue f h) (task_addr k 1) im.task_a_entry im.task_a_stack stack_size
          p.a_fits

    abbrev pub with_b : Kernel
    with_b = created with_a (task_addr k 2) im.task_b_entry im.task_b_stack stack_size p.b_fits

    one_slot-Taken : Taken (empty_queue f h) 1
    one_slot-Taken j lt =
        let e : j ≡ 0 = omega (arith, lt) in
        let here : (task_addr k 0 == task_addr k 0) ≡ true = ground arith in
        ap (λ (x : ℕ). is_empty ((empty_queue f h).task (task_addr k x)).state) e ∙ rw here refl

    free_1 : is_empty ((empty_queue f h).task (task_addr k 1)).state ≡ true
    free_1 =
        let away : (task_addr k 1 == task_addr k 0) ≡ false = ground arith in
        rw away (ap is_empty (empties 1 (omega arith)))

    two_slots-Taken : Taken with_a 2
    two_slots-Taken j lt = elim (Bool-cases (j == 1)) [
      | inl at ↦
          let e : j ≡ 1 = ground arith in
          let here : (task_addr k 1 == task_addr k 1) ≡ true = ground arith in
          ap (λ (x : ℕ). is_empty (with_a.task (task_addr k x)).state) e ∙ rw here refl
      | inr away ↦
          let e : j ≡ 0 = ground arith in
          ap (λ (x : ℕ). is_empty (with_a.task (task_addr k x)).state) e
          ∙ rw apart_01 (one_slot-Taken 0 (omega arith))
    ]

    free_2 : is_empty (with_a.task (task_addr k 2)).state ≡ true
    free_2 =
        let away : (task_addr k 2 == task_addr k 0) ≡ false = ground arith in
        let away' : (task_addr k 2 == task_addr k 1) ≡ false = ground arith in
        rw (away', away) (ap is_empty (empties 2 (omega arith)))

    pub creates_a :
        create_kernel_task im.task_a_entry im.task_a_stack stack_size (empty_queue f h)
        ≡ some (with_a, task_addr k 1)
    creates_a =
        create_kernel_task-created (empty_queue f h) 1 im.task_a_entry im.task_a_stack stack_size
          p.a_fits (Table-Queued v) p.a_ne (omega arith) (omega arith) one_slot-Taken free_1

    with_a-Queued : Queued with_a []
    with_a-Queued =
        Queued-created (empty_queue f h) [] v (task_addr k 1) (1, omega arith, refl) refl
          im.task_a_entry im.task_a_stack stack_size p.a_fits

    pub creates_b :
        create_kernel_task im.task_b_entry im.task_b_stack stack_size with_a
        ≡ some (with_b, task_addr k 2)
    creates_b =
        create_kernel_task-created with_a 2 im.task_b_entry im.task_b_stack stack_size p.b_fits
          (Table-Queued with_a-Queued) p.b_ne (omega arith) (omega arith) two_slots-Taken free_2

    with_b-Queued : Queued with_b []
    with_b-Queued =
        Queued-created with_a [] with_a-Queued (task_addr k 2) (2, omega arith, refl) refl
          im.task_b_entry im.task_b_stack stack_size p.b_fits

    -- The kernel when both tasks are in the queue.
    abbrev pub with_both : Heap → Heap → Kernel
    with_both h1 h2 = pushed (task_addr k 2) h2 (pushed (task_addr k 1) h1 with_b)

    pub pushes :
        (h1 h2 : Heap) × (RunQueue.push (task_addr k 1) with_b
          ≡ some (pushed (task_addr k 1) h1 with_b, true))
        × (RunQueue.push (task_addr k 2) (pushed (task_addr k 1) h1 with_b)
            ≡ some (with_both h1 h2, true))
        × Queued (with_both h1 h2) (task_addr k 1 ∷ task_addr k 2 ∷ [])
    pushes =
        let (h1, runs1, v1) =
          push-snoc-Queued with_b [] with_b-Queued (task_addr k 1) (1, omega arith, refl) refl
            apart_01 in
        let out : has (task_addr k 2) (task_addr k 1 ∷ []) ≡ false = ground arith in
        let (h2, runs2, v2) =
          push-snoc-Queued (pushed (task_addr k 1) h1 with_b) (task_addr k 1 ∷ []) v1
            (task_addr k 2) (2, omega arith, refl) out apart_02 in
        (h1, h2, runs1, runs2, v2)

    abbrev pub final : Heap → Heap → Heap → Kernel
    final h1 h2 h3 = started (with_both h1 h2) h3 (task_addr k 1)

    pub final-Booted :
        (h1 h2 h3 : Heap)
        → IsValid (final h1 h2 h3) (task_addr k 2 ∷ [])
        → Booted im k (final h1 h2 h3)
    final-Booted h1 h2 h3 valid =
        let here_a : (task_addr k 1 == task_addr k 1) ≡ true = ground arith in
        let here_b : (task_addr k 2 == task_addr k 2) ≡ true = ground arith in
        let away : (task_addr k 2 == task_addr k 1) ≡ false = ground arith in
        record {
          valid = valid;
          current = refl;
          runs = rw here_a refl;
          idle = refl;
          entry_a = rw (here_a, apart_12) refl;
          entry_b = rw (here_b, away) refl;
          cpu = rw (here_a, apart_12) refl;
          context_b = rw (here_b, away) refl;
        }
