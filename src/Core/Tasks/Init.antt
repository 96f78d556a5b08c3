-- ===== src/Core/Tasks/Init.antt =====
-- `TaskManager::init`: an empty table but for the idle task.
use qemu_risc_core.Prelude.{
  ℕ, zero, suc, ◌+◌, ◌^◌, ◌≤◌, ◌<◌, ◌≡◌, ◌≢◌, refl, ap, ◌∙◌, true, false, some, arith, ◌==◌,
  Bool-cases, inl, inr,
}
use qemu_risc_core.Core.Tasks.{
  empty, Task, Kernel, is_empty, max_tasks, task_addr, set_task, clear_from, init,
}
use qemu_risc_core.Core.Tasks.Create.{Table, created}
use qemu_risc_core.Core.Tasks.First.{create_kernel_task-created}

abbrev cleared_task : Task → Task
cleared_task t = record t { state = empty; stack_base = 0; stack_size = 0; entry = 0 }

-- What the loop leaves from the entry `i` on.
clear_from-empty :
    (rounds i : ℕ) (k : Kernel)
    → (f : ℕ → Task) × (clear_from rounds i k ≡ record k { task = f })
      × ((j : ℕ) → i ≤ j → j < i + rounds → (f (task_addr k j)).state ≡ empty)
      × ((u : ℕ) → ((j : ℕ) → i ≤ j → u ≢ task_addr k j) → f u ≡ k.task u)
unfolding clear_from
clear_from-empty zero i k =
    (k.task, refl, λ j low high. absurd (omega (arith, low, high)), λ u apart. refl)
clear_from-empty (suc rounds) i k =
    let t : ℕ = task_addr k i in
    let n : Kernel = set_task t (cleared_task (k.task t)) k in
    let here : (t == t) ≡ true = ground arith in
    let (f, runs, empties, others) = clear_from-empty rounds (i + 1) n in
    (
      f,
      runs,
      λ j low high. elim (Bool-cases (j == i)) [
        | inl at ↦
            let e : j ≡ i = ground arith in
            ap (λ (x : ℕ). (f (task_addr k x)).state) e
            ∙ ap (λ (x : Task). x.state)
                (others t (λ l above same. absurd (omega (arith, above, same))))
            ∙ rw here refl
        | inr away ↦ empties j (ground arith) (omega (arith, high))
      ],
      λ u apart.
          let away : (u == t) ≡ false = let ne = apart i (omega arith) in ground arith in
          others u (λ j low. apart j (omega (arith, low))) ∙ rw away refl,
    )

abbrev blank : Kernel → (ℕ → Task) → Kernel
blank k f = record k { next_id = 1; task = f }

-- The kernel after `init`, with `f` the tasks before the idle task was made.
abbrev pub initial : (k : Kernel) → (ℕ → Task) → k.idle_stack + 256 < 2 ^ 64 → Kernel
initial k f fits = record (created (blank k f) (task_addr k 0) k.idle_entry k.idle_stack 256 fits) {
  idle = task_addr k 0;
}

-- With a table in memory and a stack for the idle task, `init` makes the first entry the idle task,
-- and the other entries empty.
pub init-initial :
    (k : Kernel) (fits : k.idle_stack + 256 < 2 ^ 64)
    → Table k
    → k.idle_stack ≢ 0
    → (f : ℕ → Task) × (init k ≡ some (initial k f fits))
      × ((j : ℕ) → j < max_tasks → (f (task_addr k j)).state ≡ empty)
unfolding init
init-initial k fits table ne =
    let (f, runs, empties, others) = clear_from-empty max_tasks 0 (record k { next_id = 1 }) in
    let free : is_empty (f (task_addr k 0)).state ≡ true =
      ap is_empty (empties 0 (omega arith) (omega arith)) in
    let make =
      create_kernel_task-created (blank k f) 0 k.idle_entry k.idle_stack 256 fits table ne
        (omega arith) (omega arith) (λ j lt. absurd (omega (arith, lt))) free in
    (f, rw (runs, make) refl, λ j lt. empties j (omega arith) lt)
