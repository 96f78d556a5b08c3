-- ===== src/Core/Tasks/Interface.antt =====
-- kernel/core/task/task_manager.h: the operations of the class `TaskManager`, and what they promise.
use qemu_risc_core.Prelude.{
  ℕ, ◌+◌, ◌^◌, ◌<◌, ◌≡◌, ◌≢◌, refl, true, Option, some, arith, ◌||◌, ◌⊎◌, ◌==◌, Bool-cases, inl,
  inr,
}
use qemu_risc_core.Core.Tasks.{
  empty, Task, Kernel, is_empty, max_tasks, task_addr, init, create_kernel_task, idle_task,
}
use qemu_risc_core.Core.Tasks.Create.{Taken, Table, Created, create_kernel_task-Created}
use qemu_risc_core.Core.Tasks.Init.{initial, init-initial}

pub record TaskManagerOps : Type 0 where
  pub init : Kernel → Option Kernel
  pub create_kernel_task : ℕ → ℕ → ℕ → Kernel → Option (Kernel × ℕ)
  pub idle_task : Kernel → ℕ

pub record IsTaskManager (ops : TaskManagerOps) : Type 0 where
  pub inits :
      (k : Kernel) (fits : k.idle_stack + 256 < 2 ^ 64)
      → Table k
      → k.idle_stack ≢ 0
      → (f : ℕ → Task) × (ops.init k ≡ some (initial k f fits))
        × ((j : ℕ) → j < max_tasks → (f (task_addr k j)).state ≡ empty)
  pub creates :
      (k : Kernel) (entry base size : ℕ)
      → Table k
      → base ≢ 0
      → size ≢ 0
      → base + size < 2 ^ 64
      → (n : Kernel) × (t : ℕ) × (ops.create_kernel_task entry base size k ≡ some (n, t))
        × ((Taken k max_tasks × (t ≡ 0) × (n ≡ k))
            ⊎ ((i : ℕ) × (i < max_tasks)
                × Taken k i
                × (is_empty (k.task (task_addr k i)).state ≡ true)
                × (t ≡ task_addr k i)
                × Created k t entry base size n))
  pub refuses :
      (k : Kernel) (entry base size : ℕ)
      → (base ≡ 0) ⊎ (size ≡ 0)
      → ops.create_kernel_task entry base size k ≡ some (k, 0)
  pub idles : (k : Kernel) → ops.idle_task k ≡ k.idle

create_kernel_task-refuses :
    (k : Kernel) (entry base size : ℕ)
    → (base ≡ 0) ⊎ (size ≡ 0)
    → create_kernel_task entry base size k ≡ some (k, 0)
unfolding create_kernel_task
create_kernel_task-refuses k entry base size null =
    let test : ((base == 0) || (size == 0)) ≡ true = ground arith in rw test refl

idle_task-idle : (k : Kernel) → idle_task k ≡ k.idle
unfolding idle_task
idle_task-idle k = elim (Bool-cases (k.idle == 0)) [
  | inl null ↦ rw null (ground arith)
  | inr there ↦ rw there refl
]

abbrev pub task_manager_ops : TaskManagerOps
task_manager_ops = record {
  init = init;
  create_kernel_task = create_kernel_task;
  idle_task = idle_task;
}

-- The task manager keeps its promises: `init` leaves a table that is empty but for the idle task;
-- `create_kernel_task` fills the first empty entry, or answers a null pointer when there is none
-- or the stack is null or empty, and then changes nothing; `idle_task` is the task of `init`.
pub task_manager_ops-IsTaskManager : IsTaskManager task_manager_ops
task_manager_ops-IsTaskManager = record {
  inits = init-initial;
  creates = create_kernel_task-Created;
  refuses = create_kernel_task-refuses;
  idles = idle_task-idle;
}
