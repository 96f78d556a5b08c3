-- ===== src/Core/Tasks/Tests.antt =====
-- An instance for the creation of a task.
use qemu_risc_core.Prelude.{ℕ, ◌<◌, ◌≡◌, true, some, arith, ◌⊎◌}
use qemu_risc_core.Core.Tasks.{Kernel, running, task_addr, max_tasks, is_empty, create_kernel_task}
use qemu_risc_core.Core.Tasks.Create.{Taken, Created, create_kernel_task-Created}
use qemu_risc_core.Core.Samples.{sample_with}

create_kernel_task-Created_example :
    (n : Kernel) × (t : ℕ) × (create_kernel_task 0x8000_1234 0x8003_0000 1000 (sample_with running)
      ≡ some (n, t))
    × ((Taken (sample_with running) max_tasks × (t ≡ 0) × (n ≡ sample_with running))
        ⊎ ((i : ℕ) × (i < max_tasks)
            × Taken (sample_with running) i
            × (is_empty ((sample_with running).task (task_addr (sample_with running) i)).state
                ≡ true)
            × (t ≡ task_addr (sample_with running) i)
            × Created (sample_with running) t 0x8000_1234 0x8003_0000 1000 n))
create_kernel_task-Created_example =
    create_kernel_task-Created (sample_with running) 0x8000_1234 0x8003_0000 1000
      (omega arith, omega arith, λ i lt. ground arith) (omega arith) (omega arith) (omega arith)
