-- ===== src/Core/Tasks/First.antt =====
-- `create_kernel_task` when the first empty entry of the table is known.
use qemu_risc_core.Prelude.{
  ℕ, ◌+◌, ◌^◌, ◌<◌, ◌≡◌, ◌≢◌, refl, ap, ◌∙◌, true, false, some, arith, ltb, ◌==◌, Bool-cases, inl,
  inr,
}
use qemu_risc_core.Core.Tasks.{
  Kernel, is_empty, max_tasks, task_addr, find_empty, create_kernel_task,
}
use qemu_risc_core.Core.Tasks.Create.{
  Taken, full, found, find_empty-Finds, fill_task-runs, created, Table,
}

find_empty-first :
    (k : Kernel) (i : ℕ)
    → i < max_tasks
    → Taken k i
    → is_empty (k.task (task_addr k i)).state ≡ true
    → find_empty max_tasks 0 k ≡ task_addr k i
find_empty-first k i lt taken free =
    elim (find_empty-Finds k max_tasks 0 (omega arith) (λ j below. absurd (omega (arith, below)))) [
      | full all null ↦ absurd (let busy = all i lt in ground arith)
      | found j jlt before empty at ↦ elim (Bool-cases (i == j)) [
        | inl same ↦ let e : j ≡ i = ground arith in at ∙ ap (task_addr k) e
        | inr other ↦ elim (Bool-cases (ltb i j)) [
          | inl below ↦ absurd (let busy = before i (ground arith) in ground arith)
          | inr above ↦ absurd (let busy = taken j (ground arith) in ground arith)
        ]
      ]
    ]

-- The entry is filled.
pub create_kernel_task-created :
    (k : Kernel) (i entry base size : ℕ) (fits : base + size < 2 ^ 64)
    → Table k
    → base ≢ 0
    → size ≢ 0
    → i < max_tasks
    → Taken k i
    → is_empty (k.task (task_addr k i)).state ≡ true
    → create_kernel_task entry base size k
      ≡ some (created k (task_addr k i) entry base size fits, task_addr k i)
unfolding create_kernel_task
create_kernel_task-created k i entry base size fits table base_ne size_ne lt taken free =
    let (pos, table_fits, nodes) = table in
    let t : ℕ = task_addr k i in
    let base_pos : (base == 0) ≡ false = ground arith in
    let size_pos : (size == 0) ≡ false = ground arith in
    let t_pos : (task_addr k i == 0) ≡ false = ground arith in
    let at = find_empty-first k i lt taken free in
    let run = fill_task-runs k (task_addr k i) entry base size fits (nodes i lt) in
    rw (base_pos, size_pos, at, t_pos, run) refl
